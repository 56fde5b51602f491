-- ===== src/Nac/Launch/Whole.antt =====
-- `main` of tfnac/main.c as a whole, from its arguments to the states that its handlers lead to.
use tflib.Common.{◌≡◌}
use tflib.Nac.{ProcessMgr}
use tflib.Nac.Launch.{LaunchAnswers, Outcome, exits, runs}
use tflib.Nac.Launch.Starting.{Succeeds}
use tflib.Nac.Links.{IsConsistent}
use tflib.Nac.Reachable.{Reach}

-- `main` enters the loop in a state from which all that follow are consistent, or it exits with 0, not where all
-- calls succeed.
abbrev pub Goes : LaunchAnswers → Outcome → Type 0
Goes answers (exits n) = (n ≡ 0) × (¬ Succeeds answers)
Goes answers (runs m) = (m' : ProcessMgr) → Reach m m' → IsConsistent m'
