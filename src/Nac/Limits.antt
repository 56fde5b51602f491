-- ===== src/Nac/Limits.antt =====
-- The limit on open files at the start of tfnac: `adjust_peers_limit` of tfnac/config.c.
use tflib.Common.{
  ℕ, zero, suc, ◌+◌, ◌-◌, ◌*◌, ◌%◌, ◌^◌, ◌≤◌, ◌<◌, ◌≡◌, refl, arith, ltb, ltb→lt, ltb_false→le,
  if◌then◌else◌, ◌>>=◌, Returns, Returns-bind, Returns-map,
}
use tflib.Common.{Bool, true, Bool-cases, ◌⊎◌, inl, inr, Option, none, some}
use tflib.Nac.{max_peer_nums}

abbrev pub max_files : ℕ
max_files = max_peer_nums + 32

-- `sets` is what `setrlimit` answers to a limit. The limit is an unsigned word, which goes on at the
-- highest one below 0. The first argument behind `sets` is fuel.
unfoldable pub limit_loop : (ℕ → Bool) → ℕ → ℕ → ℕ → Option ℕ
limit_loop sets zero oldlimit f = none
limit_loop sets (suc fuel) oldlimit f =
    let rest = limit_loop sets fuel oldlimit ((f + 2 ^ 64 - 128) % 2 ^ 64) in
    if ltb oldlimit f then (if sets f then some f else rest) else some f

-- What the limit is found to be, if `getrlimit` tells the old one.
unfoldable pub adjust_peers_limit : (ℕ → Bool) → Option ℕ → Option (Option ℕ)
adjust_peers_limit sets none = some none
adjust_peers_limit sets (some oldlimit) =
    let found = limit_loop sets 79 oldlimit max_files in
    if ltb oldlimit max_files
    then (do f ← found; some (some (if ltb f oldlimit then oldlimit else f)))
    else some (some oldlimit)

-- A limit that was set, or that is not above the old one.
abbrev Found : (ℕ → Bool) → ℕ → ℕ → ℕ → Type 0
Found sets oldlimit most f = (f ≤ most) × ((f ≤ oldlimit) ⊎ ((oldlimit < f) × (sets f ≡ true)))

limit_loop-Found :
    (sets : ℕ → Bool) (oldlimit n : ℕ)
    → 48 ≤ oldlimit
    → n ≤ 78
    → Returns (limit_loop sets (suc n) oldlimit (48 + 128 * n)) (Found sets oldlimit (48 + 128 * n))
unfolding limit_loop
limit_loop-Found sets oldlimit zero enough few = elim (Bool-cases (ltb oldlimit 48)) [
  | inl lt ↦ absurd (ground (arith, enough, lt))
  | inr over ↦ rw over (omega arith, inl enough)
]
limit_loop-Found sets oldlimit (suc n) enough few =
    let f : ℕ = 48 + 128 * suc n in
    let next : (f + 2 ^ 64 - 128) % 2 ^ 64 ≡ 48 + 128 * n = omega (arith, few) in
    elim (Bool-cases (ltb oldlimit f)) [
      | inr over ↦ rw over (omega arith, inl (ltb_false→le oldlimit f over))
      | inl more ↦ elim (Bool-cases (sets f)) [
        | inl set ↦ rw (more, set) (omega arith, inr (ltb→lt oldlimit f more, set))
        | inr refused ↦
            rw (more, refused, next)
              (Returns-map (limit_loop sets (suc n) oldlimit (48 + 128 * n)) _ _
                (limit_loop-Found sets oldlimit n enough (omega (arith, few)))
                (λ r h. (omega (arith, h.0), h.1)))
      ]
    ]

-- From an old limit of 48 on, the search ends within 79 rounds, with the old limit, or with one that was
-- set and is above the old one and at most 10032.
pub adjust_peers_limit_lem :
    (sets : ℕ → Bool) (oldlimit : ℕ)
    → 48 ≤ oldlimit
    → Returns (adjust_peers_limit sets (some oldlimit)) (λ r.
      (f : ℕ) × (r ≡ some f)
      × ((f ≡ oldlimit) ⊎ ((oldlimit < f) × (f ≤ max_files) × (sets f ≡ true))))
unfolding adjust_peers_limit
adjust_peers_limit_lem sets oldlimit enough = elim (Bool-cases (ltb oldlimit max_files)) [
  | inr over ↦ rw over (oldlimit, refl, inl refl)
  | inl more ↦ rw more (
      Returns-bind (limit_loop sets 79 oldlimit max_files) _ _ _
        (limit_loop-Found sets oldlimit 78 enough (omega arith))
        (λ f h. elim (Bool-cases (ltb f oldlimit)) [
          | inl below ↦ rw below (oldlimit, refl, inl refl)
          | inr not_below ↦ rw not_below (
            f,
            refl,
            elim h.1 [
              | inl le ↦ inl (omega (arith, le, ltb_false→le f oldlimit not_below))
              | inr (lt, set) ↦ inr (lt, h.0, set)
            ],
          )
        ]))
]

-- An old limit from which the search ends.
abbrev pub Bounded : Option ℕ → Type 0
Bounded none = Unit {0}
Bounded (some oldlimit) = 48 ≤ oldlimit

pub adjust_peers_limit-Bounded :
    (sets : ℕ → Bool) (oldlimit : Option ℕ)
    → Bounded oldlimit
    → Returns (adjust_peers_limit sets oldlimit) (λ r. Unit {0})
adjust_peers_limit-Bounded sets none h = unfold adjust_peers_limit in tt
adjust_peers_limit-Bounded sets (some oldlimit) h =
    Returns-map (adjust_peers_limit sets (some oldlimit)) _ _
      (adjust_peers_limit_lem sets oldlimit h) (λ r k. tt)
