-- ===== src/Socket/Orders.antt =====
-- Numbers in network order go out and come back.
use tflib.Common.{ℕ, ◌^◌, ◌<◌, ◌≡◌, ap, arith, some, List, ◌++◌}
use tflib.Socket.{net16cpy, net32cpy, host16cpy, host32cpy}

pub net16cpy-host16cpy :
    (n : ℕ) (rest : List ℕ) → n < 2 ^ 16 → net16cpy (host16cpy n ++ rest) ≡ some n
unfolding net16cpy host16cpy
net16cpy-host16cpy n rest h = ap some (omega arith)

pub net32cpy-host32cpy :
    (n : ℕ) (rest : List ℕ) → n < 2 ^ 32 → net32cpy (host32cpy n ++ rest) ≡ some n
unfolding net32cpy host32cpy
net32cpy-host32cpy n rest h = ap some (omega arith)
