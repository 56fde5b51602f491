-- ===== src/Checks/Resources.antt =====
-- Inputs of the theorems on tflib/tf_malloc.c, tflib/expert/tf_hash.c and the rate limiter of tflib/tf_util.c.
use tflib.Common.{
  ◌+◌, ◌-◌, ◌≡◌, ◌<◌, ◌≤◌, ◌↔◌, ◌⊎◌, inl, inr, refl, arith, true, false, [], ◌∷◌, Returns,
}
use tflib.Malloc.{Allocator, alloc, realloc, free}
use tflib.Malloc.Count.{IsCounted, alloc-realloc-free-IsCounted}
use tflib.Common.Int.{pos}
use tflib.Rate.{RateLimiter, rate_add, rate_reset, rate_check, rate_left}
use tflib.Rate.Bursts.{add_all, sum_events, last_time, rate_check-rate_left-add_all}

-- One block of 5 bytes, at 100.
abbrev one_block : Allocator
one_block = record { used_memory = 16; tf_malloc_thread_safe = false; blocks = (100, 5) ∷ [] }

one_block-IsCounted : IsCounted one_block
one_block-IsCounted = record { sizes = (omega arith, tt); counted = refl }

alloc-realloc-free-IsCounted_example :
    Returns (alloc 200 one_block 9) (λ r. IsCounted r.0)
    × Returns (realloc 200 one_block 108 9) (λ r. IsCounted r.0)
    × Returns (free one_block 108) IsCounted
alloc-realloc-free-IsCounted_example =
    alloc-realloc-free-IsCounted one_block 200 108 9 one_block-IsCounted (λ e. omega (arith, e))
      (omega arith) (inr (inl refl))

-- At most 10 events in 60 seconds, or a wait of 30.
abbrev limiter : RateLimiter
limiter = record {
  total = 10;
  count = 0;
  seconds = 60;
  wait = 30;
  rate = (0, 1);
  time = 0;
  bad = 0;
}

rate_check-rate_left-add_all_example :
    (((rate_check 1020 (add_all ((1010, 6) ∷ []) (rate_add 1000 5 (rate_reset limiter)))).1 ≡ true)
      ↔ ((5 + sum_events ((1010, 6) ∷ []) < 10) ⊎ (last_time 1000 ((1010, 6) ∷ []) + 30 ≤ 1020)))
    × (rate_left (add_all ((1010, 6) ∷ []) (rate_add 1000 5 (rate_reset limiter)))
        ≡ pos (10 - (5 + sum_events ((1010, 6) ∷ []))))
rate_check-rate_left-add_all_example =
    rate_check-rate_left-add_all limiter 1000 5 ((1010, 6) ∷ []) 1020 (λ e. omega (arith, e))
      (λ e. omega (arith, e)) (omega arith) (omega arith, tt) (omega arith)
