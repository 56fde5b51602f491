-- ===== src/Rate/Bursts.antt =====
-- What the rate limiter of tflib/tf_util.c answers after a burst of events.
use tflib.Common.{
  ℕ, ◌+◌, ◌-◌, ◌^◌, ◌<◌, ◌≤◌, ◌≡◌, ◌≢◌, ◌↔◌, ◌⊎◌, arith, leb, if◌then◌else◌, true, List, [], ◌∷◌,
}
use tflib.Common.Int.{pos}
use tflib.Rate.{
  int_of_word, RateLimiter, rate_reset, expire, count_events, rate_add, rate_left, rate_check,
}

-- The events are added one after the other, each with its time and number.
unfoldable pub add_all : List (ℕ × ℕ) → RateLimiter → RateLimiter
add_all [] rt = rt
add_all (e ∷ rest) rt = add_all rest (rate_add e.0 e.1 rt)

abbrev pub sum_events : List (ℕ × ℕ) → ℕ
sum_events [] = 0
sum_events (e ∷ rest) = e.1 + sum_events rest

-- The time of the last event, or `last` where there is none.
abbrev pub last_time : ℕ → List (ℕ × ℕ) → ℕ
last_time last [] = last
last_time last (e ∷ rest) = last_time e.0 rest

-- All come before `limit`.
abbrev pub Before : ℕ → List (ℕ × ℕ) → Type 0
Before limit [] = Unit {0}
Before limit (e ∷ rest) = (e.0 < limit) × Before limit rest

-- `r` counts `c` events since `start`, the last of them at `last`.
record Tracks (rt r : RateLimiter) (start c last : ℕ) : Type 0 where
  same_total : r.total ≡ rt.total
  same_wait : r.wait ≡ rt.wait
  same_seconds : r.seconds ≡ rt.seconds
  started : r.time ≡ start
  counted : r.count ≡ c
  judged : r.bad ≡ (if leb rt.total c then last else 0)

module _ (rt : RateLimiter) (start : ℕ) (nonzero : start ≢ 0) where
  rate_add-Tracks :
      (r : RateLimiter) (c last now n : ℕ)
      → Tracks rt r start c last
      → now < start + rt.seconds
      → c + n < 2 ^ 32
      → Tracks rt (rate_add now n r) start (c + n) now
  unfolding rate_add count_events expire rate_reset
  rate_add-Tracks r c last now n t h fits = record {
    same_total = ground (arith, t.same_total);
    same_wait = ground (arith, t.same_wait);
    same_seconds = ground (arith, t.same_seconds);
    started = ground (arith, t.started, t.same_seconds);
    counted = ground (arith, t.started, t.same_seconds, t.counted);
    judged = ground (arith, t.started, t.same_seconds, t.counted, t.judged, t.same_total);
  }

  add_all-Tracks :
      (es : List (ℕ × ℕ)) (r : RateLimiter) (c last : ℕ)
      → Tracks rt r start c last
      → Before (start + rt.seconds) es
      → c + sum_events es < 2 ^ 32
      → Tracks rt (add_all es r) start (c + sum_events es) (last_time last es)
  unfolding add_all
  add_all-Tracks [] r c last t h fits = let e : c + 0 ≡ c = omega arith in rw e t
  add_all-Tracks (e ∷ rest) r c last t h fits =
      let same : c + (e.1 + sum_events rest) ≡ c + e.1 + sum_events rest = omega arith in
      rw same (
        add_all-Tracks rest (rate_add e.0 e.1 r) (c + e.1) e.0
          (rate_add-Tracks r c last e.0 e.1 t h.0 (omega arith)) h.1 (omega arith))

  first-Tracks : (n : ℕ) → n < 2 ^ 32 → Tracks rt (rate_add start n (rate_reset rt)) start n start
  unfolding rate_add count_events expire rate_reset
  first-Tracks n fits = record {
    same_total = ground arith;
    same_wait = ground arith;
    same_seconds = ground arith;
    started = ground arith;
    counted = ground arith;
    judged = ground arith;
  }

  rate_check-Tracks :
      (r : RateLimiter) (c last now : ℕ)
      → Tracks rt r start c last
      → last ≢ 0
      → ((rate_check now r).1 ≡ true) ↔ ((c < rt.total) ⊎ (last + rt.wait ≤ now))
  unfolding rate_check rate_reset
  rate_check-Tracks r c last now t ne = (
    λ h. ground (arith, t.started, t.counted, t.judged, t.same_total, t.same_wait),
    λ h. ground (arith, t.started, t.counted, t.judged, t.same_total, t.same_wait),
  )

  rate_left-Tracks :
      (r : RateLimiter) (c last : ℕ)
      → Tracks rt r start c last
      → last ≢ 0
      → rt.total < 2 ^ 31
      → rate_left r ≡ pos (rt.total - c)
  unfolding rate_left int_of_word
  rate_left-Tracks r c last t ne fits = ground (arith, t.counted, t.judged, t.same_total)

-- A limiter is reset, and `n` events are counted at `start` and then those of `es`, each less than
-- `seconds` behind `start`, so few that their number is a 32-bit word. The check then says yes
-- exactly where there were fewer than `total`, or where the wait since the last of them is over;
-- and what is left is the rest of `total`, if any. No time is 0, and `total` is below 2^31.
pub rate_check-rate_left-add_all :
    (rt : RateLimiter) (start n : ℕ) (es : List (ℕ × ℕ)) (now : ℕ)
    → start ≢ 0
    → last_time start es ≢ 0
    → n + sum_events es < 2 ^ 32
    → Before (start + rt.seconds) es
    → rt.total < 2 ^ 31
    → (((rate_check now (add_all es (rate_add start n (rate_reset rt)))).1 ≡ true)
        ↔ ((n + sum_events es < rt.total) ⊎ (last_time start es + rt.wait ≤ now)))
      × (rate_left (add_all es (rate_add start n (rate_reset rt)))
          ≡ pos (rt.total - (n + sum_events es)))
rate_check-rate_left-add_all rt start n es now nonzero ne fits before word =
    let r = rate_add start n (rate_reset rt) in
    let first = first-Tracks rt start nonzero n (omega arith) in
    let t = add_all-Tracks rt start nonzero es r n start first before fits in
    (
      rate_check-Tracks rt start nonzero (add_all es r) (n + sum_events es) (last_time start es) now
          t ne,
      rate_left-Tracks rt start nonzero (add_all es r) (n + sum_events es) (last_time start es) t ne
          word,
    )
