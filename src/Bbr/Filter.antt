-- ===== src/Bbr/Filter.antt =====
-- The windowed maximum of tcp-core/src/bbr.rs.
use ferrumnet.Prelude.{ℕ, ◌-◌, ◌^◌, ◌≤◌, ◌<◌, ◌≡◌, ◌⊎◌, refl, arith, max}
use ferrumnet.Bbr.{WindowedMax, restart, rank, expire, filter_update}

-- The three samples in the order of their values, greatest first, and of their times, at most `now`.
pub record Ranked (w : WindowedMax) (now : ℕ) : Type 0 where
  pub first_best : w.s1.v ≤ w.s0.v
  pub second_best : w.s2.v ≤ w.s1.v
  pub first_oldest : w.s0.t ≤ w.s1.t
  pub second_oldest : w.s1.t ≤ w.s2.t
  pub all_past : w.s2.t ≤ now
  pub fits : now < 2 ^ 64

-- The value of a sample that was taken at a time and is not older than the period at `now`
abbrev pub Within : ℕ → ℕ → ℕ → ℕ → ℕ → Type 0
Within period now estimate taken value = (estimate ≡ value) × (now - taken ≤ period)

-- The new sample or one of the three, each with its own time
abbrev pub TakenFrom : WindowedMax → ℕ → ℕ → ℕ → Type 0
TakenFrom w t v estimate =
    Within w.period t estimate t v
    ⊎ (Within w.period t estimate w.s0.t w.s0.v
        ⊎ (Within w.period t estimate w.s1.t w.s1.v ⊎ Within w.period t estimate w.s2.t w.s2.v))

-- A sample that is not earlier than those before keeps the filter ranked; the estimate is then at
-- least the new sample, at most the greater of it and the last estimate, and its value is that of a
-- sample, the new one or one of the three before with its own time, which lies within the window.
pub filter_update-Ranked :
    (w : WindowedMax) (t v : ℕ)
    → Ranked w t
    → Ranked (filter_update w t v).1 t
      × ((filter_update w t v).0 ≡ (filter_update w t v).1.s0.v)
      × (v ≤ (filter_update w t v).0)
      × ((filter_update w t v).0 ≤ max w.s0.v v)
      × TakenFrom w t v (filter_update w t v).0
unfolding filter_update restart rank expire
filter_update-Ranked w t v r = (
  record {
    first_best = ground arith;
    second_best = ground arith;
    first_oldest = ground arith;
    second_oldest = ground arith;
    all_past = ground arith;
    fits = r.fits;
  },
  refl,
  ground arith,
  ground arith,
  ground arith,
)
