-- ===== src/Rtt/Tests.antt =====
-- The estimator at concrete samples, among them those of the source's own tests.
use ferrumnet.Prelude.{◌≤◌, ◌≡◌, refl, arith, true, [], ◌∷◌}
use ferrumnet.Rtt.{RttEstimator, new, on_sample, min_rto, max_rto}
use ferrumnet.Rtt.Bounds.{IsValid, sample, clean_ack, timeout, run, run_bounds}

abbrev measured : RttEstimator
measured = record {
  srtt = 1_000_000;
  rttvar = 500_000;
  base_rto = 3_000_000;
  rto = 3_000_000;
  have_measurement = true;
  consecutive_timeouts = 0;
}

first_sample : on_sample new 1_000_000 ≡ measured
unfolding on_sample
first_sample = refl

second_sample : (on_sample measured 1_000_000).rto ≡ 2_500_000
unfolding on_sample
second_sample = refl

measured-IsValid : IsValid measured
measured-IsValid = omega arith

run_bounds_example :
    let e = run new (sample 900 ∷ timeout ∷ timeout ∷ clean_ack ∷ sample 4_000_000_000 ∷ []) in
    (min_rto ≤ e.rto)
    × (e.rto ≤ max_rto)
    × (e.base_rto ≤ e.rto)
    × (e.srtt ≤ max_rto)
    × (e.rttvar ≤ max_rto)
run_bounds_example =
    run_bounds (sample 900 ∷ timeout ∷ timeout ∷ clean_ack ∷ sample 4_000_000_000 ∷ [])
