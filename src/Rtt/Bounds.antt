-- ===== src/Rtt/Bounds.antt =====
-- The bounds that the estimator of tcp-core/src/rtt.rs keeps.
use ferrumnet.Prelude.{ℕ, ◌+◌, ◌*◌, ◌/◌, ◌≤◌, ◌≡◌, arith, true, min, max, List, [], ◌∷◌}
use ferrumnet.Rtt.{
  RttEstimator, new, on_sample, on_clean_ack, on_timeout, min_rto, max_rto, abs_diff,
}

pub record IsValid (e : RttEstimator) : Type 0 where
  pub srtt_le : e.srtt ≤ max_rto
  pub rttvar_le : e.rttvar ≤ max_rto
  pub base_ge : min_rto ≤ e.base_rto
  pub base_le : e.base_rto ≤ max_rto
  pub rto_ge : e.base_rto ≤ e.rto
  pub rto_le : e.rto ≤ max_rto

pub new-IsValid : IsValid new
new-IsValid = omega arith

pub on_sample-IsValid : (e : RttEstimator) (r : ℕ) → IsValid e → IsValid (on_sample e r)
unfolding on_sample
on_sample-IsValid e r v = ground arith

pub on_clean_ack-IsValid : (e : RttEstimator) → IsValid e → IsValid (on_clean_ack e)
unfolding on_clean_ack
on_clean_ack-IsValid e v = ground arith

pub on_timeout-IsValid : (e : RttEstimator) → IsValid e → IsValid (on_timeout e)
unfolding on_timeout
on_timeout-IsValid e v = ground arith

-- What happens to an estimator.
pub data Event : Type 0 where
  sample : ℕ → Event
  clean_ack : Event
  timeout : Event

abbrev pub step : RttEstimator → Event → RttEstimator
step e (sample r) = on_sample e r
step e clean_ack = on_clean_ack e
step e timeout = on_timeout e

pub run : RttEstimator → List Event → RttEstimator
run e [] = e
run e (x ∷ xs) = run (step e x) xs

step-IsValid : (e : RttEstimator) (x : Event) → IsValid e → IsValid (step e x)
step-IsValid e (sample r) v = on_sample-IsValid e r v
step-IsValid e clean_ack v = on_clean_ack-IsValid e v
step-IsValid e timeout v = on_timeout-IsValid e v

run-IsValid : (e : RttEstimator) (xs : List Event) → IsValid e → IsValid (run e xs)
unfolding run
run-IsValid e [] v = v
run-IsValid e (x ∷ xs) v = run-IsValid (step e x) xs (step-IsValid e x v)

-- After any sequence of samples, clean ACKs and timeouts from the initial estimator the timeout
-- lies between 200 ms and 60 s, is never below the timeout without backoff, and the smoothed
-- values are at most 60 s, whatever the samples were.
pub run_bounds :
    (xs : List Event)
    → let e = run new xs in
      (min_rto ≤ e.rto)
      × (e.rto ≤ max_rto)
      × (e.base_rto ≤ e.rto)
      × (e.srtt ≤ max_rto)
      × (e.rttvar ≤ max_rto)
run_bounds xs = omega (arith, run-IsValid new xs new-IsValid)

-- With a measurement at hand, a new sample moves the smoothed time to `ceil((7 srtt + r) / 8)` and
-- the variation to `ceil((3 rttvar + |srtt - r|) / 4)` of the values before, with no product or sum
-- cut at 2 ^ 32; so the smoothed time lies between the old one and the sample, cut at 60 s.
pub on_sample-smooth :
    (e : RttEstimator) (r : ℕ)
    → IsValid e
    → e.have_measurement ≡ true
    → ((on_sample e r).srtt ≡ (7 * e.srtt + min r max_rto + 7) / 8)
      × ((on_sample e r).rttvar ≡ (3 * e.rttvar + abs_diff e.srtt (min r max_rto) + 3) / 4)
      × (min e.srtt (min r max_rto) ≤ (on_sample e r).srtt)
      × ((on_sample e r).srtt ≤ max e.srtt (min r max_rto))
unfolding on_sample
on_sample-smooth e r v m = ground arith
