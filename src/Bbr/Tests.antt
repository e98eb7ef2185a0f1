-- ===== src/Bbr/Tests.antt =====
-- The estimator of tcp-core/src/bbr.rs on concrete samples.
use ferrumnet.Prelude.{ℕ, ◌+◌, ◌≤◌, ◌≡◌, refl, arith, true, false, Option, some, none, max}
use ferrumnet.Seq.{le, distance}
use ferrumnet.Time.{from_micros, saturating_micros_since}
use ferrumnet.Bbr.{
  RateSample, RateSampler, WindowedMax, new_sampler, restart_interval, record_sent, pop_acked,
  sample_of, finish_sample, sample_ack, rank, expire, filter_update,
}
use ferrumnet.Bbr.Filter.{Ranked, TakenFrom, filter_update-Ranked}
use ferrumnet.Bbr.Sampler.{sizes, recorded, recorded-sample_ack}

-- The first sample is about to leave the window.
abbrev aged : WindowedMax
aged = record {
  period = 3;
  s0 = record { t = 0; v = 100 };
  s1 = record { t = 2; v = 80 };
  s2 = record { t = 2; v = 80 };
}

aged-Ranked : Ranked aged 4
aged-Ranked = record {
  first_best = omega arith;
  second_best = omega arith;
  first_oldest = omega arith;
  second_oldest = omega arith;
  all_past = omega arith;
  fits = omega arith;
}

filter_update-Ranked_example :
    Ranked (filter_update aged 4 70).1 4
    × ((filter_update aged 4 70).0 ≡ (filter_update aged 4 70).1.s0.v)
    × (70 ≤ (filter_update aged 4 70).0)
    × ((filter_update aged 4 70).0 ≤ max 100 70)
    × TakenFrom aged 4 70 (filter_update aged 4 70).0
filter_update-Ranked_example = filter_update-Ranked aged 4 70 aged-Ranked

filter_test : (filter_update aged 4 70).0 ≡ 80
unfolding filter_update rank expire
filter_test = refl

-- Two segments of a thousand bytes, sent at once.
abbrev two_sent : RateSampler
two_sent =
    record_sent (record_sent new_sampler (from_micros 0) 1_000 1_000 0 false) (from_micros 0) 2_000
      1_000 1_000 false

two_sent_test : recorded two_sent ≡ 2_000
unfolding recorded sizes record_sent restart_interval
two_sent_test = refl

recorded-sample_ack_example :
    (recorded (record_sent two_sent (from_micros 9) 3_000 500 2_000 true) ≡ recorded two_sent + 500)
    × (recorded (sample_ack two_sent (from_micros 9) 1_000).1 ≡ recorded two_sent)
    × (two_sent.delivered ≤ (sample_ack two_sent (from_micros 9) 1_000).1.delivered)
recorded-sample_ack_example =
    recorded-sample_ack two_sent (from_micros 9) 1_000 3_000 500 2_000 true
      (omega (arith, two_sent_test))

rate_of : Option RateSample → ℕ
rate_of none = 0
rate_of (some s) = s.delivery_rate

-- Two thousand bytes in a tenth of a second.
sample_test : rate_of (sample_ack two_sent (from_micros 100_000) 2_000).0 ≡ 20_000
unfolding rate_of sample_ack pop_acked finish_sample sample_of record_sent restart_interval le
    distance saturating_micros_since
sample_test = refl
