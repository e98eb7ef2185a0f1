-- ===== src/Bbr/Model/Ack/Recovery.antt =====
-- The window of tcp-core/src/bbr.rs while a loss is repaired, and its bounds.
use ferrumnet.Prelude.{
  ℕ, ◌+◌, ◌*◌, ◌≤◌, ◌≡◌, arith, Bool, true, false, Option, some, none, min, u32_max, if_case, ◌&&◌,
}
use ferrumnet.Seq.{SeqNumber}
use ferrumnet.Time.{Instant}
use ferrumnet.Congestion.Float.{Float}
use ferrumnet.Bbr.{RateSample, sample_ack}
use ferrumnet.Bbr.Model.{Bbr, update_mode, no_model, is_probe_rtt}
use ferrumnet.Bbr.Model.Ack.{
  take_sample, min_rtt_expired, model_cwnd, set_pacing_and_cwnd, on_sample, on_ack_sample,
}

and_false : (x : Bool) → ¬ ((x && false) ≡ true)
and_false true h = cc
and_false false h = cc

module _ {F : Type 0} ⦃fl : Float F⦄ where
  -- A window of the pipe and three segments, once something is known to model.
  abbrev HasHeadroom : ℕ → Bbr F → Type 0
  HasHeadroom pipe z = no_model z ≡ false → pipe + 3 * z.mss ≤ u32_max → pipe + 3 * z.mss ≤ z.cwnd

  set_pacing-HasHeadroom :
      (b : Bbr F) (acked pipe : ℕ) → HasHeadroom pipe (set_pacing_and_cwnd b acked pipe true)
  unfolding set_pacing_and_cwnd model_cwnd
  set_pacing-HasHeadroom b acked pipe =
      if_case (λ (z : Bbr F). HasHeadroom pipe z) (no_model b) _ _ (λ e n. absurd (cc))
        λ e n k.
          if_case (λ c. pipe + 3 * b.mss ≤ min c u32_max) (is_probe_rtt b.mode && false) _ _
            (λ f. absurd (and_false (is_probe_rtt b.mode) f)) (λ f. omega arith)

  on_sample-HasHeadroom :
      (b : Bbr F) (now : Instant) (o : Option RateSample) (inflight acked pipe : ℕ)
      {sample : RateSample}
      → o ≡ some sample
      → HasHeadroom pipe (on_sample b now o inflight acked pipe true)
  unfolding on_sample
  on_sample-HasHeadroom b now none inflight acked pipe h = absurd (cc)
  on_sample-HasHeadroom b now (some s) inflight acked pipe h =
      set_pacing-HasHeadroom
        (update_mode (take_sample b now s inflight acked true) now inflight (min_rtt_expired b now))
        acked pipe

  -- While a loss is repaired, an ACK that yields a sample leaves, if bandwidth and round-trip time are
  -- known after it, a window of the pipe and three segments at least, if that fits 32 bits.
  pub headroom-on_ack_sample :
      (b : Bbr F) (now : Instant) (snd_una : SeqNumber) (inflight acked pipe : ℕ)
      {sample : RateSample}
      → (sample_ack b.sampler now snd_una).0 ≡ some sample
      → no_model (on_ack_sample b now snd_una inflight acked pipe true) ≡ false
      → pipe + 3 * (on_ack_sample b now snd_una inflight acked pipe true).mss ≤ u32_max
      → pipe + 3 * (on_ack_sample b now snd_una inflight acked pipe true).mss
        ≤ (on_ack_sample b now snd_una inflight acked pipe true).cwnd
  unfolding on_ack_sample
  headroom-on_ack_sample b now snd_una inflight acked pipe h =
      on_sample-HasHeadroom (record b { sampler = (sample_ack b.sampler now snd_una).1 }) now
        (sample_ack b.sampler now snd_una).0 inflight acked pipe h
