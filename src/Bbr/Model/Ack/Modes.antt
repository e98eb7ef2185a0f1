-- ===== src/Bbr/Model/Ack/Modes.antt =====
-- The modes of tcp-core/src/bbr.rs.
use ferrumnet.Prelude.{
  ℕ, ◌+◌, ◌%◌, ◌≡◌, refl, sym, ap, ap₂, ◌∙◌, subst, Bool, true, false, not, ◌&&◌, ◌||◌, Option,
  some, none, max, if_both, if_case, if◌then◌else◌, leb,
}
use ferrumnet.Seq.{SeqNumber}
use ferrumnet.Time.{Instant}
use ferrumnet.Congestion.Float.{Float}
use ferrumnet.Bbr.{RateSample, sample_ack}
use ferrumnet.Bbr.Model.{
  Mode, startup, drain, probe_bw, probe_rtt, is_probe_rtt, Bbr, check_full_pipe, enter_probe_bw,
  advance_probe_bw, maybe_enter_probe_rtt, leave_probe_rtt, probe_from, handle_probe_rtt,
  leave_startup, mode_step, update_mode, bdp, min_cwnd, probe_bw_gain, resume_mode,
  update_ack_aggregation, cut_inflight_bounds, raise_inflight_bounds,
}
use ferrumnet.Bbr.Model.Ack.{
  count_round, min_rtt_expired, take_rtt, take_rate, end_round, cut_on_loss, bound_inflight,
  take_sample, set_pacing_and_cwnd, on_sample, on_ack_sample,
}

-- The moves, with whether the pipe was found full.
pub data Arc (filled : Bool) : Mode → Mode → Type 0 where
  stay : (m : Mode) → Arc filled m m
  fill : filled ≡ true → Arc filled startup drain
  drained : Arc filled drain probe_bw
  probe : (m : Mode) → Arc filled m probe_rtt
  resume : filled ≡ true → Arc filled probe_rtt probe_bw
  restart : filled ≡ false → Arc filled probe_rtt startup

abbrev pub needs_full : Mode → Bool
needs_full drain = true
needs_full probe_bw = true
needs_full startup = false
needs_full probe_rtt = false

module _ {F : Type 0} ⦃fl : Float F⦄ where
  -- A mode that follows a full pipe is held only with a full pipe.
  abbrev pub IsFull : Bbr F → Type 0
  IsFull b = (needs_full b.mode && not b.filled_pipe) ≡ false

  -- A step from a mode: an arc, to a mode that the pipe allows.
  abbrev Moves : Mode → Bbr F → Type 0
  Moves m z = Arc z.filled_pipe m z.mode × IsFull z

  to-Moves :
      {m n : Mode} (z : Bbr F)
      → z.mode ≡ n
      → Arc z.filled_pipe m n
      → (needs_full n && not z.filled_pipe) ≡ false
      → Moves m z
  to-Moves {m} z e arc full = (
    subst (λ k. Arc z.filled_pipe m k) (sym e) arc,
    subst (λ k. (needs_full k && not z.filled_pipe) ≡ false) (sym e) full,
  )

  -- A full pipe, from a mode that follows one.
  full_of :
      (b : Bbr F) (m : Mode) → b.mode ≡ m → IsFull b → (needs_full m && not b.filled_pipe) ≡ false
  full_of b m h f = subst (λ k. (needs_full k && not b.filled_pipe) ≡ false) h f

  resume_mode-Moves : (b : Bbr F) (now : Instant) → Moves probe_rtt (resume_mode b now)
  unfolding resume_mode enter_probe_bw
  resume_mode-Moves b now =
      if_case (λ (z : Bbr F). Moves probe_rtt z) b.filled_pipe _ _ (λ e. (resume e, ap not e))
        (λ e. (restart e, refl))

  probing :
      (b : Bbr F) (now : Instant) (inflight : ℕ) → (probe_from b now inflight none).mode ≡ b.mode
  unfolding probe_from
  probing b now inflight =
      if_both (λ (z : Bbr F). z.mode ≡ b.mode) (leb inflight (min_cwnd b)) _ _ refl refl

  probe_from-Moves :
      (b : Bbr F) (now : Instant) (inflight : ℕ) (done : Option Instant)
      → b.mode ≡ probe_rtt
      → Moves probe_rtt (probe_from b now inflight done)
  unfolding probe_from leave_probe_rtt
  probe_from-Moves b now inflight none h =
      to-Moves (probe_from b now inflight none) (probing b now inflight ∙ h) (stay probe_rtt) refl
  probe_from-Moves b now inflight (some done) h =
      if_both (λ (z : Bbr F). Moves probe_rtt z) (leb done.micros now.micros) _ _
        (resume_mode-Moves (record b { min_rtt_stamp = now; probe_rtt_done_stamp = none }) now)
        (to-Moves b h (stay probe_rtt) refl)

  check_full_pipe-mode : (b : Bbr F) → (check_full_pipe b).mode ≡ b.mode
  unfolding check_full_pipe
  check_full_pipe-mode b =
      if_both (λ (z : Bbr F). z.mode ≡ b.mode) (b.filled_pipe || not b.round_start) _ _ refl
        (if_both (λ (z : Bbr F). z.mode ≡ b.mode) _ _ _ refl refl)

  leave_startup-Moves : (b : Bbr F) → b.mode ≡ startup → Moves startup (leave_startup b)
  unfolding leave_startup
  leave_startup-Moves b h =
      if_case (λ (z : Bbr F). Moves startup z) b.filled_pipe _ _ (λ e. (fill e, ap not e))
        (λ e. to-Moves b h (stay startup) refl)

  mode_step-Moves :
      (m : Mode) (b : Bbr F) (now : Instant) (inflight : ℕ)
      → b.mode ≡ m
      → IsFull b
      → Moves m (mode_step m b now inflight)
  unfolding mode_step enter_probe_bw advance_probe_bw handle_probe_rtt
  mode_step-Moves startup b now inflight h f =
      leave_startup-Moves (check_full_pipe b) (check_full_pipe-mode b ∙ h)
  mode_step-Moves drain b now inflight h f =
      let full = full_of b drain h f in
      if_both (λ (z : Bbr F). Moves drain z) (leb inflight (bdp b)) _ _ (drained, full)
        (to-Moves b h (stay drain) full)
  mode_step-Moves probe_bw b now inflight h f =
      let full = full_of b probe_bw h f in
      if_both (λ (z : Bbr F). Moves probe_bw z) _ _ _
        (to-Moves
          (record b {
            cycle_index = (b.cycle_index + 1) % 8;
            pacing_gain = probe_bw_gain ((b.cycle_index + 1) % 8);
            cycle_stamp = now;
          })
          h (stay probe_bw) full)
        (to-Moves b h (stay probe_bw) full)
  mode_step-Moves probe_rtt b now inflight h f =
      probe_from-Moves b now inflight b.probe_rtt_done_stamp h

  update_mode-Moves :
      (b : Bbr F) (now : Instant) (inflight : ℕ) (expired : Bool)
      → IsFull b
      → Moves b.mode (update_mode b now inflight expired)
  unfolding update_mode maybe_enter_probe_rtt mode_step handle_probe_rtt
  update_mode-Moves b now inflight expired f =
      let entered : Bbr F = record b {
        mode = probe_rtt;
        pacing_gain = fl.decimal 10 1;
        cwnd_gain = fl.decimal 10 1;
        prior_cwnd = b.cwnd;
        probe_rtt_done_stamp = none;
      } in
      if_both (λ (z : Bbr F). Moves b.mode (mode_step z.mode z now inflight))
        (expired && not (is_probe_rtt b.mode)) entered b
        (to-Moves (probe_from entered now inflight none) (probing entered now inflight)
          (probe b.mode) refl)
        (mode_step-Moves b.mode b now inflight refl f)

  -- The mode and whether the pipe was found full, of two states
  abbrev SameMode : Bbr F → Bbr F → Type 0
  SameMode b z = (z.mode ≡ b.mode) × (z.filled_pipe ≡ b.filled_pipe)

  both_same :
      (b : Bbr F) (t : Bool) (x y : Bbr F)
      → SameMode b x
      → SameMode b y
      → SameMode b (if t then x else y)
  both_same b t x y p q = if_both (λ (z : Bbr F). SameMode b z) t x y p q

  then_same : (a b c : Bbr F) → SameMode a b → SameMode b c → SameMode a c
  then_same a b c p q = (q.0 ∙ p.0, q.1 ∙ p.1)

  raise-SameMode : (b : Bbr F) (t : Bool) → SameMode b (if t then raise_inflight_bounds b else b)
  unfolding raise_inflight_bounds
  raise-SameMode b t = both_same b t (raise_inflight_bounds b) b (refl, refl) (refl, refl)

  end_round-SameMode :
      (b : Bbr F) (inflight : ℕ) (in_recovery : Bool)
      → SameMode b (end_round b inflight in_recovery)
  unfolding end_round
  end_round-SameMode b inflight in_recovery =
      both_same b b.round_start _ _ (raise-SameMode b (not b.loss_in_round && not in_recovery))
        (refl, refl)

  cut_on_loss-SameMode : (b : Bbr F) (in_recovery : Bool) → SameMode b (cut_on_loss b in_recovery)
  unfolding cut_on_loss cut_inflight_bounds
  cut_on_loss-SameMode b in_recovery = both_same b _ _ _ (refl, refl) (refl, refl)

  bound_inflight-SameMode :
      (b : Bbr F) (inflight : ℕ) (in_recovery : Bool)
      → SameMode b (bound_inflight b inflight in_recovery)
  unfolding bound_inflight
  bound_inflight-SameMode b inflight in_recovery =
      let peak : Bbr F = record b { inflight_latest = max b.inflight_latest inflight } in
      then_same peak (cut_on_loss peak in_recovery)
        (end_round (cut_on_loss peak in_recovery) inflight in_recovery)
        (cut_on_loss-SameMode peak in_recovery)
        (end_round-SameMode (cut_on_loss peak in_recovery) inflight in_recovery)

  count_round-SameMode : (b : Bbr F) (sample : RateSample) → SameMode b (count_round b sample)
  unfolding count_round
  count_round-SameMode b sample = both_same b _ _ _ (refl, refl) (refl, refl)

  take_rtt-SameMode :
      (b : Bbr F) (now : Instant) (sample : RateSample) (expired : Bool)
      → SameMode b (take_rtt b now sample expired)
  unfolding take_rtt
  take_rtt-SameMode b now sample expired = both_same b _ _ _ (refl, refl) (refl, refl)

  take_rate-SameMode : (b : Bbr F) (sample : RateSample) → SameMode b (take_rate b sample)
  unfolding take_rate
  take_rate-SameMode b sample = both_same b _ _ _ (refl, refl) (refl, refl)

  aggregation-SameMode :
      (b : Bbr F) (now : Instant) (acked : ℕ) → SameMode b (update_ack_aggregation b now acked)
  unfolding update_ack_aggregation
  aggregation-SameMode b now acked = both_same b _ _ _ (refl, refl) (refl, refl)

  take_sample-SameMode :
      (b : Bbr F) (now : Instant) (sample : RateSample) (inflight acked : ℕ) (in_recovery : Bool)
      → SameMode b (take_sample b now sample inflight acked in_recovery)
  unfolding take_sample
  take_sample-SameMode b now sample inflight acked in_recovery =
      let counted : Bbr F = count_round b sample in
      let timed : Bbr F = take_rtt counted now sample (min_rtt_expired counted now) in
      let rated : Bbr F = take_rate timed sample in
      let aggregated : Bbr F = update_ack_aggregation rated now acked in
      let final : Bbr F = bound_inflight aggregated inflight in_recovery in
      then_same b counted final (count_round-SameMode b sample) (
        then_same counted timed final
          (take_rtt-SameMode counted now sample (min_rtt_expired counted now))
          (then_same timed rated final (take_rate-SameMode timed sample) (
            then_same rated aggregated final (aggregation-SameMode rated now acked)
              (bound_inflight-SameMode aggregated inflight in_recovery))))

  set_pacing-SameMode :
      (b : Bbr F) (acked pipe : ℕ) (in_recovery : Bool)
      → SameMode b (set_pacing_and_cwnd b acked pipe in_recovery)
  unfolding set_pacing_and_cwnd
  set_pacing-SameMode b acked pipe in_recovery = both_same b _ _ _ (refl, refl) (refl, refl)

  same-Moves : (m : Mode) (b z : Bbr F) → SameMode b z → Moves m b → Moves m z
  same-Moves m b z e v = (
    subst (λ f. Arc f m z.mode) (sym e.1) (subst (λ k. Arc b.filled_pipe m k) (sym e.0) v.0),
    ap₂ (λ k f. needs_full k && not f) e.0 e.1 ∙ v.1,
  )

  on_sample-Moves :
      (b : Bbr F) (now : Instant) (sample : Option RateSample) (inflight acked pipe : ℕ)
      (in_recovery : Bool)
      → IsFull b
      → Moves b.mode (on_sample b now sample inflight acked pipe in_recovery)
  unfolding on_sample
  on_sample-Moves b now none inflight acked pipe in_recovery f = (stay b.mode, f)
  on_sample-Moves b now (some sample) inflight acked pipe in_recovery f =
      let taken : Bbr F = take_sample b now sample inflight acked in_recovery in
      let same = take_sample-SameMode b now sample inflight acked in_recovery in
      let full : IsFull taken = ap₂ (λ k p. needs_full k && not p) same.0 same.1 ∙ f in
      let moved = update_mode-Moves taken now inflight (min_rtt_expired b now) full in
      let settled : Bbr F = update_mode taken now inflight (min_rtt_expired b now) in
      same-Moves b.mode settled (set_pacing_and_cwnd settled acked pipe in_recovery)
        (set_pacing-SameMode settled acked pipe in_recovery)
        (subst (λ m. Moves m settled) same.0 moved)

  -- An ACK moves the mode along an arc that the pipe allows: to draining only from startup, with the
  -- pipe full, to cruising from draining, or from probing the round-trip time with the pipe full, and
  -- back to startup only from that probe with the pipe not full; and the modes that follow a full
  -- pipe are still held with a full pipe only.
  pub on_ack_sample-Moves :
      (b : Bbr F) (now : Instant) (snd_una : SeqNumber) (inflight acked pipe : ℕ)
      (in_recovery : Bool)
      → IsFull b
      → Arc
          (on_ack_sample b now snd_una inflight acked pipe in_recovery).filled_pipe
          b.mode
          (on_ack_sample b now snd_una inflight acked pipe in_recovery).mode
        × IsFull (on_ack_sample b now snd_una inflight acked pipe in_recovery)
  unfolding on_ack_sample
  on_ack_sample-Moves b now snd_una inflight acked pipe in_recovery f =
      on_sample-Moves (record b { sampler = (sample_ack b.sampler now snd_una).1 }) now
        (sample_ack b.sampler now snd_una).0 inflight acked pipe in_recovery f
