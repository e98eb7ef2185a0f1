-- ===== src/Tcb/Timers.antt =====
-- The timers of tcp-core/src/tcb.rs: how they are armed, the next deadline, and their firing.
pub mod Firing
use ferrumnet.Prelude.{
  ℕ, ◌+◌, ◌-◌, ◌*◌, ◌/◌, Bool, true, false, Option, none, some, List, [], ◌∷◌, min, max, ltb, leb,
  is_some, u16, u32_max, saturating_add_u64, saturating_mul_u64, div_ceil, if◌then◌else◌,
}
use ferrumnet.Seq.{offset_from}
use ferrumnet.Time.{Instant, plus_millis, plus_micros, saturating_micros_since}
use ferrumnet.Rtt.{rto_micros, on_timeout}
use ferrumnet.Sack.{Scoreboard, on_rto}
use ferrumnet.State.{State, syn_sent, closed, same_state}
use ferrumnet.Congestion.{CongestionControl}
use ferrumnet.Tcb.{Tcb, persist_min_millis, persist_max_millis, delayed_ack_millis, max_syn_retries}

-- The earlier of two deadlines; the first one on a tie.
abbrev pub earlier : Option Instant → Option Instant → Option Instant
earlier none e = e
earlier (some d) none = some d
earlier (some d) (some e) = if leb d.micros e.micros then some d else some e

-- `flatten().min()` over the deadlines
abbrev pub earliest : List (Option Instant) → Option Instant
earliest [] = none
earliest (d ∷ ds) = earlier d (earliest ds)

-- `now >= d` for an armed deadline
abbrev pub due : Instant → Option Instant → Bool
due now none = false
due now (some d) = leb d.micros now.micros

abbrev pub forget_recovery : Bool → Scoreboard → Scoreboard
forget_recovery sack_enabled sb = if sack_enabled then on_rto sb else sb

module _ {C : Type 0} where
  unfoldable pub poll_at : Tcb C → Option Instant
  poll_at t = earliest (
      t.rtx_deadline
      ∷ (t.persist_deadline
          ∷ (t.time_wait_deadline ∷ (t.delayed_ack_deadline ∷ (t.pace_deadline ∷ [])))))

  unfoldable pub restart_rtx : Tcb C → Instant → Tcb C
  restart_rtx t now = record t { rtx_deadline = some (plus_micros now (rto_micros t.rtt)) }

  unfoldable pub start_rtx : Tcb C → Instant → Tcb C
  unfolding restart_rtx
  start_rtx t now = if is_some t.rtx_deadline then t else restart_rtx t now

  unfoldable pub arm_persist : Tcb C → Instant → Tcb C
  arm_persist t now = if is_some t.persist_deadline then t else record t {
    persist_backoff = persist_min_millis;
    persist_deadline = some (plus_millis now persist_min_millis);
  }

  unfoldable pub arm_delayed_ack : Tcb C → Instant → Tcb C
  arm_delayed_ack t now =
      if is_some t.delayed_ack_deadline
      then t
      else record t { delayed_ack_deadline = some (plus_millis now delayed_ack_millis) }

  -- The token bucket of the pacing, after the time since the last call.
  unfoldable pub pace_allowance : Tcb C → Instant → ℕ → ℕ → ℕ × Tcb C
  pace_allowance t now rate mss =
      let elapsed = saturating_micros_since now t.pace_last in
      let earned = saturating_mul_u64 elapsed rate / 1_000_000 in
      let cap = max (rate / 1_000) (2 * mss) in
      let tokens = min (saturating_add_u64 t.pace_tokens earned) cap in
      (min tokens u32_max, record t { pace_tokens = tokens; pace_last = now })

  unfoldable pub arm_pace : Tcb C → Instant → ℕ → ℕ → Tcb C
  arm_pace t now rate have =
      let need = t.snd_mss - have in
      let wait_us = max (div_ceil (saturating_mul_u64 need 1_000_000) (max rate 1)) 1 in
      record t { pace_deadline = some (plus_micros now wait_us) }

  -- The SYN of an active open, again, or the end of the attempt.
  unfoldable pub resend_syn : Tcb C → Instant → Tcb C
  resend_syn t now =
      let retries = u16 (t.syn_retries + 1) in
      if leb max_syn_retries retries
      then record t { syn_retries = retries; state = closed; rtx_deadline = none }
      else restart_rtx
          (record t { syn_retries = retries; retransmit = true; rtt = on_timeout t.rtt }) now

  -- The retransmission timer past the handshake.
  unfoldable pub retransmission_timeout : CongestionControl C → Tcb C → Instant → Tcb C
  retransmission_timeout ops t now =
      restart_rtx
        (record t {
          cc = ops.on_rto t.cc now (offset_from t.snd_nxt t.snd_una);
          rtt = on_timeout t.rtt;
          scoreboard = forget_recovery t.sack_enabled t.scoreboard;
          retransmit = true;
          retransmitted = true;
          rtt_sample = none;
          gbn_recover = some t.snd_nxt;
        })
        now

  unfoldable pub fire_rtx : CongestionControl C → Tcb C → Instant → Tcb C
  fire_rtx ops t now =
      if due now t.rtx_deadline
      then (if same_state t.state syn_sent
          then resend_syn t now
          else retransmission_timeout ops t now)
      else t

  unfoldable pub fire_persist : Tcb C → Instant → Tcb C
  fire_persist t now =
      if due now t.persist_deadline
      then record t {
        send_probe = true;
        persist_backoff = min (t.persist_backoff * 2) persist_max_millis;
        persist_deadline = some (plus_millis now (min (t.persist_backoff * 2) persist_max_millis));
      }
      else t

  unfoldable pub fire_time_wait : Tcb C → Instant → Tcb C
  fire_time_wait t now = if due now t.time_wait_deadline then record t { state = closed } else t

  unfoldable pub fire_delayed_ack : Tcb C → Instant → Tcb C
  fire_delayed_ack t now =
      if due now t.delayed_ack_deadline
      then record t { needs_ack = true; delayed_ack_deadline = none }
      else t

  unfoldable pub on_timer : CongestionControl C → Tcb C → Instant → Tcb C
  on_timer ops t now =
      fire_delayed_ack (fire_time_wait (fire_persist (fire_rtx ops t now) now) now) now
