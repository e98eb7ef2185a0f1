-- ===== src/Tcb/Timers/Firing.antt =====
-- What the firing of the timers of tcp-core/src/tcb.rs leaves.
use ferrumnet.Prelude.{
  ◌+◌, ◌^◌, ◌≤◌, ◌<◌, ◌≡◌, refl, arith, Bool, true, false, ◌||◌, Option, none, some, u64_max,
  Bool-cases, inl, inr, ◌∙◌, ap,
}
use ferrumnet.Time.{Instant, plus_micros, plus_millis}
use ferrumnet.Rtt.{on_timeout, rto_micros}
use ferrumnet.State.{syn_sent, same_state}
use ferrumnet.Congestion.{CongestionControl}
use ferrumnet.Tcb.{Tcb}
use ferrumnet.Tcb.Timers.{
  earlier, due, poll_at, restart_rtx, resend_syn, retransmission_timeout, fire_rtx, fire_persist,
  fire_time_wait, fire_delayed_ack, on_timer,
}

-- The timeouts of the connection are in their bounds, and the clock is far from its end.
pub record Timed {C : Type 0} (t : Tcb C) (now : Instant) : Type 0 where
  pub rto_pos : 0 < rto_micros t.rtt
  pub rto_le : rto_micros t.rtt ≤ 60_000_000
  pub backoff_pos : 0 < t.persist_backoff
  pub backoff_le : t.persist_backoff ≤ 60_000
  pub clock : now.micros + 2 ^ 32 ≤ u64_max

restart_rtx_lem :
    {C : Type 0}
    → (t : Tcb C) (now : Instant) → 0 < rto_micros t.rtt
    → now.micros + 2 ^ 32 ≤ u64_max
    → due now (restart_rtx t now).rtx_deadline ≡ false
unfolding restart_rtx plus_micros
restart_rtx_lem t now h k = ground arith

resend_syn_lem :
    {C : Type 0}
    → (t : Tcb C) (now : Instant) → Timed t now
    → (due now (resend_syn t now).rtx_deadline ≡ false)
      × ((resend_syn t now).persist_backoff ≡ t.persist_backoff)
unfolding resend_syn on_timeout restart_rtx plus_micros
resend_syn_lem t now v = ground (arith, v.rto_pos, v.rto_le, v.clock)

timeout_lem :
    {C : Type 0}
    → (ops : CongestionControl C) (t : Tcb C) (now : Instant) → Timed t now
    → (due now (retransmission_timeout ops t now).rtx_deadline ≡ false)
      × ((retransmission_timeout ops t now).persist_backoff ≡ t.persist_backoff)
unfolding retransmission_timeout on_timeout restart_rtx plus_micros
timeout_lem ops t now v = ground (arith, v.rto_pos, v.rto_le, v.clock)

fire_rtx_lem :
    {C : Type 0}
    → (ops : CongestionControl C) (t : Tcb C) (now : Instant) → Timed t now
    → (due now (fire_rtx ops t now).rtx_deadline ≡ false)
      × ((fire_rtx ops t now).persist_backoff ≡ t.persist_backoff)
unfolding fire_rtx
fire_rtx_lem ops t now v = elim (Bool-cases (due now t.rtx_deadline)) [
  | inr e ↦ rw e (e, refl)
  | inl e ↦ elim (Bool-cases (same_state t.state syn_sent)) [
    | inl f ↦ rw (e, f) (resend_syn_lem t now v)
    | inr f ↦ rw (e, f) (timeout_lem ops t now v)
  ]
]

fire_persist_lem :
    {C : Type 0}
    → (t : Tcb C) (now : Instant) → 0 < t.persist_backoff
    → t.persist_backoff ≤ 60_000
    → now.micros + 2 ^ 32 ≤ u64_max
    → (due now (fire_persist t now).persist_deadline ≡ false)
      × ((fire_persist t now).rtx_deadline ≡ t.rtx_deadline)
unfolding fire_persist plus_millis
fire_persist_lem t now a b c = ground arith

fire_time_wait_lem :
    {C : Type 0}
    → (t : Tcb C) (now : Instant)
    → ((fire_time_wait t now).rtx_deadline ≡ t.rtx_deadline)
      × ((fire_time_wait t now).persist_deadline ≡ t.persist_deadline)
unfolding fire_time_wait
fire_time_wait_lem t now = ground arith

fire_delayed_ack_lem :
    {C : Type 0}
    → (t : Tcb C) (now : Instant)
    → (due now (fire_delayed_ack t now).delayed_ack_deadline ≡ false)
      × ((fire_delayed_ack t now).rtx_deadline ≡ t.rtx_deadline)
      × ((fire_delayed_ack t now).persist_deadline ≡ t.persist_deadline)
unfolding fire_delayed_ack
fire_delayed_ack_lem t now = elim (Bool-cases (due now t.delayed_ack_deadline)) [
  | inl e ↦ rw e (refl, refl, refl)
  | inr e ↦ rw e (e, refl, refl)
]

-- If the timeout and the backoff are in their bounds and the clock is not within 2 ^ 32
-- microseconds of its end, then after the timers fired none of those that retransmit, probe or
-- owe an ACK is due any more, so that a late wake is served once.
pub on_timer_lem :
    {C : Type 0}
    → (ops : CongestionControl C) (t : Tcb C) (now : Instant) → Timed t now
    → (due now (on_timer ops t now).rtx_deadline ≡ false)
      × (due now (on_timer ops t now).persist_deadline ≡ false)
      × (due now (on_timer ops t now).delayed_ack_deadline ≡ false)
unfolding on_timer
on_timer_lem {C = C} ops t now v =
    let a : Tcb C = fire_rtx ops t now in
    let b : Tcb C = fire_persist a now in
    let c : Tcb C = fire_time_wait b now in
    let one = fire_rtx_lem ops t now v in
    let two =
      fire_persist_lem a now (omega (arith, one.1, v.backoff_pos))
        (omega (arith, one.1, v.backoff_le)) v.clock in
    let three = fire_time_wait_lem b now in
    let four = fire_delayed_ack_lem c now in
    (
      ap (due now) (four.1 ∙ three.0 ∙ two.1) ∙ one.0,
      ap (due now) (four.2 ∙ three.1) ∙ two.0,
      four.0,
    )

or_false : (b : Bool) → (b || false) ≡ b
or_false true = refl
or_false false = refl

due-earlier :
    (now : Instant) (d e : Option Instant) → due now (earlier d e) ≡ (due now d || due now e)
due-earlier now none e = refl
due-earlier now (some d) none = ground arith
due-earlier now (some d) (some e) = ground arith

-- The deadline that the connection sleeps to is due exactly if one of the five timers is.
pub due-poll_at :
    {C : Type 0}
    → (t : Tcb C) (now : Instant)
    → due now (poll_at t) ≡ (
        due now t.rtx_deadline
        || (due now t.persist_deadline
            || (due now t.time_wait_deadline
                || (due now t.delayed_ack_deadline || due now t.pace_deadline))))
unfolding poll_at
due-poll_at t now =
    let five = due-earlier now t.pace_deadline none in
    let four = due-earlier now t.delayed_ack_deadline (earlier t.pace_deadline none) in
    let three =
      due-earlier now t.time_wait_deadline
        (earlier t.delayed_ack_deadline (earlier t.pace_deadline none)) in
    let two = due-earlier now t.persist_deadline (
      earlier t.time_wait_deadline
        (earlier t.delayed_ack_deadline (earlier t.pace_deadline none))) in
    due-earlier now t.rtx_deadline _
    ∙ ap (λ b. due now t.rtx_deadline || b)
        (two
          ∙ ap (λ b. due now t.persist_deadline || b)
              (three
                ∙ ap (λ b. due now t.time_wait_deadline || b)
                    (four
                      ∙ ap (λ b. due now t.delayed_ack_deadline || b)
                          (five ∙ or_false (due now t.pace_deadline)))))
