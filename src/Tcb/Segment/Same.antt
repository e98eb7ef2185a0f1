-- ===== src/Tcb/Segment/Same.antt =====
-- What the steps of tcp-core/src/tcb.rs that take an ACK leave alone.
use ferrumnet.Prelude.{
  ℕ, ◌≡◌, refl, ◌∙◌, Bool, false, not, ◌&&◌, ◌||◌, Option, if◌then◌else◌, if_both, is_some, ltb,
}
use ferrumnet.Seq.{SeqNumber, le, gt, offset_from}
use ferrumnet.Sack.{update, in_recovery, is_lost}
use ferrumnet.Time.{Instant}
use ferrumnet.State.{syn_received, same_state}
use ferrumnet.Congestion.{CongestionControl}
use ferrumnet.Wire.Tcp.{TcpPacket, seq, ack, window, sack_blocks}
use ferrumnet.Tcb.{Tcb}
use ferrumnet.Tcb.Window.{update_window, opened}
use ferrumnet.Tcb.Ack.{
  process_ack, advance, rearm, measure_rtt, drain, trim_board, take_marks, take_acked,
}
use ferrumnet.Tcb.Timers.{restart_rtx}
use ferrumnet.Tcb.Receive.{echo_of, ack_our_syn}
use ferrumnet.Tcb.Segment.{
  ace_of, is_dup, enter_recovery, take_blocks, fast_retransmit, after_ack, take_ack, seg_ts,
}

-- The connection stays itself: its endpoints and first numbers, and whether it was reset.
pub record Same {C : Type 0} (t u : Tcb C) : Type 0 where
  pub reset_same : u.reset ≡ t.reset
  pub local_same : u.local ≡ t.local
  pub remote_same : u.remote ≡ t.remote
  pub iss_same : u.iss ≡ t.iss
  pub irs_same : u.irs ≡ t.irs

module _ {C : Type 0} where
  pub itself : (t : Tcb C) → Same t t
  itself t = record {
    reset_same = refl;
    local_same = refl;
    remote_same = refl;
    iss_same = refl;
    irs_same = refl;
  }

  -- A step that leaves the five fields alone, after `h`.
  pub step :
      (t u w : Tcb C)
      → Same t u
      → w.reset ≡ u.reset
      → w.local ≡ u.local
      → w.remote ≡ u.remote
      → w.iss ≡ u.iss
      → w.irs ≡ u.irs
      → Same t w
  step t u w h a b c d e = record {
    reset_same = a ∙ h.reset_same;
    local_same = b ∙ h.local_same;
    remote_same = c ∙ h.remote_same;
    iss_same = d ∙ h.iss_same;
    irs_same = e ∙ h.irs_same;
  }

  pub alone :
      (t w : Tcb C)
      → w.reset ≡ t.reset
      → w.local ≡ t.local
      → w.remote ≡ t.remote
      → w.iss ≡ t.iss
      → w.irs ≡ t.irs
      → Same t w
  alone t w a b c d e = record {
    reset_same = a;
    local_same = b;
    remote_same = c;
    iss_same = d;
    irs_same = e;
  }

  pub before : (t u w : Tcb C) → Same t u → Same u w → Same t w
  before t u w h k = step t u w h k.reset_same k.local_same k.remote_same k.iss_same k.irs_same

  abbrev Both : Tcb C → Bool × Tcb C → Type 0
  Both t x = Same t x.1

  same-update_window : (t : Tcb C) (s a w : ℕ) → Same t (update_window t s a w)
  unfolding update_window opened
  same-update_window t s a w =
      if_both (Same t) _ _ _
        (if_both (Same t) (ltb 0 w) _ _ (alone t _ refl refl refl refl refl)
          (alone t _ refl refl refl refl refl))
        (itself t)

  same-advance :
      (ops : CongestionControl C) (t : Tcb C) (a : SeqNumber) (e : Option ℕ) (ace : ℕ)
      (now : Instant)
      → Same t (advance ops t a e ace now)
  unfolding advance rearm measure_rtt drain trim_board take_marks take_acked
  same-advance ops t a e ace now = alone t _ refl refl refl refl refl

  same-process_ack :
      (ops : CongestionControl C) (t : Tcb C) (s a w : ℕ) (e : Option ℕ) (ace : ℕ) (now : Instant)
      → Same t (process_ack ops t s a w e ace now).1
  unfolding process_ack
  same-process_ack ops t s a w e ace now =
      if_both (Both t) (gt a t.snd_nxt) _ _ (alone t _ refl refl refl refl refl) (
        if_both (Both t) (gt a t.snd_una) _ _
          (before t _ _ (same-advance ops t a e ace now) (same-update_window _ s a w))
          (same-update_window t s a w))

  same-ack_our_syn : (t : Tcb C) (s a w : ℕ) → Same t (ack_our_syn t s a w).1
  unfolding ack_our_syn
  same-ack_our_syn t s a w =
      let u : Tcb C = record t { snd_una = a } in
      if_both (Both t) (gt a t.snd_una && le a t.snd_nxt) _ _
        (step t (update_window u s a w) _
          (before t u _ (alone t u refl refl refl refl refl) (same-update_window u s a w)) refl refl
          refl refl refl)
        (alone t _ refl refl refl refl refl)

  same-enter_recovery :
      (ops : CongestionControl C) (t : Tcb C) (third : Bool × C) (now : Instant)
      → Same t (enter_recovery ops t third now)
  unfolding enter_recovery restart_rtx
  same-enter_recovery ops t third now =
      if_both (Same t) (third.0 || is_lost t.scoreboard t.snd_una t.snd_mss) _ _
        (alone t _ refl refl refl refl refl) (alone t _ refl refl refl refl refl)

  same-take_blocks :
      (ops : CongestionControl C) (t : Tcb C) (tcp : TcpPacket) (dup : Bool) (now : Instant)
      → Same t (take_blocks ops t tcp dup now)
  unfolding take_blocks
  same-take_blocks ops t tcp dup now =
      let u : Tcb C = record t {
        scoreboard = update t.scoreboard t.snd_una t.snd_nxt (sack_blocks tcp);
      } in
      let third : Bool × C =
        if dup then ops.on_dup_ack t.cc now (offset_from t.snd_nxt t.snd_una) else (false, t.cc) in
      if_both (Same t) (not (in_recovery u.scoreboard) && not (is_some t.gbn_recover))
        (enter_recovery ops u third now) u
        (before t u _ (alone t u refl refl refl refl refl) (same-enter_recovery ops u third now))
        (alone t u refl refl refl refl refl)

  same-fast_retransmit :
      (ops : CongestionControl C) (t : Tcb C) (now : Instant) → Same t (fast_retransmit ops t now)
  unfolding fast_retransmit restart_rtx
  same-fast_retransmit ops t now =
      if_both (Same t) (ops.on_dup_ack t.cc now (offset_from t.snd_nxt t.snd_una)).0 _ _
        (alone t _ refl refl refl refl refl) (alone t _ refl refl refl refl refl)

  same-after_ack :
      (ops : CongestionControl C) (t : Tcb C) (tcp : TcpPacket) (dup : Bool) (now : Instant)
      → Same t (after_ack ops t tcp dup now)
  unfolding after_ack
  same-after_ack ops t tcp dup now =
      if_both (Same t) t.sack_enabled _ _ (same-take_blocks ops t tcp dup now)
        (if_both (Same t) dup _ _ (same-fast_retransmit ops t now) (itself t))

  pub same-take_ack :
      (ops : CongestionControl C) (t : Tcb C) (tcp : TcpPacket) (now : Instant)
      → Same t (take_ack ops t tcp now).1
  unfolding take_ack
  same-take_ack ops t tcp now =
      let done : Bool × Tcb C =
        process_ack ops t (seq tcp) (ack tcp) (window tcp) (echo_of (seg_ts t tcp)) (ace_of tcp)
          now in
      let acked : Same t done.1 =
        same-process_ack ops t (seq tcp) (ack tcp) (window tcp) (echo_of (seg_ts t tcp))
          (ace_of tcp) now in
      if_both (Both t) (same_state t.state syn_received) _ _
        (same-ack_our_syn t (seq tcp) (ack tcp) (window tcp))
        (if_both (Both t) done.0 _ done
          (before t done.1 _ acked (same-after_ack ops done.1 tcp (is_dup t tcp) now)) acked)
