-- ===== src/Tcb/Window.antt =====
-- The helpers of tcp-core/src/tcb.rs that judge a segment: the receive window, the send window, the
-- limit on challenge ACKs.
pub mod Accept
use ferrumnet.Prelude.{
  ℕ, ◌+◌, ◌-◌, ◌*◌, ◌^◌, Bool, true, false, ◌&&◌, ◌||◌, none, ltb, leb, ◌==◌, u32, if◌then◌else◌,
}
use ferrumnet.Seq.{SeqNumber, lt, le, ge, add}
use ferrumnet.Time.{Instant, saturating_micros_since}
use ferrumnet.Tcb.{Tcb, persist_min_millis, challenge_ack_limit}

module _ {C : Type 0} where
  unfoldable pub seq_in_window : Tcb C → SeqNumber → Bool
  seq_in_window t seq =
      if t.rcv_adv == t.rcv_nxt then seq == t.rcv_nxt else ge seq t.rcv_nxt && lt seq t.rcv_adv

  unfoldable pub segment_acceptable : Tcb C → SeqNumber → ℕ → Bool
  segment_acceptable t seq seg_len =
      let inside : Bool = ge seq t.rcv_nxt && lt seq t.rcv_adv in
      let last : SeqNumber = add seq (seg_len - 1) in
      if seg_len == 0
      then (if t.rcv_adv == t.rcv_nxt then seq == t.rcv_nxt else inside)
      else if t.rcv_adv == t.rcv_nxt
      then false
      else inside || (ge last t.rcv_nxt && lt last t.rcv_adv)

  -- A window that is open ends the probing.
  unfoldable pub opened : ℕ → Tcb C → Tcb C
  opened seg_wnd t =
      if ltb 0 seg_wnd
      then record t {
        persist_deadline = none;
        persist_backoff = persist_min_millis;
        send_probe = false;
      }
      else t

  unfoldable pub update_window : Tcb C → SeqNumber → SeqNumber → ℕ → Tcb C
  update_window t seg_seq seg_ack seg_wnd =
      if lt t.snd_wl1 seg_seq || (t.snd_wl1 == seg_seq && le t.snd_wl2 seg_ack)
      then opened seg_wnd (record t {
        snd_wnd = u32 (seg_wnd * 2 ^ t.snd_wscale);
        snd_wl1 = seg_seq;
        snd_wl2 = seg_ack;
      })
      else t

  -- A second after the window of the limit began, it begins anew.
  unfoldable pub renew_challenges : Tcb C → Instant → Tcb C
  renew_challenges t now =
      if leb 1_000_000 (saturating_micros_since now t.challenge_window_start)
      then record t { challenge_window_start = now; challenge_count = 0 }
      else t

  unfoldable pub challenge_ack : Tcb C → Instant → Tcb C
  challenge_ack t now =
      let u : Tcb C = renew_challenges t now in
      if ltb u.challenge_count challenge_ack_limit
      then record u { challenge_count = u.challenge_count + 1; needs_ack = true }
      else u

  unfoldable pub take_needs_ack : Tcb C → Bool × Tcb C
  take_needs_ack t = (t.needs_ack, record t { needs_ack = false })
