-- ===== src/Tcb/Transmit/Window.antt =====
-- The new data that tcp-core/src/tcb.rs sends, and the windows it keeps to.
use ferrumnet.Prelude.{
  ℕ, ◌+◌, ◌-◌, ◌≤◌, ◌<◌, ◌≡◌, refl, sym, ap, ap₂, ◌∙◌, arith, List, ◌++◌, length, length-take,
  length-drop, length-replicate, drop-replicate, take, drop, replicate, Option, some, none, min,
  u32, ltb, ◌==◌, ◌&&◌, if_both, if_case, append-nil, subst, is_some,
}
use ferrumnet.Seq.{add, offset_from}
use ferrumnet.Time.{Instant}
use ferrumnet.Buffers.{RingBuffer, len}
use ferrumnet.Buffers.Laws.{peek_lem}
use ferrumnet.Congestion.{CongestionControl}
use ferrumnet.Datagram.{Frame}
use ferrumnet.Tcb.{Tcb}
use ferrumnet.Tcb.Timers.{pace_allowance, arm_pace, start_rtx}
use ferrumnet.Wire.Tcp.Emit.{header_len}
use ferrumnet.Tcb.Build.{build, max_segment_payload}
use ferrumnet.Tcb.Build.Size.{build-snd_mss}
use ferrumnet.Tcb.Transmit.{Sent, peeked, flight_pipe, room, pace, send_new, transmit_new, probe}

abbrev pub inflight : {C : Type 0} → Tcb C → ℕ
inflight t = offset_from t.snd_nxt t.snd_una

peeked_lem :
    (tx : RingBuffer) (off n : ℕ) → off + n ≤ len tx → peeked tx off n ≡ take n (drop off tx.buf)
unfolding peeked
peeked_lem tx off n h =
    let zeros : List ℕ = replicate n 0 in
    ap (λ r. r.1) (peek_lem tx off zeros)
    ∙ ap (λ m. take m (drop off tx.buf) ++ drop m zeros)
        (omega (arith, length-replicate {A = ℕ} n 0))
    ∙ ap (λ rest. take n (drop off tx.buf) ++ rest) (drop-replicate {A = ℕ} n 0)
    ∙ append-nil (take n (drop off tx.buf))

-- A segment of new data keeps to both windows, keeps with its options to the segment size, carries the first unsent bytes
-- of the buffer under their number, and moves `snd_nxt` past them.
pub record Within {C : Type 0} (ops : CongestionControl C) (t : Tcb C) (f : Frame) (u : Tcb C)
    : Type 0 where
  pub some_data : 0 < length f.body
  pub peer_window : inflight t + length f.body ≤ t.snd_wnd
  pub congestion_window : flight_pipe t + length f.body ≤ ops.cwnd t.cc
  pub segment_size : length f.body + (header_len f.repr - 20) ≤ t.snd_mss
  pub first_unsent : f.body ≡ take (length f.body) (drop (inflight t) t.tx.buf)
  pub numbered : f.repr.seq ≡ t.snd_nxt
  pub moved : u.snd_nxt ≡ add t.snd_nxt (u32 (length f.body))

-- What the pacing leaves of the connection.
record Paced {C : Type 0} (t : Tcb C) (allowed : ℕ) (p : ℕ × Tcb C) : Type 0 where
  no_more : p.0 ≤ allowed
  tx_same : p.1.tx ≡ t.tx
  nxt_same : p.1.snd_nxt ≡ t.snd_nxt
  una_same : p.1.snd_una ≡ t.snd_una
  payload_same : max_segment_payload p.1 ≡ max_segment_payload t
  mss_same : p.1.snd_mss ≡ t.snd_mss

module _ {C : Type 0} where
  paced_lem :
      (o : Option ℕ) (t : Tcb C) (allowed unsent : ℕ) (now : Instant)
      → Paced t allowed (pace o t allowed unsent now)
  unfolding pace pace_allowance arm_pace max_segment_payload
  paced_lem none t allowed unsent now = record {
    no_more = omega arith;
    tx_same = refl;
    nxt_same = refl;
    una_same = refl;
    payload_same = refl;
    mss_same = refl;
  }
  paced_lem (some rate) t allowed unsent now = record {
    no_more = omega arith;
    tx_same = ground arith;
    nxt_same = ground arith;
    una_same = ground arith;
    payload_same = ground arith;
    mss_same = ground arith;
  }

  -- What a step sends, if it sends.
  Good : CongestionControl C → Tcb C → Sent C → Type 0
  Good ops t (none, u) = Unit
  Good ops t (some f, u) = Within ops t f u

  nxt-start_rtx : (u : Tcb C) (now : Instant) → (start_rtx u now).snd_nxt ≡ u.snd_nxt
  unfolding start_rtx
  nxt-start_rtx u now =
      if_both (λ (x : Tcb C). x.snd_nxt ≡ u.snd_nxt) (is_some u.rtx_deadline) _ _ refl refl

  Good-send_new :
      (ops : CongestionControl C) (t : Tcb C) (p : ℕ × Tcb C) (n : ℕ) (now : Instant)
      → let unsent = len t.tx - min (inflight t) (len t.tx) in
        Paced t (room ops t) p
        → n ≡ min (min p.0 unsent) (max_segment_payload t)
        → 0 < n
        → Good ops t (send_new ops p.1 n unsent (room ops t) now)
  unfolding Good send_new build
  Good-send_new ops t p n now paced e h =
      let k : ℕ = min (inflight p.1) (len p.1.tx) in
      let at : k ≡ inflight t = omega (
        arith,
        e,
        h,
        ap₂ offset_from paced.nxt_same paced.una_same,
        ap (λ b. len b) paced.tx_same,
      ) in
      let bytes : peeked p.1.tx k n ≡ take n (drop (inflight t) t.tx.buf) =
        ap (λ b. peeked b k n) paced.tx_same
        ∙ ap (λ o. peeked t.tx o n) at
        ∙ peeked_lem t.tx (inflight t) n (omega (arith, e, h)) in
      let as_many : length (peeked p.1.tx k n) ≡ n =
        ap length bytes
        ∙ omega (
          arith,
          e,
          h,
          length-take n (drop (inflight t) t.tx.buf),
          length-drop (inflight t) t.tx.buf,
        ) in
      record {
        some_data = omega (arith, as_many, h);
        peer_window = omega (arith, as_many, h, e, paced.no_more);
        congestion_window = omega (arith, as_many, h, e, paced.no_more);
        segment_size = omega (
          arith,
          as_many,
          build-snd_mss p.1 p.1.snd_nxt (k + n == len p.1.tx) (peeked p.1.tx k n) n h
              (omega (arith, e, paced.payload_same)),
          paced.mss_same,
        );
        first_unsent = bytes ∙ ap (λ m. take m (drop (inflight t) t.tx.buf)) (sym as_many);
        numbered = paced.nxt_same;
        moved =
            nxt-start_rtx _ now
            ∙ ap (λ x. add x (u32 n)) paced.nxt_same
            ∙ ap (λ m. add t.snd_nxt (u32 m)) (sym as_many);
      }

  Good-transmit_new :
      (ops : CongestionControl C) (t : Tcb C) (now : Instant)
      → 0 < t.snd_wnd
      → Good ops t (transmit_new ops t now)
  unfolding Good transmit_new
  Good-transmit_new ops t now w =
      let unsent : ℕ = len t.tx - min (inflight t) (len t.tx) in
      let p : ℕ × Tcb C = pace (ops.pacing_rate t.cc) t (room ops t) unsent now in
      let n : ℕ = min (min p.0 unsent) (max_segment_payload t) in
      if_both (Good ops t) (ltb 0 p.0) _ _
        (if_case (Good ops t) (ltb 0 n) (send_new ops p.1 n unsent (room ops t) now) (none, p.1)
          (λ e.
            Good-send_new ops t p n now (paced_lem (ops.pacing_rate t.cc) t (room ops t) unsent now)
              refl (ground (arith, e)))
          (λ e. tt))
        (if_case (Good ops t) (ltb 0 unsent && (inflight t == 0 && t.snd_wnd - inflight t == 0))
          (probe p.1 now) (none, p.1) (λ e. absurd (ground (arith, e, w))) (λ e. tt))

  -- With a window of the peer that is not zero, a segment of new data that goes out keeps to the
  -- window of the peer and to that of congestion, and its bytes and its options together keep to
  -- `snd_mss`; it carries the first bytes of the buffer that were not sent, under their sequence
  -- number, which moves past them.
  pub transmit_new-Within :
      (ops : CongestionControl C) (t : Tcb C) (now : Instant) (f : Frame) (u : Tcb C)
      → 0 < t.snd_wnd
      → transmit_new ops t now ≡ (some f, u)
      → Within ops t f u
  unfolding Good
  transmit_new-Within ops t now f u w e =
      subst (λ (x : Sent C). Good ops t x) e (Good-transmit_new ops t now w)
