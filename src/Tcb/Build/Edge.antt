-- ===== src/Tcb/Build/Edge.antt =====
-- The right edge of the window that tcp-core/src/tcb.rs advertises.
use ferrumnet.Prelude.{
  ℕ, ◌+◌, ◌-◌, ◌*◌, ◌^◌, ◌≤◌, ◌<◌, ◌≡◌, refl, arith, min, max, u32, if◌then◌else◌,
}
use ferrumnet.Seq.{lt, add, offset_from}
use ferrumnet.Seq.Order.{Near, lt-offset, offset_from-add, offset_from_self, add-lt}
use ferrumnet.Buffers.{len}
use ferrumnet.Reasm.{buffered}
use ferrumnet.Tcb.{Tcb, rx_buffer}
use ferrumnet.Tcb.Build.{advertised_window}

-- The bytes that the buffers have room for, at most 65535 times the scale that was agreed on.
abbrev pub room_left : {C : Type 0} → Tcb C → ℕ
room_left t = min (rx_buffer - (len t.rx + buffered t.reasm)) (0xffff * 2 ^ t.rcv_wscale)

abbrev pub window_left : {C : Type 0} → Tcb C → ℕ
window_left t = offset_from t.rcv_adv t.rcv_nxt

-- The later of an edge and a window above the same number.
later_edge :
    (base adv w : ℕ)
    → Near base adv
    → w < 2 ^ 31
    → let right = if lt (add base (u32 w)) adv then adv else add base (u32 w) in
      (offset_from right base ≡ max (offset_from adv base) w) × (right < 2 ^ 32)
later_edge base adv w h k =
    let e =
      offset_from-add base base (u32 w) h.base_fits h.base_fits
        (omega (arith, offset_from_self base)) in
    let near : Near base (add base (u32 w)) = record {
      fits = add-lt base (u32 w);
      base_fits = h.base_fits;
      close = omega (arith, e.1);
    } in
    ground (arith, lt-offset base (add base (u32 w)) adv near h, e.1, near.fits, h.fits)

-- With an advertised window below 2 ^ 31, the window that is advertised next is the larger of two:
-- what is left of the last, and what the buffers have room for, capped at 65535 times the scale that
-- was agreed on, the most that the window field can say. So its right edge never moves to the left;
-- the edge that the connection remembers is the one it advertises, and is near again.
pub advertised_window_lem :
    {C : Type 0}
    → (t : Tcb C) → Near t.rcv_nxt t.rcv_adv
    → ((advertised_window t).0 ≡ max (window_left t) (room_left t))
      × (window_left t ≤ window_left (advertised_window t).1)
      × (offset_from (advertised_window t).1.rcv_adv t.rcv_nxt ≡ (advertised_window t).0)
      × Near t.rcv_nxt (advertised_window t).1.rcv_adv
unfolding advertised_window
advertised_window_lem t h =
    let e = later_edge t.rcv_nxt t.rcv_adv (room_left t) h (omega arith) in
    (
      e.0,
      omega (arith, e.0),
      refl,
      record { fits = e.1; base_fits = h.base_fits; close = omega (arith, e.0, h.close) },
    )
