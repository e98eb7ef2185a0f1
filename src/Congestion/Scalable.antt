-- ===== src/Congestion/Scalable.antt =====
-- What the controllers Dctcp, Prague, Learned and Synth of tcp-core/src/congestion.rs have in
-- common: their fields, and their methods as functions of the responses in which they differ.
pub mod Envelope
use ferrumnet.Prelude.{
  ℕ, zero, suc, ◌+◌, ◌-◌, ◌*◌, Bool, true, false, min, max, u8_max, u32, u32_max, ltb, leb, ◌==◌,
  saturating_add, if◌then◌else◌,
}
use ferrumnet.Congestion.{initial_window}
use ferrumnet.Congestion.Float.{Float, ◌⊕◌, ◌⊖◌, ◌⊗◌, ◌⊘◌}

pub record Window (F : Type 0) : Type 0 where
  pub cwnd : ℕ
  pub ssthresh : ℕ
  pub mss : ℕ
  pub ca_acc : ℕ
  pub dup_acks : ℕ
  pub alpha : F
  pub acked_in_window : ℕ
  pub marked_in_window : ℕ
  pub window_bytes : ℕ

module _ {F : Type 0} where
  abbrev pub in_slow_start : Window F → Bool
  in_slow_start w = ltb w.cwnd w.ssthresh

  -- `while self.ca_acc >= self.cwnd`, on fuel, with the window that follows a window. A round takes
  -- at least one byte from `ca_acc` when the window is not empty, so that `ca_acc` rounds are enough.
  unfoldable pub credit : (ℕ → ℕ) → ℕ → Window F → Window F
  credit next zero w = w
  credit next (suc fuel) w = elim (leb w.cwnd w.ca_acc) [
    | true ↦ credit next fuel (record w { ca_acc = w.ca_acc - w.cwnd; cwnd = next w.cwnd })
    | false ↦ w
  ]

  unfoldable pub grow : (Window F → ℕ → ℕ → ℕ) → Window F → ℕ → Window F
  unfolding credit
  grow increase w acked =
      if in_slow_start w
      then record w { cwnd = saturating_add w.cwnd (min acked w.mss) }
      else let total = saturating_add w.ca_acc acked in
        let counted : Window F = record w { ca_acc = total } in
        credit (increase counted acked) total counted

  -- `on_ack`, with the next window of a round of congestion avoidance
  unfoldable pub on_ack : (Window F → ℕ → ℕ → ℕ) → Window F → ℕ → Window F
  unfolding grow
  on_ack increase w acked =
      let reset : Window F = record w { dup_acks = 0 } in
      if acked == 0 then reset else grow increase reset acked

  -- `on_dup_ack`, `enter_recovery` and `on_rto`, with the threshold after a loss
  unfoldable pub on_dup_ack : (Window F → ℕ) → Window F → Bool × Window F
  on_dup_ack target w =
      let counted : Window F = record w { dup_acks = min (w.dup_acks + 1) u8_max } in
      let t = target counted in
      if counted.dup_acks == 3
      then (true, record counted { cwnd = t; ssthresh = t; ca_acc = 0 })
      else (false, counted)

  unfoldable pub enter_recovery : (Window F → ℕ) → Window F → Window F
  enter_recovery target w = record w {
    cwnd = target w;
    ssthresh = target w;
    ca_acc = 0;
    dup_acks = 0;
  }

  unfoldable pub on_rto : (Window F → ℕ) → Window F → Window F
  on_rto target w = record w { cwnd = w.mss; ssthresh = target w; ca_acc = 0 }

  unfoldable pub set_mss : Window F → ℕ → Window F
  set_mss w mss = record w { mss = mss; cwnd = max w.cwnd mss; ca_acc = 0 }

  -- `2 * self.mss`
  abbrev pub two_segments : Window F → ℕ
  two_segments w = u32 (2 * w.mss)

module _ {F : Type 0} ⦃fl : Float F⦄ where
  -- `new`: the fraction starts at 1.
  unfoldable pub new : ℕ → Window F
  unfolding initial_window
  new mss = record {
    cwnd = initial_window mss;
    ssthresh = u32_max;
    mss = mss;
    ca_acc = 0;
    dup_acks = 0;
    alpha = fl.decimal 1 0;
    acked_in_window = 0;
    marked_in_window = 0;
    window_bytes = initial_window mss;
  }

  -- `DCTCP_G`, 1 / 16
  abbrev pub dctcp_g : F
  dctcp_g = fl.decimal 1 0 ⊘ fl.decimal 16 0

  abbrev pub smoothed : F → ℕ → ℕ → F
  smoothed alpha marked acked =
      (fl.decimal 1 0 ⊖ dctcp_g) ⊗ alpha ⊕ dctcp_g ⊗ (fl.of_nat marked ⊘ fl.of_nat acked)

  -- The end of the observed window, with the window after a marked one.
  unfoldable pub close_window : (Window F → ℕ) → Window F → Window F
  close_window cut w =
      let u : Window F = record w {
        alpha = smoothed w.alpha w.marked_in_window w.acked_in_window;
      } in
      let v : Window F =
        if ltb 0 w.marked_in_window
        then record u { cwnd = cut u; ssthresh = cut u; ca_acc = 0 }
        else u in
      record v { acked_in_window = 0; marked_in_window = 0; window_bytes = max w.cwnd w.mss }

  -- `on_ecn`
  unfoldable pub on_ecn : (Window F → ℕ) → Window F → ℕ → ℕ → Window F
  unfolding close_window
  on_ecn cut w acked marked =
      let counted : Window F = record w {
        acked_in_window = saturating_add w.acked_in_window acked;
        marked_in_window = saturating_add w.marked_in_window (min marked acked);
      } in
      if acked == 0
      then w
      else if ltb counted.acked_in_window w.window_bytes
      then counted
      else close_window cut counted
