-- ===== src/Congestion/Scalable/Envelope.antt =====
-- What the responses of a controller decide about its window, for the methods that Dctcp, Prague,
-- Learned and Synth of tcp-core/src/congestion.rs share.
use ferrumnet.Prelude.{
  ℕ, zero, suc, ◌+◌, ◌-◌, ◌*◌, ◌^◌, ◌≤◌, ◌<◌, ◌≡◌, refl, arith, false, if_both, min, u32_max, ltb,
  ◌==◌, saturating_add,
}
use ferrumnet.Congestion.{initial_window}
use ferrumnet.Congestion.Float.{Float, Lawful}
use ferrumnet.Congestion.Scalable.{
  Window, credit, grow, on_ack, on_dup_ack, enter_recovery, on_rto, set_mss, new, smoothed,
  close_window, on_ecn,
}

-- The segment size, and the window between it and the largest integer.
pub record Fits {F : Type 0} (w : Window F) : Type 0 where
  pub mss_pos : 0 < w.mss
  pub mss_lt : w.mss < 2 ^ 16
  pub mss_le : w.mss ≤ w.cwnd
  pub cwnd_le : w.cwnd ≤ u32_max

module _ {F : Type 0} where
  -- What a response must keep to.
  abbrev pub IncreaseFits : (Window F → ℕ → ℕ → ℕ) → Type 0
  IncreaseFits increase =
      (u : Window F) (acked c : ℕ)
      → 0 < u.mss
      → u.mss < 2 ^ 16
      → u.mss ≤ c
      → c ≤ u32_max
      → (u.mss ≤ increase u acked c) × (increase u acked c ≤ u32_max)

  abbrev pub TargetFits : (Window F → ℕ) → Type 0
  TargetFits target =
      (u : Window F) → 0 < u.mss → u.mss < 2 ^ 16 → (2 * u.mss ≤ target u) × (target u ≤ u32_max)

  abbrev pub CutFits : (Window F → ℕ) → Type 0
  CutFits cut =
      (u : Window F)
      → 0 < u.mss
      → u.mss < 2 ^ 16
      → u.mss ≤ u.cwnd
      → (u.mss ≤ cut u) × (cut u ≤ u32_max)

  credit-Fits :
      (next : ℕ → ℕ) (m fuel : ℕ) (w : Window F)
      → ((c : ℕ) → m ≤ c → c ≤ u32_max → (m ≤ next c) × (next c ≤ u32_max))
      → m ≤ w.cwnd
      → w.cwnd ≤ u32_max
      → (m ≤ (credit next fuel w).cwnd)
        × ((credit next fuel w).cwnd ≤ u32_max)
        × ((credit next fuel w).mss ≡ w.mss)
        × ((credit next fuel w).alpha ≡ w.alpha)
  unfolding credit
  credit-Fits next m zero w h a b = ground arith
  credit-Fits next m (suc fuel) w h a b = ground (
    arith,
    h w.cwnd,
    credit-Fits next m fuel (record w { ca_acc = w.ca_acc - w.cwnd; cwnd = next w.cwnd }) h,
  )

  credit-ends :
      (next : ℕ → ℕ) (m fuel : ℕ) (w : Window F)
      → ((c : ℕ) → m ≤ c → c ≤ u32_max → (m ≤ next c) × (next c ≤ u32_max))
      → 0 < m
      → m ≤ w.cwnd
      → w.cwnd ≤ u32_max
      → w.ca_acc ≤ fuel
      → (credit next fuel w).ca_acc < (credit next fuel w).cwnd
  unfolding credit
  credit-ends next m zero w h p a b f = ground arith
  credit-ends next m (suc fuel) w h p a b f = ground (
    arith,
    h w.cwnd,
    credit-ends next m fuel (record w { ca_acc = w.ca_acc - w.cwnd; cwnd = next w.cwnd }) h,
  )

  credit-grows :
      (next : ℕ → ℕ) (fuel : ℕ) (w : Window F)
      → ((c : ℕ) → c ≤ u32_max → (c ≤ next c) × (next c ≤ u32_max))
      → w.cwnd ≤ u32_max
      → w.cwnd ≤ (credit next fuel w).cwnd
  unfolding credit
  credit-grows next zero w h b = omega arith
  credit-grows next (suc fuel) w h b = ground (
    arith,
    h w.cwnd,
    credit-grows next fuel (record w { ca_acc = w.ca_acc - w.cwnd; cwnd = next w.cwnd }) h,
  )

  pub on_ack-Fits :
      (increase : Window F → ℕ → ℕ → ℕ) (w : Window F) (acked : ℕ)
      → IncreaseFits increase
      → Fits w
      → Fits (on_ack increase w acked)
        × ((on_ack increase w acked).mss ≡ w.mss)
        × ((on_ack increase w acked).alpha ≡ w.alpha)
  unfolding on_ack grow
  on_ack-Fits increase w acked h v =
      let total : ℕ = saturating_add w.ca_acc acked in
      let counted : Window F = record w { dup_acks = 0; ca_acc = total } in
      let c =
        credit-Fits (increase counted acked) w.mss total counted
          (λ c p q. h counted acked c v.mss_pos v.mss_lt p q) v.mss_le v.cwnd_le in
      ground (arith, v.mss_pos, v.mss_lt, v.mss_le, v.cwnd_le, c)

  pub on_ack-grows :
      (increase : Window F → ℕ → ℕ → ℕ) (w : Window F) (acked : ℕ)
      → ((u : Window F) (a c : ℕ) → c ≤ u32_max → (c ≤ increase u a c) × (increase u a c ≤ u32_max))
      → w.cwnd ≤ u32_max
      → w.cwnd ≤ (on_ack increase w acked).cwnd
  unfolding on_ack grow
  on_ack-grows increase w acked h v =
      let total : ℕ = saturating_add w.ca_acc acked in
      let counted : Window F = record w { dup_acks = 0; ca_acc = total } in
      let c = credit-grows (increase counted acked) total counted (h counted acked) v in
      ground (arith, c)

  pub on_dup_ack-Fits :
      (target : Window F → ℕ) (w : Window F)
      → TargetFits target
      → Fits w
      → Fits (on_dup_ack target w).1
        × ((on_dup_ack target w).1.mss ≡ w.mss)
        × ((on_dup_ack target w).1.alpha ≡ w.alpha)
  unfolding on_dup_ack
  on_dup_ack-Fits target w h v =
      let counted : Window F = record w { dup_acks = min (w.dup_acks + 1) 255 } in
      ground (arith, v.mss_pos, v.mss_lt, v.mss_le, v.cwnd_le, h counted)

  pub enter_recovery-Fits :
      (target : Window F → ℕ) (w : Window F)
      → TargetFits target
      → Fits w
      → Fits (enter_recovery target w)
  unfolding enter_recovery
  enter_recovery-Fits target w h v = ground (arith, v.mss_pos, v.mss_lt, v.mss_le, v.cwnd_le, h w)

  pub on_rto-Fits : (target : Window F → ℕ) (w : Window F) → Fits w → Fits (on_rto target w)
  unfolding on_rto
  on_rto-Fits target w v = ground (arith, v.mss_pos, v.mss_lt, v.mss_le, v.cwnd_le)

  pub set_mss-Fits :
      (w : Window F) (mss : ℕ) → 0 < mss → mss < 2 ^ 16 → Fits w → Fits (set_mss w mss)
  unfolding set_mss
  set_mss-Fits w mss h k v = ground (arith, v.mss_pos, v.mss_lt, v.mss_le, v.cwnd_le)

module _ {F : Type 0} ⦃fl : Float F⦄ where
  pub new-Fits : (mss : ℕ) → 0 < mss → mss < 2 ^ 16 → Fits {F = F} (new mss)
  unfolding new initial_window
  new-Fits mss h k = record { mss_pos = h; mss_lt = k; mss_le = omega arith; cwnd_le = omega arith }

  -- Not negative, or no number.
  abbrev pub NonNeg : F → Type 0
  NonNeg x = fl.less x (fl.decimal 0 0) ≡ false

  -- What holds at each of its returns holds of the result of `on_ecn`.
  on_ecn-each :
      (P : Window F → Type 0) (cut : Window F → ℕ) (w : Window F) (acked marked : ℕ)
      → P w
      → ((a m : ℕ) → P (record w { acked_in_window = a; marked_in_window = m }))
      → ((a m : ℕ) → P (close_window cut (record w { acked_in_window = a; marked_in_window = m })))
      → P (on_ecn cut w acked marked)
  unfolding on_ecn
  on_ecn-each P cut w acked marked same counted closed =
      let a : ℕ = saturating_add w.acked_in_window acked in
      let m : ℕ = saturating_add w.marked_in_window (min marked acked) in
      if_both P (acked == 0) _ _ same
        (if_both P (ltb a w.window_bytes) _ _ (counted a m) (closed a m))

  close_window-Fits :
      (cut : Window F → ℕ) (w : Window F)
      → CutFits cut
      → Fits w
      → Fits (close_window cut w) × ((close_window cut w).mss ≡ w.mss)
  unfolding close_window
  close_window-Fits cut w h v =
      let u : Window F = record w {
        alpha = smoothed w.alpha w.marked_in_window w.acked_in_window;
      } in
      ground (arith, v.mss_pos, v.mss_lt, v.mss_le, v.cwnd_le, h u)

  pub on_ecn-Fits :
      (cut : Window F → ℕ) (w : Window F) (acked marked : ℕ)
      → CutFits cut
      → Fits w
      → Fits (on_ecn cut w acked marked) × ((on_ecn cut w acked marked).mss ≡ w.mss)
  on_ecn-Fits cut w acked marked h v =
      on_ecn-each (λ z. Fits z × (z.mss ≡ w.mss)) cut w acked marked (v, refl)
        (λ a m. (
          record { mss_pos = v.mss_pos; mss_lt = v.mss_lt; mss_le = v.mss_le; cwnd_le = v.cwnd_le },
          refl,
        ))
        (λ a m.
          close_window-Fits cut (record w { acked_in_window = a; marked_in_window = m }) h
            (record {
              mss_pos = v.mss_pos;
              mss_lt = v.mss_lt;
              mss_le = v.mss_le;
              cwnd_le = v.cwnd_le;
            }))

  -- A cut that never passes the window, as long as the fraction is not negative, makes no mark
  -- grow the window.
  pub on_ecn-shrinks :
      (cut : Window F → ℕ) (w : Window F) (acked marked : ℕ)
      → ((u : Window F) → NonNeg u.alpha → u.mss ≤ u.cwnd → u.cwnd ≤ u32_max → cut u ≤ u.cwnd)
      → ((marks total : ℕ) → NonNeg (smoothed w.alpha marks total))
      → Fits w
      → (on_ecn cut w acked marked).cwnd ≤ w.cwnd
  unfolding close_window
  on_ecn-shrinks cut w acked marked h k v =
      on_ecn-each (λ z. z.cwnd ≤ w.cwnd) cut w acked marked (omega arith) (λ a m. omega arith)
        λ a m.
          let u : Window F = record w {
            alpha = smoothed w.alpha m a;
            acked_in_window = a;
            marked_in_window = m;
          } in
          let bound : cut u ≤ w.cwnd = h u (k m a) v.mss_le v.cwnd_le in
          if_both (λ (z : Window F). z.cwnd ≤ w.cwnd) (ltb 0 m) _ _ bound (omega arith)

  pub on_ecn-NonNeg :
      (cut : Window F → ℕ) (w : Window F) (acked marked : ℕ)
      → NonNeg w.alpha
      → ((marks total : ℕ) → NonNeg (smoothed w.alpha marks total))
      → NonNeg (on_ecn cut w acked marked).alpha
  unfolding close_window
  on_ecn-NonNeg cut w acked marked v h =
      on_ecn-each (λ z. NonNeg z.alpha) cut w acked marked v (λ a m. v)
        λ a m. if_both (λ (z : Window F). NonNeg z.alpha) (ltb 0 m) _ _ (h m a) (h m a)

module _ {F : Type 0} ⦃fl : Float F⦄ (laws : Lawful fl) where
  pub decimal-NonNeg : (m k : ℕ) → NonNeg (fl.decimal m k)
  decimal-NonNeg m k = laws.decimal_mono 0 0 m k (omega arith)

  -- The average of fractions that are not negative is not negative.
  pub smoothed-NonNeg :
      (alpha : F) (marks total : ℕ) → NonNeg alpha → NonNeg (smoothed alpha marks total)
  smoothed-NonNeg alpha marks total h =
      laws.plus_nonneg _ _
        (laws.times_nonneg _ _ (laws.minus_nonneg _ (laws.over_le 1 16 (omega arith))) h)
        (laws.times_nonneg _ _ (laws.over_nonneg _ _ (decimal-NonNeg 1 0) (decimal-NonNeg 16 0))
          (laws.over_nonneg _ _ (laws.of_nat_nonneg marks) (laws.of_nat_nonneg total)))
