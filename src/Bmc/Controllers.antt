-- ===== src/Bmc/Controllers.antt =====
-- The safety envelope of tcp-core/src/bmc.rs, for the controllers of tcp-core/src/congestion.rs.
mod Responses
mod Tests
use ferrumnet.Prelude.{
  ℕ, ◌+◌, ◌*◌, ◌^◌, ◌≤◌, ◌<◌, ◌≡◌, arith, refl, false, none, max, u32_max, if_case, if_both,
}
use ferrumnet.Congestion.Float.{Float, Lawful, clamp}
use ferrumnet.Congestion.Scalable.{Window, new}
use ferrumnet.Congestion.Scalable.Envelope.{
  Fits, CutFits, NonNeg, decimal-NonNeg, smoothed-NonNeg, new-Fits,
}
use ferrumnet.Congestion.Dctcp
use ferrumnet.Congestion.Dctcp.{halved, cut_by_half_alpha, dctcp_control}
use ferrumnet.Congestion.Prague
use ferrumnet.Congestion.Prague.{Prague, add_step, prague_control}
use ferrumnet.Congestion.Learned
use ferrumnet.Congestion.Learned.{
  LearnedParams, Learned, sanitized, with_params, with_raw_params, loss_ssthresh, learned_increase,
  cut_share, learned_cut, learned_control,
}
use ferrumnet.Bmc.{
  CcEvent, acked, marked, rtt, duplicate, timeout, recovery, Flight, small, initial, large,
  flight_bytes, apply_cc, check_controller_safety, run_cc_sweep, cc_safety_invariants, cc_alphabet,
}
use ferrumnet.Bmc.Clean.{IsClean, Passes, explore_cc-IsClean, empty_report-IsClean}
use ferrumnet.Bmc.Controllers.Responses.{
  WithinFlight, Keeps, rtt_keeps, ack_keeps, ecn_keeps, dup_keeps, recovery_keeps, timeout_keeps,
}

flight_bytes-le : (mss : ℕ) (k : Flight) → flight_bytes mss k ≤ u32_max
unfolding flight_bytes
flight_bytes-le mss small = omega arith
flight_bytes-le mss initial = omega arith
flight_bytes-le mss large = omega arith

halved-WithinFlight :
    {F : Type 0} (flight : ℕ) → flight ≤ u32_max → WithinFlight {F = F} flight (halved flight)
halved-WithinFlight flight h u p q = (omega arith, omega arith, omega arith)

module _ {F : Type 0} ⦃fl : Float F⦄ (laws : Lawful fl) where
  -- A clamp to literals keeps below what is above both, and above what is below both.
  clamp-le :
      (x y : F) (a b c d : ℕ)
      → fl.less y (fl.decimal a b) ≡ false
      → fl.less y (fl.decimal c d) ≡ false
      → fl.less y (clamp x (fl.decimal a b) (fl.decimal c d)) ≡ false
  clamp-le x y a b c d h k =
      if_both (λ z. fl.less y z ≡ false) (fl.less x (fl.decimal a b)) _ _ h
        (if_case (λ z. fl.less y z ≡ false) (fl.less (fl.decimal c d) x) _ _ (λ _. k)
          (λ e. laws.across x y c d e k))

  clamp-NonNeg : (x hi : F) (a b : ℕ) → NonNeg hi → NonNeg (clamp x (fl.decimal a b) hi)
  clamp-NonNeg x hi a b h =
      if_case {A = F} (λ z. NonNeg z) (fl.less x (fl.decimal a b)) _ _
        (λ _. decimal-NonNeg laws a b)
        (λ e.
          if_both {A = F} (λ z. NonNeg z) (fl.less hi x) _ _ h
            (laws.across (fl.decimal 0 0) x a b (decimal-NonNeg laws a b) e))

  cut-CutFits :
      (share : Window F → F)
      → CutFits (λ (u : Window F).
        max (fl.to_u32 (fl.times (fl.of_nat u.cwnd) (fl.minus (fl.decimal 1 0) (share u)))) u.mss)
  cut-CutFits share u p q r = (
    omega arith,
    omega
        (arith, laws.to_u32_le (fl.times (fl.of_nat u.cwnd) (fl.minus (fl.decimal 1 0) (share u)))),
  )

  -- To take a share that is not negative from a window does not grow it.
  cut-shrinks :
      (share : F) (cwnd mss : ℕ)
      → NonNeg share
      → mss ≤ cwnd
      → cwnd ≤ u32_max
      → max (fl.to_u32 (fl.times (fl.of_nat cwnd) (fl.minus (fl.decimal 1 0) share))) mss ≤ cwnd
  cut-shrinks share cwnd mss h k l =
      omega (arith, laws.scale_le cwnd (fl.minus (fl.decimal 1 0) share) l (laws.minus_le share h))

  half_alpha-NonNeg : (x : F) → NonNeg x → NonNeg (fl.over x (fl.decimal 2 0))
  half_alpha-NonNeg x h = laws.over_nonneg _ _ h (decimal-NonNeg laws 2 0)

  dctcp_step :
      (mss : ℕ) (w : Window F) (ev : CcEvent)
      → Keeps mss w
      → Keeps mss (apply_cc dctcp_control w ev mss).1
        × Passes dctcp_control cc_safety_invariants mss w ev
  unfolding apply_cc Dctcp.on_ack Dctcp.on_dup_ack Dctcp.enter_recovery Dctcp.on_rto Dctcp.on_ecn
  dctcp_step mss w (acked a) v =
      ack_keeps mss w v Dctcp.add_segment a (λ u b c h. (omega arith, omega arith))
  dctcp_step mss w (marked a m) v =
      ecn_keeps mss w v (cut_by_half_alpha) a m
        (cut-CutFits (λ u. fl.over u.alpha (fl.decimal 2 0)))
        (λ u h k l. cut-shrinks _ u.cwnd u.mss (half_alpha-NonNeg u.alpha h) k l)
        (λ marks total. smoothed-NonNeg laws w.alpha marks total v.fraction)
  dctcp_step mss w (rtt s) v = (v, rtt_keeps mss w v s)
  dctcp_step mss w (duplicate k) v =
      dup_keeps mss w v k (halved (flight_bytes mss k))
        (halved-WithinFlight (flight_bytes mss k) (flight_bytes-le mss k))
  dctcp_step mss w (timeout k) v =
      timeout_keeps mss w v k (halved (flight_bytes mss k))
        (halved-WithinFlight (flight_bytes mss k) (flight_bytes-le mss k))
  dctcp_step mss w (recovery k) v =
      recovery_keeps mss w v k (halved (flight_bytes mss k))
        (halved-WithinFlight (flight_bytes mss k) (flight_bytes-le mss k))

  prague_step :
      (mss : ℕ) (p : Prague F) (ev : CcEvent)
      → Keeps mss p.w
      → Keeps mss (apply_cc prague_control p ev mss).1.w
        × Passes prague_control cc_safety_invariants mss p ev
  unfolding apply_cc Prague.on_ack Prague.on_dup_ack Prague.enter_recovery Prague.on_rto
      Prague.on_ecn Prague.on_rtt_sample add_step
  prague_step mss p (acked a) v =
      ack_keeps mss p.w v (add_step p) a (λ u b c h. (omega arith, omega arith))
  prague_step mss p (marked a m) v =
      ecn_keeps mss p.w v cut_by_half_alpha a m
        (cut-CutFits (λ u. fl.over u.alpha (fl.decimal 2 0)))
        (λ u h k l. cut-shrinks _ u.cwnd u.mss (half_alpha-NonNeg u.alpha h) k l)
        (λ marks total. smoothed-NonNeg laws p.w.alpha marks total v.fraction)
  prague_step mss p (rtt s) v = (v, rtt_keeps mss p.w v s)
  prague_step mss p (duplicate k) v =
      dup_keeps mss p.w v k (halved (flight_bytes mss k))
        (halved-WithinFlight (flight_bytes mss k) (flight_bytes-le mss k))
  prague_step mss p (timeout k) v =
      timeout_keeps mss p.w v k (halved (flight_bytes mss k))
        (halved-WithinFlight (flight_bytes mss k) (flight_bytes-le mss k))
  prague_step mss p (recovery k) v =
      recovery_keeps mss p.w v k (halved (flight_bytes mss k))
        (halved-WithinFlight (flight_bytes mss k) (flight_bytes-le mss k))

  -- The genes on which the envelope rests: a loss keeps at most all of the flight, and the cap of a
  -- cut is not negative.
  record Sane (p : LearnedParams F) : Type 0 where
    loss_le : fl.less (fl.decimal 1 0) p.md_loss ≡ false
    cap_nonneg : NonNeg p.ecn_max

  sanitized-Sane : (p : LearnedParams F) → Sane (sanitized p)
  unfolding sanitized
  sanitized-Sane p = record {
    loss_le =
        clamp-le p.md_loss (fl.decimal 1 0) 1 1 95 2 (laws.decimal_mono 1 1 1 0 (omega arith))
          (laws.decimal_mono 95 2 1 0 (omega arith));
    cap_nonneg = clamp-NonNeg p.ecn_max (fl.decimal 95 2) 5 2 (decimal-NonNeg laws 95 2);
  }

  loss-WithinFlight :
      (p : LearnedParams F) (flight : ℕ)
      → Sane p
      → flight ≤ u32_max
      → WithinFlight flight (loss_ssthresh p flight)
  unfolding loss_ssthresh
  loss-WithinFlight p flight s h u a b =
      let scaled = laws.scale_le flight p.md_loss h s.loss_le in
      (omega arith, omega (arith, scaled), omega (arith, scaled))

  learned_step :
      (mss : ℕ) (l : Learned F) (ev : CcEvent)
      → Keeps mss l.w × Sane l.p
      → (Keeps mss (apply_cc (learned_control none) l ev mss).1.w
          × Sane (apply_cc (learned_control none) l ev mss).1.p)
        × Passes (learned_control none) cc_safety_invariants mss l ev
  unfolding apply_cc Learned.on_ack Learned.on_dup_ack Learned.enter_recovery Learned.on_rto
      Learned.on_ecn learned_increase learned_cut
  learned_step mss l (acked a) (v, s) =
      let r =
        ack_keeps mss l.w v (learned_increase l.p) a (λ u b c h. (omega arith, omega arith)) in
      ((r.0, s), r.1)
  learned_step mss l (marked a m) (v, s) =
      let r =
        ecn_keeps mss l.w v (learned_cut l.p) a m (cut-CutFits (λ u. cut_share l.p u.alpha))
          (λ u h k b. cut-shrinks _ u.cwnd u.mss (clamp-NonNeg _ _ 0 0 s.cap_nonneg) k b)
          (λ marks total. smoothed-NonNeg laws l.w.alpha marks total v.fraction) in
      ((r.0, s), r.1)
  learned_step mss l (rtt t) (v, s) = ((v, s), rtt_keeps mss l.w v t)
  learned_step mss l (duplicate k) (v, s) =
      let r =
        dup_keeps mss l.w v k (loss_ssthresh l.p (flight_bytes mss k))
          (loss-WithinFlight l.p (flight_bytes mss k) s (flight_bytes-le mss k)) in
      ((r.0, s), r.1)
  learned_step mss l (timeout k) (v, s) =
      let r =
        timeout_keeps mss l.w v k (loss_ssthresh l.p (flight_bytes mss k))
          (loss-WithinFlight l.p (flight_bytes mss k) s (flight_bytes-le mss k)) in
      ((r.0, s), r.1)
  learned_step mss l (recovery k) (v, s) =
      let r =
        recovery_keeps mss l.w v k (loss_ssthresh l.p (flight_bytes mss k))
          (loss-WithinFlight l.p (flight_bytes mss k) s (flight_bytes-le mss k)) in
      ((r.0, s), r.1)

  new-Keeps : (mss : ℕ) → 0 < mss → mss < 2 ^ 16 → Keeps {F = F} mss (new mss)
  unfolding new
  new-Keeps mss h k = record {
    fits = new-Fits mss h k;
    mss_eq = refl;
    fraction = decimal-NonNeg laws 1 0;
  }

  -- With floats that keep the laws, a segment size of 1 to 65535 bytes and any depth, the sweep of
  -- the safety envelope finds no violation for the learned controller, whatever genome it was built
  -- with.
  pub learned-IsClean :
      (p : LearnedParams F) (mss depth : ℕ)
      → 0 < mss
      → mss < 2 ^ 16
      → IsClean (check_controller_safety (learned_control none) (with_params mss p) mss depth)
  unfolding check_controller_safety run_cc_sweep with_params with_raw_params
  learned-IsClean p mss depth h k =
      explore_cc-IsClean (learned_control none) (λ l. Keeps mss l.w × Sane l.p) cc_safety_invariants
        mss (learned_step mss) (cc_alphabet mss) depth _ _ (new-Keeps mss h k, sanitized-Sane p)
        empty_report-IsClean

  -- With floats that keep the laws, a segment size of 1 to 65535 bytes and any depth, the sweep of
  -- the safety envelope finds no violation for Dctcp, and none for Prague.
  pub dctcp_prague-IsClean :
      (mss depth : ℕ)
      → 0 < mss
      → mss < 2 ^ 16
      → IsClean (check_controller_safety (dctcp_control {F = F}) (Dctcp.new mss) mss depth)
        × IsClean (check_controller_safety (prague_control {F = F}) (Prague.new mss) mss depth)
  unfolding check_controller_safety run_cc_sweep Dctcp.new Prague.new
  dctcp_prague-IsClean mss depth h k = (
    explore_cc-IsClean dctcp_control (Keeps mss) cc_safety_invariants mss (dctcp_step mss)
        (cc_alphabet mss) depth _ _ (new-Keeps mss h k) empty_report-IsClean,
    explore_cc-IsClean prague_control (λ p. Keeps mss p.w) cc_safety_invariants mss
        (prague_step mss) (cc_alphabet mss) depth _ _ (new-Keeps mss h k) empty_report-IsClean,
  )
