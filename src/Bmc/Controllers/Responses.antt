-- ===== src/Bmc/Controllers/Responses.antt =====
-- One event of tcp-core/src/bmc.rs on the fields that the scalable controllers share, from the
-- bounds that a controller's responses keep.
use ferrumnet.Prelude.{
  ℕ, ◌+◌, ◌*◌, ◌^◌, ◌≤◌, ◌<◌, ◌≡◌, arith, refl, ap, subst, ◌==◌, u8_max, if_both, ◌∙◌, none, some,
  min, max, u32_max, Bool, if◌then◌else◌,
}
use ferrumnet.Congestion.Float.{Float}
use ferrumnet.Congestion.Scalable.{
  Window, on_ack, on_dup_ack, enter_recovery, on_rto, on_ecn, smoothed,
}
use ferrumnet.Congestion.Scalable.Envelope.{
  Fits, TargetFits, CutFits, on_ack-Fits, on_ack-grows, enter_recovery-Fits, on_rto-Fits,
  on_ecn-Fits, on_ecn-shrinks, on_ecn-NonNeg, NonNeg,
}
use ferrumnet.Bmc.{
  CcEvent, acked, marked, rtt, duplicate, timeout, recovery, Flight, flight_bytes,
  cc_safety_invariants, loss_clause, event_clause,
}

-- After a loss the threshold is between two segments and the greater of them and the flight.
module _ {F : Type 0} where
  abbrev pub WithinFlight : ℕ → (Window F → ℕ) → Type 0
  WithinFlight flight target =
      (u : Window F)
      → 0 < u.mss
      → u.mss < 2 ^ 16
      → (2 * u.mss ≤ target u) × (target u ≤ max flight (2 * u.mss)) × (target u ≤ u32_max)

ack_clause :
    (a before cwnd ssthresh mss : ℕ)
    → mss ≤ cwnd
    → before ≤ cwnd
    → cc_safety_invariants (acked a) before cwnd ssthresh mss none ≡ none
unfolding cc_safety_invariants
ack_clause a before cwnd ssthresh mss h k = ground arith

pub ecn_clause :
    (a m before cwnd ssthresh mss : ℕ)
    → mss ≤ cwnd
    → cwnd ≤ before
    → cc_safety_invariants (marked a m) before cwnd ssthresh mss none ≡ none
unfolding cc_safety_invariants
ecn_clause a m before cwnd ssthresh mss h k = ground arith

-- Of a loss that set window and threshold to one value within the flight, and of a timeout.
loss_clauses :
    (ev : CcEvent) (before cwnd ssthresh mss flight : ℕ)
    → event_clause ev before cwnd ≡ none
    → 0 < mss
    → mss < 2 ^ 16
    → mss ≤ cwnd
    → cwnd ≤ max flight (2 * mss)
    → 2 * mss ≤ ssthresh
    → cc_safety_invariants ev before cwnd ssthresh mss (some flight) ≡ none
unfolding cc_safety_invariants loss_clause
loss_clauses ev before cwnd ssthresh mss flight e h k a b c = ground (arith, e)

-- An event without a loss.
quiet :
    (ev : CcEvent) (before cwnd ssthresh mss : ℕ)
    → event_clause ev before cwnd ≡ none
    → mss ≤ cwnd
    → cc_safety_invariants ev before cwnd ssthresh mss none ≡ none
unfolding cc_safety_invariants loss_clause
quiet ev before cwnd ssthresh mss e h = ground (arith, e)

-- The window of a segment size, with a fraction that is not negative.
pub record Keeps {F : Type 0} ⦃fl : Float F⦄ (mss : ℕ) (w : Window F) : Type 0 where
  pub fits : Fits w
  pub mss_eq : w.mss ≡ mss
  pub fraction : NonNeg w.alpha

module _ {F : Type 0} ⦃fl : Float F⦄ (mss : ℕ) (w : Window F) (v : Keeps mss w) where
  pub ack_keeps :
      (increase : Window F → ℕ → ℕ → ℕ) (a : ℕ)
      → ((u : Window F) (b c : ℕ) → c ≤ u32_max → (c ≤ increase u b c) × (increase u b c ≤ u32_max))
      → Keeps mss (on_ack increase w a)
        × (cc_safety_invariants
              (acked a)
              w.cwnd
              (on_ack increase w a).cwnd
              (on_ack increase w a).ssthresh
              mss
              none
            ≡ none)
  ack_keeps increase a h =
      let f =
        on_ack-Fits increase w a (λ u b c p q r s. (omega (arith, (h u b c s).0), (h u b c s).1))
          v.fits in
      (
        record {
          fits = f.0;
          mss_eq = f.1 ∙ v.mss_eq;
          fraction = ap (λ x. fl.less x (fl.decimal 0 0)) f.2 ∙ v.fraction;
        },
        ack_clause a _ _ _ _ (omega (arith, f.0.mss_le, f.1, v.mss_eq))
            (on_ack-grows increase w a h v.fits.cwnd_le),
      )

  pub ecn_keeps :
      (cut : Window F → ℕ) (a m : ℕ)
      → CutFits cut
      → ((u : Window F) → NonNeg u.alpha → u.mss ≤ u.cwnd → u.cwnd ≤ u32_max → cut u ≤ u.cwnd)
      → ((marks total : ℕ) → NonNeg (smoothed w.alpha marks total))
      → Keeps mss (on_ecn cut w a m)
        × (cc_safety_invariants
              (marked a m)
              w.cwnd
              (on_ecn cut w a m).cwnd
              (on_ecn cut w a m).ssthresh
              mss
              none
            ≡ none)
  ecn_keeps cut a m h k s =
      let f = on_ecn-Fits cut w a m h v.fits in
      (
        record {
          fits = f.0;
          mss_eq = f.1 ∙ v.mss_eq;
          fraction = on_ecn-NonNeg cut w a m v.fraction s;
        },
        ecn_clause a m _ _ _ _ (omega (arith, f.0.mss_le, f.1, v.mss_eq))
            (on_ecn-shrinks cut w a m k s v.fits),
      )

  pub rtt_keeps : (s : ℕ) → cc_safety_invariants (rtt s) w.cwnd w.cwnd w.ssthresh mss none ≡ none
  unfolding event_clause
  rtt_keeps s =
      quiet (rtt s) w.cwnd w.cwnd w.ssthresh mss refl (omega (arith, v.fits.mss_le, v.mss_eq))

  module _ (fl_kind : Flight) (target : Window F → ℕ)
      (h : WithinFlight (flight_bytes mss fl_kind) target) where
    -- What a loss leaves.
    lost_keeps :
        (ev : CcEvent) (z : Window F)
        → event_clause ev w.cwnd z.cwnd ≡ none
        → Fits z
        → z.mss ≡ w.mss
        → z.alpha ≡ w.alpha
        → z.cwnd ≤ max (flight_bytes mss fl_kind) (2 * z.mss)
        → 2 * z.mss ≤ z.ssthresh
        → Keeps mss z
          × (cc_safety_invariants ev w.cwnd z.cwnd z.ssthresh mss (some (flight_bytes mss fl_kind))
              ≡ none)
    lost_keeps ev z e f m x c t =
        let same : z.mss ≡ mss = m ∙ v.mss_eq in
        (
          record {
            fits = f;
            mss_eq = same;
            fraction = ap (λ y. fl.less y (fl.decimal 0 0)) x ∙ v.fraction;
          },
          loss_clauses ev w.cwnd z.cwnd z.ssthresh mss (flight_bytes mss fl_kind) e
              (omega (arith, f.mss_pos)) (omega (arith, f.mss_lt)) (omega (arith, f.mss_le))
              (subst (λ y. z.cwnd ≤ max (flight_bytes mss fl_kind) (2 * y)) same c)
              (subst (λ y. 2 * y ≤ z.ssthresh) same t),
        )

    target_fits : TargetFits target
    target_fits u p q = ((h u p q).0, (h u p q).2)

    pub dup_keeps :
        Keeps mss (on_dup_ack target w).1
        × (cc_safety_invariants
              (duplicate fl_kind)
              w.cwnd
              (on_dup_ack target w).1.cwnd
              (on_dup_ack target w).1.ssthresh
              mss
              (if (on_dup_ack target w).0 then some (flight_bytes mss fl_kind) else none)
            ≡ none)
    unfolding on_dup_ack event_clause
    dup_keeps =
        let counted : Window F = record w { dup_acks = min (w.dup_acks + 1) u8_max } in
        let bound = h counted v.fits.mss_pos v.fits.mss_lt in
        let z : Window F = record counted {
          cwnd = target counted;
          ssthresh = target counted;
          ca_acc = 0;
        } in
        let fits : Fits z = record {
          mss_pos = v.fits.mss_pos;
          mss_lt = v.fits.mss_lt;
          mss_le = omega (arith, bound.0);
          cwnd_le = bound.2;
        } in
        if_both
          (λ (r : Bool × Window F).
            Keeps mss r.1
            × (cc_safety_invariants (duplicate fl_kind) w.cwnd r.1.cwnd r.1.ssthresh mss
                  (if r.0 then some (flight_bytes mss fl_kind) else none)
                ≡ none))
          (counted.dup_acks == 3) _ _
          (lost_keeps (duplicate fl_kind) z refl fits refl refl bound.1 bound.0)
          (
            record {
              fits = record {
                mss_pos = v.fits.mss_pos;
                mss_lt = v.fits.mss_lt;
                mss_le = v.fits.mss_le;
                cwnd_le = v.fits.cwnd_le;
              };
              mss_eq = v.mss_eq;
              fraction = v.fraction;
            },
            quiet (duplicate fl_kind) w.cwnd w.cwnd w.ssthresh mss refl
                (omega (arith, v.fits.mss_le, v.mss_eq)),
          )

    pub recovery_keeps :
        Keeps mss (enter_recovery target w)
        × (cc_safety_invariants
              (recovery fl_kind)
              w.cwnd
              (enter_recovery target w).cwnd
              (enter_recovery target w).ssthresh
              mss
              (some (flight_bytes mss fl_kind))
            ≡ none)
    unfolding enter_recovery event_clause
    recovery_keeps =
        let bound = h w v.fits.mss_pos v.fits.mss_lt in
        lost_keeps (recovery fl_kind) (enter_recovery target w) refl
          (enter_recovery-Fits target w target_fits v.fits) refl refl bound.1 bound.0

    pub timeout_keeps :
        Keeps mss (on_rto target w)
        × (cc_safety_invariants
              (timeout fl_kind)
              w.cwnd
              (on_rto target w).cwnd
              (on_rto target w).ssthresh
              mss
              (some (flight_bytes mss fl_kind))
            ≡ none)
    unfolding on_rto event_clause
    timeout_keeps =
        let bound = h w v.fits.mss_pos v.fits.mss_lt in
        lost_keeps (timeout fl_kind) (on_rto target w) refl (on_rto-Fits target w v.fits) refl refl
          (omega arith) bound.0
