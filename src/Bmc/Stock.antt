-- ===== src/Bmc/Stock.antt =====
-- The sweep of tcp-core/src/bmc.rs on controllers as a connection holds them, in the `Cc` of
-- tcp-core/src/congestion.rs.
use ferrumnet.Prelude.{
  ℕ, zero, suc, ◌<◌, ◌^◌, ◌≡◌, refl, sym, ap, ◌∙◌, subst, List, [], ◌∷◌, Option, none,
}
use ferrumnet.Congestion.{CongestionControl, dctcp, learned, prague}
use ferrumnet.Congestion.Float.{Float, Lawful}
use ferrumnet.Congestion.Learned.{
  LearnedParams, Learned, learned_control, current_learned_params, with_params,
}
use ferrumnet.Congestion.Learned
use ferrumnet.Congestion.Scalable.{Window}
use ferrumnet.Congestion.Dctcp.{dctcp_control}
use ferrumnet.Congestion.Prague.{Prague, prague_control}
use ferrumnet.Congestion.Machine.{ControlProgram}
use ferrumnet.Congestion.Dispatch.{
  Cc, of_dctcp, of_learned, of_prague, new, cc_control, cc_on_ack, cc_on_dup_ack, cc_enter_recovery,
  cc_on_rto, cc_on_ecn, cc_on_rtt_sample, cc_cwnd, cc_ssthresh,
}
use ferrumnet.Bmc.{
  BmcReport, for_each, CcEvent, acked, marked, rtt, duplicate, timeout, recovery, cc_alphabet,
  apply_cc, CcInvariant, cc_safety_invariants, explore_cc, run_cc_sweep, check_controller_safety,
}
use ferrumnet.Bmc.Clean.{IsClean}
use ferrumnet.Bmc.Controllers.{learned-IsClean, dctcp_prague-IsClean}

-- Loops with equal bodies
for_each-ext {ℓ} :
    {A : Type ℓ} (f g : A → BmcReport → BmcReport)
    → ((x : A) (r : BmcReport) → f x r ≡ g x r)
    → (xs : List A) (r : BmcReport) → for_each f xs r ≡ for_each g xs r
unfolding for_each
for_each-ext f g h [] r = refl
for_each-ext f g h (x ∷ xs) r = ap (for_each f xs) (h x r) ∙ for_each-ext f g h xs (g x r)

-- One controller inside another, which answers as it does and stays around it.
record Embeds {C D : Type 0} (inner : CongestionControl C) (outer : CongestionControl D) (f : C → D)
    : Type 0 where
  same_cwnd : (c : C) → outer.cwnd (f c) ≡ inner.cwnd c
  same_ssthresh : (c : C) → outer.ssthresh (f c) ≡ inner.ssthresh c
  same_apply :
      (c : C) (ev : CcEvent) (mss : ℕ)
      → apply_cc outer (f c) ev mss ≡ ((apply_cc inner c ev mss).0, f (apply_cc inner c ev mss).1)

explore_cc-Embeds :
    {C D : Type 0} (inner : CongestionControl C) (outer : CongestionControl D) (f : C → D)
    → Embeds inner outer f
    → (alphabet : List CcEvent) (inv : CcInvariant) (mss depth : ℕ) (c : C) (r : BmcReport)
    → explore_cc outer alphabet inv mss depth (f c) r ≡ explore_cc inner alphabet inv mss depth c r
unfolding explore_cc
explore_cc-Embeds inner outer f e alphabet inv mss zero c r = refl
explore_cc-Embeds inner outer f e alphabet inv mss (suc depth) c r =
    for_each-ext _ _
      (λ ev r'.
        let next = (apply_cc inner c ev mss).1 in
        rw (e.same_apply c ev mss, e.same_cwnd c, e.same_cwnd next, e.same_ssthresh next)
          (explore_cc-Embeds inner outer f e alphabet inv mss depth next _))
      alphabet r

module _ {F K : Type 0} ⦃fl : Float F⦄ (cubic_ops : CongestionControl K)
    (training : Option (LearnedParams F)) (search : Option ControlProgram) where
  dctcp-apply :
      (c : Window F) (ev : CcEvent) (mss : ℕ)
      → apply_cc (cc_control cubic_ops training search) (of_dctcp c) ev mss ≡ (
        (apply_cc (dctcp_control {F = F}) c ev mss).0,
        of_dctcp (apply_cc (dctcp_control {F = F}) c ev mss).1,
      )
  unfolding apply_cc cc_on_ack cc_on_dup_ack cc_enter_recovery cc_on_rto cc_on_ecn cc_on_rtt_sample
  dctcp-apply c (acked a) mss = refl
  dctcp-apply c (marked a m) mss = refl
  dctcp-apply c (rtt t) mss = refl
  dctcp-apply c (duplicate fl) mss = refl
  dctcp-apply c (timeout fl) mss = refl
  dctcp-apply c (recovery fl) mss = refl

  dctcp-Embeds : Embeds (dctcp_control {F = F}) (cc_control cubic_ops training search) of_dctcp
  unfolding cc_cwnd cc_ssthresh
  dctcp-Embeds = record {
    same_cwnd = λ c. refl;
    same_ssthresh = λ c. refl;
    same_apply = dctcp-apply;
  }

  prague-apply :
      (c : Prague F) (ev : CcEvent) (mss : ℕ)
      → apply_cc (cc_control cubic_ops training search) (of_prague c) ev mss ≡ (
        (apply_cc (prague_control {F = F}) c ev mss).0,
        of_prague (apply_cc (prague_control {F = F}) c ev mss).1,
      )
  unfolding apply_cc cc_on_ack cc_on_dup_ack cc_enter_recovery cc_on_rto cc_on_ecn cc_on_rtt_sample
  prague-apply c (acked a) mss = refl
  prague-apply c (marked a m) mss = refl
  prague-apply c (rtt t) mss = refl
  prague-apply c (duplicate fl) mss = refl
  prague-apply c (timeout fl) mss = refl
  prague-apply c (recovery fl) mss = refl

  prague-Embeds : Embeds (prague_control {F = F}) (cc_control cubic_ops training search) of_prague
  unfolding cc_cwnd cc_ssthresh
  prague-Embeds = record {
    same_cwnd = λ c. refl;
    same_ssthresh = λ c. refl;
    same_apply = prague-apply;
  }

  learned-apply :
      (c : Learned F) (ev : CcEvent) (mss : ℕ)
      → apply_cc (cc_control cubic_ops training search) (of_learned c) ev mss ≡ (
        (apply_cc (learned_control {F = F} none) c ev mss).0,
        of_learned (apply_cc (learned_control {F = F} none) c ev mss).1,
      )
  unfolding apply_cc cc_on_ack cc_on_dup_ack cc_enter_recovery cc_on_rto cc_on_ecn cc_on_rtt_sample
  learned-apply c (acked a) mss = refl
  learned-apply c (marked a m) mss = refl
  learned-apply c (rtt t) mss = refl
  learned-apply c (duplicate fl) mss = refl
  learned-apply c (timeout fl) mss = refl
  learned-apply c (recovery fl) mss = refl

  learned-Embeds :
      Embeds (learned_control {F = F} none) (cc_control cubic_ops training search) of_learned
  unfolding cc_cwnd cc_ssthresh
  learned-Embeds = record {
    same_cwnd = λ c. refl;
    same_ssthresh = λ c. refl;
    same_apply = learned-apply;
  }

  -- With floats that keep the laws, a segment size of 1 to 65535 bytes and any depth, whatever CUBIC
  -- does, the sweep of the safety envelope finds no violation for what `Cc::new` makes of the kinds
  -- DCTCP, Prague and Learned, the last with any override of its genome.
  pub stock-IsClean :
      Lawful fl
      → (mss depth : ℕ) → 0 < mss
      → mss < 2 ^ 16
      → IsClean (
          check_controller_safety
            (cc_control cubic_ops training search)
            (new cubic_ops training search dctcp mss)
            mss
            depth)
        × IsClean (
            check_controller_safety
              (cc_control cubic_ops training search)
              (new cubic_ops training search prague mss)
              mss
              depth)
        × IsClean (
            check_controller_safety
              (cc_control cubic_ops training search)
              (new cubic_ops training search learned mss)
              mss
              depth)
  unfolding check_controller_safety run_cc_sweep new Learned.new
  stock-IsClean laws mss depth h k =
      let both = dctcp_prague-IsClean laws mss depth h k in
      let outer : CongestionControl (Cc F K) = cc_control cubic_ops training search in
      (
        subst IsClean
            (sym (
              explore_cc-Embeds _ outer of_dctcp dctcp-Embeds (cc_alphabet mss) cc_safety_invariants
                mss depth _ _))
            both.0,
        subst IsClean
            (sym (
              explore_cc-Embeds _ outer of_prague prague-Embeds (cc_alphabet mss)
                cc_safety_invariants mss depth _ _))
            both.1,
        subst IsClean
            (sym (
              explore_cc-Embeds _ outer of_learned learned-Embeds (cc_alphabet mss)
                cc_safety_invariants mss depth _ _))
            (learned-IsClean laws (current_learned_params training) mss depth h k),
      )
