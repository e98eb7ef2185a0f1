-- ===== src/Bmc/Genomes.antt =====
-- `check_learned_genome_space` of tcp-core/src/bmc.rs: the sweep over a grid of genomes.
use ferrumnet.Prelude.{ℕ, ◌+◌, ◌^◌, ◌<◌, arith, List, [], ◌∷◌, none, u16, u64, ap₂, subst}
use ferrumnet.Congestion.Float.{Float, Lawful, ◌⊕◌, ◌⊘◌}
use ferrumnet.Congestion.Learned.{LearnedParams, with_params, learned_control}
use ferrumnet.Bmc.{BmcReport, or_else, empty_report, for_each, check_controller_safety}
use ferrumnet.Bmc.Clean.{IsClean, for_each-IsClean, empty_report-IsClean}
use ferrumnet.Bmc.Controllers.{learned-IsClean}

unfoldable pub merge : BmcReport → BmcReport → BmcReport
merge sub r = record {
  cases = u64 (r.cases + sub.cases);
  violations = u64 (r.violations + sub.violations);
  first_violation = or_else r.first_violation sub.first_violation;
}

merge-IsClean : (sub r : BmcReport) → IsClean sub → IsClean r → IsClean (merge sub r)
unfolding merge
merge-IsClean sub r h k = record {
  no_violations = ap₂ (λ a b. u64 (a + b)) k.no_violations h.no_violations;
  no_first = ap₂ or_else k.no_first h.no_first;
}

module _ {F : Type 0} ⦃fl : Float F⦄ where
  abbrev pub grid : F → F → List F
  grid lo hi = lo ∷ ((lo ⊕ hi) ⊘ fl.decimal 2 0 ∷ (hi ∷ []))

  -- The sweep of one genome, and the five loops around it.
  unfoldable pub sweep_genome : ℕ → ℕ → LearnedParams F → BmcReport → BmcReport
  unfolding merge
  sweep_genome mss depth p r =
      merge (check_controller_safety (learned_control none) (with_params (u16 mss) p) mss depth) r

  unfoldable pub sweep_max : ℕ → ℕ → F → F → F → F → BmcReport → BmcReport
  unfolding sweep_genome
  sweep_max mss depth ai md ea eb =
      for_each
        (λ em.
          sweep_genome mss depth
            (record { ai_gain = ai; md_loss = md; ecn_a = ea; ecn_b = eb; ecn_max = em }))
        (grid (fl.decimal 5 2) (fl.decimal 95 2))

  unfoldable pub sweep_b : ℕ → ℕ → F → F → F → BmcReport → BmcReport
  unfolding sweep_max
  sweep_b mss depth ai md ea =
      for_each (sweep_max mss depth ai md ea) (grid (fl.neg (fl.decimal 1 0)) (fl.decimal 2 0))

  unfoldable pub sweep_a : ℕ → ℕ → F → F → BmcReport → BmcReport
  unfolding sweep_b
  sweep_a mss depth ai md =
      for_each (sweep_b mss depth ai md) (grid (fl.decimal 0 0) (fl.decimal 2 0))

  unfoldable pub sweep_md : ℕ → ℕ → F → BmcReport → BmcReport
  unfolding sweep_a
  sweep_md mss depth ai = for_each (sweep_a mss depth ai) (grid (fl.decimal 1 1) (fl.decimal 95 2))

unfoldable pub check_learned_genome_space : (F : Type 0) ⦃fl : Float F⦄ → ℕ → ℕ → BmcReport
unfolding sweep_md
check_learned_genome_space F ⦃fl⦄ mss depth =
    for_each (sweep_md mss depth) (grid {F = F} (fl.decimal 5 2) (fl.decimal 8 0)) empty_report

module _ {F : Type 0} ⦃fl : Float F⦄ (laws : Lawful fl) where
  one :
      (p : LearnedParams F) (mss depth : ℕ)
      → 0 < mss
      → mss < 2 ^ 16
      → (r : BmcReport) → IsClean r
      → IsClean (sweep_genome mss depth p r)
  unfolding sweep_genome
  one p mss depth h k r v =
      merge-IsClean _ r
        (subst
          (λ m.
            IsClean (check_controller_safety (learned_control none) (with_params m p) mss depth))
          (omega arith) (learned-IsClean laws p mss depth h k))
        v

  module _ (mss depth : ℕ) (h : 0 < mss) (k : mss < 2 ^ 16) where
    max-IsClean :
        (ai md ea eb : F) (r : BmcReport) → IsClean r → IsClean (sweep_max mss depth ai md ea eb r)
    unfolding sweep_max
    max-IsClean ai md ea eb = for_each-IsClean _ _ (λ em. one _ mss depth h k)

    b-IsClean : (ai md ea : F) (r : BmcReport) → IsClean r → IsClean (sweep_b mss depth ai md ea r)
    unfolding sweep_b
    b-IsClean ai md ea = for_each-IsClean _ _ (max-IsClean ai md ea)

    a-IsClean : (ai md : F) (r : BmcReport) → IsClean r → IsClean (sweep_a mss depth ai md r)
    unfolding sweep_a
    a-IsClean ai md = for_each-IsClean _ _ (b-IsClean ai md)

    md-IsClean : (ai : F) (r : BmcReport) → IsClean r → IsClean (sweep_md mss depth ai r)
    unfolding sweep_md
    md-IsClean ai = for_each-IsClean _ _ (a-IsClean ai)

  -- For a segment size of 1 to 65535 bytes and any depth, the sweeps of all genomes of the grid find
  -- no violation.
  pub genome_space-IsClean :
      (mss depth : ℕ) → 0 < mss → mss < 2 ^ 16 → IsClean (check_learned_genome_space F mss depth)
  unfolding check_learned_genome_space
  genome_space-IsClean mss depth h k =
      for_each-IsClean _ _ (md-IsClean mss depth h k) empty_report empty_report-IsClean
