-- ===== src/Bmc/Clean.antt =====
-- The sweep of tcp-core/src/bmc.rs over a controller with an invariant that all events keep.
use ferrumnet.Prelude.{ℕ, zero, suc, ◌≡◌, refl, List, [], ◌∷◌, Option, none}
use ferrumnet.Congestion.{CongestionControl}
use ferrumnet.Bmc.{
  BmcReport, check, for_each, CcEvent, apply_cc, CcInvariant, explore_cc, empty_report,
}

-- No violation, and so no first one.
pub record IsClean (r : BmcReport) : Type 0 where
  pub no_violations : r.violations ≡ 0
  pub no_first : r.first_violation ≡ none

pub empty_report-IsClean : IsClean empty_report
empty_report-IsClean = record { no_violations = refl; no_first = refl }

pub check-IsClean : (r : BmcReport) {o : Option _} → o ≡ none → IsClean r → IsClean (check r o)
unfolding check
check-IsClean r e h = rw e (record { no_violations = h.no_violations; no_first = h.no_first })

pub for_each-IsClean {ℓ} :
    {A : Type ℓ} (body : A → BmcReport → BmcReport) (xs : List A)
    → ((x : A) (s : BmcReport) → IsClean s → IsClean (body x s))
    → (r : BmcReport) → IsClean r
    → IsClean (for_each body xs r)
unfolding for_each
for_each-IsClean body [] h r v = v
for_each-IsClean body (x ∷ xs) h r v = for_each-IsClean body xs h (body x r) (h x r v)

module _ {C : Type 0} (control : CongestionControl C) where
  -- The predicate holds after an event.
  abbrev pub Passes : CcInvariant → ℕ → C → CcEvent → Type 0
  Passes inv mss c ev =
      inv ev (control.cwnd c) (control.cwnd (apply_cc control c ev mss).1)
        (control.ssthresh (apply_cc control c ev mss).1) mss (apply_cc control c ev mss).0
      ≡ none

  -- A sweep from a state of an invariant that every event keeps, and after which the predicate
  -- holds, finds no violation at any depth.
  pub explore_cc-IsClean :
      (Inv : C → Type 0) (inv : CcInvariant) (mss : ℕ)
      → ((c : C) (ev : CcEvent) → Inv c → Inv (apply_cc control c ev mss).1 × Passes inv mss c ev)
      → (alphabet : List CcEvent) (depth : ℕ) (c : C) (r : BmcReport) → Inv c
      → IsClean r
      → IsClean (explore_cc control alphabet inv mss depth c r)
  unfolding explore_cc
  explore_cc-IsClean Inv inv mss keep alphabet zero c r i v = v
  explore_cc-IsClean Inv inv mss keep alphabet (suc depth) c r i v =
      for_each-IsClean _ alphabet
        (λ ev s h.
          explore_cc-IsClean Inv inv mss keep alphabet depth (apply_cc control c ev mss).1 _
            (keep c ev i).0 (check-IsClean s (keep c ev i).1 h))
        r v
