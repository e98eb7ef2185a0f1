-- ===== src/Sack/NextSeg.antt =====
-- `Scoreboard::next_seg` of tcp-core/src/sack.rs: which byte is repaired next.
use native.Mathlib.Decide.{dec_lt}
use ferrumnet.Prelude.{
  ℕ, zero, suc, ◌+◌, ◌-◌, ◌≤◌, ◌<◌, ◌≡◌, ◌∙◌, arith, Bool, true, false, ◌⊎◌, inl, inr, Option, none,
  some, Bool-cases, Option-cases,
}
use ferrumnet.Seq.{SeqNumber, lt, offset_from, add}
use ferrumnet.Seq.Order.{Near, offset_from_self, lt-offset}
use ferrumnet.Sack.{
  Scoreboard, next_boundary, first_span, rule_one, rule_three, rescue_seg, next_seg,
  highest_sacked_edge,
}
use ferrumnet.Sack.Valid.{IsValid}
use ferrumnet.Sack.Spans.{next_boundary_lem, rule_one-uniform, rule_three-uniform}
use ferrumnet.Sack.Count.{count, span, inside, count_span}

module _ (una nxt : SeqNumber) where
  -- The lowest number from `s` on, below `nxt`, that passes the test; `none` if there is none.
  abbrev pub Lowest : (SeqNumber → Bool) → SeqNumber → Option SeqNumber → Type 0
  Lowest p s none = count p s (offset_from nxt una - offset_from s una) ≡ 0
  Lowest p s (some a) =
      Near una a
      × (offset_from s una ≤ offset_from a una)
      × (offset_from a una < offset_from nxt una)
      × (p a ≡ true)
      × (count p s (offset_from a una - offset_from s una) ≡ 0)

module _ (una nxt : SeqNumber) (sb : Scoreboard) (v : IsValid una nxt sb) (p : SeqNumber → Bool)
    (uniform : (s : SeqNumber) (ns : Near una s) (below : offset_from s una < offset_from nxt una)
        (x : SeqNumber)
      → Near una x
      → offset_from s una ≤ offset_from x una
      → offset_from x una < offset_from (next_boundary sb s nxt) una
      → p x ≡ p s) where
  first_next :
      (fuel s : ℕ)
      → lt s nxt ≡ true
      → p s ≡ false
      → first_span sb p (suc fuel) s nxt ≡ first_span sb p fuel (next_boundary sb s nxt) nxt
  unfolding first_span
  first_next fuel s e f = ground arith

  first_hit :
      (fuel s : ℕ) → lt s nxt ≡ true → p s ≡ true → first_span sb p (suc fuel) s nxt ≡ some s
  unfolding first_span
  first_hit fuel s e f = ground arith

  first_end : (fuel s : ℕ) → lt s nxt ≡ false → first_span sb p (suc fuel) s nxt ≡ none
  unfolding first_span
  first_end fuel s e = ground arith

  same :
      (s : SeqNumber) (ns : Near una s) (below : offset_from s una < offset_from nxt una) (j : ℕ)
      → j < span una nxt s sb v ns below
      → p (add s j) ≡ p s
  same s ns below j hj =
      let i = inside una nxt s sb v ns below j hj in uniform s ns below (add s j) i.0 i.1 i.2

  count_none : (s n : ℕ) → n ≡ 0 → count p s n ≡ 0
  unfolding count
  count_none s n e = rw e

  -- Skipping a span that fails leaves the lowest number that passes.
  skip :
      (s : SeqNumber) (r : Option SeqNumber)
      → Near una s
      → offset_from s una < offset_from nxt una
      → p s ≡ false
      → Lowest una nxt p (next_boundary sb s nxt) r
      → Lowest una nxt p s r
  skip s none ns below f l =
      count_span una nxt s sb v ns below p (offset_from nxt una)
        (next_boundary_lem una nxt s sb v ns below).2 (same s ns below)
      ∙ rw f (omega (arith, l))
  skip s (some a) ns below f l =
      let b = next_boundary_lem una nxt s sb v ns below in
      (
        l.0,
        omega (arith, b.1, l.1),
        l.2,
        l.3,
        count_span una nxt s sb v ns below p (offset_from a una) l.1 (same s ns below)
            ∙ rw f (omega (arith, l.4)),
      )

  first_span_lem :
      (fuel s : ℕ)
      → Near una s
      → offset_from s una ≤ offset_from nxt una
      → offset_from nxt una < offset_from s una + fuel
      → Lowest una nxt p s (first_span sb p fuel s nxt)
  first_span_lem zero s ns h k = absurd (omega arith)
  first_span_lem (suc fuel) s ns h k = elim (dec_lt (offset_from s una) (offset_from nxt una)) [
    | yes below ↦
        let e : lt s nxt ≡ true = ground (arith, lt-offset una s nxt ns v.window) in
        elim (Bool-cases (p s)) [
          | inl hit ↦ rw (first_hit fuel s e hit) (
            ns,
            omega arith,
            below,
            hit,
            count_none s (offset_from s una - offset_from s una) (omega arith),
          )
          | inr miss ↦
              let b = next_boundary_lem una nxt s sb v ns below in
              rw (first_next fuel s e miss) (
                skip s (first_span sb p fuel (next_boundary sb s nxt) nxt) ns below miss
                  (first_span_lem fuel (next_boundary sb s nxt) b.0 b.2 (omega (arith, b.1))))
        ]
    | no end ↦
        rw (first_end fuel s (ground (arith, lt-offset una s nxt ns v.window)))
          (count_none s (offset_from nxt una - offset_from s una) (omega arith))
  ]

-- Both walks of `next_seg` have enough fuel to find the lowest number that their rule picks.
module _ (una nxt smss : ℕ) (sb : Scoreboard) (v : IsValid una nxt sb) where
  from_una :
      (p : SeqNumber → Bool)
      → ((s : SeqNumber) (ns : Near una s) (below : offset_from s una < offset_from nxt una)
            (x : SeqNumber)
          → Near una x
          → offset_from s una ≤ offset_from x una
          → offset_from x una < offset_from (next_boundary sb s nxt) una
          → p x ≡ p s)
      → Lowest una nxt p una (first_span sb p (suc (offset_from nxt una)) una nxt)
  from_una p uniform =
      let zero_offset = offset_from_self una in
      first_span_lem una nxt sb v p uniform (suc (offset_from nxt una)) una
        (record {
          fits = v.window.base_fits;
          base_fits = v.window.base_fits;
          close = omega (arith, zero_offset);
        })
        (omega (arith, zero_offset)) (omega (arith, zero_offset))

  one_found :
      Lowest una nxt
        (rule_one sb smss)
        una
        (first_span sb (rule_one sb smss) (suc (offset_from nxt una)) una nxt)
  one_found =
      from_una (rule_one sb smss)
        (λ s ns below x nx h k. rule_one-uniform una nxt s sb v ns below x nx h k smss)

  three_found :
      (high : SeqNumber)
      → highest_sacked_edge sb ≡ some high
      → Lowest una nxt
          (rule_three sb high)
          una
          (first_span sb (rule_three sb high) (suc (offset_from nxt una)) una nxt)
  three_found high e = from_una (rule_three sb high) (λ s ns below x nx h k.
      rule_three-uniform una nxt s high sb v (unfold highest_sacked_edge in e) ns below x nx h k)

-- What `next_seg` may answer: the lowest byte of the window that rule (1) picks; or, where it picks
-- none and the episode has had no rescue, the lowest that rule (3) picks; or nothing, where neither
-- picks any.
abbrev pub NextSeg : SeqNumber → SeqNumber → ℕ → Scoreboard → Option (SeqNumber × Bool) → Type 0
NextSeg una nxt smss sb (some (a, false)) = Lowest una nxt (rule_one sb smss) una (some a)
NextSeg una nxt smss sb (some (a, true)) =
    Lowest una nxt (rule_one sb smss) una none
    × (sb.rescue_done ≡ false)
    × ((high : SeqNumber) × (highest_sacked_edge sb ≡ some high)
        × Lowest una nxt (rule_three sb high) una (some a))
NextSeg una nxt smss sb none =
    Lowest una nxt (rule_one sb smss) una none
    × ((sb.rescue_done ≡ true)
        ⊎ ((highest_sacked_edge sb ≡ none)
            ⊎ ((high : SeqNumber) × (highest_sacked_edge sb ≡ some high)
                × Lowest una nxt (rule_three sb high) una none)))

module _ (una nxt smss : ℕ) (sb : Scoreboard) (v : IsValid una nxt sb) where
  rescued : sb.rescue_done ≡ true → rescue_seg sb (suc (offset_from nxt una)) una nxt ≡ none
  unfolding rescue_seg
  rescued e = rw e

  no_edge : highest_sacked_edge sb ≡ none → rescue_seg sb (suc (offset_from nxt una)) una nxt ≡ none
  unfolding rescue_seg
  no_edge e = ground arith

  no_span :
      (high : SeqNumber)
      → highest_sacked_edge sb ≡ some high
      → first_span sb (rule_three sb high) (suc (offset_from nxt una)) una nxt ≡ none
      → rescue_seg sb (suc (offset_from nxt una)) una nxt ≡ none
  unfolding rescue_seg
  no_span high e f = ground arith

  rescue :
      (high a : SeqNumber)
      → sb.rescue_done ≡ false
      → highest_sacked_edge sb ≡ some high
      → first_span sb (rule_three sb high) (suc (offset_from nxt una)) una nxt ≡ some a
      → rescue_seg sb (suc (offset_from nxt una)) una nxt ≡ some (a, true)
  unfolding rescue_seg
  rescue high a d e f = ground arith

  rescue_seg_lem :
      Lowest una nxt (rule_one sb smss) una none
      → NextSeg una nxt smss sb (rescue_seg sb (suc (offset_from nxt una)) una nxt)
  rescue_seg_lem l = elim (Bool-cases sb.rescue_done) [
    | inl d ↦ rw (rescued d) (l, inl d)
    | inr d ↦ elim (Option-cases (highest_sacked_edge sb)) [
      | inl e ↦ rw (no_edge e) (l, inr (inl e))
      | inr (high, e) ↦
          elim (Option-cases
            (first_span sb (rule_three sb high) (suc (offset_from nxt una)) una nxt)) [
              | inl f ↦
                  rw (no_span high e f)
                    (l, inr (inr (high, e, rw f at (three_found una nxt smss sb v high e))))
              | inr (a, f) ↦
                  rw (rescue high a d e f)
                    (l, d, (high, e, rw f at (three_found una nxt smss sb v high e)))
            ]
    ]
  ]

  -- On a valid scoreboard `next_seg` answers with the lowest byte of the window that is not SACKed,
  -- not retransmitted and lost, if there is one; otherwise, unless the episode has had its rescue,
  -- with the lowest byte below the highest SACKed edge that is neither SACKed nor retransmitted,
  -- marked as a rescue; and with nothing only where there is no such byte either.
  pub next_seg_lem : NextSeg una nxt smss sb (next_seg sb una nxt smss)
  unfolding next_seg
  next_seg_lem =
      elim (Option-cases (first_span sb (rule_one sb smss) (suc (offset_from nxt una)) una nxt)) [
        | inl e ↦ rw (e, next_seg) (rescue_seg_lem (rw e at (one_found una nxt smss sb v)))
        | inr (a, e) ↦ rw (e, next_seg) (rw e at (one_found una nxt smss sb v))
      ]
