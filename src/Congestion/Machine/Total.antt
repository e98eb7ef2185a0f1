-- ===== src/Congestion/Machine/Total.antt =====
-- The register machine of tcp-core/src/congestion.rs on any program and any signals.
use ferrumnet.Prelude.{
  ℕ, zero, suc, ◌≤◌, ◌≡◌, arith, refl, false, List, [], ◌∷◌, ◌++◌, length, get_or, u32_max, if_case,
  if_both,
}
use ferrumnet.Congestion.Float.{Float, Lawful}
use ferrumnet.Congestion.Machine.{
  Instr, synth_guard, read_reg, execute, synth_eval, synth_to_cwnd, synth_cap, synth_cwnd_cap,
}

get_or-snoc {ℓ} :
    {A : Type 0} (P : A → Type ℓ) (xs : List A) (i : ℕ) (v d : A)
    → P (get_or xs i d)
    → P v
    → P (get_or (xs ++ (v ∷ [])) i d)
get_or-snoc P [] zero v d h k = k
get_or-snoc P [] (suc i) v d h k = h
get_or-snoc P (x ∷ xs) zero v d h k = h
get_or-snoc P (x ∷ xs) (suc i) v d h k = get_or-snoc P xs i v d h k

get_or-beyond : {A : Type 0} (xs : List A) (i : ℕ) (d : A) → length xs ≤ i → get_or xs i d ≡ d
get_or-beyond [] i d h = refl
get_or-beyond (x ∷ xs) zero d h = absurd (omega arith)
get_or-beyond (x ∷ xs) (suc i) d h = get_or-beyond xs i d (omega arith)

module _ {F : Type 0} ⦃fl : Float F⦄ (laws : Lawful fl) where
  abbrev IsNumber : F → Type 0
  IsNumber x = fl.is_nan x ≡ false

  synth_guard-IsNumber : (v : F) → IsNumber (synth_guard v)
  unfolding synth_guard
  synth_guard-IsNumber v =
      if_case {A = F} (λ z. IsNumber z) (fl.is_nan v) _ _ (λ _. laws.decimal_nan 0 0)
        λ e.
          if_both {A = F} (λ z. IsNumber z) (fl.less v (fl.neg synth_cap)) _ _
            (laws.neg_nan 1_000_000_000 0)
            (if_both {A = F} (λ z. IsNumber z) (fl.less synth_cap v) _ _
              (laws.decimal_nan 1_000_000_000 0) e)

  execute-IsNumber :
      (prog : List Instr) (reg : List F) (i : ℕ)
      → IsNumber (read_reg reg i)
      → IsNumber (read_reg (execute prog reg) i)
  unfolding execute
  execute-IsNumber [] reg i h = h
  execute-IsNumber (ins ∷ rest) reg i h =
      execute-IsNumber rest _ i (get_or-snoc (λ z. IsNumber z) reg i _ _ h (synth_guard-IsNumber _))

  -- The output of a program is no NaN, whatever the program and the eight signals.
  pub synth_eval-IsNumber :
      (prog : List Instr) (inputs : List F)
      → length inputs ≡ 8
      → fl.is_nan (synth_eval prog inputs) ≡ false
  unfolding synth_eval
  synth_eval-IsNumber prog inputs h =
      execute-IsNumber prog inputs 15
        (rw (get_or-beyond inputs 15 (fl.decimal 0 0) (omega (arith, h))) (laws.decimal_nan 0 0))

  -- A window that is a number lies between its floor and the cap, or the floor above that.
  pub synth_to_cwnd_bounds :
      (v : F) (floor : ℕ)
      → floor ≤ synth_cwnd_cap
      → fl.is_nan v ≡ false
      → (floor ≤ synth_to_cwnd v floor) × (synth_to_cwnd v floor ≤ u32_max)
  unfolding synth_to_cwnd
  synth_to_cwnd_bounds v floor h e =
      let P : ℕ → Type 0 = λ c. (floor ≤ c) × (c ≤ u32_max) in
      if_case P (fl.less v (fl.of_nat floor)) _ _ (λ _. (omega arith, omega arith))
        λ below.
          if_both P (fl.less (fl.of_nat synth_cwnd_cap) v) _ _ (h, omega arith)
            (laws.to_u32_ge floor v (omega arith) e below, laws.to_u32_le v)
