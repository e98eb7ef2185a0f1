-- ===== src/Congestion/Machine.antt =====
-- The register machine of the synthesised control laws, tcp-core/src/congestion.rs: `SynthOp`,
-- `Instr`, `ControlProgram` with its repairs, `synth_guard`, `synth_eval` and `synth_to_cwnd`.
pub mod Total
use ferrumnet.Prelude.{
  ℕ, zero, suc, ◌+◌, ◌-◌, ◌^◌, List, [], ◌∷◌, ◌++◌, length, min, set, get_or, if◌then◌else◌,
}
use ferrumnet.Congestion.Float.{Float, ◌⊕◌, ◌⊖◌, ◌⊗◌, ◌⊘◌, ◌≺◌, clamp}

pub data SynthOp : Type 0 where
  add_op sub_op mul_op div_op min_op max_op : SynthOp

pub record Instr : Type 0 where
  pub op : SynthOp
  pub a : ℕ
  pub b : ℕ

-- Arrays of `prog_len` instructions are lists.
pub record ControlProgram : Type 0 where
  pub inc : List Instr
  pub md : List Instr
  pub ecn : List Instr

abbrev pub regs_in : ℕ
regs_in = 8

abbrev pub prog_len : ℕ
prog_len = 8

abbrev pub synth_cwnd_cap : ℕ
synth_cwnd_cap = 2 ^ 30

-- The registers of the flight, of the fraction of marks, of a half and of one.
abbrev pub r_flight : ℕ
r_flight = 1

abbrev pub r_alpha : ℕ
r_alpha = 3

abbrev pub r_half : ℕ
r_half = 5

abbrev pub r_one : ℕ
r_one = 6

abbrev pub instr : SynthOp → ℕ → ℕ → Instr
instr op a b = record { op = op; a = a; b = b }

-- The steps that carry a result through the rest of the slots, from slot `i` on.
unfoldable pub carries : ℕ → ℕ → List Instr
carries i zero = []
carries i (suc left) = instr max_op (regs_in + i - 1) (regs_in + i - 1) ∷ carries (i + 1) left

unfoldable pub seed_prog : SynthOp → ℕ → ℕ → List Instr
unfolding carries
seed_prog op a b = instr op a b ∷ carries 1 (prog_len - 1)

-- `ControlProgram::AIMD`
unfoldable pub aimd : ControlProgram
unfolding seed_prog
aimd = record {
  inc = seed_prog max_op r_one r_one;
  md = seed_prog mul_op r_flight r_half;
  ecn = seed_prog mul_op r_alpha r_half;
}

-- `sub`: the program of a response by its number.
unfoldable pub sub : ControlProgram → ℕ → List Instr
sub p zero = p.inc
sub p (suc zero) = p.md
sub p (suc (suc which)) = p.ecn

abbrev pub out_prev : ℕ
out_prev = regs_in + prog_len - 2

unfoldable pub repair_loss : ControlProgram → ControlProgram
repair_loss p = record p { md = set p.md (prog_len - 1) (instr min_op out_prev r_flight) }

unfoldable pub repair_increase : ControlProgram → ControlProgram
repair_increase p = record p { inc = set p.inc (prog_len - 1) (instr max_op out_prev r_half) }

unfoldable pub repair_ecn : ControlProgram → ControlProgram
unfolding aimd
repair_ecn p = record p { ecn = aimd.ecn }

unfoldable pub aimd_with_ecn_op : SynthOp → ℕ → ℕ → ControlProgram
unfolding aimd seed_prog
aimd_with_ecn_op op a b = record aimd { ecn = seed_prog op a b }

module _ {F : Type 0} ⦃fl : Float F⦄ where
  -- `SYNTH_CAP`
  abbrev pub synth_cap : F
  synth_cap = fl.decimal 1_000_000_000 0

  unfoldable pub synth_guard : F → F
  synth_guard v = if fl.is_nan v then fl.decimal 0 0 else clamp v (fl.neg synth_cap) synth_cap

  -- One operation, its division protected.
  unfoldable pub apply_op : SynthOp → F → F → F
  apply_op add_op a b = a ⊕ b
  apply_op sub_op a b = a ⊖ b
  apply_op mul_op a b = a ⊗ b
  apply_op div_op a b = if fl.equal b (fl.decimal 0 0) then fl.decimal 0 0 else a ⊘ b
  apply_op min_op a b = if a ≺ b then a else b
  apply_op max_op a b = if b ≺ a then a else b

  -- `reg[i]`, where every register that is read has been written
  abbrev pub read_reg : List F → ℕ → F
  read_reg reg i = get_or reg i (fl.decimal 0 0)

  -- The loop over the instructions: the registers are those written so far, and an operand out of
  -- range is the last of them.
  unfoldable pub execute : List Instr → List F → List F
  unfolding synth_guard apply_op
  execute [] reg = reg
  execute (ins ∷ rest) reg =
      let last = length reg - 1 in
      execute rest (
        reg
        ++ (synth_guard
              (apply_op ins.op (read_reg reg (min ins.a last)) (read_reg reg (min ins.b last)))
            ∷ []))

  unfoldable pub synth_eval : List Instr → List F → F
  unfolding execute
  synth_eval prog inputs = read_reg (execute prog inputs) (regs_in + prog_len - 1)

  unfoldable pub synth_to_cwnd : F → ℕ → ℕ
  synth_to_cwnd v floor =
      if v ≺ fl.of_nat floor
      then floor
      else if fl.of_nat synth_cwnd_cap ≺ v
      then synth_cwnd_cap
      else fl.to_u32 v
