-- ===== src/Sack/Pipe.antt =====
-- `Scoreboard::pipe` of tcp-core/src/sack.rs against a count of single bytes.
use native.Mathlib.Decide.{dec_lt}
use ferrumnet.Prelude.{
  ℕ, zero, suc, ◌+◌, ◌-◌, ◌≤◌, ◌<◌, ◌≡◌, ◌^◌, ◌∙◌, arith, true, false, if◌then◌else◌,
  saturating_add,
}
use ferrumnet.Seq.{lt, offset_from, add}
use ferrumnet.Seq.Order.{Near, offset_from_self, lt-offset}
use ferrumnet.Sack.{Scoreboard, next_boundary, in_pipe, pipe, pipe_from}
use ferrumnet.Sack.Valid.{IsValid}
use ferrumnet.Sack.Spans.{next_boundary_lem, in_pipe-uniform}
use ferrumnet.Sack.Count.{count, count-le, span_lem, inside, count_span}

pipe_next :
    (sb : Scoreboard) (fuel s nxt smss p : ℕ)
    → lt s nxt ≡ true
    → pipe_from sb (suc fuel) s nxt smss p
      ≡ pipe_from sb fuel (next_boundary sb s nxt) nxt smss (
          if in_pipe sb s smss
          then saturating_add p (offset_from (next_boundary sb s nxt) s)
          else p)
unfolding pipe_from
pipe_next sb fuel s nxt smss p e = ground arith

pipe_end :
    (sb : Scoreboard) (fuel s nxt smss p : ℕ)
    → lt s nxt ≡ false
    → pipe_from sb (suc fuel) s nxt smss p ≡ p
unfolding pipe_from
pipe_end sb fuel s nxt smss p e = ground arith

pipe_from_lem :
    (una nxt smss fuel s p : ℕ) (sb : Scoreboard)
    → IsValid una nxt sb
    → Near una s
    → offset_from s una ≤ offset_from nxt una
    → offset_from nxt una < offset_from s una + fuel
    → p + (offset_from nxt una - offset_from s una) < 2 ^ 32
    → pipe_from sb fuel s nxt smss p
      ≡ p + count (λ x. in_pipe sb x smss) s (offset_from nxt una - offset_from s una)
pipe_from_lem una nxt smss zero s p sb v ns h k m = absurd (omega arith)
pipe_from_lem una nxt smss (suc fuel) s p sb v ns h k m =
    elim (dec_lt (offset_from s una) (offset_from nxt una)) [
      | yes below ↦
          let b = next_boundary_lem una nxt s sb v ns below in
          let e = next_boundary sb s nxt in
          let w = span_lem una nxt s sb v ns below in
          let q = if in_pipe sb s smss then saturating_add p (offset_from e s) else p in
          let q_lem : q ≡ p + (if in_pipe sb s smss then offset_from e s else 0) =
            ground (arith, w.0, b.2) in
          pipe_next sb fuel s nxt smss p (ground (arith, lt-offset una s nxt ns v.window))
          ∙ pipe_from_lem una nxt smss fuel e q sb v b.0 b.2 (omega (arith, b.1))
              (ground (arith, q_lem, w.0, b.1, b.2))
          ∙ omega (
            arith,
            q_lem,
            count_span una nxt s sb v ns below (λ x. in_pipe sb x smss) (offset_from nxt una) b.2
                (λ j hj.
                  let i = inside una nxt s sb v ns below j hj in
                  in_pipe-uniform una nxt s sb v ns below (add s j) i.0 i.1 i.2 smss),
          )
      | no end ↦
          let nothing : offset_from nxt una - offset_from s una ≡ 0 = omega arith in
          pipe_end sb fuel s nxt smss p (ground (arith, lt-offset una s nxt ns v.window))
          ∙ rw nothing (unfold count in omega arith)
    ]

-- `pipe` is the number of bytes from `una` to `nxt` that are not SACKed and are either marked as
-- retransmitted or not lost, each counted once; so it is at most the bytes in flight, its loop
-- ends, and its saturating sum never saturates.
pub pipe-eq-count :
    (una nxt smss : ℕ) (sb : Scoreboard)
    → IsValid una nxt sb
    → (pipe sb una nxt smss ≡ count (λ x. in_pipe sb x smss) una (offset_from nxt una))
      × (pipe sb una nxt smss ≤ offset_from nxt una)
unfolding pipe
pipe-eq-count una nxt smss sb v =
    (total, rw total (count-le (λ x. in_pipe sb x smss) una (offset_from nxt una)))
  where
    total : pipe sb una nxt smss ≡ count (λ x. in_pipe sb x smss) una (offset_from nxt una)
    total =
        let zero_offset = offset_from_self una in
        pipe_from_lem una nxt smss (suc (offset_from nxt una)) una 0 sb v
          (record {
            fits = v.window.base_fits;
            base_fits = v.window.base_fits;
            close = omega (arith, zero_offset);
          })
          (omega (arith, zero_offset)) (omega (arith, zero_offset)) (omega (arith, v.window.close))
        ∙ rw zero_offset (ground arith)
