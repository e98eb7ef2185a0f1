-- ===== src/Tcb/Receive/Drain.antt =====
-- The loop of tcp-core/src/tcb.rs that delivers the held runs, over what the runs hold.
use ferrumnet.Prelude.{
  ℕ, zero, suc, ◌^◌, ◌≤◌, ◌<◌, ◌≡◌, refl, sym, ap, ◌∙◌, arith, Bool, true, false, List, [], ◌∷◌,
  ◌++◌, append-nil, length, take_all, min, u32, ltb, leb, ◌==◌, Bool-cases, if◌then◌else◌, inl, inr,
}
use ferrumnet.Seq.{SeqNumber, add}
use ferrumnet.Buffers.{write, free}
use ferrumnet.Buffers.Laws.{IsValid}
use ferrumnet.Reasm.{Reasm, Segment, discard_below, pop_first, pop_contiguous}
use ferrumnet.Tcb.{Tcb}
use ferrumnet.Tcb.Receive.{drain_runs, take_in_order}
use ferrumnet.Tcb.Receive.Grown.{
  joined, joined-discard, held_from, take_none, Grown, fitting, following, still, same_end,
  as_bytes, then_more, written_to, Grown-write, fitting-written,
}

runs-pop_first :
    (l : List Segment) (r : Reasm) (n : SeqNumber)
    → r.runs ≡ l
    → length (pop_first l r n).0 == 0 ≡ false
    → length (pop_first l r n).1.runs < length l
unfolding pop_first
runs-pop_first [] r n e h = absurd (ground (arith, h))
runs-pop_first (x ∷ l) r n e h = ground (arith, h, e)

-- A round of the drain takes a run away.
pub runs-pop :
    (r : Reasm) (n : SeqNumber)
    → length (pop_contiguous r n).0 == 0 ≡ false
    → length (pop_contiguous r n).1.runs < length r.runs
unfolding pop_contiguous
runs-pop r n h = runs-pop_first r.runs r n refl h

-- What a round pops is the first of what is joined.
joined-nothing_first :
    (l : List Segment) (r : Reasm) (n : SeqNumber)
    → length (pop_first l r n).0 == 0 ≡ true
    → joined n l ≡ []
unfolding pop_first joined
joined-nothing_first [] r n h = refl
joined-nothing_first (x ∷ l) r n h = elim (Bool-cases (x.start == n)) [
  | inl e ↦ elim (Bool-cases (length x.bytes == 0)) [
    | inl f ↦ rw (e, f) refl
    | inr f ↦ absurd (ground (arith, e, f, h))
  ]
  | inr e ↦ rw e refl
]

joined-nothing :
    (r : Reasm) (n : SeqNumber) → length (pop_contiguous r n).0 == 0 ≡ true → joined n r.runs ≡ []
unfolding pop_contiguous
joined-nothing r n h = joined-nothing_first r.runs r n h

joined-popped_first :
    (l : List Segment) (r : Reasm) (n : SeqNumber)
    → length (pop_first l r n).0 == 0 ≡ false
    → joined n l
      ≡ (pop_first l r n).0
        ++ joined (add n (u32 (length (pop_first l r n).0))) (pop_first l r n).1.runs
unfolding pop_first joined
joined-popped_first [] r n h = absurd (ground (arith, h))
joined-popped_first (x ∷ l) r n h = elim (Bool-cases (x.start == n)) [
  | inl e ↦ elim (Bool-cases (length x.bytes == 0)) [
    | inl f ↦ absurd (ground (arith, e, f, h))
    | inr f ↦ rw (e, f) refl
  ]
  | inr e ↦ absurd (ground (arith, e, h))
]

joined-popped :
    (r : Reasm) (n : SeqNumber)
    → length (pop_contiguous r n).0 == 0 ≡ false
    → joined n r.runs
      ≡ (pop_contiguous r n).0
        ++ joined (add n (u32 (length (pop_contiguous r n).0))) (pop_contiguous r n).1.runs
unfolding pop_contiguous
joined-popped r n h = joined-popped_first r.runs r n h

module _ {C : Type 0} where
  Grown-drain :
      (fuel : ℕ) (t : Tcb C)
      → length t.reasm.runs < fuel
      → t.rcv_nxt < 2 ^ 32
      → IsValid t.rx
      → Grown t (fitting t (joined t.rcv_nxt t.reasm.runs)) (drain_runs fuel t)
  unfolding drain_runs
  Grown-drain zero t k h v = absurd (omega arith)
  Grown-drain (suc fuel) t k h v =
      let bytes : List ℕ = (pop_contiguous t.reasm t.rcv_nxt).0 in
      let kept : Reasm = (pop_contiguous t.reasm t.rcv_nxt).1 in
      let w : Tcb C = written_to t bytes in
      let moved : Tcb C = record w { reasm = kept } in
      let g : Grown t (fitting t bytes) w = Grown-write t bytes v in
      let here : List ℕ = joined t.rcv_nxt t.reasm.runs in
      elim (Bool-cases (length bytes == 0)) [
        | inl e ↦
            let nothing : [] ≡ fitting t here = sym (
              ap (fitting t) (joined-nothing t.reasm t.rcv_nxt e)
              ∙ take_all (free t.rx) [] (omega arith)) in
            rw e (
              as_bytes t _ [] _ nothing
                (same_end t t (record t { reasm = kept }) [] refl refl (still t h v)))
        | inr e ↦
            let later : List ℕ = joined (add t.rcv_nxt (u32 (length bytes))) kept.runs in
            let split : here ≡ bytes ++ later = joined-popped t.reasm t.rcv_nxt e in
            elim (Bool-cases (ltb (write t.rx bytes).0 (length bytes))) [
              | inl f ↦
                  let full : fitting t bytes ≡ fitting t here = sym (
                    ap (fitting t) split
                    ∙ take_none (free t.rx) bytes later (unfold write in ground (arith, f))) in
                  rw (e, f)
                    (as_bytes t _ (fitting t bytes) _ full
                      (same_end t w _ (fitting t bytes) refl refl g))
              | inr f ↦
                  let whole : (write t.rx bytes).0 ≡ length bytes =
                    unfold write in ground (arith, f) in
                  let rest : Grown moved (fitting w (joined moved.rcv_nxt kept.runs))
                      (drain_runs fuel moved) =
                    Grown-drain fuel moved (omega (arith, k, runs-pop t.reasm t.rcv_nxt e))
                      (unfold add in omega arith) g.rx_IsValid in
                  let both : fitting t bytes ++ fitting w (joined moved.rcv_nxt kept.runs)
                      ≡ fitting t here =
                    ap
                      (λ m. fitting t bytes ++ fitting w (joined (add t.rcv_nxt (u32 m)) kept.runs))
                      whole
                    ∙ fitting-written t bytes later
                    ∙ ap (fitting t) (sym split) in
                  rw (e, f)
                    (as_bytes t _ (fitting t bytes ++ fitting w (joined moved.rcv_nxt kept.runs)) _
                      both
                      (then_more t moved (drain_runs fuel moved) _ _
                        (same_end t w moved (fitting t bytes) refl refl g) rest))
            ]
      ]

  -- What a segment delivers: where it does not fit, nothing that follows it counts.
  following-fits :
      (t : Tcb C) (body : List ℕ)
      → fitting t (body ++ following t (write t.rx body).0)
        ≡ fitting t (body ++ following t (length body))
  unfolding write
  following-fits t body = elim (Bool-cases (leb (length body) (free t.rx))) [
    | inl e ↦
        let all : min (length body) (free t.rx) ≡ length body = ground (arith, e) in
        ap (λ m. fitting t (body ++ following t m)) all
    | inr e ↦
        let h : free t.rx ≤ length body = ground (arith, e) in
        take_none (free t.rx) body _ h ∙ sym (take_none (free t.rx) body _ h)
  ]

  in_order-sack :
      (b : Bool) (t u w : Tcb C) (body held : List ℕ)
      → Grown t (fitting t (body ++ [])) w
      → Grown t (fitting t (body ++ held)) u
      → Grown t (fitting t (body ++ (if b then held else []))) (if b then u else w)
  in_order-sack true t u w body held g k = k
  in_order-sack false t u w body held g k = g

  pub Grown-take_in_order :
      (t : Tcb C) (body : List ℕ)
      → IsValid t.rx
      → Grown t (fitting t (body ++ following t (length body))) (take_in_order t body)
  unfolding take_in_order discard_below
  Grown-take_in_order t body v =
      let w : Tcb C = written_to t body in
      let kept : Reasm = discard_below t.reasm w.rcv_nxt in
      let u : Tcb C = record w { reasm = kept } in
      let g : Grown t (fitting t body) w = Grown-write t body v in
      let held : List ℕ = held_from w.rcv_nxt t.reasm.runs in
      let end : Tcb C = drain_runs (suc (length kept.runs)) u in
      let rest : Grown u (fitting w held) end =
        as_bytes u end (fitting w (joined w.rcv_nxt kept.runs)) (fitting w held)
          (ap (fitting w) (joined-discard w.rcv_nxt t.reasm.runs t.reasm.held))
          (Grown-drain (suc (length kept.runs)) u (omega arith) (unfold add in omega arith)
            g.rx_IsValid) in
      as_bytes t _ (fitting t (body ++ following t (write t.rx body).0)) _ (following-fits t body) (
        in_order-sack t.sack_enabled t end w body held
          (as_bytes t w (fitting t body) _ (ap (fitting t) (sym (append-nil body))) g)
          (as_bytes t end _ _ (fitting-written t body held) (
            then_more t u end (fitting t body) (fitting w held)
              (same_end t w u (fitting t body) refl refl g) rest)))
