-- ===== src/Tcb/Receive/Grown.antt =====
-- The buffer and `rcv_nxt` of tcp-core/src/tcb.rs, as bytes are delivered.
use ferrumnet.Prelude.{
  ℕ, zero, suc, ◌-◌, ◌^◌, ◌≤◌, ◌<◌, ◌≡◌, refl, sym, ap, ◌∙◌, arith, List, [], ◌∷◌, ◌++◌, append-nil,
  append_assoc, length, length-append, length-take, take, take_all, drop, min, u32, leb, ◌==◌,
  Bool-cases, if◌then◌else◌, inl, inr,
}
use ferrumnet.Seq.{SeqNumber, add, lt, le, offset_from}
use ferrumnet.Buffers.{write, free}
use ferrumnet.Buffers.Laws.{IsValid, write-IsValid}
use ferrumnet.Reasm.{Segment, run_end, discard}
use ferrumnet.Tcb.{Tcb}

-- The held bytes that follow one another without a gap from `n` on.
unfoldable pub joined : SeqNumber → List Segment → List ℕ
joined n [] = []
joined n (run ∷ runs) =
    let rest = joined (add n (u32 (length run.bytes))) runs in
    if run.start == n then (if length run.bytes == 0 then [] else run.bytes ++ rest) else []

-- The same, where runs may start below `n`: what they hold below it does not count.
unfoldable pub held_from : SeqNumber → List Segment → List ℕ
held_from n [] = []
held_from n (run ∷ runs) =
    let next = held_from n runs in
    let above : Segment = record run {
      bytes = drop (offset_from n run.start) run.bytes;
      start = n;
    } in
    if le (run_end run) n
    then next
    else if lt run.start n
    then joined n (above ∷ runs)
    else joined n (run ∷ runs)

pub joined-discard :
    (n : SeqNumber) (l : List Segment) (held : ℕ) → joined n (discard n l held).0 ≡ held_from n l
unfolding discard held_from
joined-discard n [] held = unfold joined in refl
joined-discard n (run ∷ runs) held = elim (Bool-cases (le (run_end run) n)) [
  | inl e ↦ rw e (joined-discard n runs (held - length run.bytes))
  | inr e ↦ elim (Bool-cases (lt run.start n)) [ inl f ↦ rw (e, f) refl | inr f ↦ rw (e, f) refl ]
]

take_split : (k : ℕ) (xs ys : List ℕ) → take k (xs ++ ys) ≡ take k xs ++ take (k - length xs) ys
take_split zero xs ys = let rest : 0 ≡ 0 - length xs = omega arith in ap (λ m. take m ys) rest
take_split (suc k) [] ys = let all : suc k ≡ suc k - 0 = omega arith in ap (λ m. take m ys) all
take_split (suc k) (x ∷ xs) ys =
    ap (λ l. x ∷ l) (take_split k xs ys) ∙ ap (λ m. (x ∷ take k xs) ++ take m ys) (omega arith)

take_least : (k : ℕ) (xs : List ℕ) → take (min (length xs) k) xs ≡ take k xs
take_least k xs = elim (Bool-cases (leb k (length xs))) [
  | inl e ↦ ap (λ m. take m xs) (ground (arith, e))
  | inr e ↦
      take_all (min (length xs) k) xs (ground (arith, e)) ∙ sym (take_all k xs (ground (arith, e)))
]

pub take_none : (k : ℕ) (xs ys : List ℕ) → k ≤ length xs → take k (xs ++ ys) ≡ take k xs
take_none k xs ys h =
    let spent : k - length xs ≡ 0 = omega (arith, h) in
    take_split k xs ys ∙ ap (λ m. take k xs ++ take m ys) spent ∙ append-nil (take k xs)

-- From `t` to `u`, the buffer got exactly the bytes `new`, and `rcv_nxt` moved by as many.
pub record Grown {C : Type 0} (t : Tcb C) (new : List ℕ) (u : Tcb C) : Type 0 where
  pub rx_bytes : u.rx.buf ≡ t.rx.buf ++ new
  pub rcv_nxt_moved : u.rcv_nxt ≡ add t.rcv_nxt (u32 (length new))
  pub rx_IsValid : IsValid u.rx

-- The bytes of `body` that the buffer has room for.
abbrev pub fitting : {C : Type 0} → Tcb C → List ℕ → List ℕ
fitting t body = take (free t.rx) body

-- The held bytes that follow without a gap on a segment of `n` bytes at `rcv_nxt`; without SACK
-- none are.
abbrev pub following : {C : Type 0} → Tcb C → ℕ → List ℕ
following t n = if t.sack_enabled then held_from (add t.rcv_nxt (u32 n)) t.reasm.runs else []

module _ {C : Type 0} where
  pub still : (t : Tcb C) → t.rcv_nxt < 2 ^ 32 → IsValid t.rx → Grown t [] t
  still t h v = record {
    rx_bytes = sym (append-nil t.rx.buf);
    rcv_nxt_moved = unfold add in omega (arith, h);
    rx_IsValid = v;
  }

  -- The buffer and `rcv_nxt` are all that matters.
  pub same_end :
      (t u w : Tcb C) (new : List ℕ)
      → w.rx ≡ u.rx
      → w.rcv_nxt ≡ u.rcv_nxt
      → Grown t new u
      → Grown t new w
  same_end t u w new e f g = record {
    rx_bytes = ap (λ b. b.buf) e ∙ g.rx_bytes;
    rcv_nxt_moved = f ∙ g.rcv_nxt_moved;
    rx_IsValid = rw e g.rx_IsValid;
  }

  pub as_bytes : (t u : Tcb C) (a b : List ℕ) → a ≡ b → Grown t a u → Grown t b u
  as_bytes t u a b e g = record {
    rx_bytes = g.rx_bytes ∙ ap (λ l. t.rx.buf ++ l) e;
    rcv_nxt_moved = g.rcv_nxt_moved ∙ ap (λ l. add t.rcv_nxt (u32 (length l))) e;
    rx_IsValid = g.rx_IsValid;
  }

  pub then_more : (t u w : Tcb C) (a b : List ℕ) → Grown t a u → Grown u b w → Grown t (a ++ b) w
  unfolding add
  then_more t u w a b g k = record {
    rx_bytes = k.rx_bytes ∙ ap (λ l. l ++ b) g.rx_bytes ∙ append_assoc t.rx.buf a b;
    rcv_nxt_moved = omega (arith, g.rcv_nxt_moved, k.rcv_nxt_moved, length-append a b);
    rx_IsValid = k.rx_IsValid;
  }

  abbrev pub written_to : Tcb C → List ℕ → Tcb C
  written_to t body = record t {
    rx = (write t.rx body).1;
    rcv_nxt = add t.rcv_nxt (u32 (write t.rx body).0);
  }

  pub Grown-write :
      (t : Tcb C) (body : List ℕ) → IsValid t.rx → Grown t (fitting t body) (written_to t body)
  unfolding write
  Grown-write t body v = record {
    rx_bytes = ap (λ l. t.rx.buf ++ l) (take_least (free t.rx) body);
    rcv_nxt_moved = ap (λ n. add t.rcv_nxt (u32 n)) (omega (arith, length-take (free t.rx) body));
    rx_IsValid = write-IsValid t.rx body v;
  }

  free-written : (t : Tcb C) (body : List ℕ) → free (written_to t body).rx ≡ free t.rx - length body
  unfolding write
  free-written t body = omega (
    arith,
    length-append t.rx.buf (take (min (length body) (free t.rx)) body),
    length-take (min (length body) (free t.rx)) body,
  )

  -- One write after another, as one.
  pub fitting-written :
      (t : Tcb C) (body rest : List ℕ)
      → fitting t body ++ fitting (written_to t body) rest ≡ fitting t (body ++ rest)
  fitting-written t body rest =
      ap (λ m. take (free t.rx) body ++ take m rest) (free-written t body)
      ∙ sym (take_split (free t.rx) body rest)
