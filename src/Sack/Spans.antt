-- ===== src/Sack/Spans.antt =====
-- The spans of uniform status that the walks of tcp-core/src/sack.rs step over.
use ferrumnet.Prelude.{ℕ, ◌+◌, ◌≤◌, ◌<◌, ◌≡◌, refl, arith, List, some, [], ◌∷◌, ◌++◌, ◌⊎◌}
use ferrumnet.Seq.{SeqNumber, gt, offset_from}
use ferrumnet.Seq.Order.{Near}
use ferrumnet.Runs.{Run, covers, last_edge, nearer, boundary_from, above_from}
use ferrumnet.Runs.Order.{Runs, compares}
use ferrumnet.Sack.{
  Scoreboard, next_boundary, is_sacked, is_rexmit, is_lost, in_pipe, rule_one, rule_three,
}
use ferrumnet.Sack.Valid.{IsValid}

module _ (una : SeqNumber) where
  abbrev Edges : List Run → Type 0
  Edges [] = Unit
  Edges ((l, r) ∷ rest) = Near una l × Near una r × Edges rest

  Runs-Edges : (lo hi : ℕ) (runs : List Run) → Runs una lo hi runs → Edges runs
  Runs-Edges lo hi [] w = tt
  Runs-Edges lo hi ((l, r) ∷ rest) w = (w.0, w.1, Runs-Edges (offset_from r una + 1) hi rest w.5)

  Edges-append : (xs ys : List Run) → Edges xs → Edges ys → Edges (xs ++ ys)
  Edges-append [] ys w u = u
  Edges-append ((l, r) ∷ xs) ys w u = (w.0, w.1, Edges-append xs ys w.2 u)

  -- No edge lies strictly between the offsets `s` and `b`.
  abbrev Clear : ℕ → ℕ → List Run → Type 0
  Clear s b [] = Unit
  Clear s b ((l, r) ∷ rest) =
      ((offset_from l una ≤ s) ⊎ (b ≤ offset_from l una))
      × ((offset_from r una ≤ s) ⊎ (b ≤ offset_from r una))
      × Clear s b rest

  Clear-append : (s b : ℕ) (xs ys : List Run) → Clear s b (xs ++ ys) → Clear s b xs × Clear s b ys
  Clear-append s b [] ys c = (tt, c)
  Clear-append s b ((l, r) ∷ xs) ys c = let d = Clear-append s b xs ys c.2 in ((c.0, c.1, d.0), d.1)

  nearer_lem :
      (s e b : SeqNumber)
      → Near una s
      → Near una e
      → Near una b
      → offset_from s una < offset_from b una
      → Near una (nearer s e b)
        × (offset_from s una < offset_from (nearer s e b) una)
        × (offset_from (nearer s e b) una ≤ offset_from b una)
        × ((offset_from e una ≤ offset_from s una)
            ⊎ (offset_from (nearer s e b) una ≤ offset_from e una))
  nearer_lem s e b ns ne nb h = ground (arith, compares una e s ne ns, compares una e b ne nb)

  boundary_from_lem :
      (runs : List Run) (s b : SeqNumber)
      → Edges runs
      → Near una s
      → Near una b
      → offset_from s una < offset_from b una
      → Near una (boundary_from runs s b)
        × (offset_from s una < offset_from (boundary_from runs s b) una)
        × (offset_from (boundary_from runs s b) una ≤ offset_from b una)
        × Clear (offset_from s una) (offset_from (boundary_from runs s b) una) runs
  unfolding boundary_from
  boundary_from_lem [] s b w ns nb h = (nb, h, omega arith, tt)
  boundary_from_lem ((l, r) ∷ rest) s b w ns nb h =
      let one = nearer_lem s l b ns w.0 nb h in
      let two = nearer_lem s r (nearer s l b) ns w.1 one.0 one.1 in
      let more = boundary_from_lem rest s (nearer s r (nearer s l b)) w.2 ns two.0 two.1 in
      (
        more.0,
        more.1,
        omega (arith, one.2, two.2, more.2),
        (omega (arith, one, two, more.2), omega (arith, two, more.2), more.3),
      )

  -- Inside a clear span every number has the status of its start.
  module _ (s x b : SeqNumber) (ns : Near una s) (nx : Near una x)
      (from : offset_from s una ≤ offset_from x una)
      (below : offset_from x una < offset_from b una) where
    covers-uniform :
        (runs : List Run)
        → Edges runs
        → Clear (offset_from s una) (offset_from b una) runs
        → covers runs x ≡ covers runs s
    unfolding covers
    covers-uniform [] w c = refl
    covers-uniform ((l, r) ∷ rest) w c = ground (
      arith,
      compares una x l nx w.0,
      compares una x r nx w.1,
      compares una s l ns w.0,
      compares una s r ns w.1,
      covers-uniform rest w.2 c.2,
    )

    above_from-uniform :
        (runs : List Run) (blocks bytes : ℕ)
        → Edges runs
        → Clear (offset_from s una) (offset_from b una) runs
        → above_from runs x blocks bytes ≡ above_from runs s blocks bytes
    unfolding above_from
    above_from-uniform [] blocks bytes w c = refl
    above_from-uniform ((l, r) ∷ rest) blocks bytes w c =
        let same : gt l x ≡ gt l s =
          ground (arith, compares una l x w.0 nx, compares una l s w.0 ns) in
        rw same (above_from-uniform rest _ _ w.2 c.2)

-- The step of the walks from `s`: it goes on, ends in the window, and all numbers that it steps over
-- have the status of `s` in both sets.
module _ (una nxt s : SeqNumber) (sb : Scoreboard) (v : IsValid una nxt sb) (ns : Near una s)
    (below : offset_from s una < offset_from nxt una) where
  step :
      let b = next_boundary sb s nxt in
      Near una b
      × (offset_from s una < offset_from b una)
      × (offset_from b una ≤ offset_from nxt una)
      × Clear una (offset_from s una) (offset_from b una) (sb.sacked ++ sb.rexmit)
  unfolding next_boundary
  step =
      boundary_from_lem una (sb.sacked ++ sb.rexmit) s nxt
        (Edges-append una sb.sacked sb.rexmit
          (Runs-Edges una 0 (offset_from nxt una) sb.sacked v.sacked_runs)
          (Runs-Edges una 0 (offset_from nxt una) sb.rexmit v.rexmit_runs))
        ns v.window below

  pub next_boundary_lem :
      let b = next_boundary sb s nxt in
      Near una b
      × (offset_from s una < offset_from b una)
      × (offset_from b una ≤ offset_from nxt una)
  next_boundary_lem = (step.0, step.1, step.2)

  module _ (x : SeqNumber) (nx : Near una x) (from : offset_from s una ≤ offset_from x una)
      (to : offset_from x una < offset_from (next_boundary sb s nxt) una) where
    pub is_sacked-uniform : is_sacked sb x ≡ is_sacked sb s
    unfolding is_sacked
    is_sacked-uniform =
        covers-uniform una s x (next_boundary sb s nxt) ns nx from to sb.sacked
          (Runs-Edges una 0 (offset_from nxt una) sb.sacked v.sacked_runs)
          (Clear-append una (offset_from s una) (offset_from (next_boundary sb s nxt) una) sb.sacked
            sb.rexmit step.3).0

    pub is_rexmit-uniform : is_rexmit sb x ≡ is_rexmit sb s
    unfolding is_rexmit
    is_rexmit-uniform =
        covers-uniform una s x (next_boundary sb s nxt) ns nx from to sb.rexmit
          (Runs-Edges una 0 (offset_from nxt una) sb.rexmit v.rexmit_runs)
          (Clear-append una (offset_from s una) (offset_from (next_boundary sb s nxt) una) sb.sacked
            sb.rexmit step.3).1

    pub is_lost-uniform : (smss : ℕ) → is_lost sb x smss ≡ is_lost sb s smss
    unfolding is_lost
    is_lost-uniform smss = rw (
        above_from-uniform una s x (next_boundary sb s nxt) ns nx from to sb.sacked 0 0
          (Runs-Edges una 0 (offset_from nxt una) sb.sacked v.sacked_runs)
          (Clear-append una (offset_from s una) (offset_from (next_boundary sb s nxt) una) sb.sacked
            sb.rexmit step.3).0)

    pub in_pipe-uniform : (smss : ℕ) → in_pipe sb x smss ≡ in_pipe sb s smss
    unfolding in_pipe
    in_pipe-uniform smss = rw (is_sacked-uniform, is_rexmit-uniform, is_lost-uniform smss)

    pub rule_one-uniform : (smss : ℕ) → rule_one sb smss x ≡ rule_one sb smss s
    unfolding rule_one
    rule_one-uniform smss = rw (is_sacked-uniform, is_rexmit-uniform, is_lost-uniform smss)

-- The highest SACKed edge is an edge, so the rescue rule is uniform on spans too.
last_edge-Edges :
    (una : SeqNumber) (runs : List Run) (high : SeqNumber)
    → Edges una runs
    → last_edge runs ≡ some high
    → Near una high
unfolding last_edge
last_edge-Edges una [] high w e = cc
last_edge-Edges una ((l, r) ∷ []) high w e = ground arith
last_edge-Edges una ((l, r) ∷ (y ∷ rest)) high w e = last_edge-Edges una (y ∷ rest) high w.2 e

last_edge-Clear :
    (una : SeqNumber) (s b : ℕ) (runs : List Run) (high : SeqNumber)
    → Clear una s b runs
    → last_edge runs ≡ some high
    → (offset_from high una ≤ s) ⊎ (b ≤ offset_from high una)
unfolding last_edge
last_edge-Clear una s b [] high w e = cc
last_edge-Clear una s b ((l, r) ∷ []) high w e = ground arith
last_edge-Clear una s b ((l, r) ∷ (y ∷ rest)) high w e =
    last_edge-Clear una s b (y ∷ rest) high w.2 e

module _ (una nxt s high : SeqNumber) (sb : Scoreboard) (v : IsValid una nxt sb)
    (edge : last_edge sb.sacked ≡ some high) (ns : Near una s)
    (below : offset_from s una < offset_from nxt una) where
  pub rule_three-uniform :
      (x : SeqNumber)
      → Near una x
      → offset_from s una ≤ offset_from x una
      → offset_from x una < offset_from (next_boundary sb s nxt) una
      → rule_three sb high x ≡ rule_three sb high s
  unfolding rule_three
  rule_three-uniform x nx from to =
      let nh =
        last_edge-Edges una sb.sacked high
          (Runs-Edges una 0 (offset_from nxt una) sb.sacked v.sacked_runs) edge in
      let sides =
        last_edge-Clear una (offset_from s una) (offset_from (next_boundary sb s nxt) una) sb.sacked
          high
          (Clear-append una (offset_from s una) (offset_from (next_boundary sb s nxt) una) sb.sacked
            sb.rexmit (step una nxt s sb v ns below).3).0
          edge in
      ground (
        arith,
        is_sacked-uniform una nxt s sb v ns below x nx from to,
        is_rexmit-uniform una nxt s sb v ns below x nx from to,
        compares una x high nx nh,
        compares una s high ns nh,
        sides,
      )
