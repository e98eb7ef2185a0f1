-- ===== src/Sack/Update.antt =====
-- What `Scoreboard::update` of tcp-core/src/sack.rs accepts from the wire.
use native.Mathlib.Decide.{dec_lt}
use ferrumnet.Prelude.{
  ℕ, zero, suc, ◌+◌, ◌-◌, ◌≤◌, ◌<◌, ◌≡◌, ◌^◌, refl, sym, ap, ◌∙◌, arith, Bool, true, false, not,
  ◌&&◌, ◌||◌, List, [], ◌∷◌, length, take, if◌then◌else◌, Bool-cases, inl, inr, length-take,
  take_all,
}
use ferrumnet.Seq.{SeqNumber, lt, le, gt, ge, offset_from}
use ferrumnet.Seq.Order.{Near, offset_from_self}
use ferrumnet.Runs.{Run, covers, insert_run}
use ferrumnet.Runs.Order.{Runs, compares}
use ferrumnet.Sack.{
  Scoreboard, max_runs, apply_block, apply_blocks, cap_runs, pop, update, is_sacked, is_rexmit,
}
use ferrumnet.Sack.Valid.{IsValid, insert_run_lem}

-- A block of 32-bit edges.
abbrev pub Blocks : List Run → Type 0
Blocks [] = Unit
Blocks ((l, r) ∷ rest) = (l < 2 ^ 32) × (r < 2 ^ 32) × Blocks rest

-- A block that reports data in flight: not empty, not wholly acknowledged, and with no part above
-- what was sent.
pub acceptable : SeqNumber → SeqNumber → Run → Bool
acceptable una nxt (l, r) = lt l r && (gt r una && (le l nxt && le r nxt))

-- Whether an acceptable block of the list reports `x`; a block that begins before `una` reports all
-- from `una` on.
pub reported : SeqNumber → SeqNumber → List Run → SeqNumber → Bool
unfolding acceptable
reported una nxt [] x = false
reported una nxt ((l, r) ∷ rest) x =
    (acceptable una nxt (l, r) && ((lt l una || ge x l) && lt x r)) || reported una nxt rest x

module _ (una : SeqNumber) (fits : una < 2 ^ 32) where
  near_of_gt : (r : SeqNumber) → r < 2 ^ 32 → gt r una ≡ true → Near una r
  unfolding gt offset_from
  near_of_gt r h e = record { fits = h; base_fits = fits; close = ground arith }

  near_of_ge : (l : SeqNumber) → l < 2 ^ 32 → lt l una ≡ false → Near una l
  unfolding lt offset_from
  near_of_ge l h e = record { fits = h; base_fits = fits; close = ground arith }

  near_self : Near una una
  near_self = record { fits = fits; base_fits = fits; close = omega (arith, offset_from_self una) }

gt-le : (a b : SeqNumber) → gt a b ≡ not (le a b)
unfolding gt le
gt-le a b = ground arith

-- Where the part of the block from `una` on begins.
abbrev clipped : SeqNumber → SeqNumber → SeqNumber
clipped una l = if lt l una then una else l

module _ (una nxt l r : SeqNumber) (runs : List Run) (nw : Near una nxt) where
  rejected : acceptable una nxt (l, r) ≡ false → apply_block una nxt runs (l, r) ≡ runs
  unfolding apply_block acceptable
  rejected e = ground (arith, gt-le r una, gt-le l nxt, gt-le r nxt)

  -- What an acceptable block gives `insert_run`.
  accepted_bounds :
      l < 2 ^ 32
      → r < 2 ^ 32
      → acceptable una nxt (l, r) ≡ true
      → Near una (clipped una l)
        × Near una r
        × (offset_from (clipped una l) una < offset_from r una)
        × (offset_from r una ≤ offset_from nxt una)
  unfolding acceptable
  accepted_bounds hl hr e =
      let nr : Near una r = near_of_gt una nw.base_fits r hr (ground arith) in
      elim (Bool-cases (lt l una)) [
        | inl early ↦ rw early (
          near_self una nw.base_fits,
          nr,
          ground (arith, compares una r una nr (near_self una nw.base_fits)),
          ground (arith, compares una r nxt nr nw),
        )
        | inr late ↦
            let nl : Near una l = near_of_ge una nw.base_fits l hl late in
            rw late (
              nl,
              nr,
              ground (arith, compares una l r nl nr),
              ground (arith, compares una r nxt nr nw),
            )
      ]

  accepted :
      l < 2 ^ 32
      → r < 2 ^ 32
      → acceptable una nxt (l, r) ≡ true
      → apply_block una nxt runs (l, r) ≡ insert_run runs (clipped una l) r
  unfolding apply_block acceptable
  accepted hl hr e =
      let b = accepted_bounds hl hr e in
      ground (arith, gt-le r una, gt-le l nxt, gt-le r nxt, compares una (clipped una l) r b.0 b.1)

  covers_clipped :
      (x : SeqNumber) → Near una x → l < 2 ^ 32 → (ge x (clipped una l)) ≡ (lt l una || ge x l)
  covers_clipped x nx hl =
      ground (arith, compares una x una nx (near_self una nw.base_fits), offset_from_self una)

  -- A block adds what it reports, and keeps the runs in order.
  apply_block_lem :
      (x : SeqNumber)
      → Runs una 0 (offset_from nxt una) runs
      → l < 2 ^ 32
      → r < 2 ^ 32
      → Near una x
      → Runs una 0 (offset_from nxt una) (apply_block una nxt runs (l, r))
        × (covers (apply_block una nxt runs (l, r)) x
            ≡ (covers runs x || (acceptable una nxt (l, r) && ((lt l una || ge x l) && lt x r))))
  apply_block_lem x w hl hr nx = elim (Bool-cases (acceptable una nxt (l, r))) [
    | inl e ↦
        let b = accepted_bounds hl hr e in
        let i = insert_run_lem una nxt runs (clipped una l) r w b.0 b.1 b.2 b.3 in
        rw (accepted hl hr e, e) (i.0, rw (← covers_clipped x nx hl) (i.1 x nx))
    | inr e ↦ rw (rejected e, e) (w, ground arith)
  ]

apply_blocks_lem :
    (una nxt x : SeqNumber) (runs blocks : List Run)
    → Near una nxt
    → Runs una 0 (offset_from nxt una) runs
    → Blocks blocks
    → Near una x
    → Runs una 0 (offset_from nxt una) (apply_blocks una nxt runs blocks)
      × (covers (apply_blocks una nxt runs blocks) x ≡ (covers runs x || reported una nxt blocks x))
unfolding apply_blocks reported
apply_blocks_lem una nxt x runs [] nw w bs nx = (w, ground arith)
apply_blocks_lem una nxt x runs ((l, r) ∷ blocks) nw w bs nx =
    let one = apply_block_lem una nxt l r runs nw x w bs.0 bs.1 nx in
    let more =
      apply_blocks_lem una nxt x (apply_block una nxt runs (l, r)) blocks nw one.0 bs.2 nx in
    (more.0, ground (arith, one.1, more.1))

-- The loop that drops the highest runs leaves the first `max_runs`.
take-take : (m n : ℕ) (runs : List Run) → m ≤ n → take m (take n runs) ≡ take m runs
take-take zero n runs h = refl
take-take (suc m) zero runs h = absurd (omega arith)
take-take (suc m) (suc n) [] h = refl
take-take (suc m) (suc n) (x ∷ runs) h = ap (λ ys. x ∷ ys) (take-take m n runs (omega arith))

cap_over :
    (fuel : ℕ) (runs : List Run)
    → max_runs < length runs
    → cap_runs (suc fuel) runs ≡ cap_runs fuel (pop runs)
unfolding cap_runs
cap_over fuel runs h = ground arith

cap_fits : (fuel : ℕ) (runs : List Run) → length runs ≤ max_runs → cap_runs fuel runs ≡ runs
unfolding cap_runs
cap_fits zero runs h = refl
cap_fits (suc fuel) runs h = ground arith

cap_runs_lem :
    (fuel : ℕ) (runs : List Run)
    → length runs ≤ fuel + max_runs
    → cap_runs fuel runs ≡ take max_runs runs
cap_runs_lem zero runs h =
    cap_fits zero runs (omega arith) ∙ sym (take_all max_runs runs (omega arith))
cap_runs_lem (suc fuel) runs h = elim (dec_lt max_runs (length runs)) [
  | yes over ↦
      cap_over fuel runs over
      ∙ cap_runs_lem fuel (pop runs) (omega (arith, length-take (length runs - 1) runs))
      ∙ take-take max_runs (length runs - 1) runs (omega arith)
  | no few ↦ cap_fits (suc fuel) runs (omega arith) ∙ sym (take_all max_runs runs (omega arith))
]

-- A test that implies a disjunction fails wherever both its parts fail.
only_if : (a b c d : Bool) → (a ≡ true → b ≡ true) → b ≡ (c || d) → (a && not (c || d)) ≡ false
only_if true b c d h e = rw (← e, h refl)
only_if false b c d h e = refl

take-Runs :
    (base : SeqNumber) (n lo hi : ℕ) (runs : List Run)
    → Runs base lo hi runs
    → Runs base lo hi (take n runs)
take-Runs base zero lo hi runs w = tt
take-Runs base (suc n) lo hi [] w = tt
take-Runs base (suc n) lo hi ((l, r) ∷ runs) w =
    (w.0, w.1, w.2, w.3, w.4, take-Runs base n (offset_from r base + 1) hi runs w.5)

covers-take :
    (n : ℕ) (runs : List Run) (x : SeqNumber) → covers (take n runs) x ≡ true → covers runs x ≡ true
unfolding covers
covers-take zero runs x h = cc
covers-take (suc n) [] x h = cc
covers-take (suc n) ((l, r) ∷ runs) x h = ground (arith, covers-take n runs x)

-- Whatever 32-bit edges the peer sends, `update` keeps a valid scoreboard valid, with at most 128
-- SACKed runs, leaves the retransmission marks alone, and never takes a number of the window for
-- SACKed that was not SACKed before and that no acceptable block reports.
pub update-IsValid :
    (una nxt x : SeqNumber) (sb : Scoreboard) (blocks : List Run)
    → IsValid una nxt sb
    → Blocks blocks
    → Near una x
    → IsValid una nxt (update sb una nxt blocks)
      × (length (update sb una nxt blocks).sacked ≤ max_runs)
      × (is_rexmit (update sb una nxt blocks) x ≡ is_rexmit sb x)
      × ((is_sacked (update sb una nxt blocks) x
            && not (is_sacked sb x || reported una nxt blocks x))
          ≡ false)
unfolding update is_sacked is_rexmit
update-IsValid una nxt x sb blocks v bs nx =
    let runs = apply_blocks una nxt sb.sacked blocks in
    let added = apply_blocks_lem una nxt x sb.sacked blocks v.window v.sacked_runs bs nx in
    let capped = cap_runs_lem (length runs) runs (omega arith) in
    (
      record {
        window = v.window;
        sacked_runs = rw capped (take-Runs una max_runs 0 (offset_from nxt una) runs added.0);
        rexmit_runs = v.rexmit_runs;
      },
      rw capped (omega (arith, length-take max_runs runs)),
      refl,
      rw capped (
          only_if (covers (take max_runs runs) x) (covers runs x) (covers sb.sacked x)
            (reported una nxt blocks x) (covers-take max_runs runs x) added.1),
    )

-- As long as the blocks leave no more than 128 runs, a number of the window is SACKed after
-- `update` exactly if it was before or an acceptable block reports it.
pub is_sacked-update :
    (una nxt x : SeqNumber) (sb : Scoreboard) (blocks : List Run)
    → IsValid una nxt sb
    → Blocks blocks
    → Near una x
    → length (apply_blocks una nxt sb.sacked blocks) ≤ max_runs
    → is_sacked (update sb una nxt blocks) x ≡ (is_sacked sb x || reported una nxt blocks x)
unfolding update is_sacked
is_sacked-update una nxt x sb blocks v bs nx few =
    let runs = apply_blocks una nxt sb.sacked blocks in
    rw (cap_runs_lem (length runs) runs (omega arith), take_all max_runs runs few)
      (apply_blocks_lem una nxt x sb.sacked blocks v.window v.sacked_runs bs nx).1
