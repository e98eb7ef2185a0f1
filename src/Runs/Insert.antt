-- ===== src/Runs/Insert.antt =====
-- `insert_run` of tcp-core/src/sack.rs is the merge of Runs/Order.
use native.Mathlib.Decide.{dec_lt}
use ferrumnet.Prelude.{
  min, ℕ, ◌+◌, ◌≤◌, ◌<◌, ◌≡◌, refl, sym, ap, ap₂, ◌∙◌, arith, List, [], ◌∷◌, ◌++◌, length, position,
  if◌then◌else◌, append_assoc, length-append, remove-append, insert_at-append, ◌==◌,
}
use ferrumnet.Seq.{SeqNumber, lt, gt, offset_from}
use ferrumnet.Seq.Order.{Near}
use ferrumnet.Runs.{Run, scan, remove_many, replace_touched, insert_run}
use ferrumnet.Runs.Order.{Runs, merge, compares}

module _ (base : SeqNumber) where
  -- Runs that all end below the offset `m`.
  abbrev Below : ℕ → List Run → Type 0
  Below m [] = Unit
  Below m ((l, r) ∷ rest) =
      Near base l
      × Near base r
      × (offset_from l base < offset_from r base)
      × (offset_from r base < m)
      × Below m rest

  Below-weaken : (m m' : ℕ) (pre : List Run) → m ≤ m' → Below m pre → Below m' pre
  Below-weaken m m' [] h w = tt
  Below-weaken m m' ((l, r) ∷ pre) h w = (w.0, w.1, w.2, omega arith, Below-weaken m m' pre h w.4)

  Below-snoc :
      (m : ℕ) (pre : List Run) (l r : SeqNumber)
      → Below m pre
      → Near base l
      → Near base r
      → offset_from l base < offset_from r base
      → offset_from r base < m
      → Below m (pre ++ ((l, r) ∷ []))
  Below-snoc m [] l r w nl nr h k = (nl, nr, h, k, tt)
  Below-snoc m ((a, b) ∷ pre) l r w nl nr h k =
      (w.0, w.1, w.2, w.3, Below-snoc m pre l r w.4 nl nr h k)

  remove_many-append :
      (pre mid rest : List Run)
      → remove_many (length mid) (length pre) (pre ++ (mid ++ rest)) ≡ pre ++ rest
  unfolding remove_many
  remove_many-append pre [] rest = refl
  remove_many-append pre (x ∷ mid) rest =
      ap (remove_many (length mid) (length pre)) (remove-append pre (mid ++ rest) x)
      ∙ remove_many-append pre mid rest

  module _ (hi : ℕ) (l r : SeqNumber) (nl : Near base l) (nr : Near base r)
      (k : offset_from l base < offset_from r base) where
    position_lem :
        (m lo : ℕ) (pre rest : List Run)
        → Below m pre
        → m ≤ offset_from l base
        → Runs base lo hi rest
        → offset_from r base < lo
        → position (λ run. lt l run.0) (pre ++ rest) ≡ length pre
    position_lem m lo [] [] w h u g = refl
    position_lem m lo [] ((a, b) ∷ rest) w h u g = ground (arith, compares base l a nl u.0)
    position_lem m lo ((a, b) ∷ pre) rest w h u g =
        ground (arith, compares base l a nl w.0, position_lem m lo pre rest w.4 h u g)

    -- With the touched runs `mid` between those below and those above, the replacement puts the
    -- merged run in their place.
    replace_lem :
        (m lo first : ℕ) (pre mid rest : List Run)
        → Below m pre
        → m ≤ offset_from l base
        → Runs base lo hi rest
        → offset_from r base < lo
        → first ≡ length pre
        → replace_touched
            (pre ++ (mid ++ rest))
            (record { first = first; count = length mid; l = l; r = r })
          ≡ pre ++ ((l, r) ∷ rest)
    unfolding replace_touched
    replace_lem m lo first pre mid rest w h u g e =
        rw (e, remove_many-append pre mid rest, position_lem m lo pre rest w h u g)
          (insert_at-append pre rest (l, r))

    scan_above :
        (lo i first count : ℕ) (rest : List Run)
        → Runs base lo hi rest
        → offset_from r base < lo
        → scan rest i (record { first = first; count = count; l = l; r = r })
          ≡ record { first = first; count = count; l = l; r = r }
    unfolding scan
    scan_above lo i first count [] u g = refl
    scan_above lo i first count ((a, b) ∷ rest) u g = ground (
      arith,
      compares base a r u.0 nr,
      scan_above (offset_from b base + 1) (i + 1) first count rest u.5 (omega arith),
    )

    merge_above :
        (lo : ℕ) (rest : List Run)
        → Runs base lo hi rest
        → offset_from r base < lo
        → merge rest l r ≡ (l, r) ∷ rest
    unfolding merge
    merge_above lo [] u g = refl
    merge_above lo ((a, b) ∷ rest) u g =
        ground (arith, compares base b l u.1 nl, compares base r a nr u.0)

  module _ (l r a b : SeqNumber) (nl : Near base l) (nr : Near base r) (na : Near base a)
      (nb : Near base b) where
    scan_below :
        (i first count : ℕ) (rest : List Run)
        → offset_from b base < offset_from l base
        → scan ((a, b) ∷ rest) i (record { first = first; count = count; l = l; r = r })
          ≡ scan rest (i + 1) (record { first = first; count = count; l = l; r = r })
    unfolding scan
    scan_below i first count rest h = ground (arith, compares base l b nl nb)

    merge_below :
        (rest : List Run)
        → offset_from b base < offset_from l base
        → merge ((a, b) ∷ rest) l r ≡ (a, b) ∷ merge rest l r
    unfolding merge
    merge_below rest h = ground (arith, compares base b l nb nl)

    scan_hit :
        (i first count : ℕ) (rest : List Run)
        → offset_from a base ≤ offset_from r base
        → offset_from l base ≤ offset_from b base
        → scan ((a, b) ∷ rest) i (record { first = first; count = count; l = l; r = r })
          ≡ scan rest (i + 1) (record {
            first = if count == 0 then i else first;
            count = count + 1;
            l = if lt a l then a else l;
            r = if gt b r then b else r;
          })
    unfolding scan
    scan_hit i first count rest h k =
        ground (arith, compares base a r na nr, compares base l b nl nb)

    merge_hit :
        (rest : List Run)
        → offset_from a base ≤ offset_from r base
        → offset_from l base ≤ offset_from b base
        → merge ((a, b) ∷ rest) l r ≡ merge rest (if lt a l then a else l) (if gt b r then b else r)
    unfolding merge
    merge_hit rest h k = ground (arith, compares base b l nb nl, compares base r a nr na)

    -- The merged run: its ends, and that they still lie in order.
    joined :
        offset_from a base < offset_from b base
        → let l' = if lt a l then a else l in
          let r' = if gt b r then b else r in
          Near base l'
          × Near base r'
          × (offset_from l' base ≤ offset_from l base)
          × (offset_from l' base ≤ offset_from a base)
          × (min (offset_from l base) (offset_from a base) ≤ offset_from l' base)
          × (offset_from r base ≤ offset_from r' base)
          × (offset_from b base ≤ offset_from r' base)
    joined h = ground (arith, compares base a l na nl, compares base b r nb nr)

  snoc-append : (mid rest : List Run) (x : Run) → (mid ++ (x ∷ [])) ++ rest ≡ mid ++ (x ∷ rest)
  snoc-append mid rest x = append_assoc mid (x ∷ []) rest

  -- The walk once it has touched a run: `mid` are the touched ones.
  insert_touched :
      (hi m lo i first count : ℕ) (l r : SeqNumber) (pre mid rest : List Run)
      → Near base l
      → Near base r
      → offset_from l base < offset_from r base
      → Below m pre
      → m ≤ offset_from l base
      → offset_from l base ≤ lo
      → Runs base lo hi rest
      → first ≡ length pre
      → count ≡ length mid
      → 0 < count
      → replace_touched
          (pre ++ (mid ++ rest))
          (scan rest i (record { first = first; count = count; l = l; r = r }))
        ≡ pre ++ merge rest l r
  insert_touched hi m lo i first count l r pre mid [] nl nr k w h g u e e' c =
      rw (scan_above hi l r nl nr k (offset_from r base + 1) i first count [] tt (omega arith), e')
        (rw (merge_above hi l r nl nr k (offset_from r base + 1) [] tt (omega arith)) (
          replace_lem hi l r nl nr k m (offset_from r base + 1) first pre mid [] w h tt
            (omega arith) e))
  insert_touched hi m lo i first count l r pre mid ((a, b) ∷ rest) nl nr k w h g u e e' c =
      elim (dec_lt (offset_from r base) (offset_from a base)) [
        | yes ra ↦
            let up : Runs base (offset_from a base) hi ((a, b) ∷ rest) =
              (u.0, u.1, omega arith, u.3, u.4, u.5) in
            rw
              (
                scan_above hi l r nl nr k (offset_from a base) i first count ((a, b) ∷ rest) up ra,
                e',
              )
              (rw (merge_above hi l r nl nr k (offset_from a base) ((a, b) ∷ rest) up ra) (
                replace_lem hi l r nl nr k m (offset_from a base) first pre mid ((a, b) ∷ rest) w h
                  up ra e))
        | no ra ↦
            let j = joined l r a b nl nr u.0 u.1 u.3 in
            ap₂ replace_touched (ap (λ ys. pre ++ ys) (sym (snoc-append mid rest (a, b))))
              (scan_hit l r a b nl nr u.0 u.1 i first count rest (omega arith) (omega arith))
            ∙ insert_touched hi m (offset_from b base + 1) (i + 1) (if count == 0 then i else first)
                (count + 1) (if lt a l then a else l) (if gt b r then b else r) pre
                (mid ++ ((a, b) ∷ [])) rest j.0 j.1 (omega arith) w (omega arith) (omega arith) u.5
                (ground arith) (omega (arith, length-append mid ((a, b) ∷ []))) (omega arith)
            ∙ ap (λ ys. pre ++ ys)
                (sym (merge_hit l r a b nl nr u.0 u.1 rest (omega arith) (omega arith)))
      ]

  -- With no run touched nothing is removed, wherever `first` stands.
  untouched_lem :
      (hi m lo first : ℕ) (l r : SeqNumber) (pre rest : List Run)
      → Near base l
      → Near base r
      → offset_from l base < offset_from r base
      → Below m pre
      → m ≤ offset_from l base
      → Runs base lo hi rest
      → offset_from r base < lo
      → replace_touched (pre ++ rest) (record { first = first; count = 0; l = l; r = r })
        ≡ pre ++ ((l, r) ∷ rest)
  unfolding replace_touched
  untouched_lem hi m lo first l r pre rest nl nr k w h u g =
      rw (position_lem hi l r nl nr k m lo pre rest w h u g) (insert_at-append pre rest (l, r))

  -- The walk before it has touched a run: `pre` are the runs below.
  insert_untouched :
      (hi m lo i first : ℕ) (l r : SeqNumber) (pre rest : List Run)
      → Near base l
      → Near base r
      → offset_from l base < offset_from r base
      → Below m pre
      → m ≤ offset_from l base
      → m ≤ lo
      → Runs base lo hi rest
      → i ≡ length pre
      → replace_touched
          (pre ++ rest)
          (scan rest i (record { first = first; count = 0; l = l; r = r }))
        ≡ pre ++ merge rest l r
  insert_untouched hi m lo i first l r pre [] nl nr k w h g u e =
      rw (scan_above hi l r nl nr k (offset_from r base + 1) i first 0 [] tt (omega arith)) (
        rw (merge_above hi l r nl nr k (offset_from r base + 1) [] tt (omega arith)) (
          untouched_lem hi m (offset_from r base + 1) first l r pre [] nl nr k w h tt
            (omega arith)))
  insert_untouched hi m lo i first l r pre ((a, b) ∷ rest) nl nr k w h g u e =
      elim (dec_lt (offset_from r base) (offset_from a base)) [
        | yes ra ↦
            let up : Runs base (offset_from a base) hi ((a, b) ∷ rest) =
              (u.0, u.1, omega arith, u.3, u.4, u.5) in
            rw (scan_above hi l r nl nr k (offset_from a base) i first 0 ((a, b) ∷ rest) up ra) (
              rw (merge_above hi l r nl nr k (offset_from a base) ((a, b) ∷ rest) up ra) (
                untouched_lem hi m (offset_from a base) first l r pre ((a, b) ∷ rest) nl nr k w h up
                  ra))
        | no ra ↦ elim (dec_lt (offset_from b base) (offset_from l base)) [
          | yes below ↦
              ap₂ replace_touched (sym (snoc-append pre rest (a, b)))
                (scan_below l r a b nl nr u.0 u.1 i first 0 rest below)
              ∙ insert_untouched hi (offset_from b base + 1) (offset_from b base + 1) (i + 1) first
                  l r (pre ++ ((a, b) ∷ [])) rest nl nr k
                  (Below-snoc (offset_from b base + 1) pre a b
                    (Below-weaken m (offset_from b base + 1) pre (omega arith) w) u.0 u.1 u.3
                    (omega arith))
                  (omega arith) (omega arith) u.5 (omega (arith, length-append pre ((a, b) ∷ [])))
              ∙ (snoc-append pre (merge rest l r) (a, b)
                  ∙ ap (λ ys. pre ++ ys) (sym (merge_below l r a b nl nr u.0 u.1 rest below)))
          | no over ↦
              let j = joined l r a b nl nr u.0 u.1 u.3 in
              ap (replace_touched (pre ++ ((a, b) ∷ rest)))
                (scan_hit l r a b nl nr u.0 u.1 i first 0 rest (omega arith) (omega arith))
              ∙ insert_touched hi m (offset_from b base + 1) (i + 1) i 1 (if lt a l then a else l)
                  (if gt b r then b else r) pre ((a, b) ∷ []) rest j.0 j.1 (omega arith) w
                  (omega arith) (omega arith) u.5 e refl (omega arith)
              ∙ ap (λ ys. pre ++ ys)
                  (sym (merge_hit l r a b nl nr u.0 u.1 rest (omega arith) (omega arith)))
        ]
      ]

  -- On runs in order, `insert_run` is the merge.
  pub insert_run-eq-merge :
      (lo hi : ℕ) (runs : List Run) (l r : SeqNumber)
      → Runs base lo hi runs
      → Near base l
      → Near base r
      → offset_from l base < offset_from r base
      → insert_run runs l r ≡ merge runs l r
  unfolding insert_run
  insert_run-eq-merge lo hi runs l r w nl nr k =
      insert_untouched hi 0 lo 0 (length runs) l r [] runs nl nr k tt (omega arith) (omega arith) w
        refl
