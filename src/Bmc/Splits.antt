-- ===== src/Bmc/Splits.antt =====
-- The sweep of tcp-core/src/bmc.rs over the ways to split new data into ACKs.
use ferrumnet.Prelude.{
  ℕ, zero, suc, ◌+◌, ◌-◌, ◌*◌, ◌^◌, ◌≤◌, ◌<◌, ◌≡◌, arith, refl, List, [], ◌∷◌, ◌++◌, some, none,
  ltb, ◌==◌, if◌then◌else◌, if_case, u32, u32_max, true, saturating_add, sym, ap, ◌∙◌,
}
use native.Mathlib.Nat.{add-mul}
use ferrumnet.Time.{Instant}
use ferrumnet.Congestion.{CongestionControl, initial_window}
use ferrumnet.Congestion.Reno
use ferrumnet.Congestion.Reno.{Reno, reno_control, on_ack, grow, credit}
use ferrumnet.Bmc.{BmcReport, split_inflated, empty_report, for_each, check, cc_now}
use ferrumnet.Bmc.Clean.{IsClean, empty_report-IsClean, check-IsClean}

-- `first..=n`, as its first number and how many there are
abbrev pub numbers : ℕ → ℕ → List ℕ
numbers first zero = []
numbers first (suc count) = first ∷ numbers (first + 1) count

-- With how many parts may still come
unfoldable pub for_each_composition :
    (List ℕ → BmcReport → BmcReport) → ℕ → ℕ → List ℕ → BmcReport → BmcReport
unfolding for_each
for_each_composition f zero n prefix r = if n == 0 then f prefix r else r
for_each_composition f (suc left) n prefix r =
    let deeper =
      for_each (λ first. for_each_composition f left (n - first) (prefix ++ (first ∷ [])))
        (numbers 1 n) r in
    if n == 0 then f prefix r else deeper

module _ {C : Type 0} (control : CongestionControl C) where
  unfoldable pub acknowledge : ℕ → List ℕ → C → C
  acknowledge unit [] c = c
  acknowledge unit (p ∷ parts) c = acknowledge unit parts (control.on_ack c cc_now (u32 (p * unit)))

  unfoldable pub check_split : C → ℕ → ℕ → List ℕ → BmcReport → BmcReport
  unfolding acknowledge check
  check_split c total_bytes unit parts r =
      let growth = control.cwnd (acknowledge unit parts c) - control.cwnd c in
      check r (if ltb total_bytes growth then some split_inflated else none)

  unfoldable pub check_ack_split_invariance : C → ℕ → ℕ → ℕ → BmcReport
  unfolding for_each_composition check_split
  check_ack_split_invariance c total_units unit max_acks =
      for_each_composition (check_split c (u32 (total_units * unit)) unit) max_acks total_units []
        empty_report

abbrev bytes : ℕ → List ℕ → ℕ
bytes unit [] = 0
bytes unit (p ∷ parts) = p * unit + bytes unit parts

bytes-append :
    (unit p : ℕ) (parts : List ℕ) → bytes unit (parts ++ (p ∷ [])) ≡ bytes unit parts + p * unit
bytes-append unit p [] = omega arith
bytes-append unit p (x ∷ parts) = omega (arith, bytes-append unit p parts)

split_off : (unit p n : ℕ) → p ≤ n → p * unit + (n - p) * unit ≡ n * unit
split_off unit p n h = sym (add-mul p (n - p) unit) ∙ ap (λ k. k * unit) (omega arith)

none_left : (unit n before total : ℕ) → (n == 0) ≡ true → before + n * unit ≡ total → before ≡ total
none_left unit n before total z e = let gone : n ≡ 0 = ground arith in omega (arith, rw gone at e)

no_growth : (t g : ℕ) → g ≤ t → (if ltb t g then some split_inflated else none) ≡ none
no_growth t g h = ground arith

-- A loop over numbers, with a body that is clean on those up to a bound
numbers-IsClean :
    (body : ℕ → BmcReport → BmcReport) (n first count : ℕ)
    → first + count ≤ n + 1
    → ((p : ℕ) → p ≤ n → (s : BmcReport) → IsClean s → IsClean (body p s))
    → (r : BmcReport) → IsClean r
    → IsClean (for_each body (numbers first count) r)
unfolding for_each
numbers-IsClean body n first zero h k r v = v
numbers-IsClean body n first (suc count) h k r v =
    numbers-IsClean body n (first + 1) count (omega arith) k (body first r)
      (k first (omega arith) r v)

compositions-IsClean :
    (f : List ℕ → BmcReport → BmcReport) (unit total : ℕ)
    → ((parts : List ℕ)
        → bytes unit parts ≡ total
        → (s : BmcReport) → IsClean s
        → IsClean (f parts s))
    → (left n : ℕ) (prefix : List ℕ) → bytes unit prefix + n * unit ≡ total
    → (r : BmcReport) → IsClean r
    → IsClean (for_each_composition f left n prefix r)
unfolding for_each_composition
compositions-IsClean f unit total h zero n prefix e r v =
    if_case IsClean (n == 0) _ _ (λ z. h prefix (none_left unit n _ total z e) r v) (λ z. v)
compositions-IsClean f unit total h (suc left) n prefix e r v =
    if_case IsClean (n == 0) _ _ (λ z. h prefix (none_left unit n _ total z e) r v)
      (λ z.
        numbers-IsClean _ n 1 n (omega arith)
          (λ p k.
            compositions-IsClean f unit total h left (n - p) (prefix ++ (p ∷ []))
              (omega (arith, bytes-append unit p prefix, split_off unit p n k, e)))
          r v)

module _ {C : Type 0} (control : CongestionControl C) (Inv : C → Type 0)
    (grows : (c : C) (a : ℕ)
      → Inv c
      → Inv (control.on_ack c cc_now a)
        × (control.cwnd (control.on_ack c cc_now a) ≤ control.cwnd c + a)) where
  acknowledge-grows :
      (unit : ℕ) (parts : List ℕ) (c : C)
      → bytes unit parts ≤ u32_max
      → Inv c
      → control.cwnd (acknowledge control unit parts c) ≤ control.cwnd c + bytes unit parts
  unfolding acknowledge
  acknowledge-grows unit [] c h v = omega arith
  acknowledge-grows unit (p ∷ parts) c h v =
      let step = grows c (u32 (p * unit)) v in
      omega (arith, step.1, acknowledge-grows unit parts _ (omega (arith, h)) step.0)

  check_split-IsClean :
      (unit total : ℕ) (c : C) (parts : List ℕ)
      → total ≤ u32_max
      → Inv c
      → bytes unit parts ≡ total
      → (s : BmcReport) → IsClean s
      → IsClean (check_split control c (u32 total) unit parts s)
  unfolding check_split
  check_split-IsClean unit total c parts h v e s w =
      let grown = acknowledge-grows unit parts c (omega (arith, h, e)) v in
      check-IsClean s
        (no_growth (u32 total) (control.cwnd (acknowledge control unit parts c) - control.cwnd c)
          (omega (arith, grown, e, h)))
        w

  -- A controller whose window never grows by more than an ACK acknowledges passes the sweep, however
  -- many bytes, units and ACKs there are, as long as the bytes fit 32 bits.
  pub splits-IsClean :
      (c : C) (total_units unit max_acks : ℕ)
      → total_units * unit ≤ u32_max
      → Inv c
      → IsClean (check_ack_split_invariance control c total_units unit max_acks)
  unfolding check_ack_split_invariance
  splits-IsClean c total_units unit max_acks h v =
      compositions-IsClean _ unit (total_units * unit)
        (λ parts e s w. check_split-IsClean unit (total_units * unit) c parts h v e s w) max_acks
        total_units [] (omega arith) empty_report empty_report-IsClean

-- Reno before its first loss
abbrev Fresh : Reno → Type 0
Fresh r = (r.ssthresh ≡ u32_max) × (r.cwnd ≤ u32_max)

credit-Fresh : (fuel : ℕ) (r : Reno) → Fresh r → Fresh (credit fuel r)
unfolding credit
credit-Fresh zero r v = v
credit-Fresh (suc fuel) r v =
    let next : Reno = record r { ca_acc = r.ca_acc - r.cwnd; cwnd = saturating_add r.cwnd r.mss } in
    let later = credit-Fresh fuel next (v.0, omega arith) in ground (arith, later, v)

on_ack-Fresh :
    (r : Reno) (now : Instant) (a : ℕ)
    → Fresh r
    → Fresh (on_ack r now a) × ((on_ack r now a).cwnd ≤ r.cwnd + a)
unfolding on_ack grow
on_ack-Fresh r now a v =
    let total = saturating_add r.ca_acc a in
    let credited = credit-Fresh total (record r { dup_acks = 0; ca_acc = total }) v in
    ground (arith, v, credited)

-- Of a new Reno, of 1 to 65535 bytes to the segment, and new data of at most 2 ^ 32 - 1 bytes, no split
-- into any number of ACKs makes the window grow by more than these bytes: the sweep of all splits
-- finds no violation.
pub reno_splits-IsClean :
    (mss total_units unit max_acks : ℕ)
    → 0 < mss
    → mss < 2 ^ 16
    → total_units * unit ≤ u32_max
    → IsClean (check_ack_split_invariance reno_control (Reno.new mss) total_units unit max_acks)
unfolding Reno.new initial_window
reno_splits-IsClean mss total_units unit max_acks h k l =
    splits-IsClean reno_control Fresh (λ r a v. on_ack-Fresh r cc_now a v) (Reno.new mss)
      total_units unit max_acks l (refl, omega arith)
