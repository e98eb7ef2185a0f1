-- ===== src/Bmc.antt =====
-- tcp-core/src/bmc.rs: the checker that drives a component through every sequence of operations up
-- to a depth, with what it drives congestion controllers by. A message is a constructor.
pub mod Clean
pub mod Controllers
pub mod Genomes
pub mod Stock
pub mod Options
pub mod Splits
use ferrumnet.Prelude.{
  ℕ, zero, suc, ◌+◌, ◌*◌, ◌&&◌, List, [], ◌∷◌, Option, none, some, Bool, true, false, max, u32, u64,
  ltb, if◌then◌else◌,
}
use ferrumnet.Time.{Instant, zero_instant}
use ferrumnet.Congestion.{CongestionControl}

pub data Violation : Type 0 where
  below_one_mss loss_inflated threshold_below_floor ecn_grew ack_shrank too_many_blocks
        split_inflated :
      Violation

pub record BmcReport : Type 0 where
  pub cases : ℕ
  pub violations : ℕ
  pub first_violation : Option Violation

abbrev pub empty_report : BmcReport
empty_report = record { cases = 0; violations = 0; first_violation = none }

-- The first of two, if there is one.
abbrev pub or_else {ℓ} : {A : Type ℓ} → Option A → Option A → Option A
or_else none y = y
or_else (some x) y = some x

-- A result `Ok(())` is `none`.
unfoldable pub check : BmcReport → Option Violation → BmcReport
check r none = record r { cases = u64 (r.cases + 1) }
check r (some why) = record r {
  cases = u64 (r.cases + 1);
  violations = u64 (r.violations + 1);
  first_violation = or_else r.first_violation (some why);
}

-- A loop that hands the report on.
unfoldable pub for_each {ℓ} :
    {A : Type ℓ} → (A → BmcReport → BmcReport) → List A → BmcReport → BmcReport
for_each body [] r = r
for_each body (x ∷ xs) r = for_each body xs (body x r)

pub data Flight : Type 0 where
  small initial large : Flight

pub data CcEvent : Type 0 where
  acked : ℕ → CcEvent
  marked : ℕ → ℕ → CcEvent
  rtt : ℕ → CcEvent
  duplicate : Flight → CcEvent
  timeout : Flight → CcEvent
  recovery : Flight → CcEvent

unfoldable pub cc_alphabet : ℕ → List CcEvent
cc_alphabet mss =
    let w = u32 (10 * mss) in
    acked 0
    ∷ (acked mss
        ∷ (acked w
            ∷ (marked w 0
                ∷ (marked w mss
                    ∷ (marked w w
                        ∷ (rtt 1_000
                            ∷ (rtt 200_000
                                ∷ (duplicate small
                                    ∷ (duplicate initial
                                        ∷ (duplicate large
                                            ∷ (timeout small
                                                ∷ (timeout initial
                                                    ∷ (timeout large
                                                        ∷ (recovery small
                                                            ∷ (recovery initial
                                                            ∷ (recovery large ∷ []))))))))))))))))

unfoldable pub flight_bytes : ℕ → Flight → ℕ
flight_bytes mss small = u32 (2 * mss)
flight_bytes mss initial = u32 (10 * mss)
flight_bytes mss large = u32 (40 * mss)

-- `CC_NOW`
abbrev pub cc_now : Instant
cc_now = zero_instant

module _ {C : Type 0} (control : CongestionControl C) where
  -- The new state, and the flight of a loss that took effect.
  unfoldable pub apply_cc : C → CcEvent → ℕ → Option ℕ × C
  unfolding flight_bytes
  apply_cc c (acked a) mss = (none, control.on_ack c cc_now a)
  apply_cc c (marked a m) mss = (none, control.on_ecn c cc_now a m)
  apply_cc c (rtt s) mss = (none, control.on_rtt_sample c s)
  apply_cc c (duplicate fl) mss =
      let (lost, next) = control.on_dup_ack c cc_now (flight_bytes mss fl) in
      ((if lost then some (flight_bytes mss fl) else none), next)
  apply_cc c (timeout fl) mss =
      (some (flight_bytes mss fl), control.on_rto c cc_now (flight_bytes mss fl))
  apply_cc c (recovery fl) mss =
      (some (flight_bytes mss fl), control.enter_recovery c cc_now (flight_bytes mss fl))

unfoldable pub loss_clause : ℕ → ℕ → ℕ → Option ℕ → Option Violation
loss_clause cwnd ssthresh mss none = none
loss_clause cwnd ssthresh mss (some flight) =
    if ltb (max flight (u32 (2 * mss))) cwnd
    then some loss_inflated
    else if ltb ssthresh (u32 (2 * mss))
    then some threshold_below_floor
    else none

unfoldable pub event_clause : CcEvent → ℕ → ℕ → Option Violation
event_clause (marked a m) cwnd_before cwnd = if ltb cwnd_before cwnd then some ecn_grew else none
event_clause (acked a) cwnd_before cwnd =
    if ltb 0 a && ltb cwnd cwnd_before then some ack_shrank else none
event_clause (rtt s) cwnd_before cwnd = none
event_clause (duplicate fl) cwnd_before cwnd = none
event_clause (timeout fl) cwnd_before cwnd = none
event_clause (recovery fl) cwnd_before cwnd = none

unfoldable pub cc_safety_invariants : CcEvent → ℕ → ℕ → ℕ → ℕ → Option ℕ → Option Violation
unfolding loss_clause event_clause
cc_safety_invariants ev cwnd_before cwnd ssthresh mss loss_flight =
    if ltb cwnd mss
    then some below_one_mss
    else or_else (loss_clause cwnd ssthresh mss loss_flight) (event_clause ev cwnd_before cwnd)

-- A predicate that the sweep evaluates after each event
abbrev pub CcInvariant : Type 0
CcInvariant = CcEvent → ℕ → ℕ → ℕ → ℕ → Option ℕ → Option Violation

module _ {C : Type 0} (control : CongestionControl C) where
  unfoldable pub explore_cc : List CcEvent → CcInvariant → ℕ → ℕ → C → BmcReport → BmcReport
  unfolding for_each apply_cc check
  explore_cc alphabet inv mss zero c r = r
  explore_cc alphabet inv mss (suc depth) c r =
      for_each
        (λ ev r'.
          let (loss_flight, next) = apply_cc control c ev mss in
          explore_cc alphabet inv mss depth next (
            check r' (
              inv ev (control.cwnd c) (control.cwnd next) (control.ssthresh next) mss loss_flight)))
        alphabet r

  unfoldable pub run_cc_sweep : C → ℕ → ℕ → CcInvariant → BmcReport
  unfolding explore_cc cc_alphabet
  run_cc_sweep c mss depth inv = explore_cc (cc_alphabet mss) inv mss depth c empty_report

  unfoldable pub check_controller_safety : C → ℕ → ℕ → BmcReport
  unfolding run_cc_sweep cc_safety_invariants
  check_controller_safety c mss depth = run_cc_sweep c mss depth cc_safety_invariants
