-- ===== src/Bmc/Controllers/Tests.antt =====
-- The controllers of tcp-core/src/congestion.rs under the sweep of tcp-core/src/bmc.rs.
use ferrumnet.Prelude.{ℕ, arith, none, some}
use ferrumnet.Congestion.{dctcp, prague, learned}
use ferrumnet.Congestion.Reno
use ferrumnet.Congestion.Reno.{reno_control}
use ferrumnet.Congestion.Dispatch.{cc_control, new}
use ferrumnet.Congestion.Fixed.{fixed, fixed-Lawful}
use ferrumnet.Congestion.Learned.{LearnedParams}
use ferrumnet.Bmc.{check_controller_safety}
use ferrumnet.Bmc.Clean.{IsClean}
use ferrumnet.Bmc.Splits.{check_ack_split_invariance, reno_splits-IsClean}
use ferrumnet.Bmc.Stock.{stock-IsClean}

-- A genome that would grow the window on a loss, were it not sanitized.
abbrev greedy : LearnedParams ℕ
greedy = record {
  ai_gain = 1_000_000;
  md_loss = 1_500_000;
  ecn_a = 500_000;
  ecn_b = 0;
  ecn_max = 2_000_000;
}

-- Six quarters of a segment, in at most four ACKs
reno_splits-IsClean_example :
    IsClean (check_ack_split_invariance reno_control (Reno.new 1_460) 6 365 4)
reno_splits-IsClean_example =
    reno_splits-IsClean 1_460 6 365 4 (omega arith) (omega arith) (omega arith)

stock-IsClean_example :
    IsClean (
      check_controller_safety
        (cc_control reno_control (some greedy) none)
        (new reno_control (some greedy) none dctcp 1_460)
        1_460
        2)
    × IsClean (
        check_controller_safety
          (cc_control reno_control (some greedy) none)
          (new reno_control (some greedy) none prague 1_460)
          1_460
          2)
    × IsClean (
        check_controller_safety
          (cc_control reno_control (some greedy) none)
          (new reno_control (some greedy) none learned 1_460)
          1_460
          2)
stock-IsClean_example =
    stock-IsClean reno_control (some greedy) none fixed-Lawful 1_460 2 (omega arith) (omega arith)
