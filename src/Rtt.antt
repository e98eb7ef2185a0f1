-- ===== src/Rtt.antt =====
-- tcp-core/src/rtt.rs: the RFC 6298 retransmission timeout, in microseconds. Sums and products are
-- those of `u32`, so they are cut at 2 ^ 32.
mod Tests
pub mod Bounds
pub mod Backoff
use ferrumnet.Prelude.{
  ℕ, ◌+◌, ◌-◌, ◌*◌, ◌/◌, Bool, true, false, not, Option, some, none, min, max, u32, ltb, leb,
  div_ceil, saturating_add, if◌then◌else◌,
}

abbrev pub initial_rto : ℕ
initial_rto = 1_000_000

abbrev pub min_rto : ℕ
min_rto = 200_000

abbrev pub max_rto : ℕ
max_rto = 60_000_000

abbrev pub clock_granularity : ℕ
clock_granularity = 1_000

abbrev pub k : ℕ
k = 4

abbrev pub rebootstrap_after : ℕ
rebootstrap_after = 3

pub record RttEstimator : Type 0 where
  pub srtt : ℕ
  pub rttvar : ℕ
  pub base_rto : ℕ
  pub rto : ℕ
  pub have_measurement : Bool
  pub consecutive_timeouts : ℕ

abbrev pub new : RttEstimator
new = record {
  srtt = 0;
  rttvar = 0;
  base_rto = initial_rto;
  rto = initial_rto;
  have_measurement = false;
  consecutive_timeouts = 0;
}

abbrev pub rto_micros : RttEstimator → ℕ
rto_micros e = e.rto

unfoldable pub srtt_micros : RttEstimator → Option ℕ
srtt_micros e = if e.have_measurement then some e.srtt else none

-- `u32::abs_diff`
abbrev pub abs_diff : ℕ → ℕ → ℕ
abs_diff a b = if ltb a b then b - a else a - b

-- The two branches of `on_sample`: the first measurement, and the smoothed update, whose `rttvar`
-- is computed from the old `srtt`.
unfoldable pub measure : RttEstimator → ℕ → RttEstimator
measure e r =
    if not e.have_measurement
    then record e { srtt = r; rttvar = r / 2; have_measurement = true }
    else record e {
      rttvar = div_ceil (u32 (u32 (3 * e.rttvar) + abs_diff e.srtt r)) 4;
      srtt = div_ceil (u32 (u32 (7 * e.srtt) + r)) 8;
    }

-- The timeout that the measurement gives: `clamp` to the two limits.
unfoldable pub timeout_of : RttEstimator → ℕ
timeout_of e =
    let margin = max (u32 (k * e.rttvar)) clock_granularity in
    max min_rto (min max_rto (saturating_add e.srtt margin))

unfoldable pub on_sample : RttEstimator → ℕ → RttEstimator
unfolding measure timeout_of
on_sample e sample =
    let m = measure e (min sample max_rto) in
    let base = timeout_of m in record m { base_rto = base; rto = base; consecutive_timeouts = 0 }

unfoldable pub on_clean_ack : RttEstimator → RttEstimator
on_clean_ack e = record e { rto = e.base_rto; consecutive_timeouts = 0 }

unfoldable pub on_timeout : RttEstimator → RttEstimator
on_timeout e =
    let count = u32 (e.consecutive_timeouts + 1) in
    record e {
      rto = min (u32 (e.rto * 2)) max_rto;
      consecutive_timeouts = count;
      have_measurement = if leb rebootstrap_after count then false else e.have_measurement;
    }
