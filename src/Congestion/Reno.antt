-- ===== src/Congestion/Reno.antt =====
-- The controller `Reno` of tcp-core/src/congestion.rs, in bytes, on `u32`.
pub mod Window
mod Tests
use ferrumnet.Prelude.{
  ℕ, zero, suc, ◌+◌, ◌-◌, ◌*◌, ◌/◌, Bool, true, false, none, min, max, u8_max, u32, u32_max, ltb,
  leb, ◌==◌, saturating_add, if◌then◌else◌,
}
use ferrumnet.Time.{Instant}
use ferrumnet.Congestion.{CongestionControl, initial_window}

pub record Reno : Type 0 where
  pub cwnd : ℕ
  pub ssthresh : ℕ
  pub mss : ℕ
  pub ca_acc : ℕ
  pub dup_acks : ℕ

unfoldable pub new : ℕ → Reno
unfolding initial_window
new mss = record {
  cwnd = initial_window mss;
  ssthresh = u32_max;
  mss = mss;
  ca_acc = 0;
  dup_acks = 0;
}

abbrev pub in_slow_start : Reno → Bool
in_slow_start r = ltb r.cwnd r.ssthresh

-- `while self.ca_acc >= self.cwnd`, on fuel. A round takes at least one byte from `ca_acc` when
-- the window is not empty, so that `ca_acc` rounds are enough.
unfoldable pub credit : ℕ → Reno → Reno
credit zero r = r
credit (suc fuel) r = elim (leb r.cwnd r.ca_acc) [
  | true ↦ credit fuel (record r { ca_acc = r.ca_acc - r.cwnd; cwnd = saturating_add r.cwnd r.mss })
  | false ↦ r
]

unfoldable pub grow : Reno → ℕ → Reno
unfolding credit
grow r acked =
    if in_slow_start r
    then record r { cwnd = saturating_add r.cwnd (min acked r.mss) }
    else let total = saturating_add r.ca_acc acked in credit total (record r { ca_acc = total })

unfoldable pub on_ack : Reno → Instant → ℕ → Reno
unfolding grow
on_ack r now acked =
    let reset : Reno = record r { dup_acks = 0 } in if acked == 0 then reset else grow reset acked

-- `(flight_size / 2).max(2 * self.mss)`
abbrev pub halved : Reno → ℕ → ℕ
halved r flight_size = max (flight_size / 2) (u32 (2 * r.mss))

unfoldable pub on_dup_ack : Reno → Instant → ℕ → Bool × Reno
on_dup_ack r now flight_size =
    let count = min (r.dup_acks + 1) u8_max in
    if count == 3
    then (
      true,
      record r {
        cwnd = halved r flight_size;
        ssthresh = halved r flight_size;
        ca_acc = 0;
        dup_acks = count;
      },
    )
    else (false, record r { dup_acks = count })

unfoldable pub enter_recovery : Reno → Instant → ℕ → Reno
enter_recovery r now flight_size = record r {
  cwnd = halved r flight_size;
  ssthresh = halved r flight_size;
  ca_acc = 0;
  dup_acks = 0;
}

unfoldable pub on_rto : Reno → Instant → ℕ → Reno
on_rto r now flight_size = record r { cwnd = r.mss; ssthresh = halved r flight_size; ca_acc = 0 }

unfoldable pub set_mss : Reno → ℕ → Reno
set_mss r mss = record r { mss = mss; cwnd = max r.cwnd mss; ca_acc = 0 }

-- `impl CongestionControl for Reno`; the methods it leaves out do nothing.
abbrev pub reno_control : CongestionControl Reno
reno_control = record {
  start = λ kind mss. new mss;
  cwnd = λ c. c.cwnd;
  ssthresh = λ c. c.ssthresh;
  on_ack = on_ack;
  on_dup_ack = on_dup_ack;
  enter_recovery = enter_recovery;
  on_rto = on_rto;
  set_mss = set_mss;
  pacing_rate = λ c. none;
  on_transmit = λ c now seq_end bytes inflight app_limited. c;
  on_ack_sample = λ c now snd_una inflight acked pipe in_recovery. c;
  on_ecn = λ c now acked marked. c;
  on_rtt_sample = λ c srtt_us. c;
}
