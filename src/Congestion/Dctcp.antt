-- ===== src/Congestion/Dctcp.antt =====
-- The controller `Dctcp` of tcp-core/src/congestion.rs.
pub mod Unmarked
use ferrumnet.Prelude.{ℕ, ◌/◌, Bool, none, max, saturating_add}
use ferrumnet.Congestion.{CongestionControl}
use ferrumnet.Congestion.Float.{Float, ◌⊖◌, ◌⊗◌, ◌⊘◌}
use ferrumnet.Congestion.Scalable
use ferrumnet.Congestion.Scalable.{Window, two_segments}

module _ {F : Type 0} where
  abbrev pub halved : ℕ → Window F → ℕ
  halved flight_size w = max (flight_size / 2) (two_segments w)

  -- One segment for each window of data.
  abbrev pub add_segment : Window F → ℕ → ℕ → ℕ
  add_segment w acked c = saturating_add c w.mss

  unfoldable pub on_ack : Window F → ℕ → Window F
  unfolding Scalable.on_ack
  on_ack w acked = Scalable.on_ack add_segment w acked

  unfoldable pub on_dup_ack : Window F → ℕ → Bool × Window F
  unfolding Scalable.on_dup_ack
  on_dup_ack w flight_size = Scalable.on_dup_ack (halved flight_size) w

  unfoldable pub enter_recovery : Window F → ℕ → Window F
  unfolding Scalable.enter_recovery
  enter_recovery w flight_size = Scalable.enter_recovery (halved flight_size) w

  unfoldable pub on_rto : Window F → ℕ → Window F
  unfolding Scalable.on_rto
  on_rto w flight_size = Scalable.on_rto (halved flight_size) w

module _ {F : Type 0} ⦃fl : Float F⦄ where
  unfoldable pub new : ℕ → Window F
  unfolding Scalable.new
  new mss = Scalable.new mss

  -- `(self.cwnd as f64 * (1.0 - self.alpha / 2.0)) as u32`, a segment at least
  abbrev pub cut_by_half_alpha : Window F → ℕ
  cut_by_half_alpha w =
      max (fl.to_u32 (fl.of_nat w.cwnd ⊗ (fl.decimal 1 0 ⊖ w.alpha ⊘ fl.decimal 2 0))) w.mss

  unfoldable pub on_ecn : Window F → ℕ → ℕ → Window F
  unfolding Scalable.on_ecn
  on_ecn w acked marked = Scalable.on_ecn cut_by_half_alpha w acked marked

-- `impl CongestionControl for Window`; the methods it leaves out do nothing.
abbrev pub dctcp_control : {F : Type 0} ⦃fl : Float F⦄ → CongestionControl (Window F)
dctcp_control = record {
  start = λ kind mss. new mss;
  cwnd = λ c. c.cwnd;
  ssthresh = λ c. c.ssthresh;
  on_ack = λ c now acked. on_ack c acked;
  on_dup_ack = λ c now flight_size. on_dup_ack c flight_size;
  enter_recovery = λ c now flight_size. enter_recovery c flight_size;
  on_rto = λ c now flight_size. on_rto c flight_size;
  set_mss = λ c mss. Scalable.set_mss c mss;
  pacing_rate = λ c. none;
  on_transmit = λ c now seq_end bytes inflight app_limited. c;
  on_ack_sample = λ c now snd_una inflight acked pipe in_recovery. c;
  on_ecn = λ c now acked marked. on_ecn c acked marked;
  on_rtt_sample = λ c srtt_us. c;
}
