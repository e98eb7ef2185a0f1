-- ===== src/Congestion/Prague.antt =====
-- The controller `Prague` of tcp-core/src/congestion.rs: the fields of Dctcp and a smoothed
-- round-trip time, which scales the additive increase.
use ferrumnet.Prelude.{ℕ, ◌/◌, ◌*◌, Bool, none, max, u32, saturating_add, ◌==◌, if◌then◌else◌}
use ferrumnet.Congestion.{CongestionControl}
use ferrumnet.Congestion.Float.{Float, ◌⊗◌, ◌⊘◌, clamp}
use ferrumnet.Congestion.Scalable
use ferrumnet.Congestion.Scalable.{Window}
use ferrumnet.Congestion.Dctcp.{halved, cut_by_half_alpha}

pub record Prague (F : Type 0) : Type 0 where
  pub w : Window F
  pub srtt_us : ℕ

module _ {F : Type 0} where
  unfoldable pub on_dup_ack : Prague F → ℕ → Bool × Prague F
  unfolding Scalable.on_dup_ack
  on_dup_ack p flight_size =
      let (lost, w) = Scalable.on_dup_ack (halved flight_size) p.w in (lost, record p { w = w })

  unfoldable pub enter_recovery : Prague F → ℕ → Prague F
  unfolding Scalable.enter_recovery
  enter_recovery p flight_size = record p { w = Scalable.enter_recovery (halved flight_size) p.w }

  unfoldable pub on_rto : Prague F → ℕ → Prague F
  unfolding Scalable.on_rto
  on_rto p flight_size = record p { w = Scalable.on_rto (halved flight_size) p.w }

  unfoldable pub set_mss : Prague F → ℕ → Prague F
  unfolding Scalable.set_mss
  set_mss p mss = record p { w = Scalable.set_mss p.w mss }

  unfoldable pub on_rtt_sample : Prague F → ℕ → Prague F
  on_rtt_sample p srtt_us = record p { srtt_us = srtt_us }

module _ {F : Type 0} ⦃fl : Float F⦄ where
  unfoldable pub new : ℕ → Prague F
  unfolding Scalable.new
  new mss = record { w = Scalable.new mss; srtt_us = 0 }

  -- `ai_step`, with `PRAGUE_RTT_REF_US` of 25 000 microseconds
  unfoldable pub ai_step : Prague F → ℕ
  ai_step p =
      let scaled = fl.of_nat p.w.mss ⊗ (fl.of_nat p.srtt_us ⊘ fl.decimal 25_000 0) in
      if p.srtt_us == 0
      then p.w.mss
      else fl.to_u32
          (clamp scaled (fl.of_nat (max (p.w.mss / 4) 1)) (fl.of_nat (u32 (p.w.mss * 4))))

  unfoldable pub add_step : Prague F → Window F → ℕ → ℕ → ℕ
  unfolding ai_step
  add_step p w acked c = saturating_add c (ai_step p)

  unfoldable pub on_ack : Prague F → ℕ → Prague F
  unfolding Scalable.on_ack add_step
  on_ack p acked = record p { w = Scalable.on_ack (add_step p) p.w acked }

  unfoldable pub on_ecn : Prague F → ℕ → ℕ → Prague F
  unfolding Scalable.on_ecn
  on_ecn p acked marked = record p { w = Scalable.on_ecn cut_by_half_alpha p.w acked marked }

-- `impl CongestionControl for Prague`; the methods it leaves out do nothing.
abbrev pub prague_control : {F : Type 0} ⦃fl : Float F⦄ → CongestionControl (Prague F)
prague_control = record {
  start = λ kind mss. new mss;
  cwnd = λ c. c.w.cwnd;
  ssthresh = λ c. c.w.ssthresh;
  on_ack = λ c now acked. on_ack c acked;
  on_dup_ack = λ c now flight_size. on_dup_ack c flight_size;
  enter_recovery = λ c now flight_size. enter_recovery c flight_size;
  on_rto = λ c now flight_size. on_rto c flight_size;
  set_mss = λ c mss. set_mss c mss;
  pacing_rate = λ c. none;
  on_transmit = λ c now seq_end bytes inflight app_limited. c;
  on_ack_sample = λ c now snd_una inflight acked pipe in_recovery. c;
  on_ecn = λ c now acked marked. on_ecn c acked marked;
  on_rtt_sample = λ c srtt_us. on_rtt_sample c srtt_us;
}
