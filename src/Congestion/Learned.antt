-- ===== src/Congestion/Learned.antt =====
-- The controller `Learned` of tcp-core/src/congestion.rs: the fields of Dctcp and a genome, the
-- gains of its responses.
use ferrumnet.Prelude.{ℕ, Bool, Option, none, some, max, saturating_add}
use ferrumnet.Congestion.{CongestionControl}
use ferrumnet.Congestion.Float.{Float, ◌⊕◌, ◌⊖◌, ◌⊗◌, clamp}
use ferrumnet.Congestion.Scalable
use ferrumnet.Congestion.Scalable.{Window, two_segments}

pub record LearnedParams (F : Type 0) : Type 0 where
  pub ai_gain : F
  pub md_loss : F
  pub ecn_a : F
  pub ecn_b : F
  pub ecn_max : F

pub record Learned (F : Type 0) : Type 0 where
  pub w : Window F
  pub p : LearnedParams F

module _ {F : Type 0} ⦃fl : Float F⦄ where
  unfoldable pub sanitized : LearnedParams F → LearnedParams F
  sanitized p = record {
    ai_gain = clamp p.ai_gain (fl.decimal 5 2) (fl.decimal 8 0);
    md_loss = clamp p.md_loss (fl.decimal 1 1) (fl.decimal 95 2);
    ecn_a = clamp p.ecn_a (fl.decimal 0 0) (fl.decimal 2 0);
    ecn_b = clamp p.ecn_b (fl.neg (fl.decimal 1 0)) (fl.decimal 2 0);
    ecn_max = clamp p.ecn_max (fl.decimal 5 2) (fl.decimal 95 2);
  }

  -- `LearnedParams::DEFAULT` and `LearnedParams::BAKED`
  abbrev pub default_params : LearnedParams F
  default_params = record {
    ai_gain = fl.decimal 1 0;
    md_loss = fl.decimal 5 1;
    ecn_a = fl.decimal 5 1;
    ecn_b = fl.decimal 0 1;
    ecn_max = fl.decimal 5 1;
  }

  abbrev pub baked_params : LearnedParams F
  baked_params = record {
    ai_gain = fl.decimal 8_608_600_807_626_614 16;
    md_loss = fl.decimal 17_665_019_197_744_708 17;
    ecn_a = fl.decimal 18_471_102_809_453_077 17;
    ecn_b = fl.decimal 11_656_344_382_528_598 18;
    ecn_max = fl.decimal 6_282_775_233_572_743 16;
  }

  -- The genome of a new controller: the override of the training, or the baked one.
  unfoldable pub current_learned_params : Option (LearnedParams F) → LearnedParams F
  unfolding sanitized
  current_learned_params none = sanitized baked_params
  current_learned_params (some p) = sanitized p

  unfoldable pub with_raw_params : ℕ → LearnedParams F → Learned F
  unfolding Scalable.new
  with_raw_params mss p = record { w = Scalable.new mss; p = p }

  unfoldable pub with_params : ℕ → LearnedParams F → Learned F
  unfolding sanitized with_raw_params
  with_params mss p = with_raw_params mss (sanitized p)

  unfoldable pub new : Option (LearnedParams F) → ℕ → Learned F
  unfolding current_learned_params with_params
  new training mss = with_params mss (current_learned_params training)

  unfoldable pub loss_ssthresh : LearnedParams F → ℕ → Window F → ℕ
  loss_ssthresh p flight_size w =
      max (fl.to_u32 (fl.of_nat flight_size ⊗ p.md_loss)) (two_segments w)

  -- A byte at least for each window of data.
  unfoldable pub learned_increase : LearnedParams F → Window F → ℕ → ℕ → ℕ
  learned_increase p w acked c = saturating_add c (max (fl.to_u32 (p.ai_gain ⊗ fl.of_nat w.mss)) 1)

  -- The share of the window that a marked window takes.
  abbrev pub cut_share : LearnedParams F → F → F
  cut_share p a = clamp (p.ecn_a ⊗ a ⊕ p.ecn_b ⊗ a ⊗ a) (fl.decimal 0 0) p.ecn_max

  unfoldable pub learned_cut : LearnedParams F → Window F → ℕ
  learned_cut p w =
      max (fl.to_u32 (fl.of_nat w.cwnd ⊗ (fl.decimal 1 0 ⊖ cut_share p w.alpha))) w.mss

  unfoldable pub on_ack : Learned F → ℕ → Learned F
  unfolding Scalable.on_ack learned_increase
  on_ack l acked = record l { w = Scalable.on_ack (learned_increase l.p) l.w acked }

  unfoldable pub on_dup_ack : Learned F → ℕ → Bool × Learned F
  unfolding Scalable.on_dup_ack loss_ssthresh
  on_dup_ack l flight_size =
      let (lost, w) = Scalable.on_dup_ack (loss_ssthresh l.p flight_size) l.w in
      (lost, record l { w = w })

  unfoldable pub enter_recovery : Learned F → ℕ → Learned F
  unfolding Scalable.enter_recovery loss_ssthresh
  enter_recovery l flight_size = record l {
    w = Scalable.enter_recovery (loss_ssthresh l.p flight_size) l.w;
  }

  unfoldable pub on_rto : Learned F → ℕ → Learned F
  unfolding Scalable.on_rto loss_ssthresh
  on_rto l flight_size = record l { w = Scalable.on_rto (loss_ssthresh l.p flight_size) l.w }

  unfoldable pub on_ecn : Learned F → ℕ → ℕ → Learned F
  unfolding Scalable.on_ecn learned_cut
  on_ecn l acked marked = record l { w = Scalable.on_ecn (learned_cut l.p) l.w acked marked }

module _ {F : Type 0} where
  unfoldable pub set_mss : Learned F → ℕ → Learned F
  unfolding Scalable.set_mss
  set_mss l mss = record l { w = Scalable.set_mss l.w mss }

-- `impl CongestionControl for Learned`; the methods it leaves out do nothing.
abbrev pub learned_control :
    {F : Type 0} ⦃fl : Float F⦄ → Option (LearnedParams F) → CongestionControl (Learned F)
learned_control training = record {
  start = λ kind mss. new training mss;
  cwnd = λ c. c.w.cwnd;
  ssthresh = λ c. c.w.ssthresh;
  on_ack = λ c now acked. on_ack c acked;
  on_dup_ack = λ c now flight_size. on_dup_ack c flight_size;
  enter_recovery = λ c now flight_size. enter_recovery c flight_size;
  on_rto = λ c now flight_size. on_rto c flight_size;
  set_mss = λ c mss. set_mss c mss;
  pacing_rate = λ c. none;
  on_transmit = λ c now seq_end bytes inflight app_limited. c;
  on_ack_sample = λ c now snd_una inflight acked pipe in_recovery. c;
  on_ecn = λ c now acked marked. on_ecn c acked marked;
  on_rtt_sample = λ c srtt_us. c;
}
