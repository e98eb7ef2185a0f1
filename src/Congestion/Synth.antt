-- ===== src/Congestion/Synth.antt =====
-- The controller `Synth` of tcp-core/src/congestion.rs, whose responses are programs.
pub mod Safe
use ferrumnet.Prelude.{
  ℕ, Bool, ◌&&◌, Option, none, some, List, [], ◌∷◌, min, max, ltb, ◌==◌, if◌then◌else◌,
}
use ferrumnet.Congestion.{CongestionControl}
use ferrumnet.Congestion.Float.{Float, ◌⊕◌, ◌⊖◌, ◌⊗◌, ◌⊘◌}
use ferrumnet.Congestion.Scalable
use ferrumnet.Congestion.Scalable.{Window, two_segments}
use ferrumnet.Congestion.Machine.{ControlProgram, aimd, synth_eval, synth_to_cwnd}

pub record Synth (F : Type 0) : Type 0 where
  pub w : Window F
  pub prog : ControlProgram
  pub srtt_us : ℕ
  pub rtt_min_us : ℕ

-- The program of a new controller: the override of the search, or the AIMD law.
unfoldable pub current_program : Option ControlProgram → ControlProgram
unfolding aimd
current_program none = aimd
current_program (some prog) = prog

module _ {F : Type 0} ⦃fl : Float F⦄ where
  unfoldable pub with_program : ℕ → ControlProgram → Synth F
  unfolding Scalable.new
  with_program mss prog = record { w = Scalable.new mss; prog = prog; srtt_us = 0; rtt_min_us = 0 }

  unfoldable pub new : Option ControlProgram → ℕ → Synth F
  unfolding with_program current_program
  new search mss = with_program mss (current_program search)

  abbrev pub srtt_ratio : Synth F → F
  srtt_ratio s =
      if ltb 0 s.rtt_min_us && ltb 0 s.srtt_us
      then fl.of_nat s.srtt_us ⊘ fl.of_nat s.rtt_min_us
      else fl.decimal 1 0

  -- The signals, of the window as it is when the program runs.
  unfoldable pub signals : Synth F → Window F → ℕ → ℕ → List F
  signals s w flight acked =
      let mss = fl.of_nat (max w.mss 1) in
      fl.of_nat w.cwnd ⊘ mss
      ∷ (fl.of_nat flight ⊘ mss
          ∷ (fl.of_nat acked ⊘ mss
              ∷ (w.alpha
                  ∷ (srtt_ratio s ∷ (fl.decimal 5 1 ∷ (fl.decimal 1 0 ∷ (fl.decimal 2 0 ∷ [])))))))

  unfoldable pub loss_target : Synth F → ℕ → Window F → ℕ
  unfolding synth_eval synth_to_cwnd signals
  loss_target s flight_size w =
      synth_to_cwnd (synth_eval s.prog.md (signals s w flight_size 0) ⊗ fl.of_nat w.mss)
        (two_segments w)

  -- A round of congestion avoidance: the step in bytes is that of the window before the loop.
  unfoldable pub synth_increase : Synth F → Window F → ℕ → ℕ → ℕ
  unfolding synth_eval synth_to_cwnd signals
  synth_increase s w acked c =
      let step = synth_eval s.prog.inc (signals s w w.cwnd acked) ⊗ fl.of_nat w.mss in
      synth_to_cwnd (fl.of_nat c ⊕ step) w.mss

  unfoldable pub synth_cut : Synth F → Window F → ℕ
  unfolding synth_eval synth_to_cwnd signals
  synth_cut s w =
      synth_to_cwnd
        (fl.of_nat w.cwnd ⊗ (fl.decimal 1 0 ⊖ synth_eval s.prog.ecn (signals s w w.cwnd 0))) w.mss

  unfoldable pub on_ack : Synth F → ℕ → Synth F
  unfolding Scalable.on_ack synth_increase
  on_ack s acked = record s { w = Scalable.on_ack (synth_increase s) s.w acked }

  unfoldable pub on_dup_ack : Synth F → ℕ → Bool × Synth F
  unfolding Scalable.on_dup_ack loss_target
  on_dup_ack s flight_size =
      let (lost, w) = Scalable.on_dup_ack (loss_target s flight_size) s.w in
      (lost, record s { w = w })

  unfoldable pub enter_recovery : Synth F → ℕ → Synth F
  unfolding Scalable.enter_recovery loss_target
  enter_recovery s flight_size = record s {
    w = Scalable.enter_recovery (loss_target s flight_size) s.w;
  }

  unfoldable pub on_rto : Synth F → ℕ → Synth F
  unfolding Scalable.on_rto loss_target
  on_rto s flight_size = record s { w = Scalable.on_rto (loss_target s flight_size) s.w }

  unfoldable pub on_ecn : Synth F → ℕ → ℕ → Synth F
  unfolding Scalable.on_ecn synth_cut
  on_ecn s acked marked = record s { w = Scalable.on_ecn (synth_cut s) s.w acked marked }

module _ {F : Type 0} where
  unfoldable pub set_mss : Synth F → ℕ → Synth F
  unfolding Scalable.set_mss
  set_mss s mss = record s { w = Scalable.set_mss s.w mss }

  unfoldable pub on_rtt_sample : Synth F → ℕ → Synth F
  on_rtt_sample s srtt_us =
      let seen : Synth F = record s { srtt_us = srtt_us } in
      if ltb 0 srtt_us
      then record seen {
        rtt_min_us = if s.rtt_min_us == 0 then srtt_us else min s.rtt_min_us srtt_us;
      }
      else seen

-- `impl CongestionControl for Synth`; the methods it leaves out do nothing.
abbrev pub synth_control :
    {F : Type 0} ⦃fl : Float F⦄ → Option ControlProgram → CongestionControl (Synth F)
synth_control search = record {
  start = λ kind mss. new search mss;
  cwnd = λ c. c.w.cwnd;
  ssthresh = λ c. c.w.ssthresh;
  on_ack = λ c now acked. on_ack c acked;
  on_dup_ack = λ c now flight_size. on_dup_ack c flight_size;
  enter_recovery = λ c now flight_size. enter_recovery c flight_size;
  on_rto = λ c now flight_size. on_rto c flight_size;
  set_mss = λ c mss. set_mss c mss;
  pacing_rate = λ c. none;
  on_transmit = λ c now seq_end bytes inflight app_limited. c;
  on_ack_sample = λ c now snd_una inflight acked pipe in_recovery. c;
  on_ecn = λ c now acked marked. on_ecn c acked marked;
  on_rtt_sample = λ c srtt_us. on_rtt_sample c srtt_us;
}
