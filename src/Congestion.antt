-- ===== src/Congestion.antt =====
-- tcp-core/src/congestion.rs: the contract between a connection and its congestion controller, and
-- Reno. The controllers that compute with floating point are implementations of the contract.
pub mod Float
pub mod Fixed
pub mod Scalable
pub mod Dctcp
pub mod Prague
pub mod Learned
pub mod Machine
pub mod Synth
pub mod Dispatch
mod Tests
pub mod Reno
use ferrumnet.Prelude.{ℕ, ◌*◌, Bool, true, false, Option, min, max, u32}
use ferrumnet.Seq.{SeqNumber}
use ferrumnet.Time.{Instant}

pub data CcKind : Type 0 where
  reno cubic bbr dctcp learned prague synth : CcKind

-- The operations of `trait CongestionControl` on a controller state `C`, and `Cc::new` as `start`.
-- A method on `&mut self` returns the new state beside its result.
pub record CongestionControl (C : Type 0) : Type 0 where
  pub start : CcKind → ℕ → C
  pub cwnd : C → ℕ
  pub ssthresh : C → ℕ
  pub on_ack : C → Instant → ℕ → C
  pub on_dup_ack : C → Instant → ℕ → Bool × C
  pub enter_recovery : C → Instant → ℕ → C
  pub on_rto : C → Instant → ℕ → C
  pub set_mss : C → ℕ → C
  pub pacing_rate : C → Option ℕ
  pub on_transmit : C → Instant → SeqNumber → ℕ → ℕ → Bool → C
  pub on_ack_sample : C → Instant → SeqNumber → ℕ → ℕ → ℕ → Bool → C
  pub on_ecn : C → Instant → ℕ → ℕ → C
  pub on_rtt_sample : C → ℕ → C

unfoldable pub initial_window : ℕ → ℕ
initial_window mss = min (u32 (10 * mss)) (max (u32 (2 * mss)) 14_600)

-- `==` on the kinds
abbrev pub same_kind : CcKind → CcKind → Bool
same_kind reno reno = true
same_kind cubic cubic = true
same_kind bbr bbr = true
same_kind dctcp dctcp = true
same_kind learned learned = true
same_kind prague prague = true
same_kind synth synth = true
same_kind _ _ = false

-- The kinds of `Tcb::ecn_enabled` of tcp-core/src/tcb.rs
abbrev pub reacts_to_ecn : CcKind → Bool
reacts_to_ecn dctcp = true
reacts_to_ecn learned = true
reacts_to_ecn prague = true
reacts_to_ecn synth = true
reacts_to_ecn _ = false
