-- ===== src/Tcb.antt =====
-- tcp-core/src/tcb.rs: the state of one connection, and its active open.
pub mod Window
pub mod Closing
pub mod Timers
pub mod Ack
pub mod Build
pub mod Open
pub mod Receive
pub mod Segment
pub mod Transmit
pub mod Poll
pub mod Tests
mod Examples
use ferrumnet.Prelude.{
  ℕ, zero, suc, ◌-◌, Bool, true, false, Option, none, some, ltb, shr, if◌then◌else◌, max, min, List,
  ◌==◌, ◌&&◌, ◌||◌, ◌+◌,
}
use ferrumnet.Seq.{SeqNumber}
use ferrumnet.Time.{Instant}
use ferrumnet.Buffers.{RingBuffer, with_capacity, write, read, free, len, is_empty}
use ferrumnet.Rtt
use ferrumnet.Rtt.{RttEstimator}
use ferrumnet.Sack
use ferrumnet.Sack.{Scoreboard}
use ferrumnet.Reasm
use ferrumnet.Reasm.{Reasm}
use ferrumnet.State.{State, syn_sent, accepts_data, synchronized}
use ferrumnet.Congestion.{CcKind, reno, CongestionControl, same_kind, reacts_to_ecn}
use ferrumnet.Datagram.{Endpoint}

abbrev pub mss_default : ℕ
mss_default = 536

abbrev pub mss_max : ℕ
mss_max = 65_495

abbrev pub tx_buffer : ℕ
tx_buffer = 262_144

abbrev pub rx_buffer : ℕ
rx_buffer = 262_144

abbrev pub time_wait_millis : ℕ
time_wait_millis = 10_000

abbrev pub fin_wait2_millis : ℕ
fin_wait2_millis = 60_000

abbrev pub persist_min_millis : ℕ
persist_min_millis = 1_000

abbrev pub persist_max_millis : ℕ
persist_max_millis = 60_000

abbrev pub challenge_ack_limit : ℕ
challenge_ack_limit = 100

abbrev pub max_syn_retries : ℕ
max_syn_retries = 7

abbrev pub delayed_ack_millis : ℕ
delayed_ack_millis = 40

abbrev pub ace_init : ℕ
ace_init = 5

unfoldable pub mss_for_mtu : ℕ → ℕ
mss_for_mtu mtu = max mss_default (min mss_max (mtu - 40))

-- `while (buf >> s) > 0xFFFF`, on fuel, with the shift reached so far.
unfoldable pub wscale_from : ℕ → ℕ → ℕ → ℕ
wscale_from zero buf s = s
wscale_from (suc fuel) buf s = if ltb 0xffff (shr buf s) then wscale_from fuel buf (s + 1) else s

unfoldable pub wscale_for : ℕ → ℕ
wscale_for buf = wscale_from buf buf 0

-- The controller's state is a parameter; its operations come as an argument where they are called.
pub record Tcb (C : Type 0) : Type 0 where
  pub state : State
  pub local : Endpoint
  pub remote : Endpoint
  pub iss : SeqNumber
  pub snd_una : SeqNumber
  pub snd_nxt : SeqNumber
  pub snd_wnd : ℕ
  pub snd_wl1 : SeqNumber
  pub snd_wl2 : SeqNumber
  pub snd_mss : ℕ
  pub window_scaling : Bool
  pub snd_wscale : ℕ
  pub rcv_wscale : ℕ
  pub ts_enabled : Bool
  pub ts_recent : ℕ
  pub cur_tsval : ℕ
  pub accecn_cep : ℕ
  pub accecn_ace_seen : ℕ
  pub irs : SeqNumber
  pub rcv_nxt : SeqNumber
  pub rcv_adv : SeqNumber
  pub tx : RingBuffer
  pub rx : RingBuffer
  pub rtt : RttEstimator
  pub cc : C
  pub cc_kind : CcKind
  pub rtt_sample : Option (Instant × SeqNumber)
  pub retransmitted : Bool
  pub retransmit : Bool
  pub gbn_recover : Option SeqNumber
  pub rtx_deadline : Option Instant
  pub persist_deadline : Option Instant
  pub persist_backoff : ℕ
  pub time_wait_deadline : Option Instant
  pub delayed_ack_deadline : Option Instant
  pub unacked_segs : ℕ
  pub pace_tokens : ℕ
  pub pace_last : Instant
  pub pace_deadline : Option Instant
  pub fin_queued : Bool
  pub fin_seq : Option SeqNumber
  pub fin_acked : Bool
  pub peer_fin_seen : Bool
  pub reset : Bool
  pub needs_ack : Bool
  pub send_probe : Bool
  pub pending_reset : Option SeqNumber
  pub syn_retries : ℕ
  pub challenge_window_start : Instant
  pub challenge_count : ℕ
  pub sack_enabled : Bool
  pub reasm : Reasm
  pub scoreboard : Scoreboard
  pub pending_fin : Option SeqNumber
  pub mss_advertise : ℕ

module _ {C : Type 0} (ops : CongestionControl C) where
  pub new_syn_sent : Endpoint → Endpoint → SeqNumber → Instant → ℕ → Tcb C
  new_syn_sent local remote iss now mss_advertise = record {
    state = syn_sent;
    local = local;
    remote = remote;
    iss = iss;
    snd_una = iss;
    snd_nxt = iss;
    snd_wnd = 0;
    snd_wl1 = iss;
    snd_wl2 = iss;
    snd_mss = mss_default;
    window_scaling = false;
    snd_wscale = 0;
    rcv_wscale = 0;
    ts_enabled = false;
    ts_recent = 0;
    cur_tsval = 0;
    accecn_cep = ace_init;
    accecn_ace_seen = ace_init;
    irs = 0;
    rcv_nxt = 0;
    rcv_adv = 0;
    tx = with_capacity tx_buffer;
    rx = with_capacity rx_buffer;
    rtt = Rtt.new;
    cc = ops.start reno mss_default;
    cc_kind = reno;
    rtt_sample = none;
    retransmitted = false;
    retransmit = false;
    gbn_recover = none;
    rtx_deadline = none;
    persist_deadline = none;
    persist_backoff = persist_min_millis;
    time_wait_deadline = none;
    delayed_ack_deadline = none;
    unacked_segs = 0;
    pace_tokens = 0;
    pace_last = now;
    pace_deadline = none;
    fin_queued = false;
    fin_seq = none;
    fin_acked = false;
    peer_fin_seen = false;
    reset = false;
    needs_ack = false;
    send_probe = false;
    pending_reset = none;
    syn_retries = 0;
    challenge_window_start = now;
    challenge_count = 0;
    sack_enabled = false;
    reasm = Reasm.new;
    scoreboard = Sack.new;
    pending_fin = none;
    mss_advertise = mss_advertise;
  }

  -- `kind != self.cc_kind`
  unfoldable pub set_congestion_control : Tcb C → CcKind → Tcb C
  set_congestion_control t kind =
      if same_kind kind t.cc_kind
      then t
      else record t { cc_kind = kind; cc = ops.start kind t.snd_mss }

module _ {C : Type 0} where
  abbrev pub ecn_enabled : Tcb C → Bool
  ecn_enabled t = reacts_to_ecn t.cc_kind

  unfoldable pub send : Tcb C → List ℕ → ℕ × Tcb C
  send t bytes =
      if accepts_data t.state
      then ((write t.tx bytes).0, record t { tx = (write t.tx bytes).1 })
      else (0, t)

  -- `none` is the panic of `read`, which never happens.
  unfoldable pub recv : Tcb C → List ℕ → Option (ℕ × List ℕ × Tcb C)
  unfolding read
  recv t dst = elim (read t.rx dst) [
    | none ↦ none
    | some (n, filled, rx) ↦ some (n, filled, record t { rx = rx })
  ]

  unfoldable pub close : Tcb C → Tcb C
  close t = record t { fin_queued = true }

  abbrev pub rx_available : Tcb C → ℕ
  rx_available t = len t.rx

  abbrev pub tx_free : Tcb C → ℕ
  tx_free t = free t.tx

  abbrev pub recv_eof : Tcb C → Bool
  recv_eof t = t.peer_fin_seen && is_empty t.rx

  abbrev pub is_reset : Tcb C → Bool
  is_reset t = t.reset

  abbrev pub is_synchronized : Tcb C → Bool
  is_synchronized t = synchronized t.state
