-- ===== src/State.antt =====
-- tcp-core/src/state.rs: the connection states of RFC 793.
use ferrumnet.Prelude.{Bool, true, false}

pub data State : Type 0 where
  closed listen syn_sent syn_received established fin_wait1 fin_wait2 close_wait : State
  closing last_ack time_wait : State

-- `Tcb::is_synchronized` of tcp-core/src/tcb.rs
abbrev pub synchronized : State → Bool
synchronized established = true
synchronized close_wait = true
synchronized fin_wait1 = true
synchronized fin_wait2 = true
synchronized closing = true
synchronized last_ack = true
synchronized _ = false

-- `Tcb::send` of tcp-core/src/tcb.rs accepts data in two states only.
abbrev pub accepts_data : State → Bool
accepts_data established = true
accepts_data close_wait = true
accepts_data _ = false

-- `==` on states
abbrev pub same_state : State → State → Bool
same_state closed closed = true
same_state listen listen = true
same_state syn_sent syn_sent = true
same_state syn_received syn_received = true
same_state established established = true
same_state fin_wait1 fin_wait1 = true
same_state fin_wait2 fin_wait2 = true
same_state close_wait close_wait = true
same_state closing closing = true
same_state last_ack last_ack = true
same_state time_wait time_wait = true
same_state _ _ = false
