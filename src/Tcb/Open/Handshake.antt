-- ===== src/Tcb/Open/Handshake.antt =====
-- The handshake of tcp-core/src/tcb.rs, from the SYN of one end to the established connection of the
-- other.
use ferrumnet.Prelude.{◌^◌, ◌<◌, ◌≡◌, arith, not, ◌&&◌, ◌==◌}
use ferrumnet.Seq.{SeqNumber, gt, le, add}
use ferrumnet.State.{closed, syn_sent, established, same_state}
use ferrumnet.Congestion.{CongestionControl}
use ferrumnet.Wire.Tcp.{TcpPacket, ack, flags, syn, rst, ack_bit}
use ferrumnet.Tcb.{Tcb}
use ferrumnet.Tcb.Open.{take_syn, on_segment_syn_sent}

ack_exact :
    (iss a : SeqNumber)
    → iss < 2 ^ 32
    → a < 2 ^ 32
    → (gt a iss && le a (add iss 1)) ≡ (a == add iss 1)
unfolding gt le add
ack_exact iss a h k = ground arith

-- In SYN-SENT with our SYN sent, a segment establishes the connection exactly if it is a SYN, not a
-- reset, that acknowledges our SYN; and it closes the connection exactly if it is a reset that does.
pub on_segment_syn_sent_state :
    {C : Type 0}
    → (ops : CongestionControl C) (t : Tcb C) (tcp : TcpPacket) → t.state ≡ syn_sent
    → t.iss < 2 ^ 32
    → ack tcp < 2 ^ 32
    → t.snd_nxt ≡ add t.iss 1
    → (same_state (on_segment_syn_sent ops t tcp).state established ≡ (
        ack_bit (flags tcp)
        && (ack tcp == add t.iss 1 && (not (rst (flags tcp)) && syn (flags tcp)))))
      × (same_state (on_segment_syn_sent ops t tcp).state closed
          ≡ (ack_bit (flags tcp) && (ack tcp == add t.iss 1 && rst (flags tcp))))
unfolding on_segment_syn_sent take_syn
on_segment_syn_sent_state ops t tcp s h k e = ground (arith, s, e, ack_exact t.iss (ack tcp) h k)
