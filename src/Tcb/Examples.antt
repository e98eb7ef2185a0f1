-- ===== src/Tcb/Examples.antt =====
-- The segments that a connection of tcp-core/src/tcb.rs takes and sends, on concrete bytes.
use ferrumnet.Prelude.{
  ℕ, ◌++◌, length, ◌≤◌, ◌≡◌, refl, arith, true, false, List, [], ◌∷◌, some, none, max,
}
use ferrumnet.Seq.{offset_from, add, lt, distance}
use ferrumnet.Seq.Order.{Near}
use ferrumnet.Buffers.{with_capacity}
use ferrumnet.Buffers.Laws.{IsValid}
use ferrumnet.Reasm.{report}
use ferrumnet.State.{established, closed, same_state}
use ferrumnet.Congestion.Reno
use ferrumnet.Congestion.Reno.{Reno}
use ferrumnet.Datagram.{Endpoint, Frame}
use ferrumnet.Wire.Tcp.{TcpPacket}
use ferrumnet.Tcb.{Tcb, new_syn_sent}
use ferrumnet.Tcb.Tests.{ops, address, now, opening, receiving, sending}
use ferrumnet.Tcb.Build.{advertised_window, build_syn, max_segment_payload}
use ferrumnet.Tcb.Build.Edge.{room_left, window_left, advertised_window_lem}
use ferrumnet.Tcb.Open.{on_segment_syn_sent}
use ferrumnet.Tcb.Open.Handshake.{on_segment_syn_sent_state}
use ferrumnet.Tcb.Open.Agree.{Agreed, handshake, handshake_agrees}
use ferrumnet.Tcb.Receive.{left_trim, drain_runs, take_data}
use ferrumnet.Tcb.Receive.Grown.{Grown, fitting, following}
use ferrumnet.Tcb.Receive.Deliver.{take_data_in_order, drain_runs_ends}
use ferrumnet.Tcb.Segment.{on_segment}
use ferrumnet.Tcb.Segment.Guards.{aborts, reset-on_segment}
use ferrumnet.Tcb.Transmit.{Sent, transmit_new, pace, send_new}
use ferrumnet.Tcb.Transmit.Window.{Within, transmit_new-Within}

abbrev header_of : ℕ → List ℕ
header_of flag_bits =
    0
    ∷ (80
        ∷ (15
            ∷ (160
                ∷ (255
                    ∷ (255
                        ∷ (255
                            ∷ (250
                                ∷ (238
                                    ∷ (107
                                        ∷ (40
                                            ∷ (1
                                                ∷ (80
                                                    ∷ (flag_bits
                                                        ∷ (0
                                                            ∷ (0
                                                            ∷ (0
                                                            ∷ (0 ∷ (0 ∷ (0 ∷ [])))))))))))))))))))

-- A reset at the number that `receiving` expects.
abbrev abort : TcpPacket
abort = record { buf = header_of 4 }

reset-on_segment_example : (on_segment ops receiving now abort false).reset ≡ aborts receiving abort
unfolding new_syn_sent
reset-on_segment_example = reset-on_segment ops receiving now abort false refl refl

receiving-Near : Near receiving.rcv_nxt receiving.rcv_adv
unfolding new_syn_sent offset_from
receiving-Near = record { fits = omega arith; base_fits = omega arith; close = omega arith }

advertised_window_lem_example :
    ((advertised_window receiving).0 ≡ max (window_left receiving) (room_left receiving))
    × (window_left receiving ≤ window_left (advertised_window receiving).1)
    × (offset_from (advertised_window receiving).1.rcv_adv receiving.rcv_nxt
        ≡ (advertised_window receiving).0)
    × Near receiving.rcv_nxt (advertised_window receiving).1.rcv_adv
advertised_window_lem_example = advertised_window_lem receiving receiving-Near

-- Two bytes that were there before and three that are new.
abbrev five : List ℕ
five = 1 ∷ (2 ∷ (3 ∷ (4 ∷ (5 ∷ []))))

-- Five bytes are held, the first three of which come again.
abbrev holding : Tcb Reno
holding = record receiving {
  sack_enabled = true;
  reasm = record {
    runs = record { start = 4_294_967_290; bytes = five; stamp = 1 } ∷ [];
    held = 5;
    next_stamp = 1;
  };
}

holding-IsValid : IsValid holding.rx
unfolding new_syn_sent with_capacity
holding-IsValid = record { within = omega arith }

take_data_in_order_example :
    let fresh : List ℕ = (left_trim holding.rcv_nxt 4_294_967_288 five).1 in
    Grown holding
      (fitting holding (fresh ++ following holding (length fresh)))
      (take_data holding 4_294_967_288 five false now)
unfolding new_syn_sent left_trim lt distance offset_from
take_data_in_order_example =
    take_data_in_order holding 4_294_967_288 five false now holding-IsValid refl refl

drain_runs_ends_example : drain_runs 2 holding ≡ drain_runs 9 holding
drain_runs_ends_example = drain_runs_ends 2 9 holding (omega arith) (omega arith)

-- The SYN is out.
abbrev waiting_for : Tcb Reno
waiting_for = record opening { snd_nxt = 4_000_000_001 }

abbrev accepts : TcpPacket
accepts = record { buf = header_of 18 }

on_segment_syn_sent_state_example :
    (same_state (on_segment_syn_sent ops waiting_for accepts).state established ≡ true)
    × (same_state (on_segment_syn_sent ops waiting_for accepts).state closed ≡ false)
unfolding new_syn_sent add
on_segment_syn_sent_state_example =
    on_segment_syn_sent_state ops waiting_for accepts refl (omega arith) (omega arith) (omega arith)

abbrev client : Endpoint
client = record { ip = address; port = 49_152 }

abbrev server : Endpoint
server = record { ip = record { a = 10; b = 0; c = 0; d = 2 }; port = 80 }

handshake_agrees_example :
    Agreed
      (handshake ops client server 4_294_967_295 7 now now now 1_460 536).0
      (handshake ops client server 4_294_967_295 7 now now now 1_460 536).1
handshake_agrees_example =
    handshake_agrees ops client server 4_294_967_295 7 now now now 1_460 536
      (omega arith, omega arith) (omega arith, omega arith) (omega arith, omega arith)

-- Three bytes may be sent.
abbrev ready : Tcb Reno
ready = record sending { snd_nxt = 4_294_967_294; snd_wnd = 7 }

abbrev sends : Sent Reno
sends = transmit_new ops ready now

abbrev frame_of : Sent Reno → Frame
frame_of (none, t) = build_syn t
frame_of (some f, t) = f

ready-sends : transmit_new ops ready now ≡ (some (frame_of sends), sends.1)
unfolding transmit_new pace new_syn_sent send_new offset_from max_segment_payload report Reno.new
ready-sends = refl

transmit_new-Within_example : Within ops ready (frame_of sends) sends.1
unfolding new_syn_sent
transmit_new-Within_example =
    transmit_new-Within ops ready now (frame_of sends) sends.1 (omega arith) ready-sends
