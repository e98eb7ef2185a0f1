-- ===== src/Tcb/Tests.antt =====
-- A connection of tcp-core/src/tcb.rs with Reno on concrete segments and times.
use ferrumnet.Prelude.{
  ◌+◌, ◌≡◌, inl, refl, arith, true, false, ◌&&◌, ◌||◌, none, some, [], ◌∷◌, ltb, ◌==◌,
}
use ferrumnet.Seq.{offset_from, add}
use ferrumnet.Time.{Instant, from_micros}
use ferrumnet.Wire.Checksum.{Ipv4Addr}
use ferrumnet.State.{fin_wait1, time_wait, established}
use ferrumnet.Congestion.{CongestionControl}
use ferrumnet.Congestion.Reno
use ferrumnet.Congestion.Reno.{Reno}
use ferrumnet.Tcb.{Tcb, new_syn_sent, wscale_for, wscale_from}
use ferrumnet.Tcb.Window.{segment_acceptable, seq_in_window}
use ferrumnet.Tcb.Window.Accept.{inside, segment_acceptable_lem}
use ferrumnet.Tcb.Closing.{recompute_closing_state}
use ferrumnet.Tcb.Closing.Arcs.{Arc, Arcs, recompute-Arcs}
use ferrumnet.Tcb.Ack.{process_ack}
use ferrumnet.Tcb.Ack.Advance.{flight, process_ack-flight}
use ferrumnet.Tcb.Timers.{due, on_timer}
use ferrumnet.Tcb.Timers.Firing.{Timed, on_timer_lem}

-- Reno as an implementation of the contract: what it does not override does nothing.
abbrev pub ops : CongestionControl Reno
ops = record {
  start = λ _ mss. Reno.new mss;
  cwnd = λ r. r.cwnd;
  ssthresh = λ r. r.ssthresh;
  on_ack = Reno.on_ack;
  on_dup_ack = Reno.on_dup_ack;
  enter_recovery = Reno.enter_recovery;
  on_rto = Reno.on_rto;
  set_mss = Reno.set_mss;
  pacing_rate = λ _. none;
  on_transmit = λ r _ _ _ _ _. r;
  on_ack_sample = λ r _ _ _ _ _ _. r;
  on_ecn = λ r _ _ _. r;
  on_rtt_sample = λ r _. r;
}

abbrev pub address : Ipv4Addr
address = record { a = 10; b = 0; c = 0; d = 1 }

abbrev pub now : Instant
now = from_micros 5_000_000

abbrev pub opening : Tcb Reno
opening =
    new_syn_sent ops (record { ip = address; port = 4_000 }) (record { ip = address; port = 80 })
      4_000_000_000 (from_micros 0) 1_460

-- A connection whose window wraps.
abbrev pub receiving : Tcb Reno
receiving = record opening {
  state = established;
  rcv_nxt = 4_294_967_290;
  rcv_adv = 994;
  rtx_deadline = some (from_micros 4_000_000);
  persist_deadline = some (from_micros 5_000_000);
}

segment_acceptable_lem_example :
    (segment_acceptable receiving 4_294_967_200 0 ≡ (
      (offset_from 4_294_967_200 4_294_967_000 == offset_from 4_294_967_290 4_294_967_000)
      || inside
          (offset_from 4_294_967_200 4_294_967_000)
          (offset_from 4_294_967_290 4_294_967_000)
          1_000))
    × (seq_in_window receiving 4_294_967_200 ≡ segment_acceptable receiving 4_294_967_200 0)
    × (segment_acceptable receiving 4_294_967_200 200 ≡ (
        ltb 0 1_000
        && (ltb
              (offset_from 4_294_967_200 4_294_967_000)
              (offset_from 4_294_967_290 4_294_967_000 + 1_000)
            && ltb
                (offset_from 4_294_967_290 4_294_967_000)
                (offset_from 4_294_967_200 4_294_967_000 + 200))))
unfolding new_syn_sent offset_from add
segment_acceptable_lem_example =
    segment_acceptable_lem receiving 4_294_967_000 4_294_967_200 200 1_000 (omega arith)
      (omega arith) (omega arith) (omega arith) (omega arith) (omega arith) (omega arith)
      (inl (omega arith))

abbrev finishing : Tcb Reno
finishing = record opening { state = fin_wait1; fin_acked = true; peer_fin_seen = true }

recompute-Arcs_example :
    Arcs true true fin_wait1 (recompute_closing_state finishing now).state
    × (¬ Arc true true (recompute_closing_state finishing now).state time_wait)
recompute-Arcs_example = recompute-Arcs finishing now time_wait

receiving-Timed : Timed receiving now
unfolding new_syn_sent
receiving-Timed = record {
  rto_pos = omega arith;
  rto_le = omega arith;
  backoff_pos = omega arith;
  backoff_le = omega arith;
  clock = omega arith;
}

on_timer_lem_example :
    (due now (on_timer ops receiving now).rtx_deadline ≡ false)
    × (due now (on_timer ops receiving now).persist_deadline ≡ false)
    × (due now (on_timer ops receiving now).delayed_ack_deadline ≡ false)
on_timer_lem_example = on_timer_lem ops receiving now receiving-Timed

-- Ten bytes in flight, of which six are acknowledged.
abbrev pub sending : Tcb Reno
sending = record opening {
  state = established;
  snd_una = 4_294_967_290;
  snd_nxt = 4;
  tx = record {
    buf = 1 ∷ (2 ∷ (3 ∷ (4 ∷ (5 ∷ (6 ∷ (7 ∷ (8 ∷ (9 ∷ (10 ∷ [])))))))));
    capacity = 100;
  };
}

process_ack-flight_example :
    ((process_ack ops sending 7 0 1_000 none 0 now).0 ≡ true)
    × (flight (process_ack ops sending 7 0 1_000 none 0 now).1 ≡ record {
      snd_una = 0;
      snd_nxt = 4;
      tx = record { buf = 7 ∷ (8 ∷ (9 ∷ (10 ∷ []))); capacity = 100 };
      armed = true;
    })
unfolding new_syn_sent offset_from
process_ack-flight_example =
    process_ack-flight ops sending 7 0 1_000 none 0 now (omega arith) (omega arith) (omega arith)
      (omega arith) (omega arith)

wscale_for_test : wscale_for 262_144 ≡ 3
unfolding wscale_for wscale_from
wscale_for_test = refl
