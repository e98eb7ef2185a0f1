-- ===== src/Tcb/Open/Agree.antt =====
-- The two opens of tcp-core/src/tcb.rs against each other: what the ends agree on.
use ferrumnet.Prelude.{
  ℕ, ◌+◌, ◌^◌, ◌<◌, ◌≡◌, refl, sym, ap, ap₂, subst, ◌∙◌, arith, true, false, [], some, none, min,
  u32, is_some, if◌then◌else◌,
}
use ferrumnet.Seq.{SeqNumber, add}
use ferrumnet.Seq.Order.{add-lt}
use ferrumnet.Time.{Instant}
use ferrumnet.State.{syn_sent, syn_received, established}
use ferrumnet.Congestion.{CongestionControl}
use ferrumnet.Datagram.{Endpoint}
use ferrumnet.Wire.Tcp.{
  TcpPacket, seq, ack, flags, mss_option, sack_permitted, window_scale, timestamps, flag_syn,
  flag_ack,
}
use ferrumnet.Wire.Tcp.RoundTrip.Options.{clamped}
use ferrumnet.Tcb.{Tcb, new_syn_sent, mss_default}
use ferrumnet.Tcb.Timers.{start_rtx}
use ferrumnet.Tcb.Build.{build, build_syn, rcv_wscale}
use ferrumnet.Tcb.Open.{unwrap_or, tsval_of, new_syn_received, take_syn}
use ferrumnet.Tcb.Segment.{on_segment}
use ferrumnet.Tcb.Transmit.{Sent}
use ferrumnet.Tcb.Poll.{poll_transmit}
use ferrumnet.Tcb.Open.Syn.{
  sent_packet, Fits8, FitsStamps, Plain, Plain-fields, poll-syn_sent, Read, Read-packet, SynAck,
  SynAck-build, rcv_wscale_lem, build_syn-Plain, Announced, build_syn-Announced,
}
use ferrumnet.Tcb.Open.Steps.{poll-syn_received, in_syn_sent, syn_ack-taken}

-- The two ends after the SYN and its answer: `c` opened, `s` was opened.
pub record Agreed {C : Type 0} (c s : Tcb C) : Type 0 where
  pub client_state : c.state ≡ established
  pub server_state : s.state ≡ syn_received
  pub client_expects : c.rcv_nxt ≡ s.snd_nxt
  pub server_expects : s.rcv_nxt ≡ c.snd_nxt
  pub all_acked : c.snd_una ≡ c.snd_nxt
  pub owes_ack : c.needs_ack ≡ true
  pub same_mss : c.snd_mss ≡ s.snd_mss
  pub scales_down : c.snd_wscale ≡ s.rcv_wscale
  pub scales_up : s.snd_wscale ≡ c.rcv_wscale
  pub both_sack : (c.sack_enabled ≡ true) × (s.sack_enabled ≡ true)
  pub both_stamp : (c.ts_enabled ≡ true) × (s.ts_enabled ≡ true)

module _ {C : Type 0} (ops : CongestionControl C) where
  module _ (client server : Endpoint) (iss irs : SeqNumber) (t0 t1 t2 : Instant)
      (mss_c mss_s : ℕ) where
    -- The passive open on a SYN, and its answer.
    abbrev pub opened_by : TcpPacket → Tcb C
    opened_by p = new_syn_received ops server client p irs t1 mss_s

    abbrev pub answer_to : TcpPacket → Sent C
    answer_to p = poll_transmit ops (opened_by p) t1

    -- The active open after its SYN: what it is told, and the other end.
    abbrev pub outcome : Sent C → Tcb C × Tcb C
    outcome x = (
      on_segment ops x.1 t2 (sent_packet (answer_to (sent_packet x))) false,
      (answer_to (sent_packet x)).1,
    )

    abbrev pub handshake : Tcb C × Tcb C
    handshake = outcome (poll_transmit ops (new_syn_sent ops client server iss t0 mss_c) t0)

    abbrev stamped : TcpPacket → Tcb C
    stamped p = record (opened_by p) { cur_tsval = u32 t1.micros }

    abbrev answered : TcpPacket → Sent C
    answered p = (
      some (build (stamped p) irs flag_syn []).0,
      start_rtx (record (build (stamped p) irs flag_syn []).1 { snd_nxt = add irs 1 }) t1,
    )

    answer_to_lem : (p : TcpPacket) → answer_to p ≡ answered p
    unfolding new_syn_received
    answer_to_lem p = poll-syn_received ops (opened_by p) t1 refl refl refl

    -- The answer says that the options of the SYN are taken.
    record Answer (p2 : TcpPacket) : Type 0 where
      of_seq : seq p2 ≡ irs
      of_ack : ack p2 ≡ add iss 1
      of_flags : flags p2 ≡ flag_syn + flag_ack
      of_mss : mss_option p2 ≡ some mss_s
      of_scale : window_scale p2 ≡ some rcv_wscale
      of_stamps : is_some (timestamps p2) ≡ true
      of_sack : sack_permitted p2 ≡ true

    module _ (p : TcpPacket) (tsval : ℕ) (a : Announced iss mss_c tsval p) where
      answer_repr : SynAck (stamped p) (build (stamped p) irs flag_syn []).0.repr
      unfolding new_syn_received
      answer_repr = SynAck-build (stamped p) refl

      scale_taken : (build (stamped p) irs flag_syn []).0.repr.window_scale ≡ some rcv_wscale
      unfolding new_syn_received
      scale_taken =
          answer_repr.answer_scale
          ∙ ap (λ o. if is_some o then some (if is_some o then rcv_wscale else 0) else none)
              a.announced_scale

      stamps_taken :
          (build (stamped p) irs flag_syn []).0.repr.timestamps ≡ some (u32 t1.micros, tsval)
      unfolding new_syn_received
      stamps_taken =
          answer_repr.answer_stamps
          ∙ ap (λ o. if is_some o then some (u32 t1.micros, tsval_of o 0) else none)
              a.announced_stamps

      expected_next : (opened_by p).rcv_nxt ≡ add iss 1
      unfolding new_syn_received
      expected_next = ap (λ n. add n 1) a.announced_seq

      own_number : (opened_by p).iss ≡ irs
      unfolding new_syn_received
      own_number = refl

      own_mss : (opened_by p).mss_advertise ≡ mss_s
      unfolding new_syn_received
      own_mss = refl

      sack_taken : (opened_by p).sack_enabled ≡ true
      unfolding new_syn_received
      sack_taken = a.announced_sack

      -- The widths of the parameters.
      module _ (ports : (client.port < 2 ^ 16) × (server.port < 2 ^ 16))
          (numbers : (irs < 2 ^ 32) × (mss_s < 2 ^ 16) × (tsval < 2 ^ 32)) where
        answer-Plain : Plain (build (stamped p) irs flag_syn []).0.repr
        unfolding new_syn_received build
        answer-Plain =
            Plain-fields (build (stamped p) irs flag_syn []).0.repr ports.1 ports.0 numbers.0
              (omega (arith, add-lt (seq p) 1)) (omega (arith, answer_repr.answer_flags))
              answer_repr.answer_window numbers.1
              (subst Fits8 (sym scale_taken) (omega (arith, rcv_wscale_lem)))
              (subst FitsStamps (sym stamps_taken) (omega arith, numbers.2)) answer_repr.answer_sack

        reads : Read (build (stamped p) irs flag_syn []).0.repr (sent_packet (answered p))
        unfolding new_syn_received build
        reads =
            Read-packet (build (stamped p) irs flag_syn []).0.repr server.ip client.ip answer-Plain

        answer : Answer (sent_packet (answered p))
        answer = record {
          of_seq = reads.seq_read ∙ answer_repr.answer_seq ∙ own_number;
          of_ack = reads.ack_read ∙ answer_repr.answer_ack ∙ expected_next;
          of_flags = reads.flags_read ∙ answer_repr.answer_flags;
          of_mss = reads.mss_read ∙ answer_repr.answer_mss ∙ ap some own_mss;
          of_scale =
              reads.scale_read ∙ ap clamped scale_taken ∙ ap some (omega (arith, rcv_wscale_lem));
          of_stamps = ap is_some (reads.stamps_read ∙ stamps_taken);
          of_sack = reads.permitted_read ∙ answer_repr.answer_permitted ∙ sack_taken;
        }

      -- The two ends after the answer.
      agreed :
          (t : Tcb C) (p2 : TcpPacket)
          → t.snd_nxt ≡ add iss 1
          → t.mss_advertise ≡ mss_c
          → Answer p2
          → Agreed (take_syn ops t p2 true) (answered p).1
      unfolding new_syn_received build start_rtx take_syn
      agreed t p2 n m b = record {
        client_state = refl;
        server_state = refl;
        client_expects = ap (λ s. add s 1) b.of_seq;
        server_expects = ap (λ s. add s 1) a.announced_seq ∙ sym n;
        all_acked = b.of_ack ∙ sym n;
        owes_ack = refl;
        same_mss =
            ap₂ (λ o n. min (unwrap_or o mss_default) n) b.of_mss m
            ∙ omega arith
            ∙ ap (λ o. min (unwrap_or o mss_default) mss_s) (sym a.announced_mss);
        scales_down =
            ap (λ o. unwrap_or o 0) b.of_scale
            ∙ ap (λ o. if is_some o then rcv_wscale else 0) (sym a.announced_scale);
        scales_up =
            ap (λ o. unwrap_or o 0) a.announced_scale
            ∙ ap (λ o. if is_some o then rcv_wscale else 0) (sym b.of_scale);
        both_sack = (b.of_sack, a.announced_sack);
        both_stamp = (b.of_stamps, ap is_some a.announced_stamps);
      }

    abbrev Both : Tcb C × Tcb C → Type 0
    Both q = Agreed q.0 q.1

    abbrev opener : Tcb C
    opener = record (new_syn_sent ops client server iss t0 mss_c) { cur_tsval = u32 t0.micros }

    abbrev waiting : Tcb C
    waiting = start_rtx (record opener { snd_nxt = add iss 1 }) t0

    syn_out :
        poll_transmit ops (new_syn_sent ops client server iss t0 mss_c) t0
        ≡ (some (build_syn opener), waiting)
    unfolding new_syn_sent
    syn_out = poll-syn_sent ops (new_syn_sent ops client server iss t0 mss_c) t0 refl refl refl

    waiting-fields :
        (waiting.state ≡ syn_sent)
        × (waiting.iss ≡ iss)
        × (waiting.snd_nxt ≡ add iss 1)
        × (waiting.mss_advertise ≡ mss_c)
    unfolding new_syn_sent start_rtx
    waiting-fields = (refl, refl, refl, refl)

    module _ (ports : (client.port < 2 ^ 16) × (server.port < 2 ^ 16))
        (numbers : (iss < 2 ^ 32) × (irs < 2 ^ 32))
        (sizes : (mss_c < 2 ^ 16) × (mss_s < 2 ^ 16)) where
      the_syn : TcpPacket
      the_syn = sent_packet (some (build_syn opener), waiting)

      the_syn-Announced : Announced iss mss_c (u32 t0.micros) the_syn
      unfolding the_syn new_syn_sent build_syn
      the_syn-Announced = build_syn-Announced opener the_syn (
          Read-packet (build_syn opener).repr client.ip server.ip
            (build_syn-Plain opener ports.0 ports.1 numbers.0 sizes.0 (omega arith)))

      -- The end that opened takes the answer.
      Answer-taken :
          (p2 : TcpPacket)
          → Answer p2
          → on_segment ops waiting t2 p2 false ≡ take_syn ops waiting p2 true
      Answer-taken p2 b =
          let w = waiting-fields in
          in_syn_sent ops waiting t2 p2 false w.0
          ∙ syn_ack-taken ops waiting p2 (omega (arith, w.1, numbers.0))
              (w.2 ∙ ap (λ x. add x 1) (sym w.1)) b.of_flags
              (b.of_ack ∙ ap (λ x. add x 1) (sym w.1))

      the-Answer : Answer (sent_packet (answered the_syn))
      the-Answer =
          answer the_syn (u32 t0.micros) the_syn-Announced ports (numbers.1, sizes.1, omega arith)

      ends :
          Agreed (take_syn ops waiting (sent_packet (answered the_syn)) true) (answered the_syn).1
      ends =
          agreed the_syn (u32 t0.micros) the_syn-Announced waiting (sent_packet (answered the_syn))
            waiting-fields.2 waiting-fields.3 the-Answer

      after_answer :
          outcome (some (build_syn opener), waiting)
          ≡ (take_syn ops waiting (sent_packet (answered the_syn)) true, (answered the_syn).1)
      unfolding the_syn
      after_answer =
          ap (λ y. (on_segment ops waiting t2 (sent_packet y) false, y.1)) (answer_to_lem the_syn)
          ∙ ap (λ c. (c, (answered the_syn).1))
              (Answer-taken (sent_packet (answered the_syn)) the-Answer)

      -- An active and a passive open, each told the segment that the other sends, end up with the
      -- one established and the other waiting for its last ACK: both number their bytes as the other
      -- expects, with one segment size, the window scales of each other, timestamps and SACK.
      pub handshake_agrees : Agreed handshake.0 handshake.1
      handshake_agrees = subst Both (sym (ap outcome syn_out ∙ after_answer)) ends
