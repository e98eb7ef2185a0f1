-- ===== src/Runtime/Tests.antt =====
-- The futures of tcp-core/src/runtime/socket.rs and the reactor on a concrete stack.
use ferrumnet.Prelude.{◌≡◌, ◌⊎◌, refl, arith, true, false, none, some, [], ◌∷◌}
use ferrumnet.State.{closed}
use ferrumnet.Congestion.{reno}
use ferrumnet.Congestion.Reno.{Reno}
use ferrumnet.Datagram.{Endpoint}
use ferrumnet.Buffers.{write}
use ferrumnet.Tcb
use ferrumnet.Tcb.{Tcb}
use ferrumnet.Tcb.Tests.{address, now, receiving}
use ferrumnet.Iface.{find}
use ferrumnet.Runtime.{
  ReactorState, pending, poll_read, read_from, check_read, read_ready, poll_write, write_to,
  check_write, write_ready, dispatch_wakeups,
}
use ferrumnet.Runtime.Wakeups.{Woken, dispatch-poll_read, dispatch-poll_write}

abbrev peer : Endpoint
peer = record { ip = address; port = 80 }

-- A connection whose send buffer is full.
abbrev full : Tcb Reno
full = record receiving {
  tx = record { buf = 1 ∷ (2 ∷ []); capacity = 2 };
  rx = record { buf = []; capacity = 64 };
  reset = false;
  peer_fin_seen = false;
}

abbrev with : Tcb Reno → ReactorState Reno
with t = record {
  stack = record {
    local = record { ip = address; port = 4_000 };
    isn = record { k0 = 1; k1 = 2 };
    conns = (peer, t) ∷ [];
    pending = [];
    mss_advertise = 1_460;
    ephemeral_next = 49_152;
    cc_kind = reno;
  };
  read_wakers = [];
  write_wakers = [];
  connect_wakers = [];
  accept_waker = none;
  accept_queue = [];
  now = now;
  announced = [];
}

-- Task 7 waits, and then the connection closes.
abbrev reading : ReactorState Reno
reading = record (poll_read (with full) peer (0 ∷ []) 7).1 {
  stack = (with (record full { state = closed })).stack;
}

read_pends : (poll_read (with full) peer (0 ∷ []) 7).0 ≡ pending
unfolding poll_read read_from check_read find
read_pends = refl

write_pends : (poll_write (with full) peer (3 ∷ []) 7).0 ≡ pending
unfolding poll_write write_to check_write find Tcb.send write
write_pends = refl

abbrev writing : ReactorState Reno
writing = record (poll_write (with full) peer (3 ∷ []) 7).1 {
  stack = (with (record full { state = closed })).stack;
}

dispatch-poll_read_example :
    (read_ready (find peer (with full).stack.conns) ≡ false)
    × (((read_ready (find peer reading.stack.conns) ≡ true) × Woken 7 (dispatch_wakeups reading).0)
        ⊎ ((read_ready (find peer reading.stack.conns) ≡ false)
            × (find peer (dispatch_wakeups reading).1.read_wakers ≡ some 7)))
dispatch-poll_read_example = dispatch-poll_read (with full) peer (0 ∷ []) 7 reading read_pends refl

dispatch-poll_write_example :
    (write_ready (find peer (with full).stack.conns) ≡ false)
    × (((write_ready (find peer writing.stack.conns) ≡ true) × Woken 7 (dispatch_wakeups writing).0)
        ⊎ ((write_ready (find peer writing.stack.conns) ≡ false)
            × (find peer (dispatch_wakeups writing).1.write_wakers ≡ some 7)))
dispatch-poll_write_example =
    dispatch-poll_write (with full) peer (3 ∷ []) 7 writing (omega arith) write_pends refl
