-- ===== src/Runtime.antt =====
-- tcp-core/src/runtime: the state that the reactor shares with the futures of the sockets, the polls of
-- those futures (socket.rs), and the pass of the reactor that wakes tasks (reactor.rs). A waker is
-- the number of the task that it wakes; a map is the list of its entries.
pub mod Wakeups
mod Tests
use ferrumnet.Prelude.{
  ℕ, ◌+◌, Bool, true, false, not, ◌&&◌, ◌||◌, List, [], ◌∷◌, ◌++◌, length, Option, some, none, ltb,
  ◌==◌, if◌then◌else◌,
}
use ferrumnet.Time.{Instant}
use ferrumnet.State.{State, closed, same_state, accepts_data}
use ferrumnet.Congestion.{CongestionControl}
use ferrumnet.Datagram.{Endpoint, same_endpoint}
use ferrumnet.Tcb
use ferrumnet.Tcb.{Tcb, rx_available, tx_free, recv_eof, is_reset, is_synchronized}
use ferrumnet.Iface
use ferrumnet.Iface.{Stack, find, put}

pub record ReactorState (C : Type 0) : Type 0 where
  pub stack : Stack C
  pub read_wakers : List (Endpoint × ℕ)
  pub write_wakers : List (Endpoint × ℕ)
  pub connect_wakers : List (Endpoint × ℕ)
  pub accept_waker : Option ℕ
  pub accept_queue : List Endpoint
  pub now : Instant
  pub announced : List Endpoint

-- The kinds of `std::io::Error` that the futures give, and their result.
pub data IoError : Type 0 where
  timed_out connection_refused connection_reset broken_pipe : IoError

pub data Poll (A : Type 0) : Type 0 where
  ready : A → Poll A
  failed : IoError → Poll A
  pending : Poll A
  panicked : Poll A

abbrev pub is_among : Endpoint → List Endpoint → Bool
is_among e [] = false
is_among e (x ∷ xs) = same_endpoint x e || is_among e xs

abbrev pub keys : {V : Type 0} → List (Endpoint × V) → List Endpoint
keys [] = []
keys ((k, v) ∷ rest) = k ∷ keys rest

-- `retain`
unfoldable pub retain : List Endpoint → List Endpoint → List Endpoint
retain live [] = []
retain live (e ∷ rest) = let next = retain live rest in if is_among e live then e ∷ next else next

abbrev pub to_list : Option ℕ → List ℕ
to_list none = []
to_list (some waker) = waker ∷ []

module _ {C : Type 0} where
  -- `accept` takes connections that are still of use.
  abbrev pub usable : Option (Tcb C) → Bool
  usable none = false
  usable (some t) = is_synchronized t || ltb 0 (rx_available t)

  -- The loop of `Accept::poll`: what it finds, and the queue that is left
  unfoldable pub next_usable : Stack C → List Endpoint → Option Endpoint × List Endpoint
  next_usable s [] = (none, [])
  next_usable s (remote ∷ rest) =
      let next = next_usable s rest in
      if usable (find remote s.conns) then (some remote, rest) else next

  unfoldable pub hand_over : ReactorState C → ℕ → Option Endpoint → Poll Endpoint × ReactorState C
  hand_over s waker (some remote) = (ready remote, s)
  hand_over s waker none = (pending, record s { accept_waker = some waker })

  unfoldable pub poll_accept : ReactorState C → ℕ → Poll Endpoint × ReactorState C
  unfolding next_usable hand_over
  poll_accept s waker =
      let (found, queue) = next_usable s.stack s.accept_queue in
      hand_over (record s { accept_queue = queue }) waker found

  -- `Connect::poll` after its first: of the connection that it finds
  unfoldable pub check_connect :
      ReactorState C → Endpoint → ℕ → Option (Tcb C) → Poll Endpoint × ReactorState C
  check_connect s remote waker none = (failed timed_out, s)
  check_connect s remote waker (some t) =
      if is_synchronized t
      then (ready remote, s)
      else if same_state t.state closed
      then (failed (if is_reset t then connection_refused else timed_out), s)
      else (pending, record s { connect_wakers = put remote waker s.connect_wakers })

  unfoldable pub check_read :
      ReactorState C → Endpoint → List ℕ → ℕ → Tcb C → Poll (ℕ × List ℕ) × ReactorState C
  check_read s remote buf waker t =
      if ltb 0 (rx_available t)
      then elim (Tcb.recv t buf) [
        | none ↦ (panicked, s)
        | some (n, filled, t') ↦ (
          ready (n, filled),
          record s { stack = record s.stack { conns = put remote t' s.stack.conns } },
        )
      ]
      else if is_reset t
      then (failed connection_reset, s)
      else if recv_eof t || same_state t.state closed
      then (ready (0, buf), s)
      else (pending, record s { read_wakers = put remote waker s.read_wakers })

  unfoldable pub read_from :
      ReactorState C → Endpoint → List ℕ → ℕ → Option (Tcb C) → Poll (ℕ × List ℕ) × ReactorState C
  unfolding check_read
  read_from s remote buf waker none = (ready (0, buf), s)
  read_from s remote buf waker (some t) = check_read s remote buf waker t

  -- `Read::poll`, with the bytes read and the buffer that holds them
  unfoldable pub poll_read :
      ReactorState C → Endpoint → List ℕ → ℕ → Poll (ℕ × List ℕ) × ReactorState C
  unfolding read_from
  poll_read s remote buf waker =
      if length buf == 0
      then (ready (0, buf), s)
      else read_from s remote buf waker (find remote s.stack.conns)

  unfoldable pub check_write :
      ReactorState C → Endpoint → List ℕ → ℕ → Tcb C → Poll ℕ × ReactorState C
  check_write s remote buf waker t =
      let (n, t') = Tcb.send t buf in
      let sent : ReactorState C = record s {
        stack = record s.stack { conns = put remote t' s.stack.conns };
      } in
      if is_reset t
      then (failed connection_reset, s)
      else if not (accepts_data t.state)
      then (failed broken_pipe, s)
      else if ltb 0 n
      then (ready n, sent)
      else (pending, record sent { write_wakers = put remote waker s.write_wakers })

  unfoldable pub write_to :
      ReactorState C → Endpoint → List ℕ → ℕ → Option (Tcb C) → Poll ℕ × ReactorState C
  unfolding check_write
  write_to s remote buf waker none = (failed broken_pipe, s)
  write_to s remote buf waker (some t) = check_write s remote buf waker t

  -- `Write::poll`
  unfoldable pub poll_write : ReactorState C → Endpoint → List ℕ → ℕ → Poll ℕ × ReactorState C
  unfolding write_to
  poll_write s remote buf waker = write_to s remote buf waker (find remote s.stack.conns)

  -- What makes a waiting connection, read or write ready.
  unfoldable pub connect_ready : Option (Tcb C) → Bool
  connect_ready none = true
  connect_ready (some t) = is_synchronized t || same_state t.state closed

  unfoldable pub read_ready : Option (Tcb C) → Bool
  read_ready none = true
  read_ready (some t) = ltb 0 (rx_available t) || (recv_eof t || same_state t.state closed)

  unfoldable pub write_ready : Option (Tcb C) → Bool
  write_ready none = true
  write_ready (some t) = not (accepts_data t.state) || ltb 0 (tx_free t)

  -- The wakers that stay, and those that are woken.
  unfoldable pub wake_pass :
      (Option (Tcb C) → Bool) → Stack C → List (Endpoint × ℕ) → List (Endpoint × ℕ) × List ℕ
  wake_pass test s [] = ([], [])
  wake_pass test s ((remote, waker) ∷ rest) =
      let (kept, woken) = wake_pass test s rest in
      if test (find remote s.conns) then (kept, waker ∷ woken) else ((remote, waker) ∷ kept, woken)

  -- A passively opened connection past the handshake
  unfoldable pub synced : ℕ → List (Endpoint × Tcb C) → List Endpoint
  synced listen_port [] = []
  synced listen_port ((remote, t) ∷ rest) =
      let next = synced listen_port rest in
      if is_synchronized t && t.local.port == listen_port then remote ∷ next else next

  -- Each endpoint is announced once.
  unfoldable pub announce : List Endpoint → ReactorState C → ReactorState C
  announce [] s = s
  announce (remote ∷ rest) s = announce rest (
      if is_among remote s.announced then s else record s {
        announced = s.announced ++ (remote ∷ []);
        accept_queue = s.accept_queue ++ (remote ∷ []);
      })

  -- The task that waits to accept, once there is something to accept.
  unfoldable pub wake_accept : ReactorState C → List ℕ × Option ℕ
  wake_accept s =
      if length s.accept_queue == 0 then ([], s.accept_waker) else (to_list s.accept_waker, none)

  -- `dispatch_wakeups`: the tasks that it wakes, in order
  unfoldable pub dispatch_wakeups : ReactorState C → List ℕ × ReactorState C
  unfolding announce synced wake_accept wake_pass connect_ready read_ready write_ready retain
  dispatch_wakeups s =
      let told : ReactorState C = announce (synced s.stack.local.port s.stack.conns) s in
      let (accepts, accept_waker) = wake_accept told in
      let (connects, woken_connects) = wake_pass connect_ready s.stack s.connect_wakers in
      let (reads, woken_reads) = wake_pass read_ready s.stack s.read_wakers in
      let (writes, woken_writes) = wake_pass write_ready s.stack s.write_wakers in
      let live = keys s.stack.conns in
      (
        accepts ++ (woken_connects ++ (woken_reads ++ woken_writes)),
        record told {
          accept_waker = accept_waker;
          connect_wakers = connects;
          read_wakers = reads;
          write_wakers = writes;
          announced = retain live told.announced;
          accept_queue = retain live told.accept_queue;
        },
      )

module _ {C : Type 0} (ops : CongestionControl C) where
  -- `Connect::poll`, with whether it was initiated
  unfoldable pub poll_connect :
      ReactorState C → Endpoint → Bool → ℕ → Poll Endpoint × ReactorState C
  unfolding check_connect
  poll_connect s remote false waker = (
    pending,
    record s {
      stack = (Iface.connect ops s.stack remote s.now).1;
      connect_wakers = put remote waker s.connect_wakers;
    },
  )
  poll_connect s remote true waker = check_connect s remote waker (find remote s.stack.conns)
