-- ===== src/Iface/Drain.antt =====
-- `poll_transmit` of tcp-core/src/iface.rs: its loops as relations, a step for each datagram, over the
-- connections in the order that the hash map gives them.
use ferrumnet.Prelude.{◌≡◌, true, false, List, [], ◌∷◌, ◌++◌, some, none, refl}
use ferrumnet.Time.{Instant}
use ferrumnet.State.{closed, same_state}
use ferrumnet.Congestion.{CongestionControl}
use ferrumnet.Datagram.{Endpoint, Frame}
use ferrumnet.Tcb.{Tcb}
use ferrumnet.Tcb.Poll.{poll_transmit}
use ferrumnet.Iface.{Stack}

-- `while let Some(seg) = tcb.poll_transmit(now)`
data Drains {C : Type 0} (ops : CongestionControl C) (now : Instant)
    : Tcb C → List Frame → Tcb C → Type 0 where
  quiet : (t u : Tcb C) → poll_transmit ops t now ≡ (none, u) → Drains ops now t [] u
  sends :
      (t u w : Tcb C) (f : Frame) (fs : List Frame)
      → poll_transmit ops t now ≡ (some f, u)
      → Drains ops now u fs w
      → Drains ops now t (f ∷ fs) w

-- The loop over the connections, which takes out the closed ones.
data PollsAll {C : Type 0} (ops : CongestionControl C) (now : Instant)
    : List (Endpoint × Tcb C) → List Frame → List (Endpoint × Tcb C) → Type 0 where
  finished : PollsAll ops now [] [] []
  kept :
      (k : Endpoint) (t u : Tcb C) (fs gs : List Frame) (rest left : List (Endpoint × Tcb C))
      → Drains ops now t fs u
      → same_state u.state closed ≡ false
      → PollsAll ops now rest gs left
      → PollsAll ops now ((k, t) ∷ rest) (fs ++ gs) ((k, u) ∷ left)
  removed :
      (k : Endpoint) (t u : Tcb C) (fs gs : List Frame) (rest left : List (Endpoint × Tcb C))
      → Drains ops now t fs u
      → same_state u.state closed ≡ true
      → PollsAll ops now rest gs left
      → PollsAll ops now ((k, t) ∷ rest) (fs ++ gs) left

-- The resets that are owed go first.
data Polls {C : Type 0} (ops : CongestionControl C) (now : Instant)
    : Stack C → List Frame → Stack C → Type 0 where
  polled :
      (s : Stack C) (fs : List Frame) (left : List (Endpoint × Tcb C))
      → PollsAll ops now s.conns fs left
      → Polls ops now s (s.pending ++ fs) (record s { pending = []; conns = left })

-- No connection of a table is closed.
AllOpen : {C : Type 0} → List (Endpoint × Tcb C) → Type 0
AllOpen [] = Unit
AllOpen ((k, t) ∷ rest) = (same_state t.state closed ≡ false) × AllOpen rest

PollsAll-AllOpen :
    {C : Type 0}
    → (ops : CongestionControl C) (now : Instant) (conns left : List (Endpoint × Tcb C))
      (fs : List Frame)
    → PollsAll ops now conns fs left
    → AllOpen left
unfolding AllOpen
PollsAll-AllOpen ops now conns left fs finished = tt
PollsAll-AllOpen ops now conns left fs (kept k t u ds gs rest others d o p) =
    (o, PollsAll-AllOpen ops now rest others gs p)
PollsAll-AllOpen ops now conns left fs (removed k t u ds gs rest others d o p) =
    PollsAll-AllOpen ops now rest others gs p

-- A poll leaves no closed connection and no reset that is owed.
Polls-AllOpen :
    {C : Type 0}
    → (ops : CongestionControl C) (now : Instant) (s u : Stack C) (fs : List Frame)
    → Polls ops now s fs u
    → AllOpen u.conns × (u.pending ≡ [])
Polls-AllOpen ops now s u fs (polled v gs left p) =
    (PollsAll-AllOpen ops now v.conns left gs p, refl)
