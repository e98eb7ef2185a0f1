-- ===== src/Tcb/Closing/Arcs.antt =====
-- The closing states of tcp-core/src/tcb.rs as the transitions of RFC 793.
use ferrumnet.Prelude.{arith, Bool, true, false, ◌≡◌, refl, some, none, if◌then◌else◌, subst, sym}
use ferrumnet.Time.{Instant, plus_millis}
use ferrumnet.State.{
  State, closed, listen, syn_sent, syn_received, established, fin_wait1, fin_wait2, close_wait,
  closing, last_ack, time_wait, same_state,
}
use ferrumnet.Tcb.{Tcb}
use ferrumnet.Tcb.Closing.{next_state, recompute_closing_state, arm_on_entry, arm_time_wait}

-- One arc of the diagram: the ACK of our FIN, or the FIN of the peer.
pub data Arc (fin_acked peer_fin : Bool) : State → State → Type 0 where
  fin_received : peer_fin ≡ true → Arc fin_acked peer_fin established close_wait
  fin1_acked : fin_acked ≡ true → Arc fin_acked peer_fin fin_wait1 fin_wait2
  fin1_received : peer_fin ≡ true → Arc fin_acked peer_fin fin_wait1 closing
  fin2_received : peer_fin ≡ true → Arc fin_acked peer_fin fin_wait2 time_wait
  closing_acked : fin_acked ≡ true → Arc fin_acked peer_fin closing time_wait
  last_acked : fin_acked ≡ true → Arc fin_acked peer_fin last_ack closed

pub data Arcs (fin_acked peer_fin : Bool) : State → State → Type 0 where
  stay : {s : State} → Arcs fin_acked peer_fin s s
  arc :
      {s t u : State}
      → Arc fin_acked peer_fin s t
      → Arcs fin_acked peer_fin t u
      → Arcs fin_acked peer_fin s u

next_state-Arcs : (s : State) (a p : Bool) → Arcs a p s (next_state s a p)
unfolding next_state
next_state-Arcs fin_wait1 true true = arc (fin1_acked refl) (arc (fin2_received refl) stay)
next_state-Arcs fin_wait1 true false = arc (fin1_acked refl) stay
next_state-Arcs fin_wait1 false true = arc (fin1_received refl) stay
next_state-Arcs fin_wait1 false false = stay
next_state-Arcs fin_wait2 a true = arc (fin2_received refl) stay
next_state-Arcs fin_wait2 a false = stay
next_state-Arcs closing true p = arc (closing_acked refl) stay
next_state-Arcs closing false p = stay
next_state-Arcs last_ack true p = arc (last_acked refl) stay
next_state-Arcs last_ack false p = stay
next_state-Arcs established a true = arc (fin_received refl) stay
next_state-Arcs established a false = stay
next_state-Arcs closed a p = stay
next_state-Arcs listen a p = stay
next_state-Arcs syn_sent a p = stay
next_state-Arcs syn_received a p = stay
next_state-Arcs close_wait a p = stay
next_state-Arcs time_wait a p = stay

no-Arc : (s t : State) (a p : Bool) → Arc a p (next_state s a p) t → ⊥
unfolding next_state
no-Arc closed t a p x = elim x [ ]
no-Arc listen t a p x = elim x [ ]
no-Arc syn_sent t a p x = elim x [ ]
no-Arc syn_received t a p x = elim x [ ]
no-Arc close_wait t a p x = elim x [ ]
no-Arc time_wait t a p x = elim x [ ]
no-Arc established t a true x = elim x [ ]
no-Arc established t a false (fin_received h) = cc h
no-Arc fin_wait1 t true true x = elim x [ ]
no-Arc fin_wait1 t true false (fin2_received h) = cc h
no-Arc fin_wait1 t false true (closing_acked h) = cc h
no-Arc fin_wait1 t false false (fin1_acked h) = cc h
no-Arc fin_wait1 t false false (fin1_received h) = cc h
no-Arc fin_wait2 t a true x = elim x [ ]
no-Arc fin_wait2 t a false (fin2_received h) = cc h
no-Arc closing t true p x = elim x [ ]
no-Arc closing t false p (closing_acked h) = cc h
no-Arc last_ack t true p x = elim x [ ]
no-Arc last_ack t false p (last_acked h) = cc h

arm_on_entry-state :
    {C : Type 0} → (s : State) (t : Tcb C) (now : Instant) → (arm_on_entry s t now).state ≡ t.state
unfolding arm_on_entry arm_time_wait
arm_on_entry-state closed t now = refl
arm_on_entry-state listen t now = refl
arm_on_entry-state syn_sent t now = refl
arm_on_entry-state syn_received t now = refl
arm_on_entry-state established t now = refl
arm_on_entry-state fin_wait1 t now = refl
arm_on_entry-state fin_wait2 t now = refl
arm_on_entry-state close_wait t now = refl
arm_on_entry-state closing t now = refl
arm_on_entry-state last_ack t now = refl
arm_on_entry-state time_wait t now = refl

state-if :
    {C : Type 0}
    → (b : Bool) (t : Tcb C) (now : Instant)
    → (if b then t else arm_on_entry t.state t now).state ≡ t.state
state-if true t now = refl
state-if false t now = arm_on_entry-state t.state t now

recompute-state :
    {C : Type 0}
    → (t : Tcb C) (now : Instant)
    → (recompute_closing_state t now).state ≡ next_state t.state t.fin_acked t.peer_fin_seen
unfolding recompute_closing_state
recompute-state t now =
    let next : State = next_state t.state t.fin_acked t.peer_fin_seen in
    state-if (same_state next t.state) (record t { state = next }) now

-- The new state is reached from the old one by arcs of the diagram of RFC 793 that the ACK of our
-- FIN and the FIN of the peer, as far as seen, allow, and none of these arcs leads on from it.
pub recompute-Arcs :
    {C : Type 0}
    → (t : Tcb C) (now : Instant) (next : State)
    → Arcs t.fin_acked t.peer_fin_seen t.state (recompute_closing_state t now).state
      × (¬ Arc t.fin_acked t.peer_fin_seen (recompute_closing_state t now).state next)
recompute-Arcs t now next = (
  subst (Arcs t.fin_acked t.peer_fin_seen t.state) (sym (recompute-state t now))
      (next_state-Arcs t.state t.fin_acked t.peer_fin_seen),
  λ x.
      no-Arc t.state next t.fin_acked t.peer_fin_seen
        (subst (λ s. Arc t.fin_acked t.peer_fin_seen s next) (recompute-state t now) x),
)

-- From FIN-WAIT-1 with our FIN acknowledged: if the peer's FIN is seen the TIME-WAIT timer runs for
-- ten seconds from now and the retransmission timer is off, else the former runs for a minute and
-- the latter stays.
pub recompute-deadline :
    {C : Type 0}
    → (t : Tcb C) (now : Instant) → t.state ≡ fin_wait1
    → t.fin_acked ≡ true
    → ((recompute_closing_state t now).time_wait_deadline
        ≡ some (plus_millis now (if t.peer_fin_seen then 10_000 else 60_000)))
      × ((recompute_closing_state t now).rtx_deadline
          ≡ (if t.peer_fin_seen then none else t.rtx_deadline))
unfolding recompute_closing_state arm_on_entry arm_time_wait next_state
recompute-deadline t now h k = ground (arith, h, k)
