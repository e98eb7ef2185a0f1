-- ===== src/Congestion/Reno/Window.antt =====
-- The congestion window of Reno, tcp-core/src/congestion.rs, over its events.
use ferrumnet.Prelude.{
  ℕ, zero, suc, ◌+◌, ◌-◌, ◌*◌, ◌/◌, ◌^◌, ◌≤◌, ◌<◌, ◌≡◌, arith, List, [], ◌∷◌, min, max, u8_max,
  u32_max, ◌==◌, saturating_add,
}
use ferrumnet.Time.{Instant}
use ferrumnet.Congestion.{initial_window}
use ferrumnet.Congestion.Reno.{
  Reno, new, credit, grow, on_ack, on_dup_ack, enter_recovery, on_rto, set_mss,
}

-- The window holds a segment, and everything fits its integer.
pub record IsValid (r : Reno) : Type 0 where
  pub mss_pos : 0 < r.mss
  pub mss_lt : r.mss < 2 ^ 16
  pub mss_le : r.mss ≤ r.cwnd
  pub cwnd_le : r.cwnd ≤ u32_max
  pub ca_acc_lt : r.ca_acc < r.cwnd
  pub ssthresh_le : r.ssthresh ≤ u32_max

-- The loop ends with less than a window of credit left, if the window is not empty.
pub credit_lem :
    (fuel : ℕ) (r : Reno)
    → 0 < r.cwnd
    → r.cwnd ≤ u32_max
    → r.ca_acc ≤ fuel
    → ((credit fuel r).ca_acc < (credit fuel r).cwnd)
      × (r.cwnd ≤ (credit fuel r).cwnd)
      × ((credit fuel r).cwnd ≤ u32_max)
      × ((credit fuel r).mss ≡ r.mss)
      × ((credit fuel r).ssthresh ≡ r.ssthresh)
      × ((credit fuel r).dup_acks ≡ r.dup_acks)
unfolding credit
credit_lem zero r p h f = ground arith
credit_lem (suc fuel) r p h f = ground (
  arith,
  credit_lem fuel (record r { ca_acc = r.ca_acc - r.cwnd; cwnd = saturating_add r.cwnd r.mss }),
)

-- The events of the trait.
pub data Event : Type 0 where
  ack : Instant → ℕ → Event
  dup_ack : Instant → ℕ → Event
  recovery : Instant → ℕ → Event
  rto : Instant → ℕ → Event
  resize : ℕ → Event

abbrev pub EventIsValid : Event → Type 0
EventIsValid (ack now acked) = acked ≤ u32_max
EventIsValid (dup_ack now flight) = flight ≤ u32_max
EventIsValid (recovery now flight) = flight ≤ u32_max
EventIsValid (rto now flight) = flight ≤ u32_max
EventIsValid (resize mss) = (0 < mss) × (mss < 2 ^ 16)

unfoldable pub step : Reno → Event → Reno
step r (ack now acked) = on_ack r now acked
step r (dup_ack now flight) = (on_dup_ack r now flight).1
step r (recovery now flight) = enter_recovery r now flight
step r (rto now flight) = on_rto r now flight
step r (resize mss) = set_mss r mss

pub on_ack-IsValid :
    (r : Reno) (now : Instant) (acked : ℕ)
    → acked ≤ u32_max
    → IsValid r
    → IsValid (on_ack r now acked)
unfolding on_ack grow
on_ack-IsValid r now acked h v =
    let total : ℕ = saturating_add r.ca_acc acked in
    let c =
      credit_lem total (record r { dup_acks = 0; ca_acc = total })
        (omega (arith, v.mss_pos, v.mss_le)) v.cwnd_le (omega arith) in
    record {
      mss_pos =
          ground (arith, v.mss_pos, v.mss_lt, v.mss_le, v.cwnd_le, v.ca_acc_lt, v.ssthresh_le, c);
      mss_lt =
          ground (arith, v.mss_pos, v.mss_lt, v.mss_le, v.cwnd_le, v.ca_acc_lt, v.ssthresh_le, c);
      mss_le =
          ground (arith, v.mss_pos, v.mss_lt, v.mss_le, v.cwnd_le, v.ca_acc_lt, v.ssthresh_le, c);
      cwnd_le =
          ground (arith, v.mss_pos, v.mss_lt, v.mss_le, v.cwnd_le, v.ca_acc_lt, v.ssthresh_le, c);
      ca_acc_lt =
          ground (arith, v.mss_pos, v.mss_lt, v.mss_le, v.cwnd_le, v.ca_acc_lt, v.ssthresh_le, c);
      ssthresh_le =
          ground (arith, v.mss_pos, v.mss_lt, v.mss_le, v.cwnd_le, v.ca_acc_lt, v.ssthresh_le, c);
    }

pub step-IsValid : (r : Reno) (e : Event) → EventIsValid e → IsValid r → IsValid (step r e)
unfolding step on_dup_ack enter_recovery on_rto set_mss
step-IsValid r (ack now acked) h v = on_ack-IsValid r now acked h v
step-IsValid r (dup_ack now flight) h v = record {
  mss_pos = ground (arith, v.mss_pos, v.mss_lt, v.mss_le, v.cwnd_le, v.ca_acc_lt, v.ssthresh_le);
  mss_lt = ground (arith, v.mss_pos, v.mss_lt, v.mss_le, v.cwnd_le, v.ca_acc_lt, v.ssthresh_le);
  mss_le = ground (arith, v.mss_pos, v.mss_lt, v.mss_le, v.cwnd_le, v.ca_acc_lt, v.ssthresh_le);
  cwnd_le = ground (arith, v.mss_pos, v.mss_lt, v.mss_le, v.cwnd_le, v.ca_acc_lt, v.ssthresh_le);
  ca_acc_lt = ground (arith, v.mss_pos, v.mss_lt, v.mss_le, v.cwnd_le, v.ca_acc_lt, v.ssthresh_le);
  ssthresh_le =
      ground (arith, v.mss_pos, v.mss_lt, v.mss_le, v.cwnd_le, v.ca_acc_lt, v.ssthresh_le);
}
step-IsValid r (recovery now flight) h v = record {
  mss_pos = ground (arith, v.mss_pos, v.mss_lt, v.mss_le, v.cwnd_le, v.ca_acc_lt, v.ssthresh_le);
  mss_lt = ground (arith, v.mss_pos, v.mss_lt, v.mss_le, v.cwnd_le, v.ca_acc_lt, v.ssthresh_le);
  mss_le = ground (arith, v.mss_pos, v.mss_lt, v.mss_le, v.cwnd_le, v.ca_acc_lt, v.ssthresh_le);
  cwnd_le = ground (arith, v.mss_pos, v.mss_lt, v.mss_le, v.cwnd_le, v.ca_acc_lt, v.ssthresh_le);
  ca_acc_lt = ground (arith, v.mss_pos, v.mss_lt, v.mss_le, v.cwnd_le, v.ca_acc_lt, v.ssthresh_le);
  ssthresh_le =
      ground (arith, v.mss_pos, v.mss_lt, v.mss_le, v.cwnd_le, v.ca_acc_lt, v.ssthresh_le);
}
step-IsValid r (rto now flight) h v = record {
  mss_pos = ground (arith, v.mss_pos, v.mss_lt, v.mss_le, v.cwnd_le, v.ca_acc_lt, v.ssthresh_le);
  mss_lt = ground (arith, v.mss_pos, v.mss_lt, v.mss_le, v.cwnd_le, v.ca_acc_lt, v.ssthresh_le);
  mss_le = ground (arith, v.mss_pos, v.mss_lt, v.mss_le, v.cwnd_le, v.ca_acc_lt, v.ssthresh_le);
  cwnd_le = ground (arith, v.mss_pos, v.mss_lt, v.mss_le, v.cwnd_le, v.ca_acc_lt, v.ssthresh_le);
  ca_acc_lt = ground (arith, v.mss_pos, v.mss_lt, v.mss_le, v.cwnd_le, v.ca_acc_lt, v.ssthresh_le);
  ssthresh_le =
      ground (arith, v.mss_pos, v.mss_lt, v.mss_le, v.cwnd_le, v.ca_acc_lt, v.ssthresh_le);
}
step-IsValid r (resize mss) h v = record {
  mss_pos = ground (arith, v.mss_pos, v.mss_lt, v.mss_le, v.cwnd_le, v.ca_acc_lt, v.ssthresh_le);
  mss_lt = ground (arith, v.mss_pos, v.mss_lt, v.mss_le, v.cwnd_le, v.ca_acc_lt, v.ssthresh_le);
  mss_le = ground (arith, v.mss_pos, v.mss_lt, v.mss_le, v.cwnd_le, v.ca_acc_lt, v.ssthresh_le);
  cwnd_le = ground (arith, v.mss_pos, v.mss_lt, v.mss_le, v.cwnd_le, v.ca_acc_lt, v.ssthresh_le);
  ca_acc_lt = ground (arith, v.mss_pos, v.mss_lt, v.mss_le, v.cwnd_le, v.ca_acc_lt, v.ssthresh_le);
  ssthresh_le =
      ground (arith, v.mss_pos, v.mss_lt, v.mss_le, v.cwnd_le, v.ca_acc_lt, v.ssthresh_le);
}

abbrev pub EventsValid : List Event → Type 0
EventsValid [] = Unit
EventsValid (e ∷ es) = EventIsValid e × EventsValid es

unfoldable pub run : Reno → List Event → Reno
run r [] = r
run r (e ∷ es) = run (step r e) es

pub new-IsValid : (mss : ℕ) → 0 < mss → mss < 2 ^ 16 → IsValid (new mss)
unfolding new initial_window
new-IsValid mss h k = record {
  mss_pos = h;
  mss_lt = k;
  mss_le = omega arith;
  cwnd_le = omega arith;
  ca_acc_lt = omega arith;
  ssthresh_le = omega arith;
}

run-IsValid_from : (r : Reno) (es : List Event) → EventsValid es → IsValid r → IsValid (run r es)
unfolding run
run-IsValid_from r [] h v = v
run-IsValid_from r (e ∷ es) h v = run-IsValid_from (step r e) es h.1 (step-IsValid r e h.0 v)

-- From a segment size of 1 to 65535 bytes on, whatever 32-bit counts the events carry, in whatever
-- order, the window is at least one segment and fits 32 bits, and less than a window of credit is
-- left over.
pub run-IsValid :
    (mss : ℕ) (es : List Event)
    → 0 < mss
    → mss < 2 ^ 16
    → EventsValid es
    → IsValid (run (new mss) es)
run-IsValid mss es h k v = run-IsValid_from (new mss) es v (new-IsValid mss h k)

credit_once :
    (fuel : ℕ) (r : Reno)
    → r.ca_acc < r.cwnd + r.cwnd
    → r.cwnd ≤ u32_max
    → (r.cwnd ≤ (credit fuel r).cwnd) × ((credit fuel r).cwnd ≤ r.cwnd + r.mss)
unfolding credit
credit_once zero r h k = omega arith
credit_once (suc zero) r h k = ground arith
credit_once (suc (suc fuel)) r h k = ground arith

-- An ACK never shrinks the window of a valid state, and one that covers at most a window of data
-- grows it by at most one segment.
pub on_ack-growth :
    (r : Reno) (now : Instant) (acked : ℕ)
    → IsValid r
    → acked ≤ r.cwnd
    → (r.cwnd ≤ (on_ack r now acked).cwnd) × ((on_ack r now acked).cwnd ≤ r.cwnd + r.mss)
unfolding on_ack grow
on_ack-growth r now acked v h =
    let total : ℕ = saturating_add r.ca_acc acked in
    let c =
      credit_once total (record r { dup_acks = 0; ca_acc = total }) (omega (arith, v.ca_acc_lt))
        v.cwnd_le in
    ground (arith, v.cwnd_le, c)

-- The state after `n` duplicate ACKs in a row.
unfoldable pub dups : ℕ → Reno → Instant → ℕ → Reno
dups zero r now flight = r
dups (suc n) r now flight = (on_dup_ack (dups n r now flight) now flight).1

dups-count :
    (n : ℕ) (r : Reno) (now : Instant) (flight : ℕ)
    → r.dup_acks ≡ 0
    → (dups n r now flight).dup_acks ≡ min n u8_max
unfolding dups on_dup_ack
dups-count zero r now flight h = omega arith
dups-count (suc n) r now flight h = ground (arith, dups-count n r now flight h)

-- After an event that clears the count, of any number of duplicate ACKs in a row exactly the third
-- reports the loss, and it sets the window and the threshold to half of the flight, at least two
-- segments.
pub third_dup_ack :
    (n : ℕ) (r : Reno) (now : Instant) (flight : ℕ)
    → r.dup_acks ≡ 0
    → r.mss < 2 ^ 16
    → ((on_dup_ack (dups n r now flight) now flight).0 ≡ (n == 2))
      × ((dups 3 r now flight).cwnd ≡ max (flight / 2) (2 * r.mss))
      × ((dups 3 r now flight).ssthresh ≡ max (flight / 2) (2 * r.mss))
third_dup_ack n r now flight h k = (
  (unfold on_dup_ack in ground (arith, dups-count n r now flight h)),
  (unfold dups on_dup_ack in ground (arith, h)),
  (unfold dups on_dup_ack in ground (arith, h)),
)
