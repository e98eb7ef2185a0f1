-- ===== src/Congestion/Dctcp/Unmarked.antt =====
-- Dctcp of tcp-core/src/congestion.rs on a path that marks nothing, beside Reno.
use ferrumnet.Prelude.{
  ℕ, zero, suc, ◌-◌, ◌≡◌, arith, refl, sym, ap, ◌∙◌, List, [], ◌∷◌, saturating_add,
}
use ferrumnet.Time.{Instant}
use ferrumnet.Congestion.Float.{Float}
use ferrumnet.Congestion.Reno
use ferrumnet.Congestion.Reno.{Reno}
use ferrumnet.Congestion.Reno.Window as RenoWindow
use ferrumnet.Congestion.Reno.Window.{Event, ack, dup_ack, recovery, rto, resize}
use ferrumnet.Congestion.Scalable
use ferrumnet.Congestion.Scalable.{Window, credit, close_window}
use ferrumnet.Congestion.Dctcp.{
  add_segment, on_ack, on_dup_ack, enter_recovery, on_rto, on_ecn, new,
}

-- The events of Reno, and an ECN report without a mark.
pub data Signal : Type 0 where
  event : Event → Signal
  unmarked : ℕ → Signal

-- `on_ecn` of Reno does nothing.
unfoldable pub reno_run : Reno → List Signal → Reno
unfolding RenoWindow.step
reno_run r [] = r
reno_run r (event e ∷ es) = reno_run (RenoWindow.step r e) es
reno_run r (unmarked acked ∷ es) = reno_run r es

reno_run-step :
    (r : Reno) (s : Signal) (ss : List Signal)
    → reno_run r (s ∷ ss) ≡ reno_run (reno_run r (s ∷ [])) ss
unfolding reno_run
reno_run-step r (event e) ss = refl
reno_run-step r (unmarked acked) ss = refl

module _ {F : Type 0} where
  -- The fields of Reno
  abbrev pub reno_of : Window F → Reno
  reno_of w = record {
    cwnd = w.cwnd;
    ssthresh = w.ssthresh;
    mss = w.mss;
    ca_acc = w.ca_acc;
    dup_acks = w.dup_acks;
  }

  credit-reno :
      (fuel a : ℕ) (u w : Window F)
      → u.mss ≡ w.mss
      → (reno_of (credit (add_segment u a) fuel w) ≡ Reno.credit fuel (reno_of w))
        × ((credit (add_segment u a) fuel w).marked_in_window ≡ w.marked_in_window)
  unfolding credit Reno.credit
  credit-reno zero a u w h = (refl, refl)
  credit-reno (suc fuel) a u w h = ground (
    arith,
    credit-reno fuel a u
        (record w { ca_acc = w.ca_acc - w.cwnd; cwnd = saturating_add w.cwnd u.mss }),
  )

  on_ack-reno :
      (w : Window F) (now : Instant) (acked : ℕ)
      → (reno_of (on_ack w acked) ≡ Reno.on_ack (reno_of w) now acked)
        × ((on_ack w acked).marked_in_window ≡ w.marked_in_window)
  unfolding on_ack Scalable.on_ack Scalable.grow Reno.on_ack Reno.grow
  on_ack-reno w now acked =
      let total : ℕ = saturating_add w.ca_acc acked in
      let counted : Window F = record w { dup_acks = 0; ca_acc = total } in
      let c = credit-reno total acked counted counted refl in ground (arith, c)

  on_dup_ack-reno :
      (w : Window F) (now : Instant) (flight : ℕ)
      → ((on_dup_ack w flight).0 ≡ (Reno.on_dup_ack (reno_of w) now flight).0)
        × (reno_of (on_dup_ack w flight).1 ≡ (Reno.on_dup_ack (reno_of w) now flight).1)
        × ((on_dup_ack w flight).1.marked_in_window ≡ w.marked_in_window)
  unfolding on_dup_ack Scalable.on_dup_ack Reno.on_dup_ack
  on_dup_ack-reno w now flight = ground arith

module _ {F : Type 0} ⦃fl : Float F⦄ where
  unfoldable pub dctcp_step : Window F → Signal → Window F
  unfolding on_ack on_dup_ack enter_recovery on_rto on_ecn Scalable.set_mss
  dctcp_step w (event (ack now acked)) = on_ack w acked
  dctcp_step w (event (dup_ack now flight)) = (on_dup_ack w flight).1
  dctcp_step w (event (recovery now flight)) = enter_recovery w flight
  dctcp_step w (event (rto now flight)) = on_rto w flight
  dctcp_step w (event (resize mss)) = Scalable.set_mss w mss
  dctcp_step w (unmarked acked) = on_ecn w acked 0

  unfoldable pub dctcp_run : Window F → List Signal → Window F
  unfolding dctcp_step
  dctcp_run w [] = w
  dctcp_run w (s ∷ ss) = dctcp_run (dctcp_step w s) ss

  unmarked-reno :
      (w : Window F) (acked : ℕ)
      → w.marked_in_window ≡ 0
      → (reno_of (on_ecn w acked 0) ≡ reno_of w) × ((on_ecn w acked 0).marked_in_window ≡ 0)
  unfolding on_ecn Scalable.on_ecn close_window
  unmarked-reno w acked h = ground (arith, h)

  step-reno :
      (w : Window F) (s : Signal)
      → w.marked_in_window ≡ 0
      → (reno_of (dctcp_step w s) ≡ reno_run (reno_of w) (s ∷ []))
        × ((dctcp_step w s).marked_in_window ≡ 0)
  unfolding dctcp_step reno_run enter_recovery on_rto Scalable.set_mss RenoWindow.step
      Reno.enter_recovery Reno.on_rto Reno.set_mss
  step-reno w (event (ack now acked)) h = let r = on_ack-reno w now acked in (r.0, r.1 ∙ h)
  step-reno w (event (dup_ack now flight)) h =
      let r = on_dup_ack-reno w now flight in (r.1, r.2 ∙ h)
  step-reno w (event (recovery now flight)) h = (refl, h)
  step-reno w (event (rto now flight)) h = (refl, h)
  step-reno w (event (resize mss)) h = (refl, h)
  step-reno w (unmarked acked) h = unmarked-reno w acked h

  run-reno :
      (w : Window F) (ss : List Signal)
      → w.marked_in_window ≡ 0
      → reno_of (dctcp_run w ss) ≡ reno_run (reno_of w) ss
  unfolding dctcp_run reno_run
  run-reno w [] h = refl
  run-reno w (s ∷ ss) h =
      let r = step-reno w s h in
      run-reno (dctcp_step w s) ss r.1 ∙ ap (λ x. reno_run x ss) r.0 ∙ sym (reno_run-step _ s ss)

-- From the start on, whatever the events and their order, as long as no byte is marked, the windows,
-- thresholds, segment sizes, credits and counts of duplicates of Dctcp and of Reno are the same, and
-- so are their answers to a duplicate ACK that comes next.
pub dctcp_run-eq-reno_run :
    (F : Type 0) ⦃fl : Float F⦄ (mss : ℕ) (ss : List Signal) (now : Instant) (flight : ℕ)
    → (reno_of (dctcp_run (new {F = F} mss) ss) ≡ reno_run (Reno.new mss) ss)
      × ((on_dup_ack (dctcp_run (new {F = F} mss) ss) flight).0
          ≡ (Reno.on_dup_ack (reno_run (Reno.new mss) ss) now flight).0)
unfolding new Scalable.new Reno.new
dctcp_run-eq-reno_run F mss ss now flight =
    let same = run-reno (new {F = F} mss) ss refl in
    (same, (on_dup_ack-reno _ now flight).0 ∙ ap (λ r. (Reno.on_dup_ack r now flight).0) same)
