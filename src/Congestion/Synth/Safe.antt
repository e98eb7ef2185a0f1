-- ===== src/Congestion/Synth/Safe.antt =====
-- The window of the synthesised controller of tcp-core/src/congestion.rs, whatever its program.
use ferrumnet.Prelude.{ℕ, ◌<◌, ◌^◌, ◌≡◌, arith, refl, List, [], ◌∷◌, length}
use ferrumnet.Congestion.Float.{Float, Lawful}
use ferrumnet.Congestion.Scalable
use ferrumnet.Congestion.Scalable.{Window}
use ferrumnet.Congestion.Scalable.Envelope.{
  Fits, IncreaseFits, TargetFits, CutFits, on_ack-Fits, on_dup_ack-Fits, enter_recovery-Fits,
  on_rto-Fits, set_mss-Fits, new-Fits, on_ecn-Fits,
}
use ferrumnet.Congestion.Machine.{ControlProgram}
use ferrumnet.Congestion.Machine.Total.{synth_eval-IsNumber, synth_to_cwnd_bounds}
use ferrumnet.Congestion.Synth.{
  Synth, with_program, signals, loss_target, synth_increase, synth_cut, on_ack, on_dup_ack,
  enter_recovery, on_rto, on_ecn, set_mss, on_rtt_sample,
}

pub data Event : Type 0 where
  ack : ℕ → Event
  dup_ack : ℕ → Event
  recovery : ℕ → Event
  rto : ℕ → Event
  marks : ℕ → ℕ → Event
  rtt : ℕ → Event
  resize : ℕ → Event

-- A segment size is a number of 1 to 65535 bytes.
abbrev pub EventsValid : List Event → Type 0
EventsValid [] = Unit
EventsValid (resize mss ∷ es) = (0 < mss) × (mss < 2 ^ 16) × EventsValid es
EventsValid (ack a ∷ es) = EventsValid es
EventsValid (dup_ack f ∷ es) = EventsValid es
EventsValid (recovery f ∷ es) = EventsValid es
EventsValid (rto f ∷ es) = EventsValid es
EventsValid (marks a m ∷ es) = EventsValid es
EventsValid (rtt s ∷ es) = EventsValid es

module _ {F : Type 0} ⦃fl : Float F⦄ where
  unfoldable pub run : Synth F → List Event → Synth F
  unfolding on_ack on_dup_ack enter_recovery on_rto on_ecn set_mss on_rtt_sample
  run s [] = s
  run s (ack a ∷ es) = run (on_ack s a) es
  run s (dup_ack f ∷ es) = run (on_dup_ack s f).1 es
  run s (recovery f ∷ es) = run (enter_recovery s f) es
  run s (rto f ∷ es) = run (on_rto s f) es
  run s (marks a m ∷ es) = run (on_ecn s a m) es
  run s (rtt t ∷ es) = run (on_rtt_sample s t) es
  run s (resize mss ∷ es) = run (set_mss s mss) es

module _ {F : Type 0} ⦃fl : Float F⦄ (laws : Lawful fl) where
  length-signals : (s : Synth F) (w : Window F) (a b : ℕ) → length (signals s w a b) ≡ 8
  unfolding signals
  length-signals s w a b = refl

  increase-Fits : (s : Synth F) → IncreaseFits (synth_increase s)
  unfolding synth_increase
  increase-Fits s u acked c h k p q = synth_to_cwnd_bounds laws _ u.mss (omega arith) (
      laws.plus_nan c _ (
        laws.scaled_nan _ u.mss h (
          synth_eval-IsNumber laws s.prog.inc (signals s u u.cwnd acked)
            (length-signals s u u.cwnd acked))))

  target-Fits : (s : Synth F) (flight : ℕ) → TargetFits (loss_target s flight)
  unfolding loss_target
  target-Fits s flight u h k =
      let b = synth_to_cwnd_bounds laws _ (Scalable.two_segments u) (omega arith) (
        laws.scaled_nan _ u.mss h (
          synth_eval-IsNumber laws s.prog.md (signals s u flight 0)
            (length-signals s u flight 0))) in
      (omega (arith, b.0), b.1)

  cut-Fits : (s : Synth F) → CutFits (synth_cut s)
  unfolding synth_cut
  cut-Fits s u h k p = synth_to_cwnd_bounds laws _ u.mss (omega arith) (
      laws.scale_nan u.cwnd _ (omega arith) (
        laws.minus_nan 1 0 _ (
          synth_eval-IsNumber laws s.prog.ecn (signals s u u.cwnd 0)
            (length-signals s u u.cwnd 0))))

  on_rtt_sample-w : (s : Synth F) (t : ℕ) → (on_rtt_sample s t).w ≡ s.w
  unfolding on_rtt_sample
  on_rtt_sample-w s t = ground arith

  run-Fits_from : (s : Synth F) (es : List Event) → EventsValid es → Fits s.w → Fits (run s es).w
  unfolding run on_ack on_dup_ack enter_recovery on_rto on_ecn set_mss
  run-Fits_from s [] h v = v
  run-Fits_from s (ack a ∷ es) h v =
      run-Fits_from (on_ack s a) es h (on_ack-Fits (synth_increase s) s.w a (increase-Fits s) v).0
  run-Fits_from s (dup_ack f ∷ es) h v =
      run-Fits_from (on_dup_ack s f).1 es h
        (on_dup_ack-Fits (loss_target s f) s.w (target-Fits s f) v).0
  run-Fits_from s (recovery f ∷ es) h v =
      run-Fits_from (enter_recovery s f) es h
        (enter_recovery-Fits (loss_target s f) s.w (target-Fits s f) v)
  run-Fits_from s (rto f ∷ es) h v =
      run-Fits_from (on_rto s f) es h (on_rto-Fits (loss_target s f) s.w v)
  run-Fits_from s (marks a m ∷ es) h v =
      run-Fits_from (on_ecn s a m) es h (on_ecn-Fits (synth_cut s) s.w a m (cut-Fits s) v).0
  run-Fits_from s (rtt t ∷ es) h v =
      run-Fits_from (on_rtt_sample s t) es h (rw (on_rtt_sample-w s t) v)
  run-Fits_from s (resize mss ∷ es) h v =
      run-Fits_from (set_mss s mss) es h.2 (set_mss-Fits s.w mss h.0 h.1 v)

  -- With floats that keep the laws, whatever the program, and whatever counts the events carry, in
  -- whatever order, as long as the segment sizes are of 1 to 65535 bytes, the segment size stays one
  -- and the window stays between one segment and the largest 32-bit number.
  pub run-Fits :
      (prog : ControlProgram) (mss : ℕ) (es : List Event)
      → 0 < mss
      → mss < 2 ^ 16
      → EventsValid es
      → Fits {F = F} (run (with_program mss prog) es).w
  unfolding with_program
  run-Fits prog mss es h k v = run-Fits_from (with_program mss prog) es v (new-Fits mss h k)
