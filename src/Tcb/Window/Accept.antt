-- ===== src/Tcb/Window/Accept.antt =====
-- What tcp-core/src/tcb.rs accepts, against intervals of sequence numbers.
use ferrumnet.Prelude.{
  ℕ, ◌+◌, ◌-◌, ◌^◌, ◌≤◌, ◌<◌, ◌≡◌, ap, subst, sym, ◌∙◌, ◌⊎◌, arith, Bool, ◌&&◌, ◌||◌, ltb, leb,
  ◌==◌, min, if◌then◌else◌, List, [], ◌∷◌, length,
}
use ferrumnet.Seq.{SeqNumber, offset_from, add}
use ferrumnet.Seq.Order.{offset_from-add, add-lt}
use ferrumnet.Runs.Order.{compares}
use ferrumnet.Time.{Instant, saturating_micros_since}
use ferrumnet.Tcb.{Tcb}
use ferrumnet.Tcb.Window.{segment_acceptable, seq_in_window, challenge_ack, renew_challenges}

abbrev pub inside : ℕ → ℕ → ℕ → Bool
inside s n w = leb n s && ltb s (n + w)

-- Next to a base, a number equals another exactly if its offset does.
same_offset :
    (base a b : SeqNumber)
    → a < 2 ^ 32
    → b < 2 ^ 32
    → base < 2 ^ 32
    → (a == b) ≡ (offset_from a base == offset_from b base)
unfolding offset_from
same_offset base a b p q r = ground arith

-- Let the next number be `n`, the window `w` and the segment from `s` on, as offsets above a base,
-- and all ends below 2 ^ 31. An empty segment is acceptable exactly if it stands in the window or
-- at the next number. One with bytes, and no longer than the window unless that is empty, is
-- acceptable exactly if some byte of it lies in the window.
pub segment_acceptable_lem :
    {C : Type 0}
    → (t : Tcb C) (base seq : SeqNumber) (seg_len w : ℕ) → base < 2 ^ 32
    → seq < 2 ^ 32
    → t.rcv_nxt < 2 ^ 32
    → t.rcv_adv ≡ add t.rcv_nxt w
    → offset_from t.rcv_nxt base + w < 2 ^ 31
    → offset_from seq base + seg_len < 2 ^ 31
    → 0 < seg_len
    → ((seg_len ≤ w) ⊎ (w ≡ 0))
    → (segment_acceptable t seq 0 ≡ (
        (offset_from seq base == offset_from t.rcv_nxt base)
        || inside (offset_from seq base) (offset_from t.rcv_nxt base) w))
      × (seq_in_window t seq ≡ segment_acceptable t seq 0)
      × (segment_acceptable t seq seg_len ≡ (
          ltb 0 w
          && (ltb (offset_from seq base) (offset_from t.rcv_nxt base + w)
              && ltb (offset_from t.rcv_nxt base) (offset_from seq base + seg_len))))
unfolding add
segment_acceptable_lem t base seq seg_len w hb hs hn ha k m pos len =
    let last : SeqNumber = add seq (seg_len - 1) in
    let adv =
      ap (λ a. offset_from a base) ha ∙ (offset_from-add base t.rcv_nxt w hn hb (omega arith)).0 in
    let adv_lt : t.rcv_adv < 2 ^ 32 = omega (arith, ha, add-lt t.rcv_nxt w) in
    let end = (offset_from-add base seq (seg_len - 1) hs hb (omega arith)).0 in
    let e1 = compares base seq t.rcv_nxt (omega arith) (omega arith) in
    let e2 = compares base seq t.rcv_adv (omega arith) (omega (arith, adv)) in
    let e3 = compares base last t.rcv_nxt (omega (arith, end)) (omega arith) in
    let e4 = compares base last t.rcv_adv (omega (arith, end)) (omega (arith, adv)) in
    let e5 = same_offset base t.rcv_adv t.rcv_nxt adv_lt hn hb in
    let e6 = same_offset base seq t.rcv_nxt hs hn hb in
    (
      (unfold segment_acceptable in ground (arith, adv, e1, e2, e5, e6)),
      (unfold segment_acceptable seq_in_window in ground (arith, adv, e1, e2, e5, e6)),
      (unfold segment_acceptable in ground (arith, adv, end, e1, e2, e3, e4, e5, len)),
    )

-- The challenges of a connection at the given times.
unfoldable pub challenges : {C : Type 0} → Tcb C → List Instant → Tcb C
challenges t [] = t
challenges t (now ∷ rest) = challenges (challenge_ack t now) rest

-- All the times are less than a second after the start of the window of the limit.
abbrev pub InSecond : Instant → List Instant → Type 0
InSecond start [] = Unit
InSecond start (now ∷ rest) = (saturating_micros_since now start < 1_000_000) × InSecond start rest

challenge_one :
    {C : Type 0}
    → (t : Tcb C) (now : Instant) → saturating_micros_since now t.challenge_window_start < 1_000_000
    → ((challenge_ack t now).challenge_count
        ≡ (if ltb t.challenge_count 100 then t.challenge_count + 1 else t.challenge_count))
      × ((challenge_ack t now).challenge_window_start ≡ t.challenge_window_start)
      × ((challenge_ack t now).needs_ack ≡ (t.needs_ack || ltb t.challenge_count 100))
unfolding challenge_ack renew_challenges
challenge_one t now h = ground arith

-- Of the segments that want a challenge ACK less than a second after the window of the limit began,
-- only as many are answered as bring the count to 100: the count is cut there, and an ACK is owed
-- after them exactly if one was before or the first of them still found the count below 100.
pub challenges_lem :
    {C : Type 0}
    → (t : Tcb C) (times : List Instant) → InSecond t.challenge_window_start times
    → t.challenge_count ≤ 100
    → ((challenges t times).challenge_count ≡ min 100 (t.challenge_count + length times))
      × ((challenges t times).needs_ack
          ≡ (t.needs_ack || (ltb 0 (length times) && ltb t.challenge_count 100)))
unfolding challenges
challenges_lem t [] h k = ground arith
challenges_lem t (now ∷ rest) h k =
    let one = challenge_one t now h.0 in
    let more =
      challenges_lem (challenge_ack t now) rest
        (subst (λ start. InSecond start rest) (sym one.1) h.1) (ground (arith, one)) in
    ground (arith, one, more)
