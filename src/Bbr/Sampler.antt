-- ===== src/Bbr/Sampler.antt =====
-- The bytes that the estimator of tcp-core/src/bbr.rs counts.
use ferrumnet.Prelude.{
  ℕ, ◌+◌, ◌^◌, ◌≤◌, ◌<◌, ◌≡◌, refl, arith, List, [], ◌∷◌, ◌++◌, Option, some, none, u64, if_both,
  ◌∙◌, Bool,
}
use ferrumnet.Seq.{SeqNumber}
use ferrumnet.Time.{Instant}
use ferrumnet.Bbr.{
  RateSampler, SendRecord, Popped, restart_interval, record_sent, pop_acked, sample_of,
  finish_sample, sample_ack,
}

-- The bytes of the records.
unfoldable pub sizes : List SendRecord → ℕ
sizes [] = 0
sizes (r ∷ rs) = r.size + sizes rs

-- All bytes that were ever recorded.
unfoldable pub recorded : RateSampler → ℕ
unfolding sizes
recorded s = s.delivered + sizes s.sent_records

sizes-append : (xs ys : List SendRecord) → sizes (xs ++ ys) ≡ sizes xs + sizes ys
unfolding sizes
sizes-append [] ys = omega arith
sizes-append (x ∷ xs) ys = omega (arith, sizes-append xs ys)

pop_acked-sizes :
    (una : SeqNumber) (rs : List SendRecord) (total : ℕ) (newest : Option SendRecord)
    → total + sizes rs < 2 ^ 64
    → (pop_acked una rs total newest).total + sizes (pop_acked una rs total newest).left
      ≡ total + sizes rs
unfolding pop_acked sizes
pop_acked-sizes una [] total newest h = refl
pop_acked-sizes una (r ∷ rs) total newest h =
    ground (arith, h, pop_acked-sizes una rs (u64 (total + r.size)) (some r) (omega (arith, h)))

recorded-restart :
    (s : RateSampler) (now : Instant) (inflight : ℕ)
    → recorded (restart_interval s now inflight) ≡ recorded s
unfolding recorded restart_interval
recorded-restart s now inflight =
    if_both (λ (x : RateSampler). recorded x ≡ recorded s) _ _ _ refl refl

recorded-record_sent :
    (s : RateSampler) (now : Instant) (seq_end : SeqNumber) (bytes inflight : ℕ) (limited : Bool)
    → recorded (record_sent s now seq_end bytes inflight limited) ≡ recorded s + bytes
unfolding record_sent recorded sizes
recorded-record_sent s now seq_end bytes inflight limited =
    let r : RateSampler = restart_interval s now inflight in
    omega (arith, recorded-restart s now inflight, sizes-append r.sent_records (_ ∷ []))

recorded-finish_sample :
    (s : RateSampler) (now : Instant) (o : Option SendRecord)
    → (recorded (finish_sample s now o).1 ≡ recorded s)
      × ((finish_sample s now o).1.delivered ≡ s.delivered)
unfolding finish_sample sample_of recorded
recorded-finish_sample s now none = (refl, refl)
recorded-finish_sample s now (some p) = (refl, refl)

total-pop_acked :
    (una : SeqNumber) (rs : List SendRecord) (total : ℕ) (newest : Option SendRecord)
    → total + sizes rs < 2 ^ 64
    → total ≤ (pop_acked una rs total newest).total
unfolding pop_acked sizes
total-pop_acked una [] total newest h = omega arith
total-pop_acked una (r ∷ rs) total newest h =
    ground (arith, h, total-pop_acked una rs (u64 (total + r.size)) (some r) (omega (arith, h)))

-- What is recorded of a segment that is sent is counted once: sending adds its bytes to those
-- recorded, and an ACK moves bytes from the records to those delivered and never loses any, as long
-- as all of them stay below 2 ^ 64.
pub recorded-sample_ack :
    (s : RateSampler) (now : Instant) (una seq_end : SeqNumber) (bytes inflight : ℕ)
    (limited : Bool)
    → recorded s < 2 ^ 64
    → (recorded (record_sent s now seq_end bytes inflight limited) ≡ recorded s + bytes)
      × (recorded (sample_ack s now una).1 ≡ recorded s)
      × (s.delivered ≤ (sample_ack s now una).1.delivered)
unfolding recorded sample_ack
recorded-sample_ack s now una seq_end bytes inflight limited h =
    let popped : Popped = pop_acked una s.sent_records s.delivered none in
    let after : RateSampler = record s { sent_records = popped.left; delivered = popped.total } in
    let kept = recorded-finish_sample after now popped.newest in
    (
      recorded-record_sent s now seq_end bytes inflight limited,
      kept.0 ∙ pop_acked-sizes una s.sent_records s.delivered none h,
      omega (arith, kept.1, total-pop_acked una s.sent_records s.delivered none h),
    )
