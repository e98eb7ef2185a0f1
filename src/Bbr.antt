-- ===== src/Bbr.antt =====
-- tcp-core/src/bbr.rs: the estimator of the delivery rate, and the windowed maximum that filters it.
-- The model on top of them computes with floating point.
pub mod Filter
pub mod Sampler
pub mod Model
mod Tests
use ferrumnet.Prelude.{
  ℕ, ◌+◌, ◌-◌, ◌*◌, ◌/◌, ◌%◌, ◌^◌, Bool, true, false, not, ◌&&◌, ◌||◌, List, [], ◌∷◌, ◌++◌, length,
  Option, some, none, max, min, u32_max, u64, ltb, leb, ◌==◌, if◌then◌else◌, saturating_mul_u64,
}
use ferrumnet.Seq.{SeqNumber, le}
use ferrumnet.Time.{Instant, zero_instant, saturating_micros_since}

pub record RateSample : Type 0 where
  pub delivery_rate : ℕ
  pub rtt_us : ℕ
  pub interval_us : ℕ
  pub sample_is_limited : Bool
  pub prior_delivered : ℕ

-- `struct Sent`
pub record SendRecord : Type 0 where
  pub seq_end : SeqNumber
  pub size : ℕ
  pub sent_time : Instant
  pub delivered_before : ℕ
  pub delivered_at : Instant
  pub first_sent_at : Instant
  pub is_app_limited : Bool

pub record RateSampler : Type 0 where
  pub delivered : ℕ
  pub delivered_time : Instant
  pub first_sent_time : Instant
  pub app_limited_until : ℕ
  pub sent_records : List SendRecord

abbrev pub new_sampler : RateSampler
new_sampler = record {
  delivered = 0;
  delivered_time = zero_instant;
  first_sent_time = zero_instant;
  app_limited_until = 0;
  sent_records = [];
}

-- A restart from idle begins the interval anew.
unfoldable pub restart_interval : RateSampler → Instant → ℕ → RateSampler
restart_interval s now inflight =
    if inflight == 0 || length s.sent_records == 0
    then record s { first_sent_time = now; delivered_time = now }
    else s

unfoldable pub record_sent : RateSampler → Instant → SeqNumber → ℕ → ℕ → Bool → RateSampler
unfolding restart_interval
record_sent s now seq_end bytes inflight app_limited =
    let r : RateSampler = restart_interval s now inflight in
    let until =
      if app_limited
      then max (u64 (u64 (r.delivered + inflight) + bytes)) 1
      else r.app_limited_until in
    record r {
      app_limited_until = until;
      sent_records =
          r.sent_records
          ++ (record {
            seq_end = seq_end;
            size = bytes;
            sent_time = now;
            delivered_before = r.delivered;
            delivered_at = r.delivered_time;
            first_sent_at = r.first_sent_time;
            is_app_limited = not (until == 0);
          }
              ∷ []);
    }

-- What the loop of `on_ack` leaves: the records that stay, the bytes delivered, the newest record.
pub record Popped : Type 0 where
  pub left : List SendRecord
  pub total : ℕ
  pub newest : Option SendRecord

unfoldable pub pop_acked : SeqNumber → List SendRecord → ℕ → Option SendRecord → Popped
pop_acked snd_una [] total newest = record { left = []; total = total; newest = newest }
pop_acked snd_una (front ∷ rest) total newest =
    let next = pop_acked snd_una rest (u64 (total + front.size)) (some front) in
    if le front.seq_end snd_una
    then next
    else record { left = front ∷ rest; total = total; newest = newest }

-- The sample of the newest record.
unfoldable pub sample_of : RateSampler → Instant → SendRecord → RateSample × RateSampler
sample_of s now p =
    let until =
      if not (s.app_limited_until == 0) && ltb s.app_limited_until s.delivered
      then 0
      else s.app_limited_until in
    let interval =
      max (saturating_micros_since p.sent_time p.first_sent_at)
        (saturating_micros_since now p.delivered_at) in
    (
      record {
        delivery_rate =
            if ltb 0 interval
            then saturating_mul_u64 (s.delivered - p.delivered_before) 1_000_000 / interval
            else 0;
        rtt_us = min (saturating_micros_since now p.sent_time) u32_max;
        interval_us = interval;
        sample_is_limited = p.is_app_limited;
        prior_delivered = p.delivered_before;
      },
      record s { delivered_time = now; app_limited_until = until; first_sent_time = p.sent_time },
    )

unfoldable pub finish_sample :
    RateSampler → Instant → Option SendRecord → Option RateSample × RateSampler
unfolding sample_of
finish_sample s now none = (none, s)
finish_sample s now (some p) = (some (sample_of s now p).0, (sample_of s now p).1)

-- `RateSampler::on_ack`
unfoldable pub sample_ack : RateSampler → Instant → SeqNumber → Option RateSample × RateSampler
unfolding pop_acked finish_sample
sample_ack s now snd_una =
    let popped = pop_acked snd_una s.sent_records s.delivered none in
    finish_sample (record s { sent_records = popped.left; delivered = popped.total }) now
      popped.newest

unfoldable pub reset_in_flight : RateSampler → RateSampler
reset_in_flight s = record s { sent_records = [] }

pub record MaxSample : Type 0 where
  pub t : ℕ
  pub v : ℕ

-- `s: [MaxSample; 3]` is three fields.
pub record WindowedMax : Type 0 where
  pub period : ℕ
  pub s0 : MaxSample
  pub s1 : MaxSample
  pub s2 : MaxSample

abbrev pub new_filter : ℕ → WindowedMax
new_filter period = record {
  period = period;
  s0 = record { t = 0; v = 0 };
  s1 = record { t = 0; v = 0 };
  s2 = record { t = 0; v = 0 };
}

-- `u64::wrapping_sub`
abbrev pub elapsed : ℕ → ℕ → ℕ
elapsed t since = (t + 2 ^ 64 - since) % 2 ^ 64

unfoldable pub restart : WindowedMax → MaxSample → WindowedMax
restart w x = record w { s0 = x; s1 = x; s2 = x }

-- A sample below the maximum may be the second or the third.
unfoldable pub rank : WindowedMax → MaxSample → WindowedMax
rank w x =
    if leb w.s1.v x.v
    then record w { s1 = x; s2 = x }
    else if leb w.s2.v x.v
    then record w { s2 = x }
    else w

-- The samples that fell out of the window make way.
unfoldable pub expire : WindowedMax → MaxSample → WindowedMax
expire w x =
    let once : WindowedMax = record w { s0 = w.s1; s1 = w.s2; s2 = x } in
    let twice : WindowedMax = record once { s0 = once.s1; s1 = once.s2 } in
    if ltb w.period (elapsed x.t w.s0.t)
    then (if ltb w.period (elapsed x.t once.s0.t) then twice else once)
    else w

-- `WindowedMax::update`, whose result is the value of the first sample.
unfoldable pub filter_update : WindowedMax → ℕ → ℕ → ℕ × WindowedMax
unfolding restart rank expire
filter_update w t v =
    let x : MaxSample = record { t = t; v = v } in
    let u : WindowedMax =
      if leb w.s0.v v || ltb w.period (elapsed t w.s2.t)
      then restart w x
      else expire (rank w x) x in
    (u.s0.v, u)
