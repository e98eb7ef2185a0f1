-- ===== src/Time.antt =====
-- tcp-core/src/time.rs: the injected clock, in microseconds.
use ferrumnet.Prelude.{
  ℕ, ◌-◌, ◌*◌, ◌/◌, ◌≤◌, ◌≡◌, arith, saturating_add_u64, saturating_mul_u64, u64_max, min,
}

pub record Instant : Type 0 where
  pub micros : ℕ

abbrev pub from_micros : ℕ → Instant
from_micros micros = record { micros = micros }

abbrev pub zero_instant : Instant
zero_instant = from_micros 0

pub from_millis : ℕ → Instant
from_millis millis = record { micros = saturating_mul_u64 millis 1_000 }

pub millis : Instant → ℕ
millis t = t.micros / 1_000

unfoldable pub saturating_micros_since : Instant → Instant → ℕ
saturating_micros_since t earlier = t.micros - earlier.micros

unfoldable pub plus_millis : Instant → ℕ → Instant
plus_millis t millis = record {
  micros = saturating_add_u64 t.micros (saturating_mul_u64 millis 1_000);
}

unfoldable pub plus_micros : Instant → ℕ → Instant
plus_micros t micros = record { micros = saturating_add_u64 t.micros micros }

-- A deadline `d` milliseconds ahead is never before now, and the time to it is `d * 1000` or what is
-- left of the 64-bit clock. A number of milliseconds whose microseconds fit 64 bits reads back.
pub since-plus_millis :
    (t : Instant) (d : ℕ)
    → t.micros ≤ u64_max
    → d * 1_000 ≤ u64_max
    → (t.micros ≤ (plus_millis t d).micros)
      × (saturating_micros_since (plus_millis t d) t ≡ min (d * 1_000) (u64_max - t.micros))
      × (millis (from_millis d) ≡ d)
unfolding plus_millis saturating_micros_since millis from_millis
since-plus_millis t d h k = omega arith
