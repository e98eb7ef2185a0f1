-- ===== src/Iface/Ports.antt =====
-- The ephemeral ports of tcp-core/src/iface.rs.
use ferrumnet.Prelude.{ℕ, zero, suc, ◌+◌, ◌≤◌, ◌≡◌, ◌≢◌, arith}
use ferrumnet.Iface.{
  Stack, ephemeral_min, ephemeral_max, port_from, next_cursor, next_ephemeral_port,
}

-- The port numbers that a cursor may hold.
abbrev pub IsEphemeral : ℕ → Type 0
IsEphemeral p = (ephemeral_min ≤ p) × (p ≤ ephemeral_max)

next_cursor-IsEphemeral : (c : ℕ) → IsEphemeral c → IsEphemeral (next_cursor c)
next_cursor-IsEphemeral c h = ground arith

port_from_fuel :
    (k listen c : ℕ) → IsEphemeral c → port_from (2 + k) listen c ≡ port_from 2 listen c
unfolding port_from
port_from_fuel zero listen c h = ground arith
port_from_fuel (suc k) listen c h = ground arith

-- From a cursor in the ephemeral range, the port that is picked is in the range and not the
-- listening one, the cursor left behind is in the range again and not at the picked port, and more
-- rounds than two would find the same.
pub next_ephemeral_port_fresh :
    {C : Type 0}
    → (s : Stack C) (k : ℕ) → IsEphemeral s.ephemeral_next
    → IsEphemeral (next_ephemeral_port s).0
      × ((next_ephemeral_port s).0 ≢ s.local.port)
      × IsEphemeral (next_ephemeral_port s).1.ephemeral_next
      × ((next_ephemeral_port s).1.ephemeral_next ≢ (next_ephemeral_port s).0)
      × (port_from (2 + k) s.local.port s.ephemeral_next
          ≡ ((next_ephemeral_port s).0, (next_ephemeral_port s).1.ephemeral_next))
unfolding next_ephemeral_port port_from
next_ephemeral_port_fresh s k h = (
  ground arith,
  ground arith,
  ground arith,
  ground arith,
  port_from_fuel k s.local.port s.ephemeral_next h,
)
