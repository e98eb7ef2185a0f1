-- ===== src/Tcb/Build/Size.antt =====
-- The bytes that `build` of tcp-core/src/tcb.rs spends on options, and what `max_segment_payload` leaves.
use ferrumnet.Prelude.{
  ℕ, ◌+◌, ◌-◌, ◌*◌, ◌≤◌, ◌<◌, ◌≡◌, refl, arith, Bool, true, false, not, ◌&&◌, List, [], ◌∷◌, length,
  length-take, take, some, none, min, ltb, is_some, if◌then◌else◌,
}
use ferrumnet.Seq.{SeqNumber}
use ferrumnet.Reasm.{Reasm, Segment, report, edges, sorted, is_empty}
use ferrumnet.Wire.Tcp.{TcpFlags, flag_syn, flag_ack, has, with_bit, max_sack_blocks}
use ferrumnet.Wire.Tcp.Emit.{SackBlocks, no_blocks, push, header_len}
use ferrumnet.Tcb.{Tcb, ecn_enabled}
use ferrumnet.Tcb.Build.{push_all, build, max_segment_payload}
use ferrumnet.Tcb.Transmit.{psh_if}

length-edges : (rs : List Segment) → length (edges rs) ≡ length rs
length-edges [] = refl
length-edges (r ∷ rs) = omega (arith, length-edges rs)

length-report : (r : Reasm) (room : ℕ) → length (report r room) ≤ room
unfolding report
length-report r room =
    omega (arith, length-edges (take room (sorted r.runs)), length-take room (sorted r.runs))

len-push_all :
    (s : SackBlocks) (bs : List (SeqNumber × SeqNumber))
    → s.len + length bs ≤ 4
    → (push_all s bs).len ≡ s.len + length bs
unfolding push
len-push_all s [] h = omega arith
len-push_all s ((l, r) ∷ bs) h =
    let more : (push s l r).len ≡ s.len + 1 = ground arith in
    omega (arith, more, len-push_all (push s l r) bs (omega (arith, more)))

-- The two flags of the ACE field leave SYN alone.
clear :
    (psh counts low high : Bool)
    → let bits = with_bit (psh_if psh) flag_ack in
      let first = if low then with_bit bits 0x40 else bits in
      has (if counts then (if high then with_bit first 0x80 else first) else bits) flag_syn ≡ false
clear true true true true = refl
clear true true true false = refl
clear true true false true = refl
clear true true false false = refl
clear true false low high = refl
clear false true true true = refl
clear false true true false = refl
clear false true false true = refl
clear false true false false = refl
clear false false low high = refl

-- The options of a segment that is no SYN, by what the connection agreed on
options_len : Bool → Bool → Bool → ℕ → ℕ
options_len ts sack empty n =
    let fits = if ts then min n 3 else n in
    (if ts then 12 else 0) + (if sack && (not empty && ltb 0 fits) then 4 + 8 * fits else 0)

spent :
    (ts sack empty : Bool) (stamps : ℕ × ℕ) (bs : List (SeqNumber × SeqNumber))
    → length bs ≤ 4
    → let blocks = if sack && (true && not empty) then push_all no_blocks bs else no_blocks in
      let n = min blocks.len (if is_some (if ts then some stamps else none) then 3 else 4) in
      (if is_some (if ts then some stamps else none) then 12 else 0)
        + (if ltb 0 n then 4 + 8 * n else 0)
      ≡ options_len ts sack empty (length bs)
unfolding options_len
spent true true true stamps bs h = refl
spent true false empty stamps bs h = refl
spent true true false stamps bs h = ground (arith, len-push_all no_blocks bs (omega (arith, h)))
spent false true true stamps bs h = refl
spent false false empty stamps bs h = refl
spent false true false stamps bs h = ground (arith, len-push_all no_blocks bs (omega (arith, h)))

module _ {C : Type 0} where
  header_len-build :
      (t : Tcb C) (seq : SeqNumber) (psh : Bool) (body : List ℕ)
      → header_len (build t seq (psh_if psh) body).0.repr
        ≡ 20
          + options_len t.ts_enabled t.sack_enabled
              (is_empty t.reasm)
              (length (report t.reasm max_sack_blocks))
  unfolding build
  header_len-build t seq psh body =
      let bits : TcpFlags = with_bit (psh_if psh) flag_ack in
      let no_syn =
        clear psh (ecn_enabled t && not (has bits flag_syn)) (has t.accecn_cep 1)
          (has t.accecn_cep 2) in
      let blocks : List (SeqNumber × SeqNumber) = report t.reasm max_sack_blocks in
      rw no_syn (
        omega (
          arith,
          spent t.ts_enabled t.sack_enabled (is_empty t.reasm) (t.cur_tsval, t.ts_recent) blocks
              (length-report t.reasm max_sack_blocks),
        ))

  -- Payload and options together keep to the segment size of the peer.
  pub build-snd_mss :
      (t : Tcb C) (seq : SeqNumber) (psh : Bool) (body : List ℕ) (n : ℕ)
      → 0 < n
      → n ≤ max_segment_payload t
      → n + (header_len (build t seq (psh_if psh) body).0.repr - 20) ≤ t.snd_mss
  unfolding max_segment_payload options_len
  build-snd_mss t seq psh body n p h = omega (arith, header_len-build t seq psh body)
