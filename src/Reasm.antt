-- ===== src/Reasm.antt =====
-- tcp-core/src/reasm.rs: the out-of-order bytes that a connection holds above `rcv_nxt`.
pub mod Bytes
mod Tests
use ferrumnet.Prelude.{
  ℕ, zero, suc, ◌+◌, ◌-◌, Bool, true, false, ◌&&◌, List, [], ◌∷◌, ◌++◌, length, take, drop, u32,
  u64, ltb, ◌==◌, if◌then◌else◌,
}
use ferrumnet.Seq.{SeqNumber, lt, le, ge, gt, add, offset_from, larger, smaller}

-- The field `data` is `bytes` here, and the field `bytes` of the buffer is `held`.
pub record Segment : Type 0 where
  pub start : SeqNumber
  pub bytes : List ℕ
  pub stamp : ℕ

pub record Reasm : Type 0 where
  pub runs : List Segment
  pub held : ℕ
  pub next_stamp : ℕ

abbrev pub new : Reasm
new = record { runs = []; held = 0; next_stamp = 0 }

abbrev pub buffered : Reasm → ℕ
buffered r = r.held

abbrev pub run_end : Segment → SeqNumber
run_end s = add s.start (u32 (length s.bytes))

-- The loop of `insert` over the runs: those that overlap or touch `[lo, new_end)`.
pub record Touched : Type 0 where
  pub first_idx : ℕ
  pub count : ℕ
  pub merged_start : SeqNumber
  pub merged_end : SeqNumber

abbrev pub touch : SeqNumber → SeqNumber → ℕ → Segment → Touched → Touched
touch lo new_end idx run t =
    if le run.start new_end && le lo (run_end run)
    then record {
      first_idx = if t.count == 0 then idx else t.first_idx;
      count = t.count + 1;
      merged_start = if lt run.start t.merged_start then run.start else t.merged_start;
      merged_end = if gt (run_end run) t.merged_end then run_end run else t.merged_end;
    }
    else t

unfoldable pub scan : SeqNumber → SeqNumber → ℕ → List Segment → Touched → Touched
scan lo new_end idx [] t = t
scan lo new_end idx (run ∷ runs) t = scan lo new_end (idx + 1) runs (touch lo new_end idx run t)

-- `data[off..off + len].copy_from_slice(bytes)`
abbrev pub splice : ℕ → List ℕ → List ℕ → List ℕ
splice off bytes buf = take off buf ++ (bytes ++ drop (off + length bytes) buf)

abbrev pub zeros : ℕ → List ℕ
zeros zero = []
zeros (suc n) = 0 ∷ zeros n

-- The runs that were there are laid over the new bytes.
unfoldable pub overlay : SeqNumber → List Segment → List ℕ → List ℕ
overlay merged_start [] buf = buf
overlay merged_start (run ∷ runs) buf =
    overlay merged_start runs (splice (offset_from run.start merged_start) run.bytes buf)

-- `Vec::remove`: the length of the data of the run at an index, and the others. No run stands
-- beyond the end, where the source would panic.
unfoldable pub remove : ℕ → List Segment → ℕ × List Segment
remove idx [] = (0, [])
remove zero (run ∷ runs) = (length run.bytes, runs)
remove (suc idx) (run ∷ runs) = let rest = remove idx runs in (rest.0, run ∷ rest.1)

unfoldable pub remove_touched : ℕ → ℕ → Reasm → Reasm
remove_touched idx zero r = r
remove_touched idx (suc count) r =
    remove_touched idx count
      (record r { runs = (remove idx r.runs).1; held = r.held - (remove idx r.runs).0 })

-- `insert` at the first run that starts above.
unfoldable pub place : Segment → List Segment → List Segment
place seg [] = seg ∷ []
place seg (run ∷ runs) =
    let rest = place seg runs in if lt seg.start run.start then seg ∷ (run ∷ runs) else run ∷ rest

unfoldable pub add_run : SeqNumber → List ℕ → Reasm → Reasm
add_run start bytes r = record r {
  next_stamp = u64 (r.next_stamp + 1);
  held = r.held + length bytes;
  runs = place (record { start = start; bytes = bytes; stamp = u64 (r.next_stamp + 1) }) r.runs;
}

-- The part of `insert` behind the clipping.
unfoldable pub merge_in : Reasm → SeqNumber → List ℕ → Reasm
merge_in r lo new_bytes =
    let new_end = add lo (u32 (length new_bytes)) in
    let start : Touched = record {
      first_idx = length r.runs;
      count = 0;
      merged_start = lo;
      merged_end = new_end;
    } in
    let t = scan lo new_end 0 r.runs start in
    let span = offset_from t.merged_end t.merged_start in
    let laid = splice (offset_from lo t.merged_start) new_bytes (zeros span) in
    let bytes = overlay t.merged_start (take t.count (drop t.first_idx r.runs)) laid in
    add_run t.merged_start bytes (remove_touched t.first_idx t.count r)

unfoldable pub insert : Reasm → SeqNumber → SeqNumber → SeqNumber → List ℕ → Reasm
insert r rcv_nxt right_edge seg_seq payload =
    let lo = larger seg_seq rcv_nxt in
    let hi = smaller (add seg_seq (u32 (length payload))) right_edge in
    if ge lo hi
    then r
    else merge_in r lo (take (offset_from hi lo) (drop (offset_from lo seg_seq) payload))

unfoldable pub pop_first : List Segment → Reasm → SeqNumber → List ℕ × Reasm
pop_first [] r rcv_nxt = ([], r)
pop_first (first ∷ rest) r rcv_nxt =
    if first.start == rcv_nxt
    then (first.bytes, record r { runs = rest; held = r.held - length first.bytes })
    else ([], r)

unfoldable pub pop_contiguous : Reasm → SeqNumber → List ℕ × Reasm
pop_contiguous r rcv_nxt = pop_first r.runs r rcv_nxt

-- The loop of `discard_below` over the runs with the count of the bytes held.
unfoldable pub discard : SeqNumber → List Segment → ℕ → List Segment × ℕ
discard rcv_nxt [] held = ([], held)
discard rcv_nxt (first ∷ rest) held =
    let next = discard rcv_nxt rest (held - length first.bytes) in
    let cut = offset_from rcv_nxt first.start in
    if le (run_end first) rcv_nxt
    then next
    else if lt first.start rcv_nxt
    then (record first { bytes = drop cut first.bytes; start = rcv_nxt } ∷ rest, held - cut)
    else (first ∷ rest, held)

unfoldable pub discard_below : Reasm → SeqNumber → Reasm
discard_below r rcv_nxt =
    let d = discard rcv_nxt r.runs r.held in record r { runs = d.0; held = d.1 }

unfoldable pub reinsert_front : Reasm → SeqNumber → List ℕ → Reasm
reinsert_front r start bytes = if length bytes == 0 then r else record r {
  next_stamp = u64 (r.next_stamp + 1);
  held = r.held + length bytes;
  runs = record { start = start; bytes = bytes; stamp = u64 (r.next_stamp + 1) } ∷ r.runs;
}

-- The stable sort by the stamp, the greatest first: the indices of `report` as the runs at them.
unfoldable pub by_stamp : Segment → List Segment → List Segment
by_stamp run [] = run ∷ []
by_stamp run (first ∷ rest) =
    let next = by_stamp run rest in
    if ltb run.stamp first.stamp then first ∷ next else run ∷ (first ∷ rest)

unfoldable pub sorted : List Segment → List Segment
unfolding by_stamp
sorted [] = []
sorted (run ∷ runs) = by_stamp run (sorted runs)

abbrev pub edges : List Segment → List (SeqNumber × SeqNumber)
edges [] = []
edges (run ∷ runs) = (run.start, run_end run) ∷ edges runs

-- The filled part of `out`, which has `room` slots.
unfoldable pub report : Reasm → ℕ → List (SeqNumber × SeqNumber)
unfolding sorted
report r room = edges (take room (sorted r.runs))

abbrev pub is_empty : Reasm → Bool
is_empty r = length r.runs == 0
