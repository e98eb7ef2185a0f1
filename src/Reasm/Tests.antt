-- ===== src/Reasm/Tests.antt =====
-- The reassembly of tcp-core/src/reasm.rs on concrete segments.
use ferrumnet.Prelude.{◌≡◌, refl, [], ◌∷◌}
use ferrumnet.Seq.{add, larger, smaller, lt, le, gt, ge, offset_from, distance}
use ferrumnet.Reasm.{Reasm, insert, merge_in, scan, overlay, remove, remove_touched, place, add_run}

abbrev held : Reasm
held = record {
  runs =
      record { start = 4_294_967_295; bytes = 1 ∷ (2 ∷ (3 ∷ [])); stamp = 1 }
      ∷ (record { start = 10; bytes = 4 ∷ (5 ∷ []); stamp = 2 } ∷ []);
  held = 5;
  next_stamp = 2;
}

-- The bytes that are held win over those that come in.
insert_test :
    (insert held 4_294_967_290 100 1 (7 ∷ (8 ∷ (9 ∷ [])))).runs
    ≡ record { start = 4_294_967_295; bytes = 1 ∷ (2 ∷ (3 ∷ (8 ∷ (9 ∷ [])))); stamp = 3 }
      ∷ (record { start = 10; bytes = 4 ∷ (5 ∷ []); stamp = 2 } ∷ [])
unfolding insert merge_in scan overlay remove remove_touched place add_run add larger smaller lt le
    gt ge offset_from distance
insert_test = refl
