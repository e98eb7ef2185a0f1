-- ===== src/Seq/Tests.antt =====
-- Serial arithmetic at concrete numbers, across the wrap too.
use ferrumnet.Prelude.{◌-◌, ◌^◌, ◌≡◌, refl, arith, true, ltb, leb, min, max}
use ferrumnet.Prelude.Int.{negsuc}
use ferrumnet.Seq.{SeqNumber, distance, offset_from, lt, le, gt, ge, smaller, larger, add}
use ferrumnet.Seq.Order.{Near, compare-offset}

abbrev top : SeqNumber
top = 2 ^ 32 - 1

wraps : (distance top 1 ≡ negsuc 1) × (lt top 1 ≡ true) × (add top 2 ≡ 1) × (larger top 1 ≡ 1)
unfolding distance lt add larger
wraps = (refl, refl, refl, refl)

near_top : Near top top
unfolding offset_from
near_top = omega arith

near_one : Near top 1
unfolding offset_from
near_one = omega arith

compare-offset_example :
    (lt top 1 ≡ ltb (offset_from top top) (offset_from 1 top))
    × (le top 1 ≡ leb (offset_from top top) (offset_from 1 top))
    × (gt top 1 ≡ ltb (offset_from 1 top) (offset_from top top))
    × (ge top 1 ≡ leb (offset_from 1 top) (offset_from top top))
    × (offset_from (smaller top 1) top ≡ min (offset_from top top) (offset_from 1 top))
    × (offset_from (larger top 1) top ≡ max (offset_from top top) (offset_from 1 top))
compare-offset_example = compare-offset top top 1 near_top near_one
