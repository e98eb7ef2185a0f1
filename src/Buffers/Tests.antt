-- ===== src/Buffers/Tests.antt =====
-- The ring buffer at concrete contents.
use ferrumnet.Prelude.{ℕ, ◌≡◌, refl, arith, List, [], ◌∷◌, some}
use ferrumnet.Buffers.{RingBuffer, with_capacity, write, read}
use ferrumnet.Buffers.Laws.{IsValid, read_lem}

abbrev queue : RingBuffer
queue = record { buf = 1 ∷ 2 ∷ 3 ∷ 4 ∷ []; capacity = 6 }

abbrev slots : List ℕ
slots = 0 ∷ 0 ∷ 0 ∷ []

write_respects_capacity : (write (with_capacity 4) (1 ∷ 2 ∷ 3 ∷ 4 ∷ 5 ∷ 6 ∷ [])).0 ≡ 4
unfolding write with_capacity
write_respects_capacity = refl

queue-IsValid : IsValid queue
queue-IsValid = omega arith

read_lem_example :
    read queue slots ≡ some (3, 1 ∷ 2 ∷ 3 ∷ [], record { buf = 4 ∷ []; capacity = 6 })
read_lem_example = read_lem queue slots
