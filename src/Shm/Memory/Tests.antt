-- ===== src/Shm/Memory/Tests.antt =====
-- The loops on eleven cells: one vector round and a tail of three.
use e3controller.Common.{◌*◌, ◌≡◌, refl}
use e3controller.Shm.Memory.{Mem, convert_loop, vector_loop}

abbrev blank : Mem
blank = λ i. 7

tail_cell : vector_loop 2 11 (λ i. i * i) 100 0 blank 110 ≡ 100
unfolding vector_loop convert_loop
tail_cell = refl
