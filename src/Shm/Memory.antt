-- ===== src/Shm/Memory.antt =====
-- The loops that fill a row: src/e3sm/utils/e3sm_shm_writer.cpp and `convert_ant` of
-- codelets/include/e3_slot_convert.h. The memory is a function from the index of a uint16_t cell,
-- counted from `buffers_base_`, to its value.
mod Tests
use e3controller.Common.{
  ℕ, zero, suc, ◌+◌, ◌-◌, ◌*◌, ◌≤◌, ◌<◌, ◌≡◌, refl, sym, ◌∙◌, fun_ext, inl, inr, Bool-cases, Bool,
  ◌&&◌, not, leb, ltb, leb→le, ap, ==→eq, update, if◌then◌else◌, arith, ◌==◌,
}

abbrev pub Mem : Type 0
Mem = ℕ → ℕ

-- `for (; i < n; ++i) dst[i] = f(src[i]);` with `left` rounds to go.
unfoldable pub convert_loop : ℕ → (ℕ → ℕ) → ℕ → ℕ → Mem → Mem
convert_loop zero value dst i m = m
convert_loop (suc left) value dst i m =
    convert_loop left value dst (i + 1) (update m (dst + i) (value i))

-- `memset(dst, 0, 2 * n)`.
unfoldable pub zero_cells : ℕ → ℕ → Mem → Mem
zero_cells dst zero m = m
zero_cells dst (suc n) m = zero_cells (dst + 1) n (update m dst 0)

-- The store of eight converted lanes.
unfoldable pub store_lanes : (ℕ → ℕ) → ℕ → ℕ → Mem → Mem
store_lanes value dst i m = convert_loop 8 value dst i m

-- The vector loop, `for (; i + 8 <= n; i += 8)`, then the scalar tail. The lanes of a
-- vector go through the operations of the scalar function, so `value` serves both. The fuel bounds
-- the rounds; without fuel the loop stops short.
unfoldable pub vector_loop : ℕ → ℕ → (ℕ → ℕ) → ℕ → ℕ → Mem → Mem
vector_loop zero n value dst i m = m
vector_loop (suc fuel) n value dst i m =
    let rest = vector_loop fuel n value dst (i + 8) (store_lanes value dst i m) in
    if leb (i + 8) n then rest else convert_loop (n - i) value dst i m

abbrev pub within : ℕ → ℕ → ℕ → Bool
within lo n j = leb lo j && ltb j (lo + n)

sub_add : (a b : ℕ) → a + b - a ≡ b
sub_add a b = omega arith

-- What a cell holds after the loop.
pub convert_loop_lem :
    (left : ℕ) (value : ℕ → ℕ) (dst i : ℕ) (m : Mem) (j : ℕ)
    → convert_loop left value dst i m j ≡ (if within (dst + i) left j then value (j - dst) else m j)
unfolding convert_loop
convert_loop_lem zero value dst i m j = ground arith
convert_loop_lem (suc left) value dst i m j = ground (
  arith,
  convert_loop_lem left value dst (i + 1) (update m (dst + i) (value i)) j,
  ap value (sub_add dst i),
)

pub zero_cells_lem :
    (dst n : ℕ) (m : Mem) (j : ℕ) → zero_cells dst n m j ≡ (if within dst n j then 0 else m j)
unfolding zero_cells
zero_cells_lem dst zero m j = ground arith
zero_cells_lem dst (suc n) m j = ground (arith, zero_cells_lem (dst + 1) n (update m dst 0) j)

convert_loop-add :
    (a b : ℕ) (value : ℕ → ℕ) (dst i : ℕ) (m : Mem)
    → convert_loop (a + b) value dst i m
      ≡ convert_loop b value dst (i + a) (convert_loop a value dst i m)
convert_loop-add a b value dst i m = fun_ext λ j. ground (
  arith,
  convert_loop_lem (a + b) value dst i m j,
  convert_loop_lem b value dst (i + a) (convert_loop a value dst i m) j,
  convert_loop_lem a value dst i m j,
)

lanes : (n i : ℕ) → i + 8 ≤ n → 8 + (n - (i + 8)) ≡ n - i
lanes n i h = omega arith

-- With fuel for the rounds, the vector loop writes what the scalar loop writes, whatever the length:
-- the tail included.
pub vector_loop-eq-convert_loop :
    (fuel n : ℕ) (value : ℕ → ℕ) (dst i : ℕ) (m : Mem)
    → n - i < 8 * fuel
    → vector_loop fuel n value dst i m ≡ convert_loop (n - i) value dst i m
unfolding vector_loop
vector_loop-eq-convert_loop zero n value dst i m h = absurd (omega arith)
vector_loop-eq-convert_loop (suc fuel) n value dst i m h = elim (Bool-cases (leb (i + 8) n)) [
  | inl more ↦ rw more (
      vector_loop-eq-convert_loop fuel n value dst (i + 8) (store_lanes value dst i m)
        (omega (arith, leb→le _ _ more))
      ∙ unfold store_lanes in
        sym (convert_loop-add 8 (n - (i + 8)) value dst i m)
        ∙ ap (λ k. convert_loop k value dst i m) (lanes n i (leb→le _ _ more)))
  | inr done ↦ rw done refl
]
