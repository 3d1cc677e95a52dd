-- ===== src/Encoders/Heap.antt =====
-- What the encoders use: malloc, calloc and free, asn1c's coders, and C's conversions of integers.
use e3controller.Common.{
  ℕ, zero, suc, ◌+◌, ◌-◌, ◌/◌, ◌%◌, ◌^◌, Bool, List, [], ◌∷◌, ◌++◌, Option, none, some, ℤ, pos,
  negsuc, ltb, if◌then◌else◌,
}

-- The blocks taken and freed so far, by number; `next` is the number of the next request.
pub record Heap : Type 0 where
  pub next : ℕ
  pub taken : List ℕ
  pub freed : List ℕ

abbrev pub fresh_heap : Heap
fresh_heap = record { next = 0; taken = []; freed = [] }

-- `free` of each block in turn, as ASN_STRUCT_FREE_CONTENTS_ONLY does for what a struct points to.
abbrev pub free_all : List ℕ → Heap → Heap
free_all blocks h = record h { freed = h.freed ++ blocks }

abbrev pub took : Heap → Heap
took h = record h { next = h.next + 1; taken = h.taken ++ (h.next ∷ []) }

abbrev pub refused : Heap → Heap
refused h = record h { next = h.next + 1 }

-- What an encoder leaves: the bytes, where it returns true, and the heap.
abbrev pub Encoded : Type 0
Encoded = Option (List ℕ) × Heap

-- A request, which is granted or not: where it is not, the encoder frees `held` and returns false.
unfoldable pub malloc : (ℕ → Bool) → List ℕ → (ℕ → Heap → Encoded) → Heap → Encoded
malloc grants held rest h =
    if grants h.next then rest h.next (took h) else (none, free_all held (refused h))

-- The first bytes of a buffer.
abbrev pub bytes_of : (ℕ → ℕ) → ℕ → List ℕ
bytes_of buffer zero = []
bytes_of buffer (suc n) = buffer 0 ∷ bytes_of (λ i. buffer (i + 1)) n

-- asn1c's coder of a type: the encoder fills a buffer of a size and returns a number of bits, or fails.
pub record Coder (V : Type 0) : Type 0 where
  pub encode_to_buffer : V → ℕ → Option (ℕ × (ℕ → ℕ))
  pub decode : List ℕ → Option V

-- `bytes = (ret.encoded + 7) / 8; out.assign(buffer, buffer + bytes)`
abbrev pub assigned : Option (ℕ × (ℕ → ℕ)) → Option (List ℕ)
assigned none = none
assigned (some (bits, buffer)) = some (bytes_of buffer ((bits + 7) / 8))

-- The encoding, and then the cleanup.
unfoldable pub finish : {V : Type 0} → Coder V → V → ℕ → List ℕ → Heap → Encoded
finish coder v size held h = (assigned (coder.encode_to_buffer v size), free_all held h)

-- A `long` as the `int` of its low 32 bits.
abbrev pattern32 : ℤ → ℕ
pattern32 (pos n) = n % 2 ^ 32
pattern32 (negsuc n) = 2 ^ 32 - 1 - n % 2 ^ 32

abbrev signed32 : ℕ → ℤ
signed32 p = if ltb p (2 ^ 31) then pos p else negsuc (2 ^ 32 - 1 - p)

unfoldable pub to_int : ℤ → ℤ
to_int z = signed32 (pattern32 z)

-- A `uint64_t` as a `long`.
unfoldable pub to_long : ℕ → ℤ
to_long n = if ltb n (2 ^ 63) then pos n else negsuc (2 ^ 64 - 1 - n)
