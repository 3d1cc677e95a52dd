-- ===== src/Shm/Writer/Ring.antt =====
-- The ring cursor of `ShmIqWriter`, and where its rows lie.
use mathlib.Core.Path.{ap₂}
use native.Mathlib.Nat.{mod-eq_of_lt, mod_self, mod-add-mod, add-zero}
use e3controller.Common.{
  add-mod-ne, pos, ℕ, suc, ◌+◌, ◌*◌, ◌%◌, ◌^◌, ◌≤◌, ◌<◌, ◌≡◌, ◌⊎◌, inl, inr, refl, sym, ap, ◌∙◌, ℤ,
  true, Bool-cases, List, [], ◌∷◌, length, ok, arith,
}
use e3controller.Config.Geometry.{validate, u16_per_ant, num_fh_samples}
use e3controller.Shm.Memory.{Mem}
use e3controller.Shm.Writer.{
  ShmIqWriter, writes_rows, row_cell, advance, clamp_ports, publish_row, publish_row_cbf16,
}

-- The region is open: two buffers of `num_rows` rows lie behind the header, and the cursor points at
-- one of those rows.
pub record IsOpen (w : ShmIqWriter) : Type 0 where
  pub mapped : w.is_mapped ≡ true
  pub geometry : validate w.geom ≡ ok tt
  pub samples : w.num_samples ≡ num_fh_samples w.geom
  pub size : w.row_size ≡ 2 * w.num_samples
  pub nonempty : 0 < w.row_size
  pub buffers : w.num_buffers ≡ 2
  pub rows : (0 < w.num_rows) × (w.num_rows < 2 ^ 32)
  pub stride : w.buffer_size ≡ w.num_rows * w.row_size
  pub fits : 64 + 2 * w.buffer_size ≤ w.mapped_size
  pub row_in : w.next_row < w.num_rows
  pub buf_in : w.next_buf < 2

-- The cursor as one number below the rows of both buffers.
abbrev pub slot : ShmIqWriter → ℕ
slot w = w.next_buf * w.num_rows + w.next_row

pub advance-IsOpen : {w : ShmIqWriter} → IsOpen w → IsOpen (advance w)
unfolding advance
advance-IsOpen {w} v = ground arith

write-IsOpen : {w : ShmIqWriter} (m : Mem) → IsOpen w → IsOpen (record w { cells = m })
write-IsOpen m v = record {
  mapped = v.mapped;
  geometry = v.geometry;
  samples = v.samples;
  size = v.size;
  nonempty = v.nonempty;
  buffers = v.buffers;
  rows = v.rows;
  stride = v.stride;
  fits = v.fits;
  row_in = v.row_in;
  buf_in = v.buf_in;
}

-- Both ways to publish keep the region open, in either writer mode.
pub publish-IsOpen :
    {w : ShmIqWriter} (convert : ℤ → ℕ) (iq : ℕ → ℤ) (convert' : ℕ → ℕ → ℕ) (iq' : ℕ → ℕ)
    (nof_ports : ℕ)
    → IsOpen w
    → IsOpen (publish_row convert iq w).after
      × IsOpen (publish_row_cbf16 convert' iq' nof_ports w).after
unfolding publish_row publish_row_cbf16
publish-IsOpen {w} convert iq convert' iq' nof_ports v = elim (Bool-cases (writes_rows w)) [
  | inl e ↦ rw e (advance-IsOpen (write-IsOpen _ v), advance-IsOpen (write-IsOpen _ v))
  | inr e ↦ rw e (v, v)
]

buf_cases : (b : ℕ) → b < 2 → (b ≡ 0) ⊎ (b ≡ 1)
buf_cases b h = ground arith

row_times : (r n s : ℕ) → r < n → r * s + s ≤ n * s
row_times r n s h = grind arith

-- The row that a publish fills lies inside the mapping, behind the header.
pub row-in_mapping : {w : ShmIqWriter} → IsOpen w → 64 + 2 * row_cell w + w.row_size ≤ w.mapped_size
unfolding row_cell
row-in_mapping {w} v = elim (buf_cases w.next_buf v.buf_in) [
  | inl e ↦ rw e (omega (arith, row_times w.next_row w.num_rows w.row_size v.row_in))
  | inr e ↦ rw e (omega (arith, row_times w.next_row w.num_rows w.row_size v.row_in))
]

-- One step of the cursor: on by one row, or from the last row to the first.
abbrev Advances : ℕ → ℕ → ℕ → Type 0
Advances total s s' = ((s' ≡ s + 1) × (s' < total)) ⊎ ((s + 1 ≡ total) × (s' ≡ 0))

advance-Advances :
    {w : ShmIqWriter} → IsOpen w → Advances (2 * w.num_rows) (slot w) (slot (advance w))
unfolding advance
advance-Advances {w} v = elim (buf_cases w.next_buf v.buf_in) [
  | inl e ↦ rw (v.buffers, e) (ground arith)
  | inr e ↦ rw (v.buffers, e) (ground arith)
]

slot-lt : {w : ShmIqWriter} → IsOpen w → slot w < 2 * w.num_rows
slot-lt {w} v = elim (buf_cases w.next_buf v.buf_in) [
  | inl e ↦ rw e (omega arith)
  | inr e ↦ rw e (omega arith)
]

advance_mod : (total s s' : ℕ) → s < total → Advances total s s' → s' ≡ (s + 1) % total
advance_mod total s s' h (inl e) = e.0 ∙ sym (mod-eq_of_lt (omega arith))
advance_mod total s s' h (inr e) = e.1 ∙ sym (rw e.0 (mod_self total))

chain_mod :
    (total s s' k : ℕ) → s < total → Advances total s s' → (s' + k) % total ≡ (s + suc k) % total
chain_mod total s s' k h a =
    ap (λ t. (t + k) % total) (advance_mod total s s' h a)
    ∙ mod-add-mod (s + 1) total k
    ∙ ap (λ t. t % total) (omega arith)

num_rows-advance : (w : ShmIqWriter) → (advance w).num_rows ≡ w.num_rows
unfolding advance
num_rows-advance w = ground arith

writes_rows-advance : (w : ShmIqWriter) → writes_rows (advance w) ≡ writes_rows w
unfolding advance writes_rows
writes_rows-advance w = ground arith

module _ (convert : ℕ → ℕ → ℕ) where
  -- Slots published one after the other, each a blob with its number of ports.
  abbrev pub publish_all : List ((ℕ → ℕ) × ℕ) → ShmIqWriter → ShmIqWriter
  publish_all [] w = w
  publish_all ((iq, ports) ∷ xs) w = publish_all xs (publish_row_cbf16 convert iq ports w).after

  -- One call on the writer's side: the reported row is the cursor's, and the cursor moves on.
  publish-step :
      (iq : ℕ → ℕ) (ports : ℕ) {w : ShmIqWriter}
      → IsOpen w
      → writes_rows w ≡ true
      → let p = publish_row_cbf16 convert iq ports w in
        (p.done ≡ true)
        × (p.buffer_index ≡ w.next_buf)
        × (p.write_index ≡ w.next_row)
        × Advances (2 * w.num_rows) (slot w) (slot p.after)
        × (p.after.num_rows ≡ w.num_rows)
        × (writes_rows p.after ≡ true)
  unfolding publish_row_cbf16 advance clamp_ports u16_per_ant writes_rows
  publish-step iq ports {w} v e = rw e (
    refl,
    refl,
    refl,
    advance-Advances (write-IsOpen _ v),
    num_rows-advance _,
    writes_rows-advance _ ∙ e,
  )

  -- Publishing a list of slots moves the cursor on by its length, going round the rows of both
  -- buffers.
  pub publish_all-slot :
      (xs : List ((ℕ → ℕ) × ℕ)) (w : ShmIqWriter)
      → IsOpen w
      → writes_rows w ≡ true
      → (slot (publish_all xs w) ≡ (slot w + length xs) % (2 * w.num_rows))
        × ((publish_all xs w).num_rows ≡ w.num_rows)
  publish_all-slot [] w v e = (sym (rw add-zero (mod-eq_of_lt (slot-lt v))), refl)
  publish_all-slot ((iq, ports) ∷ xs) w v e =
      let (_, _, _, adv, rows, e') = publish-step iq ports v e in
      let p = publish_row_cbf16 convert iq ports w in
      let v' : IsOpen p.after = (publish-IsOpen (λ _. 0) (λ _. pos 0) convert iq ports v).1 in
      let (at, rows') = publish_all-slot xs p.after v' e' in
      (
        at
            ∙ ap (λ n. (slot p.after + length xs) % (2 * n)) rows
            ∙ chain_mod (2 * w.num_rows) (slot w) (slot p.after) (length xs) (slot-lt v) adv,
        rows' ∙ rows,
      )

  publish_all-IsOpen :
      (xs : List ((ℕ → ℕ) × ℕ)) (w : ShmIqWriter)
      → IsOpen w
      → writes_rows w ≡ true
      → IsOpen (publish_all xs w) × (writes_rows (publish_all xs w) ≡ true)
  publish_all-IsOpen [] w v e = (v, e)
  publish_all-IsOpen ((iq, ports) ∷ xs) w v e =
      publish_all-IsOpen xs _ (publish-IsOpen (λ _. 0) (λ _. pos 0) convert iq ports v).1
        (publish-step iq ports v e).5

  -- A row is not written again before all other rows of both buffers were: after fewer than twice
  -- `num_rows` further slots, the next one is reported at another (buffer, row) pair.
  pub publish-no_reuse :
      (xs : List ((ℕ → ℕ) × ℕ)) (iq : ℕ → ℕ) (ports : ℕ) (w : ShmIqWriter)
      → IsOpen w
      → writes_rows w ≡ true
      → 0 < length xs
      → length xs < 2 * w.num_rows
      → let p = publish_row_cbf16 convert iq ports w in
        let q = publish_row_cbf16 convert iq ports (publish_all xs w) in
        ¬ ((q.buffer_index ≡ p.buffer_index) × (q.write_index ≡ p.write_index))
  publish-no_reuse xs iq ports w v e lo hi (b, r) =
      let (v', e') = publish_all-IsOpen xs w v e in
      let (at, rows) = publish_all-slot xs w v e in
      let (_, b₁, r₁, _, _, _) = publish-step iq ports v e in
      let (_, b₂, r₂, _, _, _) = publish-step iq ports v' e' in
      let same : slot (publish_all xs w) ≡ slot w =
        ap₂ (λ m n. m + n) (ap₂ (λ m n. m * n) (sym b₂ ∙ b ∙ b₁) rows) (sym r₂ ∙ r ∙ r₁) in
      add-mod-ne (slot-lt v) lo hi (sym at ∙ same)
