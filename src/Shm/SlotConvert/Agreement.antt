-- ===== src/Shm/SlotConvert/Agreement.antt =====
-- The shared row conversion against the controller's own publish path.
use native.Mathlib.Nat.{mod-eq_of_lt}
use e3controller.Common.{
  ◌↔◌, refl, sym, ◌∙◌, false, Bool-cases, inl, inr, ℕ, ◌+◌, ◌-◌, ◌*◌, ◌^◌, ◌≤◌, ◌<◌, ◌≡◌, ap, true,
  if◌then◌else◌, ok, arith,
}
use e3controller.Config.Geometry
use e3controller.Config.Geometry.{validate, nof_subcarriers}
use e3controller.Config.Geometry.Laws.{validate_iff, ant_sizes}
use e3controller.Shm.Memory.{Mem, within}
use e3controller.Shm.Writer.{ShmIqWriter, writes_rows, row_cell, clamp_ports, publish_row_cbf16}
use e3controller.Shm.Writer.Ring.{IsOpen}
use e3controller.Shm.Writer.Rows.{publish_row_cbf16-cells, convert_ports_lem, clamp_ports-le}
use e3controller.Shm.SlotConvert.{RowGeometry, u16_per_ant, Build, convert_slot}
use e3controller.Shm.SlotConvert.Builds.{chosen, ants_loop-eq-convert_ports}

-- The geometry that the controller's configuration stands for.
abbrev pub row_geometry : Geometry.RadioGeometry → RowGeometry
row_geometry g = record {
  nof_symbols = g.nof_symbols;
  nof_subcarriers = nof_subcarriers g;
  nof_ants = g.nof_ports;
}

u16_per_ant-agrees :
    (g : Geometry.RadioGeometry)
    → validate g ≡ ok tt
    → u16_per_ant (row_geometry g) ≡ Geometry.u16_per_ant g
unfolding u16_per_ant
u16_per_ant-agrees g h =
    let (sc, per_ant, _, _, le) = ant_sizes g ((validate_iff g).0 h) in
    omega (arith, sc, per_ant, le, ap (λ k. g.nof_symbols * k) sc)

bytes_small : (ports n : ℕ) → ports ≤ 8 → n ≤ 92400 → ports * n * 2 < 2 ^ 64
bytes_small ports n h k = grind arith

-- The bytes that it reports are two for each cell of the delivered antennas.
convert_slot-bytes :
    (build : Build) (by_lane by_scalar : ℕ → ℕ → ℕ) (src : ℕ → ℕ) (g : Geometry.RadioGeometry)
    (nof_ports scale dst : ℕ) (m : Mem)
    → validate g ≡ ok tt
    → (convert_slot build by_lane by_scalar src (row_geometry g) nof_ports scale dst m).1
      ≡ clamp_ports g.nof_ports nof_ports * Geometry.u16_per_ant g * 2
unfolding convert_slot
convert_slot-bytes build by_lane by_scalar src g nof_ports scale dst m h =
    let r = (validate_iff g).0 h in
    let (_, _, _, _, le) = ant_sizes g r in
    let ports : clamp_ports g.nof_ports nof_ports ≤ 8 =
      omega (arith, clamp_ports-le g.nof_ports nof_ports, r.ports) in
    rw (u16_per_ant-agrees g h) (
      mod-eq_of_lt
        (bytes_small (clamp_ports g.nof_ports nof_ports) (Geometry.u16_per_ant g) ports le))

abbrev filled_cells : ShmIqWriter → ℕ → ℕ
filled_cells w nof_ports = clamp_ports w.geom.nof_ports nof_ports * Geometry.u16_per_ant w.geom

-- A cell of the row that the shared conversion fills.
shared_cell :
    (w : ShmIqWriter) (build : Build) (by_lane by_scalar : ℕ → ℕ → ℕ) (iq : ℕ → ℕ) (nof_ports j : ℕ)
    → IsOpen w
    → (convert_slot build by_lane by_scalar iq
          (row_geometry w.geom)
          nof_ports
          w.cbf16_scale
          (row_cell w)
          w.cells).0
        j
      ≡ (if within (row_cell w) (filled_cells w nof_ports) j
          then chosen build by_lane by_scalar w.cbf16_scale (iq (j - row_cell w))
          else w.cells j)
unfolding convert_slot
shared_cell w build by_lane by_scalar iq nof_ports j v =
    let n = Geometry.u16_per_ant w.geom in
    let ports = clamp_ports w.geom.nof_ports nof_ports in
    let scale = w.cbf16_scale in
    let value = λ (i : ℕ). chosen build by_lane by_scalar scale (iq i) in
    let base : row_cell w + 0 * n ≡ row_cell w = omega arith in
    let (_, per_ant, _, _, _) = ant_sizes w.geom ((validate_iff w.geom).0 v.geometry) in
    rw (u16_per_ant-agrees w.geom v.geometry) (
      ap (λ f. f j)
        (ants_loop-eq-convert_ports build ports n 0 (λ i. by_lane scale (iq i))
          (λ i. by_scalar scale (iq i)) (row_cell w) w.cells (omega (arith, per_ant)))
      ∙ convert_ports_lem ports n 0 value (row_cell w) w.cells j
      ∙ ap (λ r. if within r (ports * n) j then value (j - row_cell w) else w.cells j) base)

-- Two rows of which the cells are given by two conversions, but for the cells that one of them clears,
-- agree on the others exactly where the conversions do.
module _ (rc filled size : ℕ) (own shared old : ℕ → ℕ) (f g : ℕ → ℕ)
    (own_is : (j : ℕ)
      → own j ≡ (
          if within rc filled j
          then f (j - rc)
          else (if within (rc + filled) (size - filled) j then 0 else old j)))
    (shared_is : (j : ℕ) → shared j ≡ (if within rc filled j then g (j - rc) else old j)) where
  agrees :
      ((i : ℕ) → i < filled → f i ≡ g i)
      → (j : ℕ) → within (rc + filled) (size - filled) j ≡ false
      → own j ≡ shared j
  agrees same j out = own_is j ∙ elim (Bool-cases (within rc filled j)) [
    | inl t ↦ rw (t) (same (j - rc) (ground (arith, t))) ∙ sym (shared_is j)
    | inr t ↦ rw (t, out) refl ∙ sym (shared_is j)
  ]

  agreed :
      ((j : ℕ) → within (rc + filled) (size - filled) j ≡ false → own j ≡ shared j)
      → (i : ℕ) → i < filled
      → f i ≡ g i
  agreed same i lt =
      let inside : within rc filled (rc + i) ≡ true = ground (arith, lt) in
      let out : within (rc + filled) (size - filled) (rc + i) ≡ false = ground (arith, lt) in
      let back : i ≡ rc + i - rc = omega arith in
      ap f back
      ∙ sym (own_is (rc + i) ∙ rw (inside) refl)
      ∙ same (rc + i) out
      ∙ (shared_is (rc + i) ∙ rw (inside) refl)
      ∙ ap g (sym back)

  cleared :
      (j : ℕ) → within (rc + filled) (size - filled) j ≡ true → (own j ≡ 0) × (shared j ≡ old j)
  cleared j at =
      let past : within rc filled j ≡ false = ground (arith, at) in
      (own_is j ∙ rw (past, at) refl, shared_is j ∙ rw (past) refl)

-- On the geometry, the scale and the slot that both sides share, in each build of the shared
-- conversion, and whatever converts a sample on either side: the row that the controller publishes and
-- the row that the shared conversion fills at the same place agree, but for the antennas that were not
-- delivered, exactly where the controller's conversion of each delivered sample is the build's, by its
-- lanes if it has a vector path. Of the antennas that were not delivered, the controller clears the
-- cells and the shared conversion leaves them. The shared conversion reports two bytes for each cell of
-- the delivered antennas.
pub rows_agree :
    (w : ShmIqWriter) (build : Build) (by_lane by_scalar convert : ℕ → ℕ → ℕ) (iq : ℕ → ℕ)
    (nof_ports : ℕ)
    → IsOpen w
    → writes_rows w ≡ true
    → let filled = clamp_ports w.geom.nof_ports nof_ports * Geometry.u16_per_ant w.geom in
      let own = (publish_row_cbf16 convert iq nof_ports w).after.cells in
      let shared =
        convert_slot build by_lane by_scalar iq
          (row_geometry w.geom)
          nof_ports
          w.cbf16_scale
          (row_cell w)
          w.cells in
      (((j : ℕ)
          → within (row_cell w + filled) (w.num_samples - filled) j ≡ false
          → own j ≡ shared.0 j)
        ↔ ((i : ℕ)
            → i < filled
            → convert w.cbf16_scale (iq i) ≡ chosen build by_lane by_scalar w.cbf16_scale (iq i)))
      × ((j : ℕ)
          → within (row_cell w + filled) (w.num_samples - filled) j ≡ true
          → (own j ≡ 0) × (shared.0 j ≡ w.cells j))
      × (shared.1 ≡ filled * 2)
rows_agree w build by_lane by_scalar convert iq nof_ports v e =
    let filled = filled_cells w nof_ports in
    let own = (publish_row_cbf16 convert iq nof_ports w).after.cells in
    let shared =
      (convert_slot build by_lane by_scalar iq (row_geometry w.geom) nof_ports w.cbf16_scale
        (row_cell w) w.cells).0 in
    let f = λ (i : ℕ). convert w.cbf16_scale (iq i) in
    let g = λ (i : ℕ). chosen build by_lane by_scalar w.cbf16_scale (iq i) in
    let own_is = λ (j : ℕ). publish_row_cbf16-cells convert iq nof_ports j v e in
    let shared_is = λ (j : ℕ). shared_cell w build by_lane by_scalar iq nof_ports j v in
    (
      (
        agreed (row_cell w) filled w.num_samples own shared w.cells f g own_is shared_is,
        agrees (row_cell w) filled w.num_samples own shared w.cells f g own_is shared_is,
      ),
      cleared (row_cell w) filled w.num_samples own shared w.cells f g own_is shared_is,
      convert_slot-bytes build by_lane by_scalar iq w.geom nof_ports w.cbf16_scale (row_cell w)
          w.cells v.geometry,
    )
