-- ===== src/Config/Geometry/Laws.antt =====
-- What a validated geometry guarantees, and exactly which geometries are refused.
use e3controller.Common.{ap, ◌/◌, ℕ, ◌*◌, ◌%◌, ◌≤◌, ◌<◌, ◌≡◌, ◌↔◌, ◌⊎◌, inl, inr, ok, arith}
use e3controller.Config.Geometry.{
  RadioGeometry, nof_subcarriers, u16_per_ant, num_fh_samples, row_bytes, cbf16_bytes_per_ant,
  validate, validate_against_ran,
}

pub record InRange (g : RadioGeometry) : Type 0 where
  pub ports : (1 ≤ g.nof_ports) × (g.nof_ports ≤ 8)
  pub prbs : (1 ≤ g.nof_prbs) × (g.nof_prbs ≤ 275)
  pub symbols : (g.nof_symbols ≡ 12) ⊎ (g.nof_symbols ≡ 14)
  pub scs : (g.scs_khz ≡ 15) ⊎ (g.scs_khz ≡ 30) ⊎ (g.scs_khz ≡ 60) ⊎ (g.scs_khz ≡ 120)

mul-mod-four : (a b : ℕ) → b % 4 ≡ 0 → a * b % 4 ≡ 0
mul-mod-four a b h = let e : b ≡ 4 * (b / 4) = omega arith in omega (arith, ap (λ (t : ℕ). a * t) e)

subcarriers-mod-four : (g : RadioGeometry) → nof_subcarriers g % 4 ≡ 0
unfolding nof_subcarriers
subcarriers-mod-four g = omega arith

-- Twelve subcarriers of two values each: whatever the geometry, the wrap-around included, an
-- antenna's uint16 count is a multiple of 8.
pub u16_per_ant-mod : (g : RadioGeometry) → u16_per_ant g % 8 ≡ 0
unfolding u16_per_ant
u16_per_ant-mod g =
    omega (arith, mul-mod-four g.nof_symbols (nof_subcarriers g) (subcarriers-mod-four g))

validate-InRange : (g : RadioGeometry) → validate g ≡ ok tt → InRange g
unfolding validate
validate-InRange g h = ground arith

InRange-validate : (g : RadioGeometry) → InRange g → validate g ≡ ok tt
unfolding validate
InRange-validate g v = ground (arith, u16_per_ant-mod g)

-- `RadioGeometry::validate` accepts exactly the geometries with 1 to 8 ports, 1 to 275 PRBs, 12 or
-- 14 symbols and a subcarrier spacing of 15, 30, 60 or 120 kHz: the check of the AVX2 multiple
-- never refuses one of those.
pub validate_iff : (g : RadioGeometry) → (validate g ≡ ok tt) ↔ InRange g
validate_iff g = (validate-InRange g, InRange-validate g)

-- The sizes of one antenna, at either number of symbols.
pub ant_sizes :
    (g : RadioGeometry)
    → InRange g
    → (nof_subcarriers g ≡ 12 * g.nof_prbs)
      × (u16_per_ant g ≡ 24 * (g.nof_symbols * g.nof_prbs))
      × (cbf16_bytes_per_ant g ≡ 2 * u16_per_ant g)
      × (0 < u16_per_ant g)
      × (u16_per_ant g ≤ 92400)
unfolding u16_per_ant cbf16_bytes_per_ant
ant_sizes g v = go v.symbols
  where
    go :
        (g.nof_symbols ≡ 12) ⊎ (g.nof_symbols ≡ 14)
        → (nof_subcarriers g ≡ 12 * g.nof_prbs)
          × (u16_per_ant g ≡ 24 * (g.nof_symbols * g.nof_prbs))
          × (cbf16_bytes_per_ant g ≡ 2 * u16_per_ant g)
          × (0 < u16_per_ant g)
          × (u16_per_ant g ≤ 92400)
    go (inl e) = rw e (omega arith)
    go (inr e) = rw e (omega arith)

pub times_ports : (a b : ℕ) → 1 ≤ a → a ≤ 8 → (b ≤ a * b) × (a * b ≤ 8 * b)
times_ports a b lo hi = (grind arith, grind arith)

-- In a validated geometry no uint32 size wraps: the sizes are the plain products, and a row is at
-- most 1,478,400 bytes.
pub row_bytes_exact :
    (g : RadioGeometry)
    → validate g ≡ ok tt
    → (u16_per_ant g ≡ 24 * (g.nof_symbols * g.nof_prbs))
      × (num_fh_samples g ≡ g.nof_ports * u16_per_ant g)
      × (row_bytes g ≡ 2 * num_fh_samples g)
      × (cbf16_bytes_per_ant g ≡ 2 * u16_per_ant g)
      × (0 < row_bytes g)
      × (row_bytes g ≤ 1478400)
unfolding row_bytes
row_bytes_exact g h =
    let v = validate-InRange g h in
    omega (arith, ant_sizes g v, times_ports g.nof_ports (u16_per_ant g) v.ports.0 v.ports.1)

-- The first check that fails names the error, and no check failing is acceptance: ports declared
-- beyond what the RAN reports, or another number of symbols or subcarriers, each only where the
-- RAN reports a number at all.
pub validate_against_ran_iff :
    (cfg : RadioGeometry) (ports symbols subcarriers : ℕ)
    → (validate_against_ran cfg ports symbols subcarriers ≡ ok tt) ↔ (
        ((ports ≡ 0) ⊎ (cfg.nof_ports ≤ ports))
        × ((symbols ≡ 0) ⊎ (symbols ≡ cfg.nof_symbols))
        × ((subcarriers ≡ 0) ⊎ (subcarriers ≡ nof_subcarriers cfg)))
unfolding validate_against_ran
validate_against_ran_iff cfg ports symbols subcarriers = (λ h. ground arith, λ h. ground arith)
