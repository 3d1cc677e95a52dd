-- ===== src/Config/Geometry/Tests.antt =====
-- Tests of the geometry, and its theorems at concrete geometries.
use e3controller.Common.{ℕ, ◌≡◌, refl, ok, err}
use e3controller.Config.Geometry.{
  RadioGeometry, default_geometry, u16_per_ant, row_bytes, slots_per_frame, GeometryError, validate,
  RanMismatch, validate_against_ran,
}

default_sizes :
    (u16_per_ant default_geometry ≡ 91728)
    × (row_bytes default_geometry ≡ 733824)
    × (slots_per_frame default_geometry ≡ 20)
    × (validate default_geometry ≡ ok tt)
unfolding row_bytes slots_per_frame validate
default_sizes = (refl, refl, refl, refl)

nine_ports : validate (record default_geometry { nof_ports = 9 }) ≡ err GeometryError.bad_nof_ports
unfolding validate
nine_ports = refl

-- More ports on the air than configured are accepted, fewer are not.
ran_ports :
    (validate_against_ran default_geometry 8 14 3276 ≡ ok tt)
    × (validate_against_ran default_geometry 2 14 3276 ≡ err RanMismatch.ports_over_declared)
    × (validate_against_ran default_geometry 0 12 0 ≡ err RanMismatch.symbols_differ)
unfolding validate_against_ran
ran_ports = (refl, refl, refl)

abbrev small : RadioGeometry
small = record { nof_ports = 2; nof_prbs = 25; nof_symbols = 12; scs_khz = 15 }

abbrev four : ℕ
four = 4

abbrev twelve : ℕ
twelve = 12

abbrev three_hundred : ℕ
three_hundred = 300
