-- ===== src/Config/Geometry.antt =====
-- The radio geometry of include/e3_config.h, its validation in src/e3_config.cpp, and the check
-- of the configured geometry against what the RAN reports in a slot. Fields are uint16_t, and
-- derived sizes uint32_t with their wrap-around.
pub mod Laws
mod Tests
use e3controller.Common.{
  ℕ, ◌*◌, ◌/◌, ◌%◌, ◌^◌, Bool, ◌&&◌, ◌||◌, ltb, ◌==◌, ◌!=◌, Result, ok, ◌>>◌, refuse_if,
}

pub record RadioGeometry : Type 0 where
  pub nof_ports : ℕ
  pub nof_prbs : ℕ
  pub nof_symbols : ℕ
  pub scs_khz : ℕ

abbrev pub default_geometry : RadioGeometry
default_geometry = record { nof_ports = 4; nof_prbs = 273; nof_symbols = 14; scs_khz = 30 }

-- kScPerPrb
abbrev pub sc_per_prb : ℕ
sc_per_prb = 12

-- kBytesPerCbf16
abbrev pub bytes_per_cbf16 : ℕ
bytes_per_cbf16 = 4

unfoldable pub nof_subcarriers : RadioGeometry → ℕ
nof_subcarriers g = g.nof_prbs * sc_per_prb % 2 ^ 32

unfoldable pub u16_per_ant : RadioGeometry → ℕ
unfolding nof_subcarriers
u16_per_ant g = g.nof_symbols * nof_subcarriers g % 2 ^ 32 * 2 % 2 ^ 32

unfoldable pub num_fh_samples : RadioGeometry → ℕ
unfolding u16_per_ant
num_fh_samples g = g.nof_ports * u16_per_ant g % 2 ^ 32

unfoldable pub row_bytes : RadioGeometry → ℕ
unfolding num_fh_samples
row_bytes g = num_fh_samples g * 2 % 2 ^ 32

unfoldable pub cbf16_bytes_per_ant : RadioGeometry → ℕ
unfolding nof_subcarriers
cbf16_bytes_per_ant g = g.nof_symbols * nof_subcarriers g % 2 ^ 32 * bytes_per_cbf16 % 2 ^ 32

unfoldable pub slots_per_frame : RadioGeometry → ℕ
slots_per_frame g = 10 * (g.scs_khz / 15) % 2 ^ 32

-- A constructor for each message of `RadioGeometry::validate`.
pub data GeometryError : Type 0 where
  bad_nof_ports bad_nof_prbs bad_nof_symbols bad_scs_khz not_multiple_of_eight : GeometryError

unfoldable pub validate : RadioGeometry → Result GeometryError (Unit {0})
unfolding u16_per_ant
validate g = do
  refuse_if (g.nof_ports == 0 || ltb 8 g.nof_ports) bad_nof_ports
  refuse_if (g.nof_prbs == 0 || ltb 275 g.nof_prbs) bad_nof_prbs
  refuse_if (g.nof_symbols != 12 && g.nof_symbols != 14) bad_nof_symbols
  refuse_if (g.scs_khz != 15 && g.scs_khz != 30 && g.scs_khz != 60 && g.scs_khz != 120) bad_scs_khz
  refuse_if (u16_per_ant g % 8 != 0) not_multiple_of_eight
  ok tt

-- A constructor for each message of `validate_against_ran`.
pub data RanMismatch : Type 0 where
  ports_over_declared symbols_differ subcarriers_differ : RanMismatch

-- The grid that the RAN reports: ports, symbols and subcarriers; 0 where it reports none.
unfoldable pub validate_against_ran : RadioGeometry → ℕ → ℕ → ℕ → Result RanMismatch (Unit {0})
unfolding nof_subcarriers
validate_against_ran cfg ran_ports ran_symbols ran_subcarriers = do
  refuse_if (ran_ports != 0 && ltb ran_ports cfg.nof_ports) ports_over_declared
  refuse_if (ran_symbols != 0 && cfg.nof_symbols != ran_symbols) symbols_differ
  refuse_if (ran_subcarriers != 0 && nof_subcarriers cfg != ran_subcarriers) subcarriers_differ
  ok tt
