-- ===== src/Codelet.antt =====
-- The codelets that run on the RAN side, in codelets/.
pub mod Ecpri
pub mod Uplink
