-- ===== src/Pipeline.antt =====
-- The data plane: what src/e3sm/slot_iq_pipeline.cpp and src/e3sm/iq_pipeline.cpp share in shape, and
-- the two pipelines.
pub mod Spsc
pub mod Worker
pub mod Ledger
pub mod Plane
pub mod Halting
pub mod Slot
pub mod Iq
pub mod Lcm
