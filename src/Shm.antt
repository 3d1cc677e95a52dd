-- ===== src/Shm.antt =====
-- The shared-memory region of rows: src/e3sm/utils/e3sm_shm_writer.h and .cpp.
pub mod Convert
pub mod Memory
pub mod Writer
pub mod SlotConvert
