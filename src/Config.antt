-- ===== src/Config.antt =====
-- The controller's configuration: include/e3_config.h and src/e3_config.cpp.
pub mod Geometry
pub mod Types
pub mod Parse
pub mod Load
