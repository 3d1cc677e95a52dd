-- ===== src/EndToEnd.antt =====
-- The two ways of the IQ data through the parts: from a packet on the fronthaul to the consumers of
-- the IQ pipeline and to the dApps, and from the resource grid to the dApps.
pub mod Section
pub mod Slot
pub mod Dapp
pub mod Reception
pub mod Kpm
mod Tests
mod KpmTests
