-- ===== src/Encoders.antt =====
-- The encoders of the service models' messages: src/e3sm/sm_spectrum/e3sm_spect_wrapper.cpp,
-- src/e3sm/l1_kpm/e3sm_layer1_wrapper.cpp and e3sm_layer1_json.cpp. The coders of asn1c and the JSON
-- library are parameters.
pub mod Heap
pub mod Spectrum
pub mod Layer1
pub mod Ownership
pub mod Roundtrip
mod Tests
