-- ===== src/Spectrum/Tests.antt =====
-- The spectrum service model at one PRB.
use e3controller.Common.{
  ℕ, zero, suc, List, ◌*◌, ◌^◌, ◌≤◌, ◌<◌, ◌≡◌, refl, true, false, [], ◌∷◌, some, arith,
}
use e3controller.Config.Types.{asn1}
use e3controller.Codelet.Ecpri.{IqSampleData}
use e3controller.Pipeline.Iq.{DecompressedSample}
use e3controller.Spectrum.{E3SmSpectrum, Env, fft_size_of, on_sample, sat_us}
use e3controller.Spectrum.Padding.{fft_size_of-least}
use e3controller.Spectrum.Handler.{Fit}

full_carrier : fft_size_of (273 * 12) ≡ 4096
unfolding fft_size_of
full_carrier = refl

fft_size_of-least_example :
    ((j : ℕ) × (fft_size_of 3276 ≡ 2 ^ j))
    × (3276 ≤ fft_size_of 3276)
    × (fft_size_of 3276 < 2 * 3276)
fft_size_of-least_example = fft_size_of-least 3276 (omega arith) (omega arith)

abbrev surroundings : Env
surroundings = record {
  encoding = asn1;
  subscribers = 4 ∷ 5 ∷ [];
  encode = λ i. some (i.sample_count ∷ []);
  handler_entry_ns = 9000;
  encode_ns = 10;
  emit_ns = 20;
}

abbrev ramp : ℕ → List ℕ
ramp zero = []
ramp (suc n) = n ∷ ramp n

abbrev raw_of : ℕ → IqSampleData
raw_of prbs = record {
  gnb_ts_ns = 1000;
  codelet_ts_ns = 3000;
  timestamp = 77;
  direction = 1;
  frame_id = 0;
  comp_method = 1;
  iq_width = 9;
  subframe_id = 9;
  slot_id = 1;
  symbol_id = 13;
  section_id = 0;
  start_prbu = 0;
  num_prbu = prbs;
  payload_size = prbs * 28;
  iq_payload = λ i. 0;
}

abbrev section_of : ℕ → DecompressedSample
section_of prbs = record {
  raw = some (raw_of prbs);
  decompressed_iq = some (ramp (prbs * 24));
  decompressed_size = prbs * 24;
  recv_us = 0;
  sample_id = 1;
  gnb_ts_ns = 1000;
  codelet_ts_ns = 3000;
  dispatch_ts_ns = 2000;
  decompress_ns = 5;
}

abbrev spectrum : E3SmSpectrum
spectrum = record {
  is_running = true;
  has_stats_path = true;
  sample_publish_seq = 0;
  json_warned = false;
  sent = [];
  acks = [];
  stats = [];
}

one_prb-Fit : Fit (section_of 1) (raw_of 1) (ramp 24)
one_prb-Fit = record {
  has_raw = refl;
  has_iq = refl;
  subcarriers = omega arith;
  full = omega arith;
}

sixteen_bins :
    (on_sample surroundings spectrum (section_of 1)).sent ≡ (4, 16 ∷ []) ∷ (5, 16 ∷ []) ∷ []
unfolding on_sample fft_size_of sat_us
sixteen_bins = refl
