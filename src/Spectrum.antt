-- ===== src/Spectrum.antt =====
-- E3SMSpectrum, the service model of RAN function 1, of src/e3sm/sm_spectrum/e3sm_spectrum.h and .cpp.
-- The APER coders and libe3 are in the environment. A buffer of int16 is a store of patterns.
pub mod Padding
pub mod Handler
pub mod Lifecycle
mod Tests
use e3controller.Common.{
  ℕ, ℤ, zero, suc, ◌+◌, ◌-◌, ◌*◌, ◌/◌, ◌%◌, ◌^◌, Bool, true, false, not, ◌&&◌, ◌||◌, List, [], ◌∷◌,
  ◌++◌, Option, none, some, ◌==◌, ltb, get_or, if◌then◌else◌,
}
use e3controller.Config.Types.{EncodingFormat, asn1, json}
use e3controller.Shm.Memory.{Mem, convert_loop}
use e3controller.Codelet.Ecpri.{IqSampleData}
use e3controller.Pipeline.Iq.{DecompressedSample}

-- SpectrumIQIndication: `iq_data` as int16 patterns and their number.
pub record SpectrumIqIndication : Type 0 where
  pub iq_data : Mem
  pub iq_values : ℕ
  pub sample_count : ℕ
  pub timestamp : ℕ

-- A line of the statistics.
pub record StatsRow : Type 0 where
  pub sample_seq : ℕ
  pub gnb_to_codelet_us : ℕ
  pub codelet_to_dispatch_us : ℕ
  pub dispatch_to_handler_us : ℕ
  pub decompress_ns : ℕ
  pub encode_ns : ℕ
  pub emit_ns : ℕ
  pub fft_size : ℕ
  pub payload_bytes : ℕ

-- The object, with what it handed to libe3, its answers to control requests, and its statistics;
-- `has_stats_path` is `!stats_log_path_.empty()`.
pub record E3SmSpectrum : Type 0 where
  pub is_running : Bool
  pub has_stats_path : Bool
  pub sample_publish_seq : ℕ
  pub json_warned : Bool
  pub sent : List (ℕ × List ℕ)
  pub acks : List (ℕ × Bool)
  pub stats : List StatsRow

-- The agent's encoding, the subscribers, the encoder, and the clock's readings.
pub record Env : Type 0 where
  pub encoding : EncodingFormat
  pub subscribers : List ℕ
  pub encode : SpectrumIqIndication → Option (List ℕ)
  pub handler_entry_ns : ℕ
  pub encode_ns : ℕ
  pub emit_ns : ℕ

-- `fft_size = 1; while (fft_size < ofdm_sym_size) fft_size <<= 1;`, in uint32_t, with fuel.
unfoldable pub fft_loop : ℕ → ℕ → ℕ → ℕ
fft_loop zero fft_size n = fft_size
fft_loop (suc fuel) fft_size n =
    let next = fft_loop fuel (fft_size * 2 % 2 ^ 32) n in if ltb fft_size n then next else fft_size

unfoldable pub fft_size_of : ℕ → ℕ
unfolding fft_loop
fft_size_of n = fft_loop 32 1 n

-- `ofdm_sym_size`
abbrev pub ofdm_sym_size : ℕ → ℕ
ofdm_sym_size num_prbu = num_prbu * 12 % 2 ^ 32

-- `padded_buf_`: zeros, and the two copies.
unfoldable pub padded : (ℕ → ℕ) → ℕ → Mem
padded iq n =
    let half_sc = n / 2 in
    let first_carrier_offset = fft_size_of n - half_sc in
    convert_loop (half_sc * 2) (λ i. iq (half_sc * 2 + i)) 0 0
      (convert_loop (half_sc * 2) iq (first_carrier_offset * 2) 0 (λ i. 0))

-- The indication of a section and its values, which are read from the first on.
abbrev pub indication_of : IqSampleData → List ℕ → ℕ → SpectrumIqIndication
indication_of raw iq n = record {
  iq_data = padded (λ i. get_or iq i 0) n;
  iq_values = fft_size_of n * 2;
  sample_count = fft_size_of n;
  timestamp = raw.timestamp % 2 ^ 32;
}

-- `(lhs > rhs) ? (lhs - rhs) / 1000 : 0`
unfoldable pub sat_us : ℕ → ℕ → ℕ
sat_us lhs rhs = if ltb rhs lhs then (lhs - rhs) / 1000 else 0

abbrev stats_row : Env → DecompressedSample → IqSampleData → (seq n : ℕ) → StatsRow
stats_row env s raw seq n = record {
  sample_seq = seq;
  gnb_to_codelet_us = sat_us s.codelet_ts_ns s.gnb_ts_ns;
  codelet_to_dispatch_us = sat_us s.dispatch_ts_ns s.codelet_ts_ns;
  dispatch_to_handler_us = sat_us env.handler_entry_ns s.dispatch_ts_ns;
  decompress_ns = s.decompress_ns;
  encode_ns = env.encode_ns;
  emit_ns = env.emit_ns;
  fft_size = fft_size_of n;
  payload_bytes = raw.payload_size;
}

-- The loop over the subscribers; what libe3 refuses is only printed.
abbrev pub fan_out : List ℕ → List ℕ → List (ℕ × List ℕ)
fan_out payload [] = []
fan_out payload (dapp ∷ dapps) = (dapp, payload) ∷ fan_out payload dapps

-- From the encoding on.
abbrev publish :
    Env → E3SmSpectrum → DecompressedSample → IqSampleData → ℕ → Option (List ℕ) → E3SmSpectrum
publish env l s raw n none = l
publish env l s raw n (some payload) =
    let seq = (l.sample_publish_seq + 1) % 2 ^ 64 in
    record l {
      sent = l.sent ++ fan_out payload env.subscribers;
      sample_publish_seq = seq;
      stats = if l.has_stats_path then l.stats ++ (stats_row env s raw seq n ∷ []) else l.stats;
    }

abbrev pub no_dapps : List ℕ → Bool
no_dapps [] = true
no_dapps (d ∷ ds) = false

abbrev pub is_asn1 : EncodingFormat → Bool
is_asn1 asn1 = true
is_asn1 json = false

-- From the check of the two pointers on.
abbrev pub on_section :
    Env → E3SmSpectrum → DecompressedSample → Option IqSampleData → Option (List ℕ) → E3SmSpectrum
on_section env l s none iq = l
on_section env l s (some raw) none = l
on_section env l s (some raw) (some iq) =
    let n = ofdm_sym_size raw.num_prbu in
    if n == 0
    then l
    else if ltb s.decompressed_size (n * 2)
    then l
    else publish env l s raw n (env.encode (indication_of raw iq n))

unfoldable pub on_sample : Env → E3SmSpectrum → DecompressedSample → E3SmSpectrum
on_sample env l s =
    if not l.is_running
    then l
    else if no_dapps env.subscribers
    then l
    else if not (is_asn1 env.encoding)
    then record l { json_warned = true }
    else on_section env l s s.raw s.decompressed_iq

-- SpectrumPRBBlacklistControl
pub record PrbBlacklistControl : Type 0 where
  pub blacklisted_prbs : List ℤ
  pub sampling_threshold : ℤ
  pub validity_period : ℤ

pub data ControlOutcome : Type 0 where
  control_success decode_failed : ControlOutcome

-- `handle_control_action`, with the decoder's answer: the control is acknowledged and printed only.
unfoldable pub handle_control_action :
    E3SmSpectrum → ℕ → Option PrbBlacklistControl → E3SmSpectrum × ControlOutcome
handle_control_action l request_id none =
    (record l { acks = l.acks ++ ((request_id, false) ∷ []) }, decode_failed)
handle_control_action l request_id (some ctrl) =
    (record l { acks = l.acks ++ ((request_id, true) ∷ []) }, control_success)
