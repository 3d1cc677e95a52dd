-- ===== src/Encoders/Spectrum.antt =====
-- src/e3sm/sm_spectrum/e3sm_spect_wrapper.cpp
use Prim.Native.String.{String}
use e3controller.Common.{
  ℕ, zero, suc, ◌+◌, ◌/◌, ◌%◌, ◌^◌, Bool, List, [], ◌∷◌, ◌++◌, map, Option, none, some, ℤ, pos,
  if◌then◌else◌,
}
use e3controller.Shm.Memory.{Mem}
use e3controller.Spectrum.{SpectrumIqIndication, PrbBlacklistControl}
use e3controller.Encoders.Heap.{Heap, Encoded, free_all, malloc, Coder, finish, to_int}

-- Spectrum_IQDataIndication_t
pub record IqDataIndication : Type 0 where
  pub iq_samples : List ℕ
  pub sample_count : ℕ
  pub timestamp : Option ℕ

-- The int16 values as bytes, low byte first.
abbrev pub octets_of : Mem → ℕ → List ℕ
octets_of m zero = []
octets_of m (suc n) = m 0 % 2 ^ 8 ∷ m 0 / 2 ^ 8 % 2 ^ 8 ∷ octets_of (λ i. m (i + 1)) n

abbrev pub iq_data_indication : SpectrumIqIndication → IqDataIndication
iq_data_indication x = record {
  iq_samples = octets_of x.iq_data x.iq_values;
  sample_count = x.sample_count;
  timestamp = some x.timestamp;
}

unfoldable pub encode_spectrum_iq_indication :
    (ℕ → Bool) → Coder IqDataIndication → SpectrumIqIndication → Heap → Encoded
encode_spectrum_iq_indication grants coder x = malloc grants [] (λ buf.
    malloc grants (buf ∷ [])
      (λ timestamp. finish coder (iq_data_indication x) 20000 (buf ∷ timestamp ∷ [])))

-- Spectrum_PRBBlacklistControl_t
pub record PrbBlacklistControlType : Type 0 where
  pub blacklisted_prbs : List ℤ
  pub sampling_threshold : Option ℤ
  pub validity_period : Option ℤ

-- The loop over the PRBs: `held` are the blocks in the list so far, and `adds` says whether
-- ASN_SEQUENCE_ADD takes a block into it.
unfoldable pub add_prbs :
    (grants adds : ℕ → Bool) → List ℤ → List ℕ → (List ℕ → Heap → Encoded) → Heap → Encoded
add_prbs grants adds [] held rest = rest held
add_prbs grants adds (prb ∷ prbs) held rest = malloc grants held (λ val h.
    let added = add_prbs grants adds prbs (held ++ (val ∷ [])) rest h in
    if adds val then added else (none, free_all (val ∷ held) h))

abbrev pub prb_blacklist_control : PrbBlacklistControl → PrbBlacklistControlType
prb_blacklist_control x = record {
  blacklisted_prbs = x.blacklisted_prbs;
  sampling_threshold = some x.sampling_threshold;
  validity_period = some x.validity_period;
}

unfoldable pub encode_spectrum_prb_blacklist_control :
    (grants adds : ℕ → Bool) → Coder PrbBlacklistControlType → PrbBlacklistControl → Heap → Encoded
unfolding add_prbs
encode_spectrum_prb_blacklist_control grants adds coder x =
    add_prbs grants adds x.blacklisted_prbs [] (λ held. malloc grants held (λ threshold.
      malloc grants (held ++ (threshold ∷ [])) (λ validity.
        finish coder (prb_blacklist_control x) 4096 (held ++ (threshold ∷ validity ∷ [])))))

abbrev int_or_zero : Option ℤ → ℤ
int_or_zero none = pos 0
int_or_zero (some z) = to_int z

-- What the decoder takes out of the struct.
abbrev pub read_control : Option PrbBlacklistControlType → Option PrbBlacklistControl
read_control none = none
read_control (some c) = some (record {
  blacklisted_prbs = map to_int c.blacklisted_prbs;
  sampling_threshold = int_or_zero c.sampling_threshold;
  validity_period = int_or_zero c.validity_period;
})

unfoldable pub decode_spectrum_prb_blacklist_control :
    Coder PrbBlacklistControlType → List ℕ → Option PrbBlacklistControl
decode_spectrum_prb_blacklist_control coder bytes = read_control (coder.decode bytes)

-- Spectrum_RanFunctionData_t, and L1KPM_RanFunctionData_t.
pub record RanFunctionData : Type 0 where
  pub name : String
  pub version : ℕ
  pub description : String

abbrev pub spectrum_ran_function : RanFunctionData
spectrum_ran_function = record {
  name = "spectrum_sm";
  version = 1;
  description = "Spectrum service model for IQ indication and PRB blacklist control";
}

-- The encoder of a RAN function's description, which both wrappers have.
abbrev pub encode_function : RanFunctionData → (ℕ → Bool) → Coder RanFunctionData → Heap → Encoded
encode_function rfd grants coder = malloc grants [] (λ name.
    malloc grants (name ∷ []) (λ description. finish coder rfd 256 (name ∷ description ∷ [])))

unfoldable pub encode_spectrum_ran_function_data :
    (ℕ → Bool) → Coder RanFunctionData → Heap → Encoded
encode_spectrum_ran_function_data = encode_function spectrum_ran_function
