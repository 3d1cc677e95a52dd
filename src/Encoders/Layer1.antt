-- ===== src/Encoders/Layer1.antt =====
-- src/e3sm/l1_kpm/e3sm_layer1_wrapper.cpp and e3sm_layer1_json.cpp
use Prim.Native.String.{String}
use e3controller.Common.{ℕ, Bool, List, [], ◌∷◌, ◌++◌, Option, none, some, ℤ, ltb, if◌then◌else◌}
use e3controller.Config.Types.{EncodingFormat, asn1, json}
use e3controller.Layer1.State.{Indication}
use e3controller.Encoders.Heap.{
  Heap, fresh_heap, Encoded, took, refused, malloc, Coder, finish, to_long,
}
use e3controller.Encoders.Spectrum.{
  RanFunctionData, encode_function, encode_spectrum_ran_function_data,
}

-- L1KPM_ShmRef_t
pub record ShmRef : Type 0 where
  pub shm_name : String
  pub fh_buffer_index : ℕ
  pub fh_write_index : ℕ

-- L1KPM_Indication_t, its members that are never set left out.
pub record KpmIndication : Type 0 where
  pub iq_samples_ref : Option ShmRef
  pub timestamp : ℤ
  pub sfn : ℕ
  pub slot : ℕ
  pub n_rx_ant : Option ℕ

abbrev pub kpm_indication : Indication → Option ℕ → KpmIndication
kpm_indication x n_rx_ant = record {
  iq_samples_ref = some (record {
    shm_name = x.shm_name;
    fh_buffer_index = x.fh_buffer_index;
    fh_write_index = x.fh_write_index;
  });
  timestamp = to_long x.timestamp;
  sfn = x.sfn;
  slot = x.slot;
  n_rx_ant = n_rx_ant;
}

-- The optional antenna count, which is left out where its block is not granted.
abbrev pub add_ports :
    (ℕ → Bool) → ℕ → List ℕ → (Option ℕ → List ℕ → Heap → Encoded) → Heap → Encoded
add_ports grants nof_ports held rest h =
    if ltb 0 nof_ports
    then (if grants h.next
        then rest (some nof_ports) (held ++ (h.next ∷ [])) (took h)
        else rest none held (refused h))
    else rest none held h

unfoldable pub encode_iq_indication_aper :
    (ℕ → Bool) → Coder KpmIndication → Indication → Heap → Encoded
encode_iq_indication_aper grants coder x = malloc grants [] (λ ref.
    malloc grants (ref ∷ []) (λ name.
      add_ports grants x.nof_ports (ref ∷ name ∷ [])
        (λ ports held. finish coder (kpm_indication x ports) 256 held)))

abbrev pub layer1_ran_function : RanFunctionData
layer1_ran_function = record {
  name = "L1-KPM";
  version = 1;
  description = "L1-KPM SM: post-FFT IQ telemetry.";
}

unfoldable pub encode_ran_function_data_aper : (ℕ → Bool) → Coder RanFunctionData → Heap → Encoded
encode_ran_function_data_aper = encode_function layer1_ran_function

-- The JSON encoders; `dump` writes out the object with these members.
unfoldable pub encode_iq_indication_json : (Indication → List ℕ) → Indication → Option (List ℕ)
encode_iq_indication_json dump x = some (dump x)

unfoldable pub encode_ran_function_data_json : (RanFunctionData → List ℕ) → Option (List ℕ)
encode_ran_function_data_json dump = some (dump layer1_ran_function)

-- The choice of the encoder in `on_sample`, on a heap that nothing else uses.
unfoldable pub encode_in :
    (ℕ → Bool)
    → Coder KpmIndication
    → (Indication → List ℕ)
    → EncodingFormat
    → Indication
    → Option (List ℕ)
unfolding encode_iq_indication_aper encode_iq_indication_json
encode_in grants coder dump json x = encode_iq_indication_json dump x
encode_in grants coder dump asn1 x = (encode_iq_indication_aper grants coder x fresh_heap).0

-- `ran_function_data` of the two service models: nothing where the encoder fails.
abbrev or_empty : Option (List ℕ) → List ℕ
or_empty none = []
or_empty (some bytes) = bytes

abbrev pub layer1_ran_function_data :
    (ℕ → Bool) → Coder RanFunctionData → (RanFunctionData → List ℕ) → EncodingFormat → List ℕ
layer1_ran_function_data grants coder dump json = or_empty (encode_ran_function_data_json dump)
layer1_ran_function_data grants coder dump asn1 =
    or_empty (encode_ran_function_data_aper grants coder fresh_heap).0

abbrev pub spectrum_ran_function_data : (ℕ → Bool) → Coder RanFunctionData → List ℕ
spectrum_ran_function_data grants coder =
    or_empty (encode_spectrum_ran_function_data grants coder fresh_heap).0
