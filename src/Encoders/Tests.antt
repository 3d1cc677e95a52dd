-- ===== src/Encoders/Tests.antt =====
-- The encoders of a control with one PRB, and of a slot, with an allocator that refuses.
use mathlib.Core.Path.{subst}
use mathlib.Core.Option.{some-injective}
use e3controller.Common.{
  ℕ, ◌+◌, ◌/◌, ◌≡◌, refl, Bool, true, List, [], ◌∷◌, Option, none, some, ℤ, pos, negsuc, ◌==◌, ◌!=◌,
  ◌^◌, if◌then◌else◌, arith,
}
use e3controller.Spectrum.{SpectrumIqIndication, PrbBlacklistControl}
use e3controller.Layer1.State.{Indication}
use e3controller.Encoders.Heap.{fresh_heap, bytes_of, Coder, to_int, malloc}
use e3controller.Encoders.Spectrum.{
  IqDataIndication, encode_spectrum_iq_indication, PrbBlacklistControlType, add_prbs,
  encode_spectrum_prb_blacklist_control, decode_spectrum_prb_blacklist_control, RanFunctionData,
  encode_spectrum_ran_function_data,
}
use e3controller.Encoders.Layer1.{
  KpmIndication, encode_iq_indication_aper, encode_ran_function_data_aper,
}
use e3controller.Encoders.Ownership.{Balanced, encoders-Balanced}
use e3controller.Encoders.Roundtrip.{IsLossless, control-decodes}

-- A coder of controls with one PRB and no negative value, a byte for each.
abbrev three_bytes : (a b c : ℕ) → ℕ → ℕ
three_bytes a b c i = if i == 0 then a else if i == 1 then b else c

abbrev encode_members : List ℤ → Option ℤ → Option ℤ → Option (ℕ × (ℕ → ℕ))
encode_members (pos a ∷ []) (some (pos b)) (some (pos c)) = some (24, three_bytes a b c)
encode_members prbs threshold validity = none

abbrev decode_small : List ℕ → Option PrbBlacklistControlType
decode_small (a ∷ b ∷ c ∷ []) = some (record {
  blacklisted_prbs = pos a ∷ [];
  sampling_threshold = some (pos b);
  validity_period = some (pos c);
})
decode_small bytes = none

abbrev small_coder : Coder PrbBlacklistControlType
small_coder = record {
  encode_to_buffer =
      λ v size. encode_members v.blacklisted_prbs v.sampling_threshold v.validity_period;
  decode = decode_small;
}

small_members :
    (v : PrbBlacklistControlType) (prbs : List ℤ) (threshold validity : Option ℤ) (bits : ℕ)
    (buffer : ℕ → ℕ)
    → v.blacklisted_prbs ≡ prbs
    → v.sampling_threshold ≡ threshold
    → v.validity_period ≡ validity
    → encode_members prbs threshold validity ≡ some (bits, buffer)
    → decode_small (bytes_of buffer ((bits + 7) / 8)) ≡ some v
small_members v (pos a ∷ []) (some (pos b)) (some (pos c)) bits buffer p t w e =
    subst (λ (q : ℕ × (ℕ → ℕ)). decode_small (bytes_of q.1 ((q.0 + 7) / 8)) ≡ some v)
      (some-injective (24, three_bytes a b c) (bits, buffer) e) (rw⁻¹ (p, t, w) refl)
small_members v [] threshold validity bits buffer p t w e = absurd (cc)
small_members v (negsuc a ∷ prbs) threshold validity bits buffer p t w e = absurd (cc)
small_members v (pos a ∷ b ∷ prbs) threshold validity bits buffer p t w e = absurd (cc)
small_members v (pos a ∷ []) none validity bits buffer p t w e = absurd (cc)
small_members v (pos a ∷ []) (some (negsuc b)) validity bits buffer p t w e = absurd (cc)
small_members v (pos a ∷ []) (some (pos b)) none bits buffer p t w e = absurd (cc)
small_members v (pos a ∷ []) (some (pos b)) (some (negsuc c)) bits buffer p t w e = absurd (cc)

small_coder-IsLossless : IsLossless small_coder
small_coder-IsLossless = record {
  lossless = λ v size bits buffer e. small_members v _ _ _ bits buffer refl refl refl e;
}

abbrev one_blacklisted : PrbBlacklistControl
one_blacklisted = record {
  blacklisted_prbs = pos 105 ∷ [];
  sampling_threshold = pos 50;
  validity_period = pos 3600;
}

-- What a decoder gives for a negative `long`, and for one that an `int` does not hold.
negative : to_int (negsuc 4) ≡ negsuc 4
unfolding to_int
negative = refl

too_long : to_int (pos (2 ^ 32 + 7)) ≡ pos 7
unfolding to_int
too_long = refl

control-decodes_example :
    (bytes : List ℕ) × ((encode_spectrum_prb_blacklist_control
        (λ n. true)
        (λ n. true)
        small_coder
        one_blacklisted
        fresh_heap).0
      ≡ some bytes)
    × (decode_spectrum_prb_blacklist_control small_coder bytes ≡ some one_blacklisted)
control-decodes_example =
    control-decodes (λ n. true) (λ n. true) small_coder one_blacklisted fresh_heap 24
      (three_bytes 105 50 3600) small_coder-IsLossless
      (record { prbs = (omega arith, tt); threshold = omega arith; validity = omega arith })
      (λ n. refl) (λ n. refl) refl

abbrev no_coder : (V : Type 0) → Coder V
no_coder V = record { encode_to_buffer = λ v size. none; decode = λ bytes. none }

abbrev some_iq : SpectrumIqIndication
some_iq = record { iq_data = λ i. i; iq_values = 32; sample_count = 16; timestamp = 7 }

abbrev some_slot : Indication
some_slot = record {
  timestamp = 5_000;
  sfn = 3;
  slot = 19;
  shm_name = "/e3_ran_buffers";
  fh_buffer_index = 1;
  fh_write_index = 4;
  nof_ports = 4;
}

-- The second request is refused.
abbrev all_but_1 : ℕ → Bool
all_but_1 n = n != 1

refused_control :
    (encode_spectrum_prb_blacklist_control all_but_1
      (λ n. true)
      small_coder
      one_blacklisted
      fresh_heap).1.freed
    ≡ 0 ∷ []
unfolding encode_spectrum_prb_blacklist_control add_prbs malloc
refused_control = refl

encoders-Balanced_example :
    Balanced 0 ((encode_spectrum_iq_indication all_but_1 (no_coder _) some_iq fresh_heap).1)
    × Balanced 0 (
        (encode_spectrum_prb_blacklist_control all_but_1
          (λ n. true)
          small_coder
          one_blacklisted
          fresh_heap).1)
    × Balanced 0 ((encode_iq_indication_aper all_but_1 (no_coder _) some_slot fresh_heap).1)
    × Balanced 0 ((encode_spectrum_ran_function_data all_but_1 (no_coder _) fresh_heap).1)
    × Balanced 0 ((encode_ran_function_data_aper all_but_1 (no_coder _) fresh_heap).1)
encoders-Balanced_example =
    encoders-Balanced all_but_1 (λ n. true) 0 (no_coder IqDataIndication) small_coder
      (no_coder KpmIndication) (no_coder RanFunctionData) some_iq one_blacklisted some_slot
