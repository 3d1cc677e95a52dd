-- ===== src/EndToEnd/Tests.antt =====
-- The way of one packet, whose only PRB is 28 bytes.
use mathlib.Core.Path.{subst}
use mathlib.Core.Option.{some-injective}
use e3controller.Pipeline.Iq.{Machine}
use e3controller.Common.{
  fun_ext, ap, ◌∙◌, get_or, length, ◌+◌, ◌*◌, ◌/◌, ◌%◌, ◌<◌, ℕ, zero, suc, ◌≡◌, refl, sym, true,
  false, Option, none, some, List, [], ◌∷◌, ◌++◌, arith,
}
use e3controller.Codelet.Ecpri
use e3controller.Codelet.Ecpri.{IqSampleData, receive_config}
use e3controller.Codelet.Ecpri.Packet.{Message, InRange, frame_of}
use e3controller.Codelet.Ecpri.Roundtrip.{Admits, collects}
use e3controller.Pipeline.Spsc.{QueueEntry}
use e3controller.Pipeline.Iq.{dispatch_sample}
use e3controller.Config.Types.{asn1}
use e3controller.Spectrum
use e3controller.Spectrum.{E3SmSpectrum, fan_out}
use e3controller.Spectrum.Lifecycle.{fresh_spectrum, consume}
use e3controller.Encoders.Heap.{fresh_heap, bytes_of, Coder}
use e3controller.Encoders.Spectrum.{IqDataIndication, encode_spectrum_iq_indication}
use e3controller.Encoders.Roundtrip.{IsLossless}
use e3controller.EndToEnd.Reception.{Received, message-Received}
use e3controller.EndToEnd.Section.{newest, Compressed}

abbrev ramp : ℕ → List ℕ
ramp zero = []
ramp (suc n) = n ∷ ramp n

abbrev one_prb : Message
one_prb = record {
  vlan = none;
  frame_id = 1;
  subframe_id = 9;
  slot_id = 1;
  symbol_id = 13;
  section_id = 0;
  rb = 0;
  sym_inc = 0;
  start_prbu = 4;
  num_prbu = 1;
  iq_width = 9;
  comp_method = 1;
  other = λ i. 0;
  samples = ramp 28;
}

abbrev ofh_env : Ecpri.Env
ofh_env = record {
  entry_ns = 5_000_000;
  output_ns = 5_004_000;
  meta_data = 4_999_000;
  direction = 1;
  control = some 1;
  filter_found = true;
  period_found = true;
  counter_found = true;
  tmp_found = true;
  output_taken = true;
  cleared = λ i. 0;
}

abbrev zeroed : Ecpri.Maps
zeroed = record {
  expected_num_prbu = 0;
  sampling_period = 0;
  symbol_counter = 0;
  tmp_payload = λ i. 0;
  output = [];
}

in_range : InRange one_prb
in_range = record {
  subframe_lt = omega arith;
  slot_lt = omega arith;
  symbol_lt = omega arith;
  section_lt = omega arith;
  rb_lt = omega arith;
  sym_inc_lt = omega arith;
  start_lt = omega arith;
  num_lt = omega arith;
  width_lt = omega arith;
  method_lt = omega arith;
  some_samples = omega arith;
}

admits : Admits ofh_env zeroed one_prb
unfolding receive_config
admits = record {
  unfiltered = refl;
  every = refl;
  period_found = refl;
  counter_found = refl;
  tmp_found = refl;
  taken = refl;
  fits = omega arith;
}

abbrev after : Ecpri.Maps
after = (Ecpri.jbpf_main ofh_env (frame_of one_prb) zeroed).0

abbrev or_zeroed : Option IqSampleData → IqSampleData
or_zeroed none = record {
  gnb_ts_ns = 0;
  codelet_ts_ns = 0;
  timestamp = 0;
  direction = 0;
  frame_id = 0;
  comp_method = 0;
  iq_width = 0;
  subframe_id = 0;
  slot_id = 0;
  symbol_id = 0;
  section_id = 0;
  start_prbu = 0;
  num_prbu = 0;
  payload_size = 0;
  iq_payload = λ i. 0;
}
or_zeroed (some x) = x

-- Each buffer of the pipeline holds the sample that the codelet puts out of the packet.
abbrev held : ℕ → IqSampleData
held b = or_zeroed (newest after.output)

abbrev queued_entry : QueueEntry
queued_entry = record { buf = 5; dispatch_ts_ns = 9_000_000; recv_us = 12; sample_id = 3 }

held-newest : newest after.output ≡ some (held 5)
held-newest =
    let (x, put, ok', carries) =
      collects ofh_env zeroed one_prb in_range (record { abs_slot = refl; symbol = refl }) admits in
    subst (λ l. newest l ≡ some (or_zeroed (newest l))) (sym put) refl

-- A coder that writes the members one after the other.
abbrev stamp : Option ℕ → ℕ
stamp none = 0
stamp (some t) = suc t

abbrev unstamp : ℕ → Option ℕ
unstamp zero = none
unstamp (suc t) = some t

abbrev flat : IqDataIndication → List ℕ
flat c = c.sample_count ∷ stamp c.timestamp ∷ c.iq_samples

abbrev unflat : List ℕ → Option IqDataIndication
unflat (n ∷ t ∷ samples) =
    some (record { iq_samples = samples; sample_count = n; timestamp = unstamp t })
unflat bytes = none

abbrev flat_coder : Coder IqDataIndication
flat_coder = record {
  encode_to_buffer = λ c size. some (length (flat c) * 8, λ i. get_or (flat c) i 0);
  decode = unflat;
}

bytes_of-get_or : (l : List ℕ) → bytes_of (λ i. get_or l i 0) (length l) ≡ l
bytes_of-get_or [] = refl
bytes_of-get_or (x ∷ l) =
    let shifted : (λ i. get_or (x ∷ l) (i + 1) 0) ≡ (λ i. get_or l i 0) =
      fun_ext (λ i. let up : i + 1 ≡ suc i = omega arith in ap (λ k. get_or (x ∷ l) k 0) up) in
    ap (λ f. x ∷ bytes_of f (length l)) shifted ∙ ap (λ ys. x ∷ ys) (bytes_of-get_or l)

unstamp-stamp : (o : Option ℕ) → unstamp (stamp o) ≡ o
unstamp-stamp none = refl
unstamp-stamp (some t) = refl

unflat-flat : (c : IqDataIndication) → unflat (flat c) ≡ some c
unflat-flat c =
    ap
      (λ o.
        some (record { iq_samples = c.iq_samples; sample_count = c.sample_count; timestamp = o }))
      (unstamp-stamp c.timestamp)

flat_coder-IsLossless : IsLossless flat_coder
flat_coder-IsLossless = record {
  lossless = λ c size bits buffer e.
      let whole : (length (flat c) * 8 + 7) / 8 ≡ length (flat c) = omega arith in
      subst (λ (b : ℕ × (ℕ → ℕ)). unflat (bytes_of b.1 ((b.0 + 7) / 8)) ≡ some c)
        (some-injective (length (flat c) * 8, λ i. get_or (flat c) i 0) (bits, buffer) e)
        (ap (λ n. unflat (bytes_of (λ i. get_or (flat c) i 0) n)) whole
          ∙ ap unflat (bytes_of-get_or (flat c))
          ∙ unflat-flat c);
}

abbrev two_dapps : Spectrum.Env
two_dapps = record {
  encoding = asn1;
  subscribers = 4 ∷ 5 ∷ [];
  encode = λ x. (encode_spectrum_iq_indication (λ n. true) flat_coder x fresh_heap).0;
  handler_entry_ns = 9_100_000;
  encode_ns = 10;
  emit_ns = 20;
}

abbrev started : E3SmSpectrum
started = record (fresh_spectrum false) { is_running = true }

first_byte : (q : ℕ) → q < 1 → get_or (ramp 28) (q * 28 + 0) 0 % 256 < 32
first_byte zero h = omega arith
first_byte (suc q) h = absurd (omega arith)

compressed : Compressed one_prb
compressed = record { enough = omega arith; shifts = first_byte }

abbrev target : Machine
target = record { elapsed = λ e. 7; wide_shift = λ mantissa exponent. 0 }

message-Received_example :
    (payload : List ℕ) × (c : IqDataIndication) × ((consume two_dapps started
        (dispatch_sample held target (0 ∷ []) queued_entry)).sent
      ≡ [] ++ fan_out payload (4 ∷ 5 ∷ []))
    × (unflat payload ≡ some c)
    × Received one_prb c
message-Received_example =
    message-Received ofh_env zeroed one_prb held target queued_entry two_dapps started (λ n. true)
      flat_coder in_range (record { abs_slot = refl; symbol = refl }) admits compressed held-newest
      refl refl refl (λ x. refl) (λ n. refl) flat_coder-IsLossless (λ x limits. (_, refl))
