-- ===== src/Codelet/Ecpri/Tests.antt =====
-- The codelet on a packet of slot 19, symbol 13, with a VLAN tag, and on a run of such packets.
use e3controller.Common.{ℕ, ◌≡◌, ◌≢◌, refl, true, none, some, List, [], ◌∷◌, ◌++◌, arith}
use e3controller.Codelet.Ecpri.{
  fault, failure, success, IqSampleData, Maps, Env, jbpf_main, parse, parse_ethernet, num_prbu_of,
  receive_config,
}
use e3controller.Codelet.Ecpri.Safety.{reads_inside}
use e3controller.Codelet.Ecpri.Packet.{Message, InRange, IsTarget, frame_of, section_of}
use e3controller.Codelet.Ecpri.Headers.{parse-frame_with}
use e3controller.Codelet.Ecpri.Roundtrip.{Carries, Admits, collects}
use e3controller.Codelet.Ecpri.Sampling.{run, Passes, Counts, run-samples}

abbrev uplink_message : Message
uplink_message = record {
  vlan = some 6;
  frame_id = 77;
  subframe_id = 9;
  slot_id = 1;
  symbol_id = 13;
  section_id = 5;
  rb = 0;
  sym_inc = 0;
  start_prbu = 0;
  num_prbu = 2;
  iq_width = 9;
  comp_method = 1;
  other = λ i. i;
  samples = 3 ∷ 17 ∷ 200 ∷ [];
}

in_range : InRange uplink_message
in_range = record {
  subframe_lt = omega arith;
  slot_lt = omega arith;
  symbol_lt = omega arith;
  section_lt = omega arith;
  rb_lt = omega arith;
  sym_inc_lt = omega arith;
  start_lt = omega arith;
  num_lt = omega arith;
  width_lt = omega arith;
  method_lt = omega arith;
  some_samples = omega arith;
}

is_target : IsTarget uplink_message
is_target = record { abs_slot = refl; symbol = refl }

abbrev call_env : Env
call_env = record {
  entry_ns = 5_000_000;
  output_ns = 5_004_000;
  meta_data = 4_999_000;
  direction = 1;
  control = none;
  filter_found = true;
  period_found = true;
  counter_found = true;
  tmp_found = true;
  output_taken = true;
  cleared = λ i. 0;
}

abbrev maps_with : ℕ → Maps
maps_with period = record {
  expected_num_prbu = 2;
  sampling_period = period;
  symbol_counter = 0;
  tmp_payload = λ i. 255;
  output = [];
}

admits : Admits call_env (maps_with 0) uplink_message
unfolding receive_config
admits = record {
  unfiltered = refl;
  every = refl;
  period_found = refl;
  counter_found = refl;
  tmp_found = refl;
  taken = refl;
  fits = omega arith;
}

-- A packet that ends in its section header, and one of another Ethernet type.
truncated_fails : (jbpf_main call_env (0 ∷ 1 ∷ 2 ∷ []) (maps_with 0)).1 ≡ failure
unfolding jbpf_main parse parse_ethernet
truncated_fails = refl

reads_inside_example : (jbpf_main call_env (0 ∷ 1 ∷ 2 ∷ []) (maps_with 0)).1 ≢ fault
reads_inside_example = reads_inside call_env (0 ∷ 1 ∷ 2 ∷ []) (maps_with 0)

collects_example :
    (x : IqSampleData) × ((jbpf_main call_env (frame_of uplink_message) (maps_with 0)).0.output
      ≡ [] ++ (x ∷ []))
    × ((jbpf_main call_env (frame_of uplink_message) (maps_with 0)).1 ≡ success)
    × Carries call_env uplink_message x
collects_example = collects call_env (maps_with 0) uplink_message in_range is_target admits

passes : Passes 2 call_env (frame_of uplink_message)
unfolding num_prbu_of
passes = record {
  section = section_of uplink_message;
  parsed = parse-frame_with (some 6) uplink_message in_range is_target;
  unfiltered = refl;
  no_message = refl;
  period_found = refl;
  counter_found = refl;
  tmp_found = refl;
  taken = refl;
}

abbrev three_calls : List (Env × List ℕ)
three_calls =
    (call_env, frame_of uplink_message)
    ∷ (call_env, frame_of uplink_message)
    ∷ (call_env, frame_of uplink_message)
    ∷ []

run-samples_example : Counts (maps_with 2) (run three_calls (maps_with 2)) 3
run-samples_example =
    run-samples three_calls (maps_with 2) (passes, (passes, (passes, tt))) (omega arith)
      (omega arith)
