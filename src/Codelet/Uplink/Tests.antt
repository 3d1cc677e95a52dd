-- ===== src/Codelet/Uplink/Tests.antt =====
-- The slot codelet on a grid of four ports, with a selector of every second frame.
use e3controller.Common.{◌+◌, ◌^◌, ◌≡◌, refl, true, none, some, [], ◌∷◌, arith}
use e3controller.Pipeline.Slot.Messages.{SlotSel}
use e3controller.Codelet.Uplink.{
  SlotCtx, Env, Codelet, receive, frame_passes, slot_passes, rung, outcome_of, publish_slot,
  jbpf_main,
}
use e3controller.Codelet.Uplink.Selection.{Hands, main-Hands}
use e3controller.Codelet.Uplink.Published.{Sends, main-Sends}

abbrev every_other : SlotSel
every_other = record {
  version = 1;
  nof_slots_per_frame = 20;
  slot_mask = 2 ^ 19;
  sfn_mod = 2;
  sfn_offset = 1;
}

abbrev slot_ctx : SlotCtx
slot_ctx = record {
  grid_bytes = 733824;
  gnb_ts_ns = 1000;
  sfn = 513;
  subframe_id = 9;
  slot_id = 19;
  ctx_id = 0;
  nof_ports = 4;
  nof_symbols = 14;
  nof_subcarriers = 3276;
}

abbrev slot_env : Env
slot_env = record {
  entry_ns = 2000;
  exit_ns = 9000;
  shm_in = none;
  sel_in = some every_other;
  sel_found = true;
  publish = λ n sel. 2 ^ 32 + 7;
  buffer_found = true;
  output_sent = true;
}

abbrev idle : Codelet
idle = record {
  sel = record { version = 0; nof_slots_per_frame = 0; slot_mask = 0; sfn_mod = 0; sfn_offset = 0 };
  attached = [];
  published = [];
  output = [];
}

-- The row that the helper answers: buffer 1, index 7, for the four-port size.
published_once : (jbpf_main slot_env slot_ctx idle).0.published ≡ 733824 ∷ []
unfolding jbpf_main receive frame_passes slot_passes publish_slot rung outcome_of
published_once = refl

main-Hands_example :
    Hands slot_ctx
      (receive slot_env idle).sel
      idle.published
      (jbpf_main slot_env slot_ctx idle).0.published
main-Hands_example = main-Hands slot_env slot_ctx idle refl (omega arith)

main-Sends_example :
    Sends slot_env slot_ctx
      (receive slot_env idle).sel
      idle.output
      (jbpf_main slot_env slot_ctx idle).0.output
main-Sends_example = main-Sends slot_env slot_ctx idle
