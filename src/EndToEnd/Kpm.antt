-- ===== src/EndToEnd/Kpm.antt =====
-- From the resource grid through codelets/uplink_slot_samples/uplink_slot_collect.c, a queue entry of
-- src/e3sm/slot_iq_pipeline.cpp, src/e3sm/l1_kpm/e3sm_layer_1.cpp in gnb mode and the encoder of
-- src/e3sm/l1_kpm/e3sm_layer1_wrapper.cpp, to what a dApp decodes.
use e3controller.Common.{ℕ, ◌/◌, ◌%◌, ◌^◌, ◌<◌, ◌≡◌, some, pos, ltb, if◌then◌else◌, ◌==◌}
use e3controller.Codelet.Uplink
use e3controller.Codelet.Uplink.{SlotCtx}
use e3controller.Codelet.Uplink.Published.{Largest}
use e3controller.Encoders.Heap.{Heap}
use e3controller.Encoders.Layer1.{KpmIndication}
use e3controller.Layer1.State.{E3SmLayer1, Env}

-- What a dApp has decoded is of the slot that the codelet was called for: the region's name with the
-- buffer and the row that the helper answered, in the upper and the lower half, when it took the largest
-- of the three sizes that the grid holds; the number of the antennas delivered, one if the grid reports
-- none, and at most those configured; the slot's frame, slot and time.
pub record Points (uenv : Uplink.Env) (ctx : SlotCtx) (u : Uplink.Codelet) (l : E3SmLayer1)
    (k : KpmIndication) : Type 0 where
  pub bytes : ℕ
  pub largest : Largest bytes ctx.grid_bytes
  pub taken : uenv.publish bytes (Uplink.receive uenv u).sel < 2 ^ 63
  pub ref :
      k.iq_samples_ref
      ≡ some (record {
        shm_name = l.shm_name;
        fh_buffer_index = uenv.publish bytes (Uplink.receive uenv u).sel / 2 ^ 32 % 2 ^ 8;
        fh_write_index = uenv.publish bytes (Uplink.receive uenv u).sel % 2 ^ 32;
      })
  pub antennas :
      k.n_rx_ant
      ≡ some (
          if ctx.nof_ports == 0
          then 1
          else (if ltb l.geom.nof_ports ctx.nof_ports then l.geom.nof_ports else ctx.nof_ports))
  pub number : (k.sfn ≡ ctx.sfn) × (k.slot ≡ ctx.slot_id)
  pub time : k.timestamp ≡ pos ctx.gnb_ts_ns
