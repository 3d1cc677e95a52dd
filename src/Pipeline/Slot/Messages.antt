-- ===== src/Pipeline/Slot/Messages.antt =====
-- What crosses the interfaces of the slot pipeline: the codelet's descriptor and control messages of
-- codelets/include/jbpf_e3_slot_api.h, and the sample and the configuration of
-- src/e3sm/slot_iq_pipeline.h.
use e3controller.Common.{ℕ, Bool, List}
use e3controller.Config.Types.{ShmWriter}
use e3controller.Config.Geometry.{RadioGeometry}

-- e3_slot_desc
pub record SlotDesc : Type 0 where
  pub gnb_ts_ns : ℕ
  pub codelet_entry_ts_ns : ℕ
  pub codelet_ts_ns : ℕ
  pub bytes_written : ℕ
  pub fh_write_index : ℕ
  pub fh_buffer_index : ℕ
  pub flags : ℕ
  pub sfn : ℕ
  pub subframe_id : ℕ
  pub slot_id : ℕ
  pub sector_id : ℕ
  pub nof_ports : ℕ
  pub nof_symbols : ℕ
  pub nof_subcarriers : ℕ

-- SlotSample; `has_iq` says whether the pointer `iq` is set.
pub record SlotSample : Type 0 where
  pub desc : SlotDesc
  pub has_iq : Bool
  pub iq_size_bytes : ℕ
  pub dispatch_ts_ns : ℕ
  pub recv_us : ℕ
  pub sample_id : ℕ

-- e3_shm_cfg, its name as bytes before the closing zero.
pub record ShmCfg : Type 0 where
  pub version : ℕ
  pub epoch : ℕ
  pub name : List ℕ
  pub nof_symbols : ℕ
  pub nof_subcarriers : ℕ
  pub scale : ℕ

-- e3_slot_sel
pub record SlotSel : Type 0 where
  pub version : ℕ
  pub nof_slots_per_frame : ℕ
  pub slot_mask : ℕ
  pub sfn_mod : ℕ
  pub sfn_offset : ℕ

-- What the pipeline sends to the codelet.
pub data Message : Type 0 where
  shm_in : ShmCfg → Message
  sel_in : SlotSel → Message

-- SlotIqPipeline::Config, less the paths; `auto_load` is `!codelet_base_path.empty()`.
pub record Config : Type 0 where
  pub auto_load : Bool
  pub writer : ShmWriter
  pub shm_name : List ℕ
  pub radio : RadioGeometry
  pub cbf16_scale : ℕ
  pub shm_epoch : ℕ
