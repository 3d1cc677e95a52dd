-- ===== src/Pipeline/Lcm.antt =====
-- What the two pipelines ask of jbpf's life cycle manager: `load_codelets` and `unload_codelets` of
-- src/e3sm/slot_iq_pipeline.cpp and src/e3sm/iq_pipeline.cpp, and when `start` and `stop` call them.
-- A text field is the bytes before its closing zero.
pub mod Session
pub mod Sessions
pub mod Paths
pub mod SlotCalls
pub mod IqCalls
mod Tests
use Prim.Native.Char.{code}
use Prim.Native.String.{String}
use e3controller.Common.{
  ℕ, zero, suc, ◌+◌, ◌-◌, ◌*◌, Bool, true, false, not, ◌&&◌, ◌||◌, List, [], ◌∷◌, ◌++◌,
  if◌then◌else◌,
}
use e3controller.Pipeline.Worker.{is_absent}
use e3controller.Pipeline.Slot
use e3controller.Pipeline.Slot.{SlotDesc, SlotIqPipeline}
use e3controller.Pipeline.Iq
use e3controller.Pipeline.Iq.{IqPipeline}

-- The code points of a text: its bytes, if it is ASCII.
abbrev pub codes : String → List ℕ
codes String.[] = []
codes (String.◌∷◌ c s) = code c ∷ codes s

-- The sizes of jbpf's text fields.
pub record Lengths : Type 0 where
  pub address : ℕ
  pub codeset : ℕ
  pub codelet : ℕ
  pub hook : ℕ
  pub path : ℕ
  pub channel : ℕ

abbrev pub take : ℕ → List ℕ → List ℕ
take zero xs = []
take (suc n) [] = []
take (suc n) (x ∷ xs) = x ∷ take n xs

-- `strncpy` of all but one byte of a field of `len` zeros.
unfoldable pub strncpy : ℕ → List ℕ → List ℕ
strncpy len src = take (len - 1) src

-- A stream id by its bytes, as one number.
abbrev pub stream_number : List ℕ → ℕ → ℕ
stream_number [] acc = acc
stream_number (b ∷ bs) acc = stream_number bs (acc * 256 + b)

pub record Channel : Type 0 where
  pub name : List ℕ
  pub stream_id : ℕ
  pub has_serde : Bool

-- jbpf_codeletset_load_req_s with its one descriptor.
pub record LoadReq : Type 0 where
  pub codeletset_id : List ℕ
  pub codelet_name : List ℕ
  pub hook_name : List ℕ
  pub codelet_path : List ℕ
  pub priority : ℕ
  pub runtime_threshold : ℕ
  pub in_io_channel : List Channel
  pub out_io_channel : List Channel
  pub num_linked_maps : ℕ

-- A call of the manager, with the socket it goes to; a load with whether it succeeds.
pub data LcmCall : Type 0 where
  load_call : (address : List ℕ) → LoadReq → Bool → LcmCall
  unload_call : (address codeletset_id : List ℕ) → LcmCall

abbrev pub slot_iq_stream_id : ℕ
slot_iq_stream_id =
    stream_number
      (0x75 ∷ 0x31 ∷ 0xab ∷ 0xcd ∷ 0x12 ∷ 0x34 ∷ 0x56 ∷ 0x78 ∷ 0x90 ∷ 0xfe ∷ 0xdc ∷ 0xba ∷ 0x09
        ∷ 0x87 ∷ 0x65 ∷ 0x4a ∷ [])
      0

abbrev pub shm_cfg_stream_id : ℕ
shm_cfg_stream_id =
    stream_number
      (0x75 ∷ 0x31 ∷ 0xab ∷ 0xcd ∷ 0x12 ∷ 0x34 ∷ 0x56 ∷ 0x78 ∷ 0x90 ∷ 0xfe ∷ 0xdc ∷ 0xba ∷ 0x09
        ∷ 0x87 ∷ 0x65 ∷ 0x4b ∷ [])
      0

abbrev pub slot_sel_stream_id : ℕ
slot_sel_stream_id =
    stream_number
      (0x75 ∷ 0x31 ∷ 0xab ∷ 0xcd ∷ 0x12 ∷ 0x34 ∷ 0x56 ∷ 0x78 ∷ 0x90 ∷ 0xfe ∷ 0xdc ∷ 0xba ∷ 0x09
        ∷ 0x87 ∷ 0x65 ∷ 0x4c ∷ [])
      0

abbrev pub ecpri_iq_stream_id : ℕ
ecpri_iq_stream_id =
    stream_number
      (0xF1 ∷ 0xF2 ∷ 0x29 ∷ 0x0F ∷ 0xD2 ∷ 0x68 ∷ 0x5D ∷ 0x17 ∷ 0xEC ∷ 0xC9 ∷ 0x90 ∷ 0x2C ∷ 0x4C
        ∷ 0x9F ∷ 0x05 ∷ 0xFE ∷ [])
      0

abbrev pub prb_config_stream_id : ℕ
prb_config_stream_id =
    stream_number
      (0xA1 ∷ 0xB2 ∷ 0xC3 ∷ 0xD4 ∷ 0xE5 ∷ 0xF6 ∷ 0x07 ∷ 0x18 ∷ 0x29 ∷ 0x3A ∷ 0x4B ∷ 0x5C ∷ 0x6D
        ∷ 0x7E ∷ 0x8F ∷ 0x90 ∷ [])
      0

-- `lcm_socket_path` and `codelet_base_path`, the same in both configurations.
module _ (len : Lengths) (lcm_socket_path codelet_base_path : List ℕ) where
  unfoldable pub channel : (name : List ℕ) → ℕ → Channel
  unfolding strncpy
  channel name stream_id = record {
    name = strncpy len.channel name;
    stream_id = stream_id;
    has_serde = false;
  }

  unfoldable pub slot_load_req : LoadReq
  unfolding strncpy channel
  slot_load_req = record {
    codeletset_id = strncpy len.codeset (codes "uplink_slot_samples");
    codelet_name = strncpy len.codelet (codes "collector");
    hook_name = strncpy len.hook (codes "capture_uplink_slot");
    codelet_path =
        strncpy len.path (codelet_base_path ++ codes "/uplink_slot_samples/uplink_slot_collect.o");
    priority = 1;
    runtime_threshold = 0;
    in_io_channel =
        channel (codes "shm_in") shm_cfg_stream_id
        ∷ channel (codes "sel_in") slot_sel_stream_id
        ∷ [];
    out_io_channel = channel (codes "output_map") slot_iq_stream_id ∷ [];
    num_linked_maps = 0;
  }

  unfoldable pub iq_load_req : LoadReq
  unfolding strncpy channel
  iq_load_req = record {
    codeletset_id = strncpy len.codeset (codes "ecpri_iq_samples");
    codelet_name = strncpy len.codelet (codes "collector");
    hook_name = strncpy len.hook (codes "capture_xran_packet");
    codelet_path =
        strncpy len.path (codelet_base_path ++ codes "/ecpri_iq_samples/ecpri_iq_collect.o");
    priority = 1;
    runtime_threshold = 0;
    in_io_channel = channel (codes "prb_config_map") prb_config_stream_id ∷ [];
    out_io_channel = channel (codes "output_map") ecpri_iq_stream_id ∷ [];
    num_linked_maps = 0;
  }

  -- `unload_codelets`, by the name of its codelet set.
  unfoldable pub unload_codelets : List ℕ → LcmCall
  unfolding strncpy
  unload_codelets name =
      unload_call (strncpy len.address lcm_socket_path) (strncpy len.codeset name)

  -- The calls that an event makes.
  unfoldable pub slot_lcm : SlotIqPipeline → Slot.Event → List LcmCall
  unfolding slot_load_req unload_codelets strncpy
  slot_lcm p (Slot.starts load_ok) =
      if p.joining || p.is_running || not p.config.auto_load
      then []
      else load_call (strncpy len.address lcm_socket_path) slot_load_req load_ok ∷ []
  slot_lcm p Slot.stop_finishes =
      if p.joining && is_absent p.worker && p.codelets_loaded
      then unload_codelets (codes "uplink_slot_samples") ∷ []
      else []
  slot_lcm p e = []

  unfoldable pub iq_lcm : IqPipeline → Iq.Event → List LcmCall
  unfolding iq_load_req unload_codelets strncpy
  iq_lcm p (Iq.starts load_ok) =
      if p.joining || p.is_running || not p.config.auto_load
      then []
      else load_call (strncpy len.address lcm_socket_path) iq_load_req load_ok ∷ []
  iq_lcm p Iq.stop_finishes =
      if p.joining && is_absent p.worker && p.codelets_loaded
      then unload_codelets (codes "ecpri_iq_samples") ∷ []
      else []
  iq_lcm p e = []
