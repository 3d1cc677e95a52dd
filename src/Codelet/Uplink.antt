-- ===== src/Codelet/Uplink.antt =====
-- The codelet codelets/uplink_slot_samples/uplink_slot_collect.c: `jbpf_main` on one uplink slot. A
-- 64-bit answer of the helper is its bit pattern, so that the negative ones are those from 2^63 on.
-- The helper itself runs on the RAN side; its answer and those of jbpf are in `Env`.
pub mod Selection
pub mod Published
mod Tests
use e3controller.Common.{
  ℕ, ◌+◌, ◌-◌, ◌/◌, ◌%◌, ◌^◌, Bool, true, false, not, ◌&&◌, ◌||◌, Option, none, some, List, [], ◌∷◌,
  ◌++◌, ltb, leb, ◌==◌, ◌!=◌, if◌then◌else◌,
}
use e3controller.Pipeline.Slot.Messages.{SlotDesc, ShmCfg, SlotSel}

-- E3_SLOT_BYTES_8P, E3_SLOT_BYTES_4P, E3_SLOT_BYTES_2P
abbrev pub slot_bytes_8p : ℕ
slot_bytes_8p = 1467648

abbrev pub slot_bytes_4p : ℕ
slot_bytes_4p = 733824

abbrev pub slot_bytes_2p : ℕ
slot_bytes_2p = 366912

-- struct jbpf_ran_slot_ctx; `grid_bytes` is `data_end - data`.
pub record SlotCtx : Type 0 where
  pub grid_bytes : ℕ
  pub gnb_ts_ns : ℕ
  pub sfn : ℕ
  pub subframe_id : ℕ
  pub slot_id : ℕ
  pub ctx_id : ℕ
  pub nof_ports : ℕ
  pub nof_symbols : ℕ
  pub nof_subcarriers : ℕ

-- One call's clock at its entry and its exit, the messages on the two control channels, whether the
-- selector's map element is found, the answer of the helper to a length and a selector, whether there
-- is an output buffer, and whether it is sent.
pub record Env : Type 0 where
  pub entry_ns : ℕ
  pub exit_ns : ℕ
  pub shm_in : Option ShmCfg
  pub sel_in : Option SlotSel
  pub sel_found : Bool
  pub publish : ℕ → SlotSel → ℕ
  pub buffer_found : Bool
  pub output_sent : Bool

-- The selector's map, and the calls that the codelet made: attachments, publications with their
-- length, and descriptors sent.
pub record Codelet : Type 0 where
  pub sel : SlotSel
  pub attached : List ShmCfg
  pub published : List ℕ
  pub output : List SlotDesc

pub data ReturnCode : Type 0 where
  success failure : ReturnCode

-- The messages that wait: an attachment, and a selector that is cached.
abbrev attach : Option ShmCfg → Codelet → Codelet
attach none c = c
attach (some cfg) c = record c { attached = c.attached ++ (cfg ∷ []) }

abbrev cache : Bool → Option SlotSel → Codelet → Codelet
cache sel_found none c = c
cache sel_found (some s) c = if sel_found then record c { sel = s } else c

unfoldable pub receive : Env → Codelet → Codelet
receive env c = cache env.sel_found env.sel_in (attach env.shm_in c)

-- Whether the frame and the slot filters let a slot pass.
unfoldable pub frame_passes : SlotSel → ℕ → Bool
frame_passes sel sfn = not (ltb 1 sel.sfn_mod) || sfn % sel.sfn_mod % 2 ^ 16 == sel.sfn_offset

unfoldable pub slot_passes : SlotSel → ℕ → Bool
slot_passes sel slot = sel.slot_mask == 0 || (ltb slot 64 && sel.slot_mask / 2 ^ slot % 2 != 0)

-- E3_SLOT_FLAG_FILTERED, where a filter is on.
unfoldable pub filter_flag : SlotSel → ℕ
filter_flag sel = if ltb 1 sel.sfn_mod || sel.slot_mask != 0 then 2 else 0

-- The ladder: the largest size that the grid holds.
unfoldable pub rung : ℕ → Option ℕ
rung grid_bytes =
    if leb slot_bytes_8p grid_bytes
    then some slot_bytes_8p
    else if leb slot_bytes_4p grid_bytes
    then some slot_bytes_4p
    else if leb slot_bytes_2p grid_bytes
    then some slot_bytes_2p
    else none

-- What the ladder leaves: `published`, `flags`, and `rc` as the descriptor takes it.
pub record Outcome : Type 0 where
  pub bytes : ℕ
  pub flags : ℕ
  pub rc : ℕ

-- Without a rung `rc` stays -1; a refusal is a negative `rc`, which is then set to 0.
unfoldable pub outcome_of : Env → SlotSel → Option ℕ → Outcome
outcome_of env sel none = record { bytes = 0; flags = filter_flag sel + 1; rc = 2 ^ 64 - 1 }
outcome_of env sel (some n) =
    if leb (2 ^ 63) (env.publish n sel)
    then record { bytes = 0; flags = filter_flag sel + 1; rc = 0 }
    else record { bytes = n; flags = filter_flag sel; rc = env.publish n sel }

abbrev pub calls_of : Option ℕ → List ℕ
calls_of none = []
calls_of (some n) = n ∷ []

abbrev pub desc_of : Env → SlotCtx → Outcome → SlotDesc
desc_of env ctx o = record {
  gnb_ts_ns = ctx.gnb_ts_ns;
  codelet_entry_ts_ns = env.entry_ns;
  codelet_ts_ns = env.exit_ns;
  bytes_written = o.bytes;
  fh_write_index = o.rc % 2 ^ 32;
  fh_buffer_index = o.rc / 2 ^ 32 % 2 ^ 8;
  flags = o.flags;
  sfn = ctx.sfn;
  subframe_id = ctx.subframe_id;
  slot_id = ctx.slot_id;
  sector_id = ctx.ctx_id;
  nof_ports = ctx.nof_ports;
  nof_symbols = ctx.nof_symbols;
  nof_subcarriers = ctx.nof_subcarriers;
}

-- From the ladder on.
unfoldable pub publish_slot : Env → SlotCtx → Codelet → Codelet × ReturnCode
unfolding outcome_of
publish_slot env ctx c =
    let c' = record c { published = c.published ++ calls_of (rung ctx.grid_bytes) } in
    if not env.buffer_found then (c', failure) else if not env.output_sent then (c', failure) else (
      record c' {
        output = c.output ++ (desc_of env ctx (outcome_of env c.sel (rung ctx.grid_bytes)) ∷ []);
      },
      success,
    )

unfoldable pub jbpf_main : Env → SlotCtx → Codelet → Codelet × ReturnCode
jbpf_main env ctx c =
    let c' = receive env c in
    if not env.sel_found
    then (c', failure)
    else if not (frame_passes c'.sel ctx.sfn && slot_passes c'.sel ctx.slot_id)
    then (c', success)
    else publish_slot env ctx c'
