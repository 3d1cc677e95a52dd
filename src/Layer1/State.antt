-- ===== src/Layer1/State.antt =====
-- The state of E3SMLayer1 (src/e3sm/l1_kpm/e3sm_layer_1.h), the drop counters, and their throttled
-- report. The atomics are 64-bit counters; times are nanoseconds of the steady clock.
use Prim.Native.String.{String}
use e3controller.Common.{
  ℕ, zero, suc, ◌+◌, ◌-◌, ◌%◌, ◌^◌, ℤ, Bool, List, [], ◌∷◌, ◌++◌, Option, ◌==◌, ltb, not, ◌&&◌,
  if◌then◌else◌, update,
}
use e3controller.Config.Geometry.{RadioGeometry}
use e3controller.Config.Types.{EncodingFormat}
use e3controller.Shm.Writer.{ShmIqWriter}

-- E3SMLayer1::Drop
pub data Drop : Type 0 where
  not_running slot_filtered geometry_mismatch no_iq blob_too_small : Drop
  ran_published_nothing no_subscribers encode_failed emit_failed : Drop

-- `static_cast<std::size_t>(d)`
abbrev pub drop_index : Drop → ℕ
drop_index not_running = 0
drop_index slot_filtered = 1
drop_index geometry_mismatch = 2
drop_index no_iq = 3
drop_index blob_too_small = 4
drop_index ran_published_nothing = 5
drop_index no_subscribers = 6
drop_index encode_failed = 7
drop_index emit_failed = 8

abbrev pub drop_count_max : ℕ
drop_count_max = 9

unfoldable pub drop_name : Drop → String
drop_name not_running = "not_running"
drop_name slot_filtered = "slot_filtered"
drop_name geometry_mismatch = "geometry_mismatch"
drop_name no_iq = "no_iq"
drop_name blob_too_small = "blob_too_small"
drop_name ran_published_nothing = "ran_published_nothing"
drop_name no_subscribers = "no_subscribers"
drop_name encode_failed = "encode_failed"
drop_name emit_failed = "emit_failed"

-- What the encoders are given for a slot.
pub record Indication : Type 0 where
  pub timestamp : ℕ
  pub sfn : ℕ
  pub slot : ℕ
  pub shm_name : String
  pub fh_buffer_index : ℕ
  pub fh_write_index : ℕ
  pub nof_ports : ℕ

-- A line of the drop log.
pub record DropRow : Type 0 where
  pub uptime_ns : ℕ
  pub published : ℕ
  pub dropped_total : ℕ
  pub latrec_clamped : ℕ
  pub by_reason : List ℕ

-- The drop log: no path, a path that is not open yet, or open since a time, with its rows.
pub data DropLog : Type 0 where
  disabled closed : DropLog
  opened : ℕ → List DropRow → DropLog

-- The object, with the messages it handed to libe3 (`sent`, also those that libe3 refused), the
-- control requests it answered with a negative acknowledgement, the live lines it printed with their
-- times, and how often it has read the clock.
pub record E3SmLayer1 : Type 0 where
  pub shm_writer : ShmIqWriter
  pub is_running : Bool
  pub geom : RadioGeometry
  pub shm_name : String
  pub target_slot : ℤ
  pub geometry_checked : Bool
  pub geometry_ok : Bool
  pub truncated_warned : Bool
  pub writer_mode_warned : Bool
  pub slot_publish_seq : ℕ
  pub drops : ℕ → ℕ
  pub drops_last_report : ℕ
  pub drops_last_total : ℕ
  pub drops_log : DropLog
  pub sent : List (ℕ × List ℕ)
  pub nacks : List ℕ
  pub reports : List ℕ
  pub clock_reads : ℕ

-- What surrounds the object: the clock by reading, whether the drop log can be created, the count of
-- clamped trace stamps, the agent's encoding and its encoders, the subscribers, whether libe3 takes a
-- message for a dApp, and the writer's conversion.
pub record Env : Type 0 where
  pub clock : ℕ → ℕ
  pub log_opens : Bool
  pub clamped : ℕ
  pub encoding : EncodingFormat
  pub encode : EncodingFormat → Indication → Option (List ℕ)
  pub subscribers : List ℕ
  pub emit_ok : ℕ → Bool
  pub convert : ℕ → ℕ → ℕ

abbrev pub drop_count : E3SmLayer1 → Drop → ℕ
drop_count l d = l.drops (drop_index d)

-- `for (i = 0; i < n; ++i) t += drops_[i]`
unfoldable pub sum_drops : (ℕ → ℕ) → ℕ → ℕ
sum_drops drops zero = 0
sum_drops drops (suc n) = (sum_drops drops n + drops n) % 2 ^ 64

abbrev pub total_drops : E3SmLayer1 → ℕ
total_drops l = sum_drops l.drops drop_count_max

abbrev pub published_slots : E3SmLayer1 → ℕ
published_slots l = l.slot_publish_seq

abbrev by_reason : (ℕ → ℕ) → List ℕ
by_reason d = d 0 ∷ d 1 ∷ d 2 ∷ d 3 ∷ d 4 ∷ d 5 ∷ d 6 ∷ d 7 ∷ d 8 ∷ []

abbrev drop_row : Env → E3SmLayer1 → (now start : ℕ) → DropRow
drop_row env l now start = record {
  uptime_ns = now - start;
  published = published_slots l;
  dropped_total = total_drops l;
  latrec_clamped = env.clamped;
  by_reason = by_reason l.drops;
}

-- The part of `maybe_log_drops` that writes the file.
abbrev append_row : Env → E3SmLayer1 → ℕ → DropLog → DropLog
append_row env l now disabled = disabled
append_row env l now closed =
    if env.log_opens then opened now (drop_row env l now now ∷ []) else disabled
append_row env l now (opened start rows) = opened start (rows ++ (drop_row env l now start ∷ []))

-- Less than a second after the last report; a time of zero stands for none.
abbrev pub too_soon : E3SmLayer1 → ℕ → Bool
too_soon l now = not (l.drops_last_report == 0) && ltb now (l.drops_last_report + 1_000_000_000)

-- `maybe_log_drops` after the clock read `now`.
unfoldable pub log_drops_at : Env → E3SmLayer1 → ℕ → E3SmLayer1
log_drops_at env l now =
    if too_soon l now
    then l
    else (if total_drops l == l.drops_last_total
        then record l { drops_last_report = now }
        else record l {
          drops_last_report = now;
          drops_last_total = total_drops l;
          reports = now ∷ l.reports;
          drops_log = append_row env l now l.drops_log;
        })

unfoldable pub maybe_log_drops : Env → E3SmLayer1 → E3SmLayer1
unfolding log_drops_at
maybe_log_drops env l =
    log_drops_at env (record l { clock_reads = l.clock_reads + 1 }) (env.clock l.clock_reads)

unfoldable pub bump : Drop → (ℕ → ℕ) → ℕ → ℕ
bump d drops = update drops (drop_index d) ((drops (drop_index d) + 1) % 2 ^ 64)

unfoldable pub note_drop : Env → E3SmLayer1 → Drop → E3SmLayer1
unfolding maybe_log_drops bump
note_drop env l d = maybe_log_drops env (record l { drops = bump d l.drops })
