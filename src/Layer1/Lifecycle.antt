-- ===== src/Layer1/Lifecycle.antt =====
-- How libe3 drives the object: registration, subscription, control requests and removal. `start` and
-- `stop` run on the slot pipeline too, `stop` up to the join.
use e3controller.Common.{
  ℕ, ◌≡◌, Bool, true, false, not, [], ◌∷◌, ◌++◌, if◌then◌else◌, if_cases, arith,
}
use e3controller.Config.Types.{ControllerConfig}
use e3controller.Shm.Writer.{fresh_writer, OsOutcome, open_shm, close}
use e3controller.Shm.Writer.Limits.{close_released}
use e3controller.Pipeline.Slot.{
  SlotIqPipeline, ErrorCode, success, internal_error, start, stop_request,
}
use e3controller.Layer1.State.{E3SmLayer1, DropLog, disabled, closed}

abbrev log_of : Bool → DropLog
log_of true = disabled
log_of false = closed

-- The constructor; `no_path` says whether the drop log's path is empty.
abbrev pub fresh_layer1 : ControllerConfig → Bool → E3SmLayer1
fresh_layer1 cfg no_path = record {
  shm_writer = fresh_writer;
  is_running = false;
  geom = cfg.radio;
  shm_name = cfg.shm.name;
  target_slot = cfg.target_slot;
  geometry_checked = false;
  geometry_ok = true;
  truncated_warned = false;
  writer_mode_warned = false;
  slot_publish_seq = 0;
  drops = λ i. 0;
  drops_last_report = 0;
  drops_last_total = 0;
  drops_log = log_of no_path;
  sent = [];
  nacks = [];
  reports = [];
  clock_reads = 0;
}

-- `init`: the region, then the consumer, which is called 0.
unfoldable pub init :
    OsOutcome
    → ControllerConfig
    → E3SmLayer1
    → SlotIqPipeline
    → E3SmLayer1 × SlotIqPipeline × ErrorCode
init os cfg l p =
    let (w, opened) =
      open_shm os l.shm_writer l.shm_name cfg.shm.size_bytes l.geom cfg.shm.cbf16_scale
        cfg.shm.writer in
    let l' = record l { shm_writer = w } in
    if opened
    then (l', record p { consumers = p.consumers ++ (0 ∷ []) }, success)
    else (l', p, internal_error)

abbrev is_success : ErrorCode → Bool
is_success success = true
is_success internal_error = false

-- `start`; the flag is the answer of the codelet loader.
unfoldable pub subscribe :
    E3SmLayer1 → SlotIqPipeline → Bool → E3SmLayer1 × SlotIqPipeline × ErrorCode
subscribe l p load_ok =
    let rested = record l { truncated_warned = false; writer_mode_warned = false } in
    let (p', rc) = start p load_ok in
    if l.is_running
    then (l, p, success)
    else (if is_success rc
        then (record rested { is_running = true }, p', success)
        else (rested, p', rc))

-- `stop`
unfoldable pub unsubscribe : E3SmLayer1 → SlotIqPipeline → E3SmLayer1 × SlotIqPipeline
unsubscribe l p =
    if not l.is_running then (l, p) else (record l { is_running = false }, stop_request p)

-- `destroy`
unfoldable pub destroy : E3SmLayer1 → SlotIqPipeline → E3SmLayer1 × SlotIqPipeline
unfolding unsubscribe
destroy l p = let (l', p') = unsubscribe l p in (record l' { shm_writer = close l'.shm_writer }, p')

-- `handle_control_action`: SM_ERROR_INVALID_PARAM after a negative acknowledgement.
pub data ControlOutcome : Type 0 where
  sm_error_invalid_param : ControlOutcome

unfoldable pub handle_control_action : E3SmLayer1 → ℕ → E3SmLayer1 × ControlOutcome
handle_control_action l request_id =
    (record l { nacks = l.nacks ++ (request_id ∷ []) }, sm_error_invalid_param)

-- The object and the pipeline run together or not at all, while `subscribe` and `unsubscribe` are
-- what starts and stops the pipeline.
abbrev pub InStep : E3SmLayer1 → SlotIqPipeline → Type 0
InStep l p = (l.is_running ≡ p.is_running) × (p.is_running ≡ p.registered)

-- A subscription keeps the object and the pipeline in step, whether or not the codelet loads: on a
-- load that fails neither runs and the loader's error is returned, and otherwise both run with the
-- handler registered, and the warnings of a new session are armed.
pub subscribe-InStep :
    (l : E3SmLayer1) (p : SlotIqPipeline) (load_ok : Bool)
    → InStep l p
    → let (l', p', rc) = subscribe l p load_ok in
      InStep l' p'
      × (rc ≡ success → l'.is_running ≡ true)
      × (rc ≡ internal_error
          → (l'.is_running ≡ false)
            × (l.is_running ≡ false)
            × (p.config.auto_load ≡ true)
            × (load_ok ≡ false))
unfolding subscribe start
subscribe-InStep l p load_ok v = ground arith

unsubscribe-InStep :
    (l : E3SmLayer1) (p : SlotIqPipeline)
    → InStep l p
    → let (l', p') = unsubscribe l p in
      InStep l' p' × (p'.is_running ≡ false) × (p'.registered ≡ false)
unfolding unsubscribe stop_request
unsubscribe-InStep l p v =
    if_cases
      (λ (r : E3SmLayer1 × SlotIqPipeline).
        InStep r.0 r.1 × (r.1.is_running ≡ false) × (r.1.registered ≡ false))
      (not l.is_running) (λ h. ground arith) (λ h. ground arith)

-- Removing the subscription takes the handler from the dispatcher and asks the worker to end;
-- destroying the object does that and gives up the region.
pub destroy-InStep :
    (l : E3SmLayer1) (p : SlotIqPipeline)
    → InStep l p
    → let (l', p') = destroy l p in
      InStep l' p'
      × (p'.is_running ≡ false)
      × (p'.registered ≡ false)
      × (l'.shm_writer.is_mapped ≡ false)
unfolding destroy
destroy-InStep l p v =
    let (u, off, out) = unsubscribe-InStep l p v in
    (u, off, out, (close_released (unsubscribe l p).0.shm_writer).0)
