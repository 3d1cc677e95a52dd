-- ===== src/Spectrum/Lifecycle.antt =====
-- How libe3 drives the object: registration, subscription and removal, which start and stop the IQ
-- pipeline, `stop` up to the join; and how the pipeline calls it.
use e3controller.Common.{ℕ, ◌≡◌, Bool, true, false, not, List, [], ◌∷◌, ◌++◌, if◌then◌else◌, arith}
use e3controller.Pipeline.Iq.{
  DecompressedSample, IqPipeline, ErrorCode, success, internal_error, start, stop_request,
}
use e3controller.Spectrum.{E3SmSpectrum, Env, on_sample}

-- The constructor.
abbrev pub fresh_spectrum : Bool → E3SmSpectrum
fresh_spectrum has_stats_path = record {
  is_running = false;
  has_stats_path = has_stats_path;
  sample_publish_seq = 0;
  json_warned = false;
  sent = [];
  acks = [];
  stats = [];
}

-- `init`: the consumer, which is called 0.
abbrev pub init : IqPipeline → IqPipeline × ErrorCode
init p = (record p { consumers = p.consumers ++ (0 ∷ []) }, success)

-- The consumer: what the pipeline calls it with, one section after the other.
abbrev pub consume : Env → E3SmSpectrum → List (ℕ × DecompressedSample) → E3SmSpectrum
consume env l [] = l
consume env l (call ∷ calls) = consume env (on_sample env l call.1) calls

abbrev is_success : ErrorCode → Bool
is_success success = true
is_success internal_error = false

-- `start`; the flag is the answer of the codelet loader.
unfoldable pub subscribe : E3SmSpectrum → IqPipeline → Bool → E3SmSpectrum × IqPipeline × ErrorCode
subscribe l p load_ok =
    let (p', rc) = start p load_ok in
    if l.is_running
    then (l, p, success)
    else (if is_success rc then (record l { is_running = true }, p', success) else (l, p', rc))

-- `stop`
unfoldable pub unsubscribe : E3SmSpectrum → IqPipeline → E3SmSpectrum × IqPipeline
unsubscribe l p =
    if not l.is_running then (l, p) else (record l { is_running = false }, stop_request p)

-- `destroy`
abbrev pub destroy : E3SmSpectrum → IqPipeline → E3SmSpectrum × IqPipeline
destroy l p = unsubscribe l p

-- The object and the pipeline run together or not at all.
abbrev pub InStep : E3SmSpectrum → IqPipeline → Type 0
InStep l p = (l.is_running ≡ p.is_running) × (p.is_running ≡ p.registered)

-- A subscription and its end keep the object and the pipeline in step. Where the codelet does not load,
-- neither runs and the error is returned; after the end neither runs.
pub session-InStep :
    (l : E3SmSpectrum) (p : IqPipeline) (load_ok : Bool)
    → InStep l p
    → let (l', p', rc) = subscribe l p load_ok in
      let (l'', p'') = unsubscribe l' p' in
      InStep l' p'
      × (rc ≡ success → l'.is_running ≡ true)
      × (rc ≡ internal_error → (l'.is_running ≡ false) × (load_ok ≡ false))
      × InStep l'' p''
      × (p''.is_running ≡ false)
unfolding subscribe unsubscribe start stop_request
session-InStep l p load_ok v = ground arith
