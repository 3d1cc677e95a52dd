-- ===== src/Pipeline/Iq/Filter.antt =====
-- What reaches the consumers of the IQ pipeline has passed its filters.
use mathlib.Core.Path.{subst}
use e3controller.Pipeline.Iq.{Machine}
use e3controller.Common.{
  ℕ, ◌<◌, ◌≡◌, refl, sym, Bool, false, not, ◌&&◌, Option, none, some, List, [], ◌∷◌, map, length,
  if_cases, arith, All, All-append, All-append_left,
}
use e3controller.Bfp.{decompress_bfp_9bit}
use e3controller.Codelet.Ecpri.{IqSampleData}
use e3controller.Pipeline.Spsc.{QueueEntry, is_empty, is_full}
use e3controller.Pipeline.Worker.{Worker, Leaving, dispatched, drained, is_absent}
use e3controller.Pipeline.Ledger.{entry_left, pending, calls_of}
use e3controller.Pipeline.Iq.{
  IqPipeline, DecompressedSample, queue_capacity, Config, ErrorCode, fresh, start, stop_request,
  stop_finish, send_prb_config, entry_of, filtered, process_buffer, fan_out, dispatch_sample,
  worker_turn, worker_loop, Event, step, run, starts, stop_requests, stop_finishes, worker_steps,
  handler_returns, handler_enters, handles,
}
use e3controller.Pipeline.Iq.Buffers.{sections_settle}

-- An uplink section of the PRB count that is configured, if one is.
pub record IsFit (c : Config) (s : IqSampleData) : Type 0 where
  pub uplink : s.direction ≡ 1
  pub prbs : 0 < c.expected_num_prbu → s.num_prbu ≡ c.expected_num_prbu

-- A section as a consumer gets it, with both its pointers set.
pub record IsDelivery (wide_shift : ℕ → ℕ → ℕ) (c : Config) (call : ℕ × DecompressedSample)
    : Type 0 where
  pub section : IqSampleData
  pub values : List ℕ
  pub raw : DecompressedSample.raw call.1 ≡ some section
  pub decompressed_iq : DecompressedSample.decompressed_iq call.1 ≡ some values
  pub decompressed_size : DecompressedSample.decompressed_size call.1 ≡ length values
  pub fit : IsFit c section
  pub decompressed :
      decompress_bfp_9bit wide_shift section.iq_payload section.payload_size section.num_prbu
      ≡ some values

module _ (mem : ℕ → IqSampleData) (machine : Machine) where
  abbrev Fit : Config → QueueEntry → Type 0
  Fit c e = IsFit c (mem e.buf)

  record Filtered (c : Config) (p : IqPipeline) : Type 0 where
    pub config : p.config ≡ c
    pub fit : All (Fit c) p.accepted

  kept-IsFit : (p : IqPipeline) (b : ℕ) → filtered mem machine p b ≡ false → IsFit p.config (mem b)
  kept-IsFit p b h = record { uplink = ground arith; prbs = λ pos'. ground arith }

  buffer-Filtered :
      (c : Config) (p : IqPipeline) (now b : ℕ)
      → Filtered c p
      → Filtered c (process_buffer mem machine p now b)
  unfolding process_buffer
  buffer-Filtered c p now b v =
      if_cases (Filtered c) (filtered mem machine p b)
        (λ skip. record { config = v.config; fit = v.fit })
        (λ keep.
          if_cases (Filtered c) (is_full queue_capacity p.queue)
            (λ full. record { config = v.config; fit = v.fit })
            (λ room. record {
              config = v.config;
              fit =
                  All-append (Fit c) p.accepted (entry_of mem machine p now b ∷ []) v.fit
                    (subst (λ k. IsFit k (mem b)) v.config (kept-IsFit p b keep), tt);
            }))

  worker-Filtered :
      (c : Config) (w : Worker) (p : IqPipeline)
      → Filtered c p
      → Filtered c (worker_turn mem machine w p)
  unfolding worker_turn
  worker-Filtered c Worker.absent p v = v
  worker-Filtered c Worker.polling p v =
      if_cases (Filtered c) p.is_running
        (λ on.
          if_cases (Filtered c) (is_empty p.queue) (λ e. v)
            (λ e. record { config = v.config; fit = v.fit }))
        (λ off. record { config = v.config; fit = v.fit })
  worker-Filtered c Worker.fanned_out p v = record { config = v.config; fit = v.fit }
  worker-Filtered c Worker.released_buf p v = record { config = v.config; fit = v.fit }

  send-Filtered :
      (c : Config) (p : IqPipeline) (send_ok h : Bool)
      → Filtered c p
      → Filtered c (record (send_prb_config p send_ok) { in_handler = h })
  unfolding send_prb_config
  send-Filtered c p send_ok h v =
      if_cases (λ (q : IqPipeline). Filtered c (record q { in_handler = h }))
        (not p.prb_config_sent && send_ok) (λ s. record { config = v.config; fit = v.fit })
        (λ s. record { config = v.config; fit = v.fit })

  step-Filtered :
      (c : Config) (p : IqPipeline) (e : Event) → Filtered c p → Filtered c (step mem machine p e)
  unfolding step start stop_request stop_finish worker_loop
  step-Filtered c p (starts load_ok) v =
      if_cases (Filtered c) p.joining (λ j. v)
        (λ j.
          if_cases (λ (r : IqPipeline × ErrorCode). Filtered c r.0) p.is_running (λ on. v)
            (λ off.
              if_cases (λ (r : IqPipeline × ErrorCode). Filtered c r.0)
                (p.config.auto_load && not load_ok) (λ f. v)
                (λ f. record { config = v.config; fit = v.fit })))
  step-Filtered c p stop_requests v =
      if_cases (Filtered c) p.joining (λ j. v)
        (λ j.
          if_cases (Filtered c) p.is_running (λ on. record { config = v.config; fit = v.fit })
            (λ off. v))
  step-Filtered c p stop_finishes v =
      if_cases (Filtered c) (p.joining && is_absent p.worker)
        (λ h. record { config = v.config; fit = v.fit }) (λ h. v)
  step-Filtered c p worker_steps v = worker-Filtered c p.worker p v
  step-Filtered c p (handler_enters send_ok) v =
      if_cases (Filtered c) (p.registered && not p.in_handler) (λ h. send-Filtered c p send_ok _ v)
        (λ h. v)
  step-Filtered c p (handles now b) v =
      if_cases (Filtered c) p.in_handler (λ h. buffer-Filtered c p now b v) (λ h. v)
  step-Filtered c p handler_returns v = record { config = v.config; fit = v.fit }

  run-Filtered :
      (c : Config) (es : List Event) (p : IqPipeline)
      → Filtered c p
      → Filtered c (run mem machine p es)
  unfolding run
  run-Filtered c [] p v = v
  run-Filtered c (e ∷ es) p v = run-Filtered c es (step mem machine p e) (step-Filtered c p e v)

  fan_out-IsDelivery :
      (c : Config) (cs : List ℕ) (e : QueueEntry) (o : Option (List ℕ))
      → decompress_bfp_9bit machine.wide_shift
          (IqSampleData.iq_payload (mem e.buf))
          (IqSampleData.payload_size (mem e.buf))
          (IqSampleData.num_prbu (mem e.buf))
        ≡ o
      → Fit c e
      → All (IsDelivery machine.wide_shift c) (fan_out mem machine cs e o)
  fan_out-IsDelivery c cs e none d f = tt
  fan_out-IsDelivery c [] e (some iq) d f = tt
  fan_out-IsDelivery c (k ∷ cs) e (some iq) d f = (
    record {
      section = mem e.buf;
      values = iq;
      raw = refl;
      decompressed_iq = refl;
      decompressed_size = refl;
      fit = f;
      decompressed = d;
    },
    fan_out-IsDelivery c cs e (some iq) d f,
  )

  calls_of-IsDelivery :
      (c : Config) (cs : List ℕ) (ls : List Leaving)
      → All (Fit c) (map entry_left ls)
      → All (IsDelivery machine.wide_shift c) (calls_of (dispatch_sample mem machine cs) ls)
  unfolding dispatch_sample
  calls_of-IsDelivery c cs [] h = tt
  calls_of-IsDelivery c cs (dispatched e ∷ ls) (f, h) =
      All-append (IsDelivery machine.wide_shift c) (dispatch_sample mem machine cs e)
        (calls_of (dispatch_sample mem machine cs) ls) (fan_out-IsDelivery c cs e _ refl f)
        (calls_of-IsDelivery c cs ls h)
  calls_of-IsDelivery c cs (drained e ∷ ls) (f, h) = calls_of-IsDelivery c cs ls h

  -- After any interleaving, every section that a consumer was called with is an uplink one, has the
  -- PRB count that is configured if one is, and comes with the BFP decompression of its payload, which
  -- has succeeded.
  pub calls-IsDelivery :
      (c : Config) (cs : List ℕ) (es : List Event)
      → All (IsDelivery machine.wide_shift c) (IqPipeline.calls (run mem machine (fresh c cs) es))
  calls-IsDelivery c cs es =
      let p = run mem machine (fresh c cs) es in
      let v = run-Filtered c es (fresh c cs) (record { config = refl; fit = tt }) in
      let (conserve, bound, order, called) = sections_settle mem machine c cs es 0 in
      let fit : All (Fit c) (map entry_left p.left) =
        All-append_left (Fit c) (map entry_left p.left) (pending p.worker _)
          (subst (All (Fit c)) order v.fit) in
      subst (All (IsDelivery machine.wide_shift c)) (sym called)
        (calls_of-IsDelivery c p.consumers p.left fit)
