-- ===== src/EndToEnd/Section.antt =====
-- From a user plane packet through codelets/ecpri_iq_samples/ecpri_iq_collect.c and
-- src/e3sm/iq_pipeline.cpp to a consumer.
use mathlib.Core.Path.{ap₂, subst}
use mathlib.Core.Option.{some-injective}
use e3controller.Pipeline.Iq.{Machine}
use e3controller.Common.{
  ℕ, zero, suc, ◌+◌, ◌-◌, ◌*◌, ◌/◌, ◌%◌, ◌^◌, ◌≤◌, ◌<◌, ◌≡◌, refl, sym, ap, ◌∙◌, Option, none, some,
  List, [], ◌∷◌, ◌++◌, map, length, get_or, arith,
}
use e3controller.Bfp.{decompress_bfp_9bit}
use e3controller.Bfp.Bits.{packed, scaled_value}
use e3controller.Bfp.Output.{block_value, Shifts, decompress-entries}
use e3controller.Codelet.Ecpri.{IqSampleData, Maps, Env, jbpf_main}
use e3controller.Codelet.Ecpri.Packet.{Message, InRange, IsTarget, frame_of}
use e3controller.Codelet.Ecpri.Roundtrip.{prbs_of, Carries, Admits, collects}
use e3controller.Pipeline.Spsc.{QueueEntry}
use e3controller.Pipeline.Iq.{sample_of, fan_out, dispatch_sample}

packed-agrees : (f g : ℕ → ℕ) (n : ℕ) → ((k : ℕ) → k < n → f k ≡ g k) → packed f n ≡ packed g n
packed-agrees f g zero h = refl
packed-agrees f g (suc n) h =
    let e = h n (omega arith) in
    let r = packed-agrees f g n (λ k lt. h k (omega arith)) in omega (arith, ap (λ x. x % 256) e, r)

-- A value of a block depends on the 28 bytes of the block only.
block_value-agrees :
    (f g : ℕ → ℕ) (i : ℕ) → ((k : ℕ) → k < 28 → f k ≡ g k) → block_value f i ≡ block_value g i
block_value-agrees f g i h =
    let p = packed-agrees (λ k. f (1 + k)) (λ k. g (1 + k)) 27 (λ k lt. h (1 + k) (omega arith)) in
    ap₂ (λ x e. scaled_value (x / 2 ^ (207 - 9 * i) % 512) e) p
      (ap (λ x. x % 256) (h 0 (omega arith)))

abbrev sample_bytes : Message → ℕ → ℕ
sample_bytes m k = get_or m.samples k 0

-- The decompressed values of a message, block by block.
abbrev pub Values : Message → List ℕ → Type 0
Values m out =
    (length out ≡ prbs_of m * 24)
    × ((q i : ℕ)
        → q < prbs_of m
        → i < 24
        → get_or out (q * 24 + i) 0 ≡ block_value (λ k. get_or m.samples (q * 28 + k) 0) i)

-- The samples of a message as the decompression needs them: 28 bytes at least to each PRB, the first of
-- them a shift below 32.
pub record Compressed (m : Message) : Type 0 where
  pub enough : prbs_of m * 28 ≤ length m.samples
  pub shifts : Shifts (sample_bytes m) (prbs_of m)

carried-decompresses :
    (wide_shift : ℕ → ℕ → ℕ) (env : Env) (m : Message) (x : IqSampleData)
    → Carries env m x
    → Compressed m
    → (out : List ℕ) × (decompress_bfp_9bit wide_shift x.iq_payload x.payload_size x.num_prbu
        ≡ some out)
      × Values m out
carried-decompresses wide_shift env m x c h =
    let enough : x.num_prbu * 28 ≤ x.payload_size =
      omega (arith, c.num_prbu, c.payload_size, h.enough) in
    let carried = λ (q k : ℕ) (lt : q < prbs_of m) (lk : k < 28).
      c.iq_payload (q * 28 + k) (omega (arith, h.enough)) in
    let shifts : Shifts x.iq_payload x.num_prbu = λ q lt.
      let lt' : q < prbs_of m = omega (arith, lt, c.num_prbu) in
      omega (arith, h.shifts q lt', ap (λ n. n % 256) (carried q 0 lt' (omega arith))) in
    let (out, d, len, values) =
      (decompress-entries wide_shift x.iq_payload x.payload_size x.num_prbu shifts).0 enough in
    (
      out,
      d,
      (
        len ∙ ap (λ n. n * 24) c.num_prbu,
        λ q i lt li.
            values q i (omega (arith, c.num_prbu)) li
            ∙ block_value-agrees (λ k. x.iq_payload (q * 28 + k)) (λ k. sample_bytes m (q * 28 + k))
                i (λ k lk. carried q k lt lk),
      ),
    )

module _ (mem : ℕ → IqSampleData) (machine : Machine) where
  fan_out-all :
      (cs : List ℕ) (e : QueueEntry) (out : List ℕ)
      → fan_out mem machine cs e (some out) ≡ map (λ c. (c, sample_of mem machine e out)) cs
  fan_out-all [] e out = refl
  fan_out-all (c ∷ cs) e out = ap (λ r. (c, sample_of mem machine e out) ∷ r) (fan_out-all cs e out)

  dispatch-carried :
      (env : Env) (m : Message) (e : QueueEntry) (cs : List ℕ)
      → Carries env m (mem e.buf)
      → Compressed m
      → (out : List ℕ) × (dispatch_sample mem machine cs e
          ≡ map (λ c. (c, sample_of mem machine e out)) cs)
        × Values m out
  unfolding dispatch_sample
  dispatch-carried env m e cs c h =
      let (out, d, v) = carried-decompresses machine.wide_shift env m (mem e.buf) c h in
      (out, ap (fan_out mem machine cs e) d ∙ fan_out-all cs e out, v)

-- What jbpf hands over next of the samples that a codelet has put out.
abbrev last_of {ℓ} : {A : Type ℓ} → A → List A → A
last_of x [] = x
last_of x (y ∷ ys) = last_of y ys

abbrev pub newest {ℓ} : {A : Type ℓ} → List A → Option A
newest [] = none
newest (x ∷ xs) = some (last_of x xs)

last_of-append {ℓ} : {A : Type ℓ} (y : A) (ys : List A) (x : A) → last_of y (ys ++ (x ∷ [])) ≡ x
last_of-append y [] x = refl
last_of-append y (z ∷ zs) x = last_of-append z zs x

newest-append {ℓ} : {A : Type ℓ} (xs : List A) (x : A) → newest (xs ++ (x ∷ [])) ≡ some x
newest-append [] x = refl
newest-append (y ∷ ys) x = ap some (last_of-append y ys x)

-- For a user plane message that the codelet admits, with 28 bytes of samples at least to each of its
-- PRBs, the first a shift below 32, and a queue entry of the pipeline whose buffer holds the newest sample of the codelet's
-- output: this sample is put out by the call and carries the message's fields, and the worker's fan-out
-- of the entry calls every consumer once, in the order of registration, with the decompressed values
-- of the message, 24 to a PRB, each from the 28 bytes of its own block of the message, whatever stood
-- in the codelet's buffer.
pub message-arrives :
    (env : Env) (maps : Maps) (m : Message) (mem : ℕ → IqSampleData) (machine : Machine)
    (e : QueueEntry) (cs : List ℕ)
    → InRange m
    → IsTarget m
    → Admits env maps m
    → Compressed m
    → newest ((jbpf_main env (frame_of m) maps).0.output) ≡ some (mem e.buf)
    → ((jbpf_main env (frame_of m) maps).0.output ≡ maps.output ++ (mem e.buf ∷ []))
      × Carries env m (mem e.buf)
      × ((out : List ℕ) × (dispatch_sample mem machine cs e
            ≡ map (λ c. (c, sample_of mem machine e out)) cs)
          × Values m out)
message-arrives env maps m mem machine e cs r t a h held =
    let (x, put, ok', carries) = collects env maps m r t a in
    let same : x ≡ mem e.buf =
      some-injective x (mem e.buf)
        (sym (newest-append maps.output x) ∙ ap newest (sym put) ∙ held) in
    let carries' = subst (λ s. Carries env m s) same carries in
    (
      put ∙ ap (λ s. maps.output ++ (s ∷ [])) same,
      carries',
      dispatch-carried mem machine env m e cs carries' h,
    )
