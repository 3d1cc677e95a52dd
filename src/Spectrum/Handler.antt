-- ===== src/Spectrum/Handler.antt =====
-- What a section and a control request do.
use mathlib.Core.List.{append-nil}
use e3controller.Common.{
  ℕ, ◌+◌, ◌*◌, ◌%◌, ◌^◌, ◌≤◌, ◌<◌, ◌≡◌, ◌≢◌, ◌⊎◌, inl, inr, refl, sym, true, false, not, not-false,
  List, [], ◌∷◌, ◌++◌, Option, none, some, ◌==◌, ltb, if◌then◌else◌, if_cases, arith, length,
  length-append,
}
use e3controller.Codelet.Ecpri.{IqSampleData}
use e3controller.Pipeline.Iq.{DecompressedSample}
use e3controller.Spectrum.{
  E3SmSpectrum, Env, on_section, ofdm_sym_size, indication_of, fan_out, publish, no_dapps, is_asn1,
  on_sample, StatsRow, PrbBlacklistControl, control_success, decode_failed, handle_control_action,
}

-- A section that is fit to publish: its pointers are set, to `raw` and `iq`, and it has a subcarrier and
-- all its values.
pub record Fit (s : DecompressedSample) (raw : IqSampleData) (iq : List ℕ) : Type 0 where
  pub has_raw : s.raw ≡ some raw
  pub has_iq : s.decompressed_iq ≡ some iq
  pub subcarriers : 0 < ofdm_sym_size raw.num_prbu
  pub full : ofdm_sym_size raw.num_prbu * 2 ≤ s.decompressed_size

-- What a section does to the object: nothing but the one warning about JSON, or one message to each
-- subscriber and one step of the counter.
pub data Outcome (env : Env) (l : E3SmSpectrum) (s : DecompressedSample) (l' : E3SmSpectrum)
    : Type 0 where
  ignored :
      l'.sent ≡ l.sent
      → l'.sample_publish_seq ≡ l.sample_publish_seq
      → l'.stats ≡ l.stats
      → Outcome env l s l'
  published :
      (raw : IqSampleData) (iq payload : List ℕ)
      → l.is_running ≡ true
      → no_dapps env.subscribers ≡ false
      → is_asn1 env.encoding ≡ true
      → Fit s raw iq
      → env.encode (indication_of raw iq (ofdm_sym_size raw.num_prbu)) ≡ some payload
      → l'.sent ≡ l.sent ++ fan_out payload env.subscribers
      → l'.sample_publish_seq ≡ (l.sample_publish_seq + 1) % 2 ^ 64
      → length l'.stats ≡ length l.stats + (if l.has_stats_path then 1 else 0)
      → Outcome env l s l'

publish-Outcome :
    (env : Env) (l : E3SmSpectrum) (s : DecompressedSample) (raw : IqSampleData) (iq : List ℕ)
    (p : Option (List ℕ))
    → l.is_running ≡ true
    → no_dapps env.subscribers ≡ false
    → is_asn1 env.encoding ≡ true
    → Fit s raw iq
    → env.encode (indication_of raw iq (ofdm_sym_size raw.num_prbu)) ≡ p
    → Outcome env l s (publish env l s raw (ofdm_sym_size raw.num_prbu) p)
publish-Outcome env l s raw iq none run dapps aper fit e = ignored refl refl refl
publish-Outcome env l s raw iq (some payload) run dapps aper fit e =
    published raw iq payload run dapps aper fit e refl refl (
      if_cases
        (λ (r : List StatsRow). length r ≡ length l.stats + (if l.has_stats_path then 1 else 0))
        l.has_stats_path (λ h. rw (h) (length-append l.stats _)) (λ h. rw (h) omega arith))

on_section-Outcome :
    (env : Env) (l : E3SmSpectrum) (s : DecompressedSample) (raw : Option IqSampleData)
    (iq : Option (List ℕ))
    → l.is_running ≡ true
    → no_dapps env.subscribers ≡ false
    → is_asn1 env.encoding ≡ true
    → s.raw ≡ raw
    → s.decompressed_iq ≡ iq
    → Outcome env l s (on_section env l s raw iq)
on_section-Outcome env l s none iq run dapps aper r i = ignored refl refl refl
on_section-Outcome env l s (some raw) none run dapps aper r i = ignored refl refl refl
on_section-Outcome env l s (some raw) (some iq) run dapps aper r i =
    let n = ofdm_sym_size raw.num_prbu in
    let P : E3SmSpectrum → Type 0 = Outcome env l s in
    if_cases P (n == 0) (λ h. ignored refl refl refl)
      (λ pos'.
        if_cases P (ltb s.decompressed_size (n * 2)) (λ h. ignored refl refl refl)
          (λ full.
            publish-Outcome env l s raw iq _ run dapps aper
              (record { has_raw = r; has_iq = i; subcarriers = ground arith; full = ground arith })
              refl))

-- Every section has one of these outcomes.
pub on_sample-Outcome :
    (env : Env) (l : E3SmSpectrum) (s : DecompressedSample) → Outcome env l s (on_sample env l s)
unfolding on_sample
on_sample-Outcome env l s =
    let P : E3SmSpectrum → Type 0 = Outcome env l s in
    if_cases P (not l.is_running) (λ h. ignored refl refl refl)
      (λ run.
        if_cases P (no_dapps env.subscribers) (λ h. ignored refl refl refl)
          (λ dapps.
            if_cases P (not (is_asn1 env.encoding)) (λ h. ignored refl refl refl)
              (λ aper.
                on_section-Outcome env l s s.raw s.decompressed_iq (not-false l.is_running run)
                  dapps (not-false (is_asn1 env.encoding) aper) refl refl)))

-- A control request is answered once, under its own id: positively when it decodes, and with a
-- refusal and an error code when it does not; it changes nothing else.
pub handle_control_action-answers :
    (l : E3SmSpectrum) (request_id : ℕ) (ctrl : Option PrbBlacklistControl)
    → let (l', rc) = handle_control_action l request_id ctrl in
      ((rc ≡ control_success)
        × (ctrl ≢ none)
        × (l' ≡ record l { acks = l.acks ++ ((request_id, true) ∷ []) }))
      ⊎ ((rc ≡ decode_failed)
          × (ctrl ≡ none)
          × (l' ≡ record l { acks = l.acks ++ ((request_id, false) ∷ []) }))
unfolding handle_control_action
handle_control_action-answers l request_id none = inr (refl, refl, refl)
handle_control_action-answers l request_id (some c) = inl (refl, λ e. cc, refl)

-- What the subscribers are sent of an encoding.
abbrev pub told : List ℕ → Option (List ℕ) → List (ℕ × List ℕ)
told dapps none = []
told dapps (some payload) = fan_out payload dapps

publish-sent :
    (env : Env) (l : E3SmSpectrum) (s : DecompressedSample) (raw : IqSampleData) (n : ℕ)
    (o : Option (List ℕ))
    → (publish env l s raw n o).sent ≡ l.sent ++ told env.subscribers o
publish-sent env l s raw n none = sym (append-nil l.sent)
publish-sent env l s raw n (some payload) = refl

-- Of a fit section that arrives while the object runs with ASN.1 and a subscriber, the subscribers are
-- sent what the encoder makes of its indication.
pub on_sample-sent :
    (env : Env) (l : E3SmSpectrum) (s : DecompressedSample) (raw : IqSampleData) (iq : List ℕ)
    → l.is_running ≡ true
    → no_dapps env.subscribers ≡ false
    → is_asn1 env.encoding ≡ true
    → Fit s raw iq
    → (on_sample env l s).sent
      ≡ l.sent
        ++ told env.subscribers (env.encode (indication_of raw iq (ofdm_sym_size raw.num_prbu)))
unfolding on_sample
on_sample-sent env l s raw iq run dapps aper fit =
    let n = ofdm_sym_size raw.num_prbu in
    let some_subcarrier : (n == 0) ≡ false = ground (arith, fit.subcarriers) in
    let full : ltb s.decompressed_size (n * 2) ≡ false = ground (arith, fit.full) in
    simp (run, dapps, aper, fit.has_raw, fit.has_iq, some_subcarrier, full)
      (publish-sent env l s raw n (env.encode (indication_of raw iq n)))

-- And a fit section that arrives while the object runs with ASN.1 and a subscriber, and that the
-- encoder takes, is sent to every subscriber in their order, and counted.
pub on_sample-publishes :
    (env : Env) (l : E3SmSpectrum) (s : DecompressedSample) (raw : IqSampleData)
    (iq payload : List ℕ)
    → l.is_running ≡ true
    → no_dapps env.subscribers ≡ false
    → is_asn1 env.encoding ≡ true
    → Fit s raw iq
    → env.encode (indication_of raw iq (ofdm_sym_size raw.num_prbu)) ≡ some payload
    → let l' = on_sample env l s in
      (l'.sent ≡ l.sent ++ fan_out payload env.subscribers)
      × (l'.sample_publish_seq ≡ (l.sample_publish_seq + 1) % 2 ^ 64)
unfolding on_sample
on_sample-publishes env l s raw iq payload run dapps aper fit e =
    let n = ofdm_sym_size raw.num_prbu in
    let some_subcarrier : (n == 0) ≡ false = ground (arith, fit.subcarriers) in
    let full : ltb s.decompressed_size (n * 2) ≡ false = ground (arith, fit.full) in
    simp (run, dapps, aper, fit.has_raw, fit.has_iq, some_subcarrier, full, e) (refl, refl)
