-- ===== src/EndToEnd/Dapp.antt =====
-- From a user plane packet through codelets/ecpri_iq_samples/ecpri_iq_collect.c,
-- src/e3sm/iq_pipeline.cpp and src/e3sm/sm_spectrum/e3sm_spectrum.cpp to the dApps.
use mathlib.Core.Path.{subst}
use e3controller.Pipeline.Iq.{Machine}
use e3controller.Common.{
  ◌^◌, ℕ, ◌+◌, ◌-◌, ◌*◌, ◌≤◌, ◌<◌, ◌≡◌, refl, ap, ◌∙◌, true, false, some, List, [], ◌∷◌, ◌++◌,
  get_or, ltb, ltb→lt, ◌==◌, if◌then◌else◌, if_cases, arith,
}
use e3controller.Bfp.Output.{block_value}
use e3controller.Codelet.Ecpri
use e3controller.Codelet.Ecpri.{IqSampleData, jbpf_main}
use e3controller.Codelet.Ecpri.Packet.{Message, InRange, IsTarget, frame_of}
use e3controller.Codelet.Ecpri.Roundtrip.{prbs_of, Admits}
use e3controller.Pipeline.Spsc.{QueueEntry}
use e3controller.Pipeline.Iq.{sample_of, dispatch_sample}
use e3controller.Spectrum
use e3controller.Spectrum.{
  SpectrumIqIndication, E3SmSpectrum, fft_size_of, ofdm_sym_size, padded, indication_of, no_dapps,
  is_asn1, on_sample,
}
use e3controller.Spectrum.Lifecycle.{consume}
use e3controller.Spectrum.Padding.{padded-centred}
use e3controller.Spectrum.Handler.{Fit, told, on_sample-sent}
use e3controller.EndToEnd.Section.{Compressed, Values, newest, message-arrives}

-- The FFT bin of the subcarrier `k` of `half` pairs: the first half stands at the end of the bins.
abbrev pub bin_of : ℕ → ℕ → ℕ
bin_of half k = if ltb k half then fft_size_of (half * 2) - half + k else k - half

-- The indication shows the message: each value of each of its PRBs, from the PRB's own block, stands at
-- the bin of its subcarrier, and the bins between the halves are zero.
pub record Shows (m : Message) (ind : SpectrumIqIndication) : Type 0 where
  pub values :
      (q r c : ℕ)
      → q < prbs_of m
      → r < 12
      → c < 2
      → ind.iq_data (bin_of (prbs_of m * 6) (q * 12 + r) * 2 + c)
        ≡ block_value (λ k. get_or m.samples (q * 28 + k) 0) (r * 2 + c)
  pub guard :
      (j c : ℕ)
      → prbs_of m * 6 ≤ j
      → j < fft_size_of (prbs_of m * 6 * 2) - prbs_of m * 6
      → c < 2
      → ind.iq_data (j * 2 + c) ≡ 0
  pub sample_count : ind.sample_count ≡ fft_size_of (prbs_of m * 6 * 2)
  pub iq_values : ind.iq_values ≡ fft_size_of (prbs_of m * 6 * 2) * 2
  pub timestamp : ind.timestamp < 2 ^ 31

pub prbs_of-range : (m : Message) → InRange m → (0 < prbs_of m) × (prbs_of m < 274)
prbs_of-range m r =
    if_cases (λ n. (0 < n) × (n < 274)) (m.num_prbu == 0) (λ z. ground arith)
      (λ s. ground (arith, r.num_lt))

-- The indication of the values of a message, at twice `half` subcarriers.
padded-Shows :
    (m : Message) (raw : IqSampleData) (iq : List ℕ)
    → InRange m
    → raw.timestamp < 2 ^ 31
    → Values m iq
    → Shows m (indication_of raw iq (prbs_of m * 6 * 2))
padded-Shows m raw iq range early (len, v) =
    let half = prbs_of m * 6 in
    let (some', few) = prbs_of-range m range in
    let centred = λ (c : ℕ) (c_lt : c < 2).
      padded-centred (λ i. get_or iq i 0) half c (omega arith) (omega arith) c_lt in
    record {
      values = λ q r c q_lt r_lt c_lt.
          let k = q * 12 + r in
          let (upper, lower, between) = centred c c_lt in
          let value = v q (r * 2 + c) q_lt (omega arith) in
          let index : k * 2 + c ≡ q * 24 + (r * 2 + c) = omega arith in
          if_cases
            (λ b.
              padded (λ i. get_or iq i 0) (half * 2) (b * 2 + c)
              ≡ block_value (λ j. get_or m.samples (q * 28 + j) 0) (r * 2 + c))
            (ltb k half) (λ t. upper k (ltb→lt k half t) ∙ ap (λ i. get_or iq i 0) index ∙ value)
            (λ t.
              let moved : (half + (k - half)) * 2 + c ≡ q * 24 + (r * 2 + c) = ground arith in
              lower (k - half) (omega arith) ∙ ap (λ i. get_or iq i 0) moved ∙ value);
      guard = λ j c low high c_lt. (centred c c_lt).2 j low high;
      sample_count = refl;
      iq_values = refl;
      timestamp = omega (arith, early);
    }

indication-Shows :
    (m : Message) (raw : IqSampleData) (iq : List ℕ)
    → InRange m
    → raw.num_prbu ≡ prbs_of m
    → raw.timestamp < 2 ^ 31
    → Values m iq
    → Shows m (indication_of raw iq (ofdm_sym_size raw.num_prbu))
indication-Shows m raw iq range e early v =
    let (some', few) = prbs_of-range m range in
    let n : prbs_of m * 6 * 2 ≡ ofdm_sym_size raw.num_prbu = omega (arith, e) in
    subst (λ k. Shows m (indication_of raw iq k)) n (padded-Shows m raw iq range early v)

carried-Fit :
    (m : Message) (mem : ℕ → IqSampleData) (machine : Machine) (e : QueueEntry) (out : List ℕ)
    → InRange m
    → IqSampleData.num_prbu (mem e.buf) ≡ prbs_of m
    → Values m out
    → Fit (sample_of mem machine e out) (mem e.buf) out
carried-Fit m mem machine e out range n (len, v) =
    let (some', few) = prbs_of-range m range in
    record {
      has_raw = refl;
      has_iq = refl;
      subcarriers = omega (arith, n);
      full = omega (arith, n, len);
    }

-- For a user plane message that the codelet admits, with 28 bytes of samples at least to each of its
-- PRBs, the first of them a shift below 32, whose sample, the newest of the codelet's output, stands in the buffer of a queue entry: when
-- the pipeline's worker calls the spectrum service model for the entry, while the model runs with ASN.1
-- and a subscriber, every subscriber is sent what the encoder makes of one indication, which shows the
-- message: each value of each PRB, decompressed from the PRB's own bytes, at the FFT bin of its
-- subcarrier, and zeros between.
pub message-shown :
    (env : Ecpri.Env) (maps : Ecpri.Maps) (m : Message) (mem : ℕ → IqSampleData) (machine : Machine)
    (e : QueueEntry) (senv : Spectrum.Env) (l : E3SmSpectrum)
    → InRange m
    → IsTarget m
    → Admits env maps m
    → Compressed m
    → newest ((jbpf_main env (frame_of m) maps).0.output) ≡ some (mem e.buf)
    → l.is_running ≡ true
    → no_dapps senv.subscribers ≡ false
    → is_asn1 senv.encoding ≡ true
    → (ind : SpectrumIqIndication) × Shows m ind
      × ((consume senv l (dispatch_sample mem machine (0 ∷ []) e)).sent
          ≡ l.sent ++ told senv.subscribers (senv.encode ind))
message-shown env maps m mem machine e senv l range target admits enough held run dapps aper =
    let (put, carries, (out, calls, values)) =
      message-arrives env maps m mem machine e (0 ∷ []) range target admits enough held in
    (
      indication_of (mem e.buf) out (ofdm_sym_size (IqSampleData.num_prbu (mem e.buf))),
      indication-Shows m (mem e.buf) out range carries.num_prbu (omega (arith, carries.timestamp))
          values,
      ap (λ cs. E3SmSpectrum.sent (consume senv l cs)) calls
          ∙ on_sample-sent senv l (sample_of mem machine e out) (mem e.buf) out run dapps aper
              (carried-Fit m mem machine e out range carries.num_prbu values),
    )
