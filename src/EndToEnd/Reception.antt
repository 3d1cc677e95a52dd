-- ===== src/EndToEnd/Reception.antt =====
-- From a user plane packet to what a dApp decodes: the way of EndToEnd/Dapp with the encoder of
-- src/e3sm/sm_spectrum/e3sm_spect_wrapper.cpp at its end.
use native.Mathlib.Nat.{pow-le-pow_right}
use e3controller.Pipeline.Iq.{Machine}
use e3controller.Common.{
  ℕ, ◌+◌, ◌*◌, ◌/◌, ◌%◌, ◌^◌, ◌≤◌, ◌<◌, ◌≡◌, inl, inr, refl, ap, ◌∙◌, Bool, true, false, Bool-cases,
  some, List, [], ◌∷◌, ◌++◌, get_or, ltb, if_cases, arith,
}
use e3controller.Bfp.Output.{block_value}
use e3controller.Codelet.Ecpri
use e3controller.Codelet.Ecpri.{IqSampleData, jbpf_main}
use e3controller.Codelet.Ecpri.Packet.{Message, InRange, IsTarget, frame_of}
use e3controller.Codelet.Ecpri.Roundtrip.{prbs_of, Admits}
use e3controller.Pipeline.Spsc.{QueueEntry}
use e3controller.Pipeline.Iq.{dispatch_sample}
use e3controller.Spectrum
use e3controller.Spectrum.{
  SpectrumIqIndication, E3SmSpectrum, fft_size_of, fan_out, no_dapps, is_asn1,
}
use e3controller.Spectrum.Lifecycle.{consume}
use e3controller.Spectrum.Padding.{fft_size_of-least}
use e3controller.Spectrum.Handler.{told}
use e3controller.Encoders.Heap.{fresh_heap, Coder}
use e3controller.Encoders.Spectrum.{
  IqDataIndication, iq_data_indication, encode_spectrum_iq_indication,
}
use e3controller.Encoders.Roundtrip.{IsLossless, WithinLimits, octets_of-value, indication-decodes}
use e3controller.EndToEnd.Section.{Compressed, newest}
use e3controller.EndToEnd.Dapp.{bin_of, prbs_of-range, Shows, message-shown}

-- A power of two below 6553 is at most 4096.
small_power : (j : ℕ) → 2 ^ j < 6553 → 2 ^ j ≤ 4096
small_power j h = elim (Bool-cases (ltb 12 j)) [
  | inl t ↦
      absurd
        (omega (arith, h, pow-le-pow_right {n = 2} (omega arith) {i = 13} {j = j} (ground arith)))
  | inr f ↦ pow-le-pow_right {n = 2} (omega arith) {i = j} {j = 12} (ground arith)
]

-- The size of the FFT for a message: it holds all subcarriers, and is 4096 at most.
fft_size_of-prbs :
    (m : Message)
    → InRange m
    → let fft = fft_size_of (prbs_of m * 6 * 2) in
      (prbs_of m * 6 * 2 ≤ fft) × (fft ≤ 4096) × (0 < prbs_of m)
fft_size_of-prbs m range =
    let (some', few) = prbs_of-range m range in
    let ((j, e), enough, tight) =
      fft_size_of-least (prbs_of m * 6 * 2) (omega arith) (omega arith) in
    let small = small_power j (omega (arith, e, tight, few)) in
    (enough, omega (arith, e, small), some')

Shows-WithinLimits :
    (m : Message) (ind : SpectrumIqIndication) → InRange m → Shows m ind → WithinLimits ind
Shows-WithinLimits m ind range s =
    let (enough, most, some') = fft_size_of-prbs m range in
    record {
      some_values = omega (arith, s.iq_values, enough, some');
      octets = omega (arith, s.iq_values, most);
      sample_count = omega (arith, s.sample_count, most);
      timestamp = s.timestamp;
    }

-- What a dApp has decoded is the message: the two bytes of each value of each PRB, low byte first, stand
-- at the bin of its subcarrier.
pub record Received (m : Message) (c : IqDataIndication) : Type 0 where
  pub values :
      (q r i : ℕ)
      → q < prbs_of m
      → r < 12
      → i < 2
      → let at = bin_of (prbs_of m * 6) (q * 12 + r) * 2 + i in
        let value = block_value (λ k. get_or m.samples (q * 28 + k) 0) (r * 2 + i) in
        (get_or c.iq_samples (at * 2) 0 ≡ value % 2 ^ 8)
        × (get_or c.iq_samples (at * 2 + 1) 0 ≡ value / 2 ^ 8 % 2 ^ 8)
  pub sample_count : c.sample_count ≡ fft_size_of (prbs_of m * 6 * 2)

bin_of-inside :
    (half k fft : ℕ)
    → fft_size_of (half * 2) ≡ fft
    → half * 2 ≤ fft
    → k < half * 2
    → bin_of half k < fft
bin_of-inside half k fft e enough lt =
    if_cases (λ b. b < fft) (ltb k half) (λ t. ground (arith, e)) (λ f. ground (arith, e))

Shows-Received :
    (m : Message) (ind : SpectrumIqIndication)
    → InRange m
    → Shows m ind
    → Received m (iq_data_indication ind)
Shows-Received m ind range s =
    let (enough, most, some') = fft_size_of-prbs m range in
    record {
      values = λ q r i q_lt r_lt i_lt.
          let at = bin_of (prbs_of m * 6) (q * 12 + r) * 2 + i in
          let inside = bin_of-inside (prbs_of m * 6) (q * 12 + r) _ refl enough (omega arith) in
          let shown = s.values q r i q_lt r_lt i_lt in
          let (low, high) =
            octets_of-value ind.iq_data ind.iq_values at (omega (arith, s.iq_values, inside)) in
          (low ∙ ap (λ x. x % 2 ^ 8) shown, high ∙ ap (λ x. x / 2 ^ 8 % 2 ^ 8) shown);
      sample_count = s.sample_count;
    }

-- For a user plane message that the codelet admits, with 28 bytes of samples at least to each of its
-- PRBs, the first of them a shift below 32, whose sample, the newest of the codelet's output, stands in the buffer of a queue entry: when
-- the pipeline's worker calls the spectrum service model for the entry, while the model runs with ASN.1
-- and a subscriber, no allocation of the encoder fails, and asn1c's coder is lossless and takes what the
-- constraints of the type allow, then every subscriber is sent one payload, and what a dApp decodes of
-- it is the message: the values of each PRB stand at the FFT bins of its subcarriers, each the nine bits
-- of its place in the PRB's own bytes, as a number in two's complement, times two to the power of the
-- PRB's first byte, modulo 2 ^ 16.
pub message-Received :
    (env : Ecpri.Env) (maps : Ecpri.Maps) (m : Message) (mem : ℕ → IqSampleData) (machine : Machine)
    (e : QueueEntry) (senv : Spectrum.Env) (l : E3SmSpectrum) (grants : ℕ → Bool)
    (coder : Coder IqDataIndication)
    → InRange m
    → IsTarget m
    → Admits env maps m
    → Compressed m
    → newest ((jbpf_main env (frame_of m) maps).0.output) ≡ some (mem e.buf)
    → l.is_running ≡ true
    → no_dapps senv.subscribers ≡ false
    → is_asn1 senv.encoding ≡ true
    → ((x : SpectrumIqIndication)
        → senv.encode x ≡ (encode_spectrum_iq_indication grants coder x fresh_heap).0)
    → ((n : ℕ) → grants n ≡ true)
    → IsLossless coder
    → ((x : SpectrumIqIndication)
        → WithinLimits x
        → (b : ℕ × (ℕ → ℕ)) × (coder.encode_to_buffer (iq_data_indication x) 20000 ≡ some b))
    → (payload : List ℕ) × (c : IqDataIndication) × ((consume senv l
          (dispatch_sample mem machine (0 ∷ []) e)).sent
        ≡ l.sent ++ fan_out payload senv.subscribers)
      × (coder.decode payload ≡ some c)
      × Received m c
message-Received env maps m mem machine e senv l grants coder range target admits enough held run
      dapps aper encodes g law takes =
    let (ind, shows, sent) =
      message-shown env maps m mem machine e senv l range target admits enough held run dapps
        aper in
    let ((bits, buffer), taken) = takes ind (Shows-WithinLimits m ind range shows) in
    let (payload, encoded, decoded) =
      indication-decodes grants coder ind fresh_heap bits buffer law g taken in
    (
      payload,
      iq_data_indication ind,
      sent ∙ ap (λ o. l.sent ++ told senv.subscribers o) (encodes ind ∙ encoded),
      decoded,
      Shows-Received m ind range shows,
    )
