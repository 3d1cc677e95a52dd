-- ===== src/Encoders/Roundtrip.antt =====
-- What a decoder of the other side reads of an encoded message.
use e3controller.Common.{
  zero, suc, ◌*◌, ◌%◌, ◌≤◌, get_or, ℕ, ◌+◌, ◌/◌, ◌^◌, ◌<◌, ◌≡◌, refl, Bool, true, List, [], ◌∷◌,
  ◌++◌, map, Option, some, ℤ, pos, negsuc, All, ap, ◌∙◌, arith,
}
use e3controller.Spectrum.{SpectrumIqIndication, PrbBlacklistControl}
use e3controller.Encoders.Heap.{
  Heap, Encoded, took, malloc, bytes_of, Coder, assigned, finish, to_int,
}
use e3controller.Encoders.Spectrum.{
  IqDataIndication, octets_of, iq_data_indication, encode_spectrum_iq_indication,
  PrbBlacklistControlType, add_prbs, prb_blacklist_control, encode_spectrum_prb_blacklist_control,
  read_control, decode_spectrum_prb_blacklist_control,
}

-- asn1c's decoder reads what its encoder wrote: the bytes that the bits take, the last one whole.
pub record IsLossless {V : Type 0} (coder : Coder V) : Type 0 where
  pub lossless :
      (v : V) (size bits : ℕ) (buffer : ℕ → ℕ)
      → coder.encode_to_buffer v size ≡ some (bits, buffer)
      → coder.decode (bytes_of buffer ((bits + 7) / 8)) ≡ some v

-- The values of an `int`.
abbrev pub IsInt : ℤ → Type 0
IsInt (pos n) = n < 2 ^ 31
IsInt (negsuc n) = n < 2 ^ 31

to_int-IsInt : (z : ℤ) → IsInt z → to_int z ≡ z
unfolding to_int
to_int-IsInt (pos n) h = ground arith
to_int-IsInt (negsuc n) h = ground arith

map-to_int : (zs : List ℤ) → All IsInt zs → map to_int zs ≡ zs
map-to_int [] h = refl
map-to_int (z ∷ zs) (i, h) =
    ap (λ y. y ∷ map to_int zs) (to_int-IsInt z i) ∙ ap (λ ys. z ∷ ys) (map-to_int zs h)

-- A control whose members are values of their type.
pub record IsControl (x : PrbBlacklistControl) : Type 0 where
  pub prbs : All IsInt x.blacklisted_prbs
  pub threshold : IsInt x.sampling_threshold
  pub validity : IsInt x.validity_period

-- The control with every member taken for an `int`.
abbrev narrowed : PrbBlacklistControl → PrbBlacklistControl
narrowed x = record {
  blacklisted_prbs = map to_int x.blacklisted_prbs;
  sampling_threshold = to_int x.sampling_threshold;
  validity_period = to_int x.validity_period;
}

narrowed-IsControl : (x : PrbBlacklistControl) → IsControl x → narrowed x ≡ x
narrowed-IsControl x c =
    rw
      (
        map-to_int x.blacklisted_prbs c.prbs,
        to_int-IsInt x.sampling_threshold c.threshold,
        to_int-IsInt x.validity_period c.validity,
      )
      refl

-- Where memory and lists do not fail, the encoding ends in the coder's answer.
add_prbs-all :
    (grants adds : ℕ → Bool) (prbs : List ℤ) (held : List ℕ) (rest : List ℕ → Heap → Encoded)
    (h : Heap) (o : Option (List ℕ))
    → ((n : ℕ) → grants n ≡ true)
    → ((n : ℕ) → adds n ≡ true)
    → ((held' : List ℕ) (h' : Heap) → (rest held' h').0 ≡ o)
    → (add_prbs grants adds prbs held rest h).0 ≡ o
unfolding add_prbs malloc
add_prbs-all grants adds [] held rest h o g a r = r held h
add_prbs-all grants adds (prb ∷ prbs) held rest h o g a r =
    rw (g h.next, a h.next)
      (add_prbs-all grants adds prbs (held ++ (h.next ∷ [])) rest (took h) o g a r)

encode_control-assigned :
    (grants adds : ℕ → Bool) (coder : Coder PrbBlacklistControlType) (x : PrbBlacklistControl)
    (h : Heap)
    → ((n : ℕ) → grants n ≡ true)
    → ((n : ℕ) → adds n ≡ true)
    → (encode_spectrum_prb_blacklist_control grants adds coder x h).0
      ≡ assigned (coder.encode_to_buffer (prb_blacklist_control x) 4096)
unfolding encode_spectrum_prb_blacklist_control malloc finish
encode_control-assigned grants adds coder x h g a =
    add_prbs-all grants adds x.blacklisted_prbs [] _ h _ g a
      (λ held h'. rw (g h'.next, g (h'.next + 1)) refl)

-- A blacklist control that the coder takes, where no allocation fails, is encoded, and its encoding
-- decodes to the control itself: every PRB, in order and with its sign, the threshold and the period.
pub control-decodes :
    (grants adds : ℕ → Bool) (coder : Coder PrbBlacklistControlType) (x : PrbBlacklistControl)
    (h : Heap) (bits : ℕ) (buffer : ℕ → ℕ)
    → IsLossless coder
    → IsControl x
    → ((n : ℕ) → grants n ≡ true)
    → ((n : ℕ) → adds n ≡ true)
    → coder.encode_to_buffer (prb_blacklist_control x) 4096 ≡ some (bits, buffer)
    → (bytes : List ℕ) × ((encode_spectrum_prb_blacklist_control grants adds coder x h).0
        ≡ some bytes)
      × (decode_spectrum_prb_blacklist_control coder bytes ≡ some x)
unfolding decode_spectrum_prb_blacklist_control
control-decodes grants adds coder x h bits buffer law c g a e = (
  bytes_of buffer ((bits + 7) / 8),
  encode_control-assigned grants adds coder x h g a ∙ ap assigned e,
  ap read_control (law.lossless _ _ bits buffer e) ∙ ap some (narrowed-IsControl x c),
)

-- The bytes of the values: the low byte of the `k`-th value and then its high byte.
pub octets_of-value :
    (m : ℕ → ℕ) (n k : ℕ)
    → k < n
    → (get_or (octets_of m n) (k * 2) 0 ≡ m k % 2 ^ 8)
      × (get_or (octets_of m n) (k * 2 + 1) 0 ≡ m k / 2 ^ 8 % 2 ^ 8)
octets_of-value m zero k h = absurd (omega arith)
octets_of-value m (suc n) zero h = (refl, refl)
octets_of-value m (suc n) (suc k) h =
    let (low, high) = octets_of-value (λ i. m (i + 1)) n k (omega arith) in
    let l = octets_of m (suc n) in
    let next : m (k + 1) ≡ m (suc k) = ap m (omega arith) in
    let at_low : suc k * 2 ≡ suc (suc (k * 2)) = omega arith in
    let at_high : suc k * 2 + 1 ≡ suc (suc (k * 2 + 1)) = omega arith in
    (
      ap (λ i. get_or l i 0) at_low ∙ low ∙ ap (λ x. x % 2 ^ 8) next,
      ap (λ i. get_or l i 0) at_high ∙ high ∙ ap (λ x. x / 2 ^ 8 % 2 ^ 8) next,
    )

-- What the constraints of Spectrum-IQDataIndication allow.
pub record WithinLimits (x : SpectrumIqIndication) : Type 0 where
  pub some_values : 0 < x.iq_values
  pub octets : x.iq_values * 2 ≤ 16384
  pub sample_count : x.sample_count ≤ 32768
  pub timestamp : x.timestamp < 2 ^ 31

-- An encoding of an indication, where no allocation fails, is read back as the members it was made of.
pub indication-decodes :
    (grants : ℕ → Bool) (coder : Coder IqDataIndication) (x : SpectrumIqIndication) (h : Heap)
    (bits : ℕ) (buffer : ℕ → ℕ)
    → IsLossless coder
    → ((n : ℕ) → grants n ≡ true)
    → coder.encode_to_buffer (iq_data_indication x) 20000 ≡ some (bits, buffer)
    → (bytes : List ℕ) × ((encode_spectrum_iq_indication grants coder x h).0 ≡ some bytes)
      × (coder.decode bytes ≡ some (iq_data_indication x))
unfolding encode_spectrum_iq_indication malloc finish
indication-decodes grants coder x h bits buffer law g e = (
  bytes_of buffer ((bits + 7) / 8),
  rw (g h.next, g (h.next + 1)) (ap assigned e),
  law.lossless _ _ bits buffer e,
)
