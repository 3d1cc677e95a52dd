-- ===== src/Codelet/Ecpri/Safety.antt =====
-- The codelet reads no byte outside of its packet.
use e3controller.Common.{
  ℕ, zero, suc, ◌+◌, ◌-◌, ◌≤◌, ◌<◌, ◌≡◌, ◌≢◌, refl, ap, ◌∙◌, false, ◌||◌, inl, inr, Bool-cases,
  Result-cases, >>=-eq-ok, leb→le, List, [], ◌∷◌, length, get_or, update, ltb, leb, Result, err, ok,
  arith,
}
use e3controller.Shm.Memory.{convert_loop}
use e3controller.Codelet.Ecpri.{
  Verdict, fault, byte_at, ntohs_at, ntohl_at, parse_section, parse_ecpri, parse_vlan,
  parse_ethernet, parse, Section, Env, Maps, sample, copy_loop, put_out, after_config,
  receive_config, jbpf_main, emit, copy_size_of, max_iq_payload_bytes,
}

pub byte_at-inside : (pkt : List ℕ) (i : ℕ) → i < length pkt → byte_at pkt i ≡ ok (get_or pkt i 0)
unfolding byte_at
byte_at-inside [] i h = absurd (omega arith)
byte_at-inside (x ∷ xs) zero h = refl
byte_at-inside (x ∷ xs) (suc i) h = byte_at-inside xs i (omega arith)

abbrev IsSafe {ℓ} : {A : Type ℓ} → Result Verdict A → Type ℓ
IsSafe r = r ≢ err fault

parse_section-IsSafe : (pkt : List ℕ) (o : ℕ) → IsSafe (parse_section pkt o)
unfolding parse_section ntohs_at ntohl_at
parse_section-IsSafe pkt o = ground (
  arith,
  byte_at-inside pkt (o + 2),
  byte_at-inside pkt (o + 2 + 1),
  byte_at-inside pkt (o + 4),
  byte_at-inside pkt (o + 4 + 1),
  byte_at-inside pkt (o + 4 + 2),
  byte_at-inside pkt (o + 4 + 2 + 1),
  byte_at-inside pkt (o + 1),
  byte_at-inside pkt (o + 4 + 4),
)

parse_ecpri-IsSafe : (pkt : List ℕ) (o : ℕ) → IsSafe (parse_ecpri pkt o)
unfolding parse_ecpri
parse_ecpri-IsSafe pkt o =
    ground (arith, byte_at-inside pkt (o + 1), parse_section-IsSafe pkt (o + 8))

parse_ethernet-IsSafe : (pkt : List ℕ) → IsSafe (parse_ethernet pkt)
unfolding parse_ethernet parse_vlan ntohs_at
parse_ethernet-IsSafe pkt = ground (
  arith,
  byte_at-inside pkt 12,
  byte_at-inside pkt 13,
  byte_at-inside pkt 16,
  byte_at-inside pkt 17,
)

parse-IsSafe : (pkt : List ℕ) → IsSafe (parse pkt)
unfolding parse
parse-IsSafe pkt = elim (Result-cases (parse_ethernet pkt)) [
  | inl (v, e) ↦ rw e (λ h. parse_ethernet-IsSafe pkt (e ∙ ap err (cc)))
  | inr ((t, o), e) ↦ rw e (ground (arith, parse_ecpri-IsSafe pkt o))
]

-- The bytes of the packet from the samples on.
abbrev pub samples_at : List ℕ → ℕ → ℕ → ℕ
samples_at pkt iq_start k = get_or pkt (iq_start + k) 0

sub_zero : (n : ℕ) → n - 0 ≡ n
sub_zero n = omega arith

one_more : (n i : ℕ) → i < n → n - i ≡ suc (n - (i + 1))
one_more n i h = omega arith

none_left : (n i : ℕ) → n ≤ i → n - i ≡ 0
none_left n i h = omega arith

-- Where the samples to copy stand in the packet, the loop copies them all, and nothing else.
pub copy_loop-inside :
    (left : ℕ) (pkt : List ℕ) (iq_start n i : ℕ) (out : ℕ → ℕ)
    → iq_start + n ≤ length pkt
    → n ≤ i + left
    → copy_loop left pkt iq_start n i out
      ≡ ok (convert_loop (n - i) (samples_at pkt iq_start) 0 i out)
unfolding copy_loop convert_loop
copy_loop-inside zero pkt st n i out h b = rw (none_left n i (omega arith)) refl
copy_loop-inside (suc left) pkt st n i out h b = elim (Bool-cases (leb n i)) [
  | inl done ↦ rw (done, none_left n i (leb→le _ _ done)) refl
  | inr more ↦
      let lt : i < n = ground arith in
      let inside : (leb n i || ltb (length pkt) (st + i + 1)) ≡ false = ground arith in
      rw (inside, byte_at-inside pkt (st + i) (omega arith), one_more n i lt)
        (copy_loop-inside left pkt st n (i + 1) (update out i (samples_at pkt st i)) h (omega arith)
          ∙ ap
              (λ k. ok (
                convert_loop (n - (i + 1)) (samples_at pkt st) 0 (i + 1)
                  (update out k (samples_at pkt st i))))
              (omega arith))
]

pub copy_size-le : (avail : ℕ) → copy_size_of avail ≤ avail
unfolding copy_size_of
copy_size-le avail = ground arith

pub copy_size-le_max : (avail : ℕ) → copy_size_of avail ≤ max_iq_payload_bytes
unfolding copy_size_of
copy_size-le_max avail = ground arith

-- Behind every section that is parsed the packet goes on.
pub parse_section-iq_start :
    (pkt : List ℕ) (o : ℕ) (s : Section) → parse_section pkt o ≡ ok s → s.iq_start < length pkt
unfolding parse_section ntohs_at ntohl_at
parse_section-iq_start pkt o s h = ground (
  arith,
  byte_at-inside pkt (o + 2),
  byte_at-inside pkt (o + 2 + 1),
  byte_at-inside pkt (o + 4),
  byte_at-inside pkt (o + 4 + 1),
  byte_at-inside pkt (o + 4 + 2),
  byte_at-inside pkt (o + 4 + 2 + 1),
  byte_at-inside pkt (o + 1),
  byte_at-inside pkt (o + 4 + 4),
)

pub parse_ecpri-iq_start :
    (pkt : List ℕ) (o : ℕ) (s : Section) → parse_ecpri pkt o ≡ ok s → s.iq_start < length pkt
unfolding parse_ecpri
parse_ecpri-iq_start pkt o s h =
    ground (arith, byte_at-inside pkt (o + 1), parse_section-iq_start pkt (o + 8) s)

pub parse-iq_start : (pkt : List ℕ) (s : Section) → parse pkt ≡ ok s → s.iq_start < length pkt
unfolding parse
parse-iq_start pkt s h =
    let ((t, o), e, k) = >>=-eq-ok (parse_ethernet pkt) _ h in
    ground (arith, parse_ecpri-iq_start pkt o s)

copied_inside : (n st : ℕ) → st < n → st + copy_size_of (n - st) ≤ n
copied_inside n st h = omega (arith, copy_size-le (n - st))

-- The output, with the copy made.
pub put_out-copies :
    (env : Env) (pkt : List ℕ) (s : Section) (m : Maps)
    → s.iq_start < length pkt
    → put_out env pkt s m
      ≡ emit env pkt s m (
          ok (
            convert_loop
              (copy_size_of (length pkt - s.iq_start))
              (samples_at pkt s.iq_start)
              0
              0
              m.tmp_payload))
unfolding put_out
put_out-copies env pkt s m h =
    let n = copy_size_of (length pkt - s.iq_start) in
    ap (emit env pkt s m) (
      copy_loop-inside max_iq_payload_bytes pkt s.iq_start n 0 m.tmp_payload
        (copied_inside (length pkt) s.iq_start h) (copy_size-le_max (length pkt - s.iq_start))
      ∙ ap (λ k. ok (convert_loop k (samples_at pkt s.iq_start) 0 0 m.tmp_payload)) (sub_zero n))

after_config-no_fault :
    (env : Env) (pkt : List ℕ) (s : Section) (m : Maps)
    → s.iq_start < length pkt
    → (after_config env pkt s m).1 ≢ fault
unfolding after_config
after_config-no_fault env pkt s m h =
    let (counter, due) = sample m.sampling_period m.symbol_counter in
    ground (arith, put_out-copies env pkt s (record m { symbol_counter = counter }) h)

-- Whatever the packet, what is in the maps and what jbpf answers, a call reads no byte outside of the
-- packet.
pub reads_inside : (env : Env) (pkt : List ℕ) (m : Maps) → (jbpf_main env pkt m).1 ≢ fault
unfolding jbpf_main
reads_inside env pkt m = elim (Result-cases (parse pkt)) [
  | inl (v, e) ↦ rw (e, jbpf_main) (λ h. parse-IsSafe pkt (e ∙ ap err h))
  | inr (s, e) ↦
      rw (e, jbpf_main)
        (after_config-no_fault env pkt s (receive_config env m) (parse-iq_start pkt s e))
]
