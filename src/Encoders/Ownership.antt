-- ===== src/Encoders/Ownership.antt =====
-- The memory that the encoders take: what becomes of it on each path.
use e3controller.Common.{
  ℕ, ◌+◌, ◌≤◌, ◌≡◌, refl, Bool, List, [], ◌∷◌, ◌++◌, Option, none, ℤ, ◌==◌, ltb, if◌then◌else◌,
  if_cases, count, count-append, arith,
}
use e3controller.Spectrum.{SpectrumIqIndication, PrbBlacklistControl}
use e3controller.Layer1.State.{Indication}
use e3controller.Encoders.Heap.{
  Heap, fresh_heap, Encoded, free_all, took, refused, malloc, Coder, assigned, finish,
}
use e3controller.Encoders.Spectrum.{
  IqDataIndication, encode_spectrum_iq_indication, PrbBlacklistControlType, add_prbs,
  prb_blacklist_control, encode_spectrum_prb_blacklist_control, RanFunctionData,
  encode_spectrum_ran_function_data,
}
use e3controller.Encoders.Layer1.{
  KpmIndication, kpm_indication, add_ports, encode_iq_indication_aper,
  encode_ran_function_data_aper,
}

module _ (b : ℕ) where
  -- The block `b` was taken once at most, and is still to be freed `n` times.
  record Owes (h : Heap) (n : ℕ) : Type 0 where
    pub balance : count b h.taken ≡ count b h.freed + n
    pub once : count b h.taken ≤ 1
    pub unused : h.next ≤ b → count b h.taken ≡ 0

  abbrev one : ℕ → ℕ
  one x = if b == x then 1 else 0

  took-Owes : (h : Heap) (n : ℕ) → Owes h n → Owes (took h) (n + one h.next)
  took-Owes h n o =
      let e = count-append b h.taken (h.next ∷ []) in
      record {
        balance = ground (arith, e, o.balance);
        once = ground (arith, e, o.once, o.unused);
        unused = λ le. ground (arith, e, o.unused);
      }

  refused-Owes : (h : Heap) (n : ℕ) → Owes h n → Owes (refused h) n
  refused-Owes h n o = record {
    balance = o.balance;
    once = o.once;
    unused = λ le. o.unused (omega arith);
  }

  -- An encoder that owes nothing any more.
  record Settled (e : Encoded) : Type 0 where
    pub owes : Owes e.1 0

  free_all-Settled :
      (o : Option (List ℕ)) (blocks : List ℕ) (h : Heap) (n : ℕ)
      → Owes h n
      → n ≡ count b blocks
      → Settled (o, free_all blocks h)
  free_all-Settled o blocks h n w e = record {
    owes = record {
      balance = omega (arith, count-append b h.freed blocks, w.balance);
      once = w.once;
      unused = w.unused;
    };
  }

  malloc-Settled :
      (grants : ℕ → Bool) (held : List ℕ) (rest : ℕ → Heap → Encoded) (h : Heap) (n : ℕ)
      → Owes h n
      → n ≡ count b held
      → (Owes (took h) (n + one h.next) → Settled (rest h.next (took h)))
      → Settled (malloc grants held rest h)
  unfolding malloc
  malloc-Settled grants held rest h n o e next =
      if_cases Settled (grants h.next) (λ g. next (took-Owes h n o))
        (λ r. free_all-Settled none held (refused h) n (refused-Owes h n o) e)

  finish-Settled :
      {V : Type 0} (coder : Coder V) (v : V) (size : ℕ) (held : List ℕ) (h : Heap) (n : ℕ)
      → Owes h n
      → n ≡ count b held
      → Settled (finish coder v size held h)
  unfolding finish
  finish-Settled coder v size held h n o e =
      free_all-Settled (assigned (coder.encode_to_buffer v size)) held h n o e

  -- Two requests and the encoding, as three of the encoders do it.
  two_blocks-Settled :
      {V : Type 0} (grants : ℕ → Bool) (coder : Coder V) (v : V) (size : ℕ) (h : Heap)
      → Owes h 0
      → Settled
          (malloc grants [] (λ x. malloc grants (x ∷ []) (λ y. finish coder v size (x ∷ y ∷ []))) h)
  two_blocks-Settled grants coder v size h o = malloc-Settled grants [] _ h 0 o refl (λ o'.
      malloc-Settled grants (h.next ∷ []) _ (took h) _ o' (omega arith) (λ o''.
        finish-Settled coder v size (h.next ∷ (h.next + 1) ∷ []) (took (took h)) _ o''
          (omega arith)))

  add_prbs-Settled :
      (grants adds : ℕ → Bool) (prbs : List ℤ) (held : List ℕ) (rest : List ℕ → Heap → Encoded)
      (h : Heap) (n : ℕ)
      → Owes h n
      → n ≡ count b held
      → ((held' : List ℕ) (h' : Heap) (n' : ℕ)
          → Owes h' n'
          → n' ≡ count b held'
          → Settled (rest held' h'))
      → Settled (add_prbs grants adds prbs held rest h)
  unfolding add_prbs
  add_prbs-Settled grants adds [] held rest h n o e next = next held h n o e
  add_prbs-Settled grants adds (prb ∷ prbs) held rest h n o e next =
      malloc-Settled grants held _ h n o e (λ o'.
        if_cases Settled (adds h.next)
          (λ t.
            add_prbs-Settled grants adds prbs (held ++ (h.next ∷ [])) rest (took h) _ o'
              (omega (arith, e, count-append b held (h.next ∷ []))) next)
          (λ f. free_all-Settled none (h.next ∷ held) (took h) _ o' (omega (arith, e))))

  control-Settled :
      (grants adds : ℕ → Bool) (coder : Coder PrbBlacklistControlType) (x : PrbBlacklistControl)
      (h : Heap)
      → Owes h 0
      → Settled (encode_spectrum_prb_blacklist_control grants adds coder x h)
  unfolding encode_spectrum_prb_blacklist_control
  control-Settled grants adds coder x h o =
      add_prbs-Settled grants adds x.blacklisted_prbs [] _ h 0 o refl (λ held h' n o' e.
        malloc-Settled grants held _ h' n o' e (λ o1.
          malloc-Settled grants (held ++ (h'.next ∷ [])) _ (took h') _ o1
            (omega (arith, e, count-append b held (h'.next ∷ [])))
            (λ o2.
              finish-Settled coder (prb_blacklist_control x) 4096
                (held ++ (h'.next ∷ (h'.next + 1) ∷ [])) (took (took h')) _ o2
                (omega (arith, e, count-append b held (h'.next ∷ (h'.next + 1) ∷ []))))))

  ports-Settled :
      (grants : ℕ → Bool) (coder : Coder KpmIndication) (x : Indication) (held : List ℕ) (h : Heap)
      (n : ℕ)
      → Owes h n
      → n ≡ count b held
      → Settled (
          add_ports grants x.nof_ports held
            (λ ports held'. finish coder (kpm_indication x ports) 256 held')
            h)
  ports-Settled grants coder x held h n o e =
      if_cases Settled (ltb 0 x.nof_ports)
        (λ some'.
          if_cases Settled (grants h.next)
            (λ g.
              finish-Settled coder _ 256 (held ++ (h.next ∷ [])) (took h) _ (took-Owes h n o)
                (omega (arith, e, count-append b held (h.next ∷ []))))
            (λ r. finish-Settled coder _ 256 held (refused h) n (refused-Owes h n o) e))
        (λ none'. finish-Settled coder _ 256 held h n o e)

  indication-Settled :
      (grants : ℕ → Bool) (coder : Coder KpmIndication) (x : Indication) (h : Heap)
      → Owes h 0
      → Settled (encode_iq_indication_aper grants coder x h)
  unfolding encode_iq_indication_aper
  indication-Settled grants coder x h o = malloc-Settled grants [] _ h 0 o refl (λ o'.
      malloc-Settled grants (h.next ∷ []) _ (took h) _ o' (omega arith) (λ o''.
        ports-Settled grants coder x (h.next ∷ (h.next + 1) ∷ []) (took (took h)) _ o''
          (omega arith)))

  fresh-Owes : Owes fresh_heap 0
  fresh-Owes = record { balance = refl; once = omega arith; unused = λ le. refl }

-- A heap on which the block `b` was taken at most once, and freed as often as it was taken.
abbrev pub Balanced : ℕ → Heap → Type 0
Balanced b h = (count b h.freed ≡ count b h.taken) × (count b h.taken ≤ 1)

Settled-Balanced : (b : ℕ) (e : Encoded) → Settled b e → Balanced b e.1
Settled-Balanced b e s = (omega (arith, s.owes.balance), s.owes.once)

-- Whatever requests the allocator grants, whatever asn1c takes into a list and whether or not it
-- encodes, each of the five APER encoders frees every block that it has taken exactly once.
pub encoders-Balanced :
    (grants adds : ℕ → Bool) (b : ℕ) (iq_coder : Coder IqDataIndication)
    (control_coder : Coder PrbBlacklistControlType) (kpm_coder : Coder KpmIndication)
    (function_coder : Coder RanFunctionData) (iq : SpectrumIqIndication)
    (control : PrbBlacklistControl) (kpm : Indication)
    → Balanced b ((encode_spectrum_iq_indication grants iq_coder iq fresh_heap).1)
      × Balanced b
          ((encode_spectrum_prb_blacklist_control grants adds control_coder control fresh_heap).1)
      × Balanced b ((encode_iq_indication_aper grants kpm_coder kpm fresh_heap).1)
      × Balanced b ((encode_spectrum_ran_function_data grants function_coder fresh_heap).1)
      × Balanced b ((encode_ran_function_data_aper grants function_coder fresh_heap).1)
unfolding encode_spectrum_iq_indication encode_spectrum_ran_function_data
    encode_ran_function_data_aper
encoders-Balanced grants adds b iq_coder control_coder kpm_coder function_coder iq control kpm =
    let start = fresh-Owes b in
    (
      Settled-Balanced b _ (two_blocks-Settled b grants iq_coder _ 20000 fresh_heap start),
      Settled-Balanced b _ (control-Settled b grants adds control_coder control fresh_heap start),
      Settled-Balanced b _ (indication-Settled b grants kpm_coder kpm fresh_heap start),
      Settled-Balanced b _ (two_blocks-Settled b grants function_coder _ 256 fresh_heap start),
      Settled-Balanced b _ (two_blocks-Settled b grants function_coder _ 256 fresh_heap start),
    )
