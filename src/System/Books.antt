-- ===== src/System/Books.antt =====
-- Where the buffers that jbpf delivered are, at the time of their arrival.
use e3controller.Common.{ℕ, ◌+◌, ◌≡◌, ap, List, [], ◌∷◌, ◌++◌, count, count-append, arith}

-- Each buffer was released at the dispatcher, or arrived at a pipeline, or waits in the batch.
pub record Conserves (delivered at_dispatcher iq slot waiting : List ℕ) : Type 0 where
  pub total :
      (b : ℕ)
      → count b delivered ≡ count b at_dispatcher + (count b iq + (count b slot + count b waiting))

module _ {iq slot waiting : List ℕ} {delivered : List ℕ} {at_dispatcher : List ℕ}
    (c : Conserves delivered at_dispatcher iq slot waiting) where
  pub Conserves-acted :
      {at_dispatcher' iq' slot' : List ℕ}
      → at_dispatcher' ≡ at_dispatcher
      → iq' ≡ iq
      → slot' ≡ slot
      → Conserves delivered at_dispatcher' iq' slot' waiting
  Conserves-acted p q r = record {
    total = λ b. omega (arith, c.total b, ap (count b) p, ap (count b) q, ap (count b) r);
  }

  pub Conserves-enters :
      {iq' slot' : List ℕ} (bufs : List ℕ)
      → waiting ≡ []
      → iq' ≡ iq
      → slot' ≡ slot
      → Conserves (delivered ++ bufs) at_dispatcher iq' slot' bufs
  Conserves-enters bufs w q r = record {
    total = λ b. omega (
      arith,
      c.total b,
      ap (count b) w,
      ap (count b) q,
      ap (count b) r,
      count-append b delivered bufs,
    );
  }

  pub Conserves-released :
      (bufs : List ℕ) → Conserves (delivered ++ bufs) (at_dispatcher ++ bufs) iq slot waiting
  Conserves-released bufs = record {
    total = λ b.
        omega (arith, c.total b, count-append b delivered bufs, count-append b at_dispatcher bufs);
  }

module _ {iq slot waiting delivered at_dispatcher : List ℕ} (x : ℕ)
    (c : Conserves delivered at_dispatcher iq slot (x ∷ waiting)) where
  pub Conserves-iq :
      {iq' : List ℕ} → iq' ≡ iq ++ (x ∷ []) → Conserves delivered at_dispatcher iq' slot waiting
  Conserves-iq q = record {
    total = λ b. omega (arith, c.total b, ap (count b) q, count-append b iq (x ∷ []));
  }

  pub Conserves-slot :
      {slot' : List ℕ}
      → slot' ≡ slot ++ (x ∷ [])
      → Conserves delivered at_dispatcher iq slot' waiting
  Conserves-slot q = record {
    total = λ b. omega (arith, c.total b, ap (count b) q, count-append b slot (x ∷ []));
  }
