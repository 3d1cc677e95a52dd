-- ===== src/Pipeline/Spsc/Fifo.antt =====
-- The ring is a FIFO of at most `QUEUE_CAPACITY` entries, also where the counters wrap.
use mathlib.Core.Path.{ap₂}
use native.Mathlib.Nat.{mod-add-mod, mod-lt}
use e3controller.Common.{
  add-mod-ne, ℕ, zero, suc, ◌+◌, ◌-◌, ◌%◌, ◌^◌, ◌≤◌, ◌<◌, ◌≡◌, ◌≢◌, sym, ap, ◌∙◌, true, false, List,
  [], ◌∷◌, ◌++◌, update, arith,
}
use e3controller.Pipeline.Spsc.{QueueEntry, Spsc, used, is_empty, pop, is_full, push, front}

-- What the index arithmetic needs of a capacity; a power of two below 2^32 has it.
pub record IsCapacity (cap : ℕ) : Type 0 where
  pub positive : 0 < cap
  pub small : cap < 2 ^ 32
  pub divides : (x : ℕ) → x % 2 ^ 64 % cap ≡ x % cap

pub IsCapacity-32 : IsCapacity 32
IsCapacity-32 = record { positive = omega arith; small = omega arith; divides = λ x. omega arith }

pub IsCapacity-64 : IsCapacity 64
IsCapacity-64 = record { positive = omega arith; small = omega arith; divides = λ x. omega arith }

update_self : (m : ℕ → QueueEntry) (v : QueueEntry) {i j : ℕ} → i ≡ j → update m i v j ≡ v
update_self m v e = ground arith

update_ne : (m : ℕ → QueueEntry) (v : QueueEntry) {i j : ℕ} → i ≢ j → update m i v j ≡ m j
update_ne m v e = ground arith

head_of_used :
    (head tail : ℕ)
    → head < 2 ^ 64
    → tail < 2 ^ 64
    → head ≡ (tail + (head + 2 ^ 64 - tail) % 2 ^ 64) % 2 ^ 64
head_of_used head tail h t = omega arith

used_push :
    (head tail : ℕ)
    → head < 2 ^ 64
    → tail < 2 ^ 64
    → (head + 2 ^ 64 - tail) % 2 ^ 64 < 2 ^ 32
    → ((head + 1) % 2 ^ 64 + 2 ^ 64 - tail) % 2 ^ 64 ≡ suc ((head + 2 ^ 64 - tail) % 2 ^ 64)
used_push head tail h t u = omega arith

used_pop :
    (head tail : ℕ)
    → head < 2 ^ 64
    → tail < 2 ^ 64
    → head ≢ tail
    → (head + 2 ^ 64 - tail) % 2 ^ 64 ≡ suc ((head + 2 ^ 64 - (tail + 1) % 2 ^ 64) % 2 ^ 64)
used_pop head tail h t ne = omega arith

pub used_none : (head tail : ℕ) → head < 2 ^ 64 → head ≡ tail → (head + 2 ^ 64 - tail) % 2 ^ 64 ≡ 0
used_none head tail h e = omega arith

-- A pop takes one entry off the count.
pub used-pop :
    (q : Spsc)
    → q.head < 2 ^ 64
    → q.tail < 2 ^ 64
    → is_empty q ≡ false
    → used q ≡ suc (used (pop q))
unfolding pop is_empty
used-pop q h t e = used_pop q.head q.tail h t (ground arith)

module _ (cap : ℕ) where
  -- The `n` entries from counter `t` on.
  abbrev pub window : (ℕ → QueueEntry) → ℕ → ℕ → List QueueEntry
  window slots t zero = []
  window slots t (suc n) = slots (t % cap) ∷ window slots ((t + 1) % 2 ^ 64) n

  abbrev pub contents : Spsc → List QueueEntry
  contents q = window q.slots q.tail (used q)

  pub record IsRing (q : Spsc) : Type 0 where
    pub head_lt : q.head < 2 ^ 64
    pub tail_lt : q.tail < 2 ^ 64
    pub used_le : used q ≤ cap

  module _ (c : IsCapacity cap) where
    shift : (t n : ℕ) → (t + suc n) % cap ≡ ((t + 1) % 2 ^ 64 + n) % cap
    shift t n =
        ap (λ k. k % cap) (omega arith)
        ∙ sym (mod-add-mod (t + 1) cap n)
        ∙ ap (λ k. (k + n) % cap) (sym (c.divides (t + 1)))
        ∙ mod-add-mod ((t + 1) % 2 ^ 64) cap n

    not_first : (t n : ℕ) → suc n < cap → (t + suc n) % cap ≢ t % cap
    not_first t n h e =
        add-mod-ne (mod-lt t c.positive) (omega arith) h (mod-add-mod t cap (suc n) ∙ e)

    window-update :
        (slots : ℕ → QueueEntry) (e : QueueEntry) (n t i : ℕ)
        → n < cap
        → i ≡ (t + n) % cap
        → window (update slots i e) t (suc n) ≡ window slots t n ++ (e ∷ [])
    window-update slots e zero t i h p =
        ap (λ x. x ∷ []) (update_self slots e (p ∙ ap (λ k. k % cap) (omega arith)))
    window-update slots e (suc n) t i h p =
        ap₂ ◌∷◌ (update_ne slots e (λ q. not_first t n h (sym p ∙ q)))
          (window-update slots e n ((t + 1) % 2 ^ 64) i (omega arith) (p ∙ shift t n))

    -- `head` is `used` entries past `tail`, as a slot index too.
    head_index : {q : Spsc} → IsRing q → q.head % cap ≡ (q.tail + used q) % cap
    head_index {q} v =
        ap (λ k. k % cap) (head_of_used q.head q.tail v.head_lt v.tail_lt)
        ∙ c.divides (q.tail + used q)

    -- The queue's contents after a push that finds room: the entry at the end.
    pub push-contents :
        {q : Spsc} (e : QueueEntry)
        → IsRing q
        → is_full cap q ≡ false
        → IsRing (push cap q e) × (contents (push cap q e) ≡ contents q ++ (e ∷ []))
    unfolding push is_full
    push-contents {q} e v room =
        let u : used q < cap = ground arith in
        let s = used_push q.head q.tail v.head_lt v.tail_lt (omega (arith, c.small)) in
        (
          record { head_lt = omega arith; tail_lt = v.tail_lt; used_le = omega (arith, s) },
          ap (window (update q.slots (q.head % cap) e) q.tail) s
              ∙ window-update q.slots e (used q) q.tail (q.head % cap) u (head_index v),
        )

    -- The queue is empty exactly when it has no contents, and else a pop takes the first entry.
    pub pop-contents :
        {q : Spsc}
        → IsRing q
        → is_empty q ≡ false
        → IsRing (pop q) × (contents q ≡ front cap q ∷ contents (pop q))
    unfolding pop is_empty front
    pop-contents {q} v some' =
        let s = used_pop q.head q.tail v.head_lt v.tail_lt (ground arith) in
        (
          record {
            head_lt = v.head_lt;
            tail_lt = omega arith;
            used_le = omega (arith, s, v.used_le);
          },
          ap (window q.slots q.tail) s,
        )

    pub empty-contents : {q : Spsc} → IsRing q → is_empty q ≡ true → contents q ≡ []
    unfolding is_empty
    empty-contents {q} v e =
        ap (window q.slots q.tail) (used_none q.head q.tail v.head_lt (ground arith))
