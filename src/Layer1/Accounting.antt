-- ===== src/Layer1/Accounting.antt =====
-- The counters over a run of samples, and the latch of the geometry check.
use e3controller.Common.{
  ℕ, zero, suc, ◌+◌, ◌%◌, ◌^◌, ◌<◌, ◌≤◌, ◌≡◌, ◌≢◌, ◌⊎◌, inl, inr, Bool-cases, if_cases, not, Result,
  ok, err, refl, sym, ap, ◌∙◌, true, false, List, [], ◌∷◌, Option, none, some, length, arith,
}
use e3controller.Pipeline.Slot.{SlotSample}
use e3controller.Shm.Writer.{ShmIqWriter}
use e3controller.Layer1.State.{
  Drop, not_running, slot_filtered, geometry_mismatch, no_iq, blob_too_small, ran_published_nothing,
  no_subscribers, encode_failed, emit_failed, drop_index, E3SmLayer1, Env, bump,
}
use e3controller.Config.Geometry.{RadioGeometry, nof_subcarriers, validate_against_ran}
use e3controller.Config.Geometry.Laws.{validate_against_ran_iff}
use e3controller.Layer1.{is_ok, filtered_out, check_geometry, place_row, on_sample}
use e3controller.Layer1.Ledger.{Core, core, note_drop-core, bumps, emitted, failures}
use e3controller.Layer1.Fate.{Fate, on_sample-Fate, checked-kept, refused, numbered}

-- A sample as it arrives: with what surrounds the object then, and the blob.
pub record Arrival : Type 0 where
  pub env : Env
  pub sample : SlotSample
  pub iq : ℕ → ℕ

unfoldable pub on_samples : E3SmLayer1 → List Arrival → E3SmLayer1
on_samples l [] = l
on_samples l (a ∷ as') = on_samples (on_sample a.env l a.sample a.iq) as'

-- The slots numbered and the slots refused, those whose encoding or sending failed not among the
-- latter.
abbrev pub refusals : (ℕ → ℕ) → ℕ
refusals d = d 0 + d 1 + d 2 + d 3 + d 4 + d 5 + d 6

abbrev pub accounted : Core → ℕ
accounted c = (c.slot_publish_seq + refusals c.drops) % 2 ^ 64

refusals-bump :
    (d : Drop) (f : ℕ → ℕ)
    → drop_index d < 7
    → (refusals (bump d f)) % 2 ^ 64 ≡ (refusals f + 1) % 2 ^ 64
unfolding bump
refusals-bump not_running f h = omega arith
refusals-bump slot_filtered f h = omega arith
refusals-bump geometry_mismatch f h = omega arith
refusals-bump no_iq f h = omega arith
refusals-bump blob_too_small f h = omega arith
refusals-bump ran_published_nothing f h = omega arith
refusals-bump no_subscribers f h = omega arith
refusals-bump encode_failed f h = omega arith
refusals-bump emit_failed f h = omega arith

refusals-late : (d : Drop) (f : ℕ → ℕ) → 6 < drop_index d → refusals (bump d f) ≡ refusals f
unfolding bump
refusals-late d f h = ground arith

refusals-bumps : (n : ℕ) (f : ℕ → ℕ) → refusals (bumps n emit_failed f) ≡ refusals f
refusals-bumps zero f = refl
refusals-bumps (suc n) f =
    refusals-bumps n (bump emit_failed f) ∙ refusals-late emit_failed f (omega arith)

emitted-accounted :
    (env : Env) (p : Option (List ℕ)) (c : Core) → accounted (emitted env p c) ≡ accounted c
emitted-accounted env none c =
    ap (λ n. (c.slot_publish_seq + n) % 2 ^ 64) (refusals-late encode_failed c.drops (omega arith))
emitted-accounted env (some p) c =
    ap (λ n. (c.slot_publish_seq + n) % 2 ^ 64)
      (refusals-bumps (failures env env.subscribers) c.drops)

next-accounted :
    (c : Core) (w : ShmIqWriter)
    → accounted (record c { slot_publish_seq = (c.slot_publish_seq + 1) % 2 ^ 64; shm_writer = w })
      ≡ (accounted c + 1) % 2 ^ 64
next-accounted c w = omega arith

Fate-accounted :
    (env : Env) (l : E3SmLayer1) (s : SlotSample) (iq : ℕ → ℕ) (c : Core)
    → Fate env l s iq c
    → accounted c ≡ (accounted (core l) + 1) % 2 ^ 64
unfolding check_geometry
Fate-accounted env l s iq c (refused d checked confirmed lt k e) =
    ap accounted e ∙ omega (arith, refusals-bump d l.drops lt)
Fate-accounted env l s iq c (numbered run good sound dapps e) =
    ap accounted e
    ∙ emitted-accounted env _ _
    ∙ next-accounted (core (check_geometry l s)) (place_row env (check_geometry l s) s iq).0

-- Over any run of samples, the slots numbered as published and the slots refused for one of the
-- first seven reasons grow together by one for each sample, on 64-bit counters: no sample is lost
-- and none is counted twice. A failed encoding or a failed send is no refusal: its slot is numbered.
pub on_samples-accounted :
    (arrivals : List Arrival) (l : E3SmLayer1)
    → accounted (core (on_samples l arrivals)) ≡ (accounted (core l) + length arrivals) % 2 ^ 64
unfolding on_samples
on_samples-accounted [] l = omega arith
on_samples-accounted (a ∷ as') l =
    let l' = on_sample a.env l a.sample a.iq in
    let one =
      Fate-accounted a.env l a.sample a.iq (core l') (on_sample-Fate a.env l a.sample a.iq) in
    omega (arith, on_samples-accounted as' l', one)

Fate-latched :
    (env : Env) (l : E3SmLayer1) (s : SlotSample) (iq : ℕ → ℕ) (c : Core)
    → l.geometry_checked ≡ true
    → l.geometry_ok ≡ false
    → Fate env l s iq c
    → (c.geometry_checked ≡ true)
      × (c.geometry_ok ≡ false)
      × (c.slot_publish_seq ≡ l.slot_publish_seq)
      × (c.shm_writer ≡ l.shm_writer)
      × (c.sent ≡ l.sent)
Fate-latched env l s iq c h k (refused d checked confirmed lt kept e) =
    let (t, f) = kept h in
    (
      ap (λ (x : Core). x.geometry_checked) e ∙ t,
      ap (λ (x : Core). x.geometry_ok) e ∙ f ∙ k,
      ap (λ (x : Core). x.slot_publish_seq) e,
      ap (λ (x : Core). x.shm_writer) e,
      ap (λ (x : Core). x.sent) e,
    )
Fate-latched env l s iq c h k (numbered run good sound dapps e) =
    let no : false ≡ true = sym k ∙ sym ((checked-kept l s h).1) ∙ good in cc

latched :
    (arrivals : List Arrival) (l : E3SmLayer1)
    → l.geometry_checked ≡ true
    → l.geometry_ok ≡ false
    → let l' = on_samples l arrivals in
      (l'.slot_publish_seq ≡ l.slot_publish_seq)
      × (l'.shm_writer ≡ l.shm_writer)
      × (l'.sent ≡ l.sent)
unfolding on_samples
latched [] l h k = (refl, refl, refl)
latched (a ∷ as') l h k =
    let l' = on_sample a.env l a.sample a.iq in
    let (h', k', q, w, t) =
      Fate-latched a.env l a.sample a.iq (core l') h k (on_sample-Fate a.env l a.sample a.iq) in
    let (q', w', t') = latched as' l' h' k' in (q' ∙ q, w' ∙ w, t' ∙ t)

-- The slot's report disagrees with the configured geometry: it has fewer ports than configured, or
-- another number of symbols or of subcarriers, where it reports a number at all.
abbrev pub Disagrees : RadioGeometry → (ports symbols subcarriers : ℕ) → Type 0
Disagrees g ports symbols subcarriers =
    ((0 < ports) × (ports < g.nof_ports))
    ⊎ ((0 < symbols) × (symbols ≢ g.nof_symbols))
    ⊎ ((0 < subcarriers) × (subcarriers ≢ nof_subcarriers g))

is_ok→eq : {E : Type 0} (r : Result E (Unit {0})) → is_ok r ≡ true → r ≡ ok tt
is_ok→eq (ok u) h = refl
is_ok→eq (err e) h = cc

Disagrees-refused :
    (g : RadioGeometry) (ports symbols subcarriers : ℕ)
    → Disagrees g ports symbols subcarriers
    → is_ok (validate_against_ran g ports symbols subcarriers) ≡ false
Disagrees-refused g ports symbols subcarriers d =
    elim (Bool-cases (is_ok (validate_against_ran g ports symbols subcarriers))) [
      | inl t ↦
          let (p, q, r) = (validate_against_ran_iff g ports symbols subcarriers).0 (is_ok→eq _ t) in
          absurd (agreed d p q r)
      | inr f ↦ f
    ]
  where
    agreed :
        Disagrees g ports symbols subcarriers
        → (ports ≡ 0) ⊎ (g.nof_ports ≤ ports)
        → (symbols ≡ 0) ⊎ (symbols ≡ g.nof_symbols)
        → (subcarriers ≡ 0) ⊎ (subcarriers ≡ nof_subcarriers g)
        → ⊥
    agreed (inl (p, q)) a b c = omega (arith, a, p, q)
    agreed (inr (inl (p, ne))) a (inl z) c = omega (arith, p, z)
    agreed (inr (inl (p, ne))) a (inr z) c = ne z
    agreed (inr (inr (p, ne))) a b (inl z) = omega (arith, p, z)
    agreed (inr (inr (p, ne))) a b (inr z) = ne z

-- The first slot that reaches the check and disagrees.
first_mismatch :
    (env : Env) (l : E3SmLayer1) (s : SlotSample) (iq : ℕ → ℕ)
    → l.geometry_checked ≡ false
    → l.is_running ≡ true
    → filtered_out l.target_slot s.desc.slot_id ≡ false
    → Disagrees l.geom s.desc.nof_ports s.desc.nof_symbols s.desc.nof_subcarriers
    → let l' = on_sample env l s iq in
      core l' ≡ record (core l) {
        geometry_checked = true;
        geometry_ok = false;
        drops = bump geometry_mismatch l.drops;
      }
unfolding on_sample check_geometry
first_mismatch env l s iq unchecked run kept d =
    let m = check_geometry l s in
    let bad : m.geometry_ok ≡ false = rw (unchecked, Disagrees-refused l.geom _ _ _ d) refl in
    let P : E3SmLayer1 → Type 0 = λ l'. core l' ≡ record (core l) {
      geometry_checked = true;
      geometry_ok = false;
      drops = bump geometry_mismatch l.drops;
    } in
    if_cases P (not l.is_running) (λ h. let z = sym h ∙ ap not run in cc)
      (λ runs.
        if_cases P (filtered_out l.target_slot s.desc.slot_id) (λ h. let z = sym kept ∙ h in cc)
          (λ passes.
            if_cases P (not m.geometry_ok)
              (λ no.
                note_drop-core env m geometry_mismatch
                ∙ ap
                    (λ b. record (core l) {
                      geometry_checked = true;
                      geometry_ok = b;
                      drops = bump geometry_mismatch l.drops;
                    })
                    bad)
              (λ good. let z = sym good ∙ ap not bad in cc)))

-- A running object that has checked no slot yet receives one that the target slot does not filter out
-- and whose reported ports, symbols or subcarriers disagree with the configured geometry. That slot is
-- refused and counted as a geometry mismatch; and neither it nor any later sample, whatever arrives, is
-- numbered, writes a row or sends a message.
pub mismatch-latches :
    (l : E3SmLayer1) (first : Arrival) (arrivals : List Arrival)
    → l.geometry_checked ≡ false
    → l.is_running ≡ true
    → filtered_out l.target_slot first.sample.desc.slot_id ≡ false
    → Disagrees l.geom first.sample.desc.nof_ports first.sample.desc.nof_symbols
        first.sample.desc.nof_subcarriers
    → let l' = on_samples l (first ∷ arrivals) in
      ((on_sample first.env l first.sample first.iq).drops ≡ bump geometry_mismatch l.drops)
      × (l'.slot_publish_seq ≡ l.slot_publish_seq)
      × (l'.shm_writer ≡ l.shm_writer)
      × (l'.sent ≡ l.sent)
unfolding on_samples
mismatch-latches l first arrivals unchecked run kept d =
    let l' = on_sample first.env l first.sample first.iq in
    let e = first_mismatch first.env l first.sample first.iq unchecked run kept d in
    let (q, w, t) =
      latched arrivals l' (ap (λ (c : Core). c.geometry_checked) e)
        (ap (λ (c : Core). c.geometry_ok) e) in
    (
      ap (λ (c : Core). c.drops) e,
      q ∙ ap (λ (c : Core). c.slot_publish_seq) e,
      w ∙ ap (λ (c : Core). c.shm_writer) e,
      t ∙ ap (λ (c : Core). c.sent) e,
    )
