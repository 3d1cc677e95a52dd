-- ===== src/Layer1/Rows.antt =====
-- Which row an indication points at, in each writer mode.
use mathlib.Core.List.{append-nil}
use e3controller.Common.{
  ℕ, ◌+◌, ◌%◌, ◌^◌, ◌<◌, ◌≤◌, ◌*◌, ◌≡◌, ◌⊎◌, inl, inr, refl, sym, ap, ◌∙◌, true, false, List, [],
  ◌++◌, Option, none, some, arith,
}
use e3controller.Config.Geometry.{cbf16_bytes_per_ant}
use e3controller.Pipeline.Slot.{SlotSample}
use e3controller.Shm.Writer.{ShmIqWriter, writes_rows, publish_row_cbf16}
use e3controller.Layer1.State.{E3SmLayer1, Env}
use e3controller.Layer1.{
  check_geometry, data_fault, place_row, indication_of, ports_clamped, expected_bytes, is_truncated,
  on_sample,
}
use e3controller.Layer1.Ledger.{Core, core, deliveries, emitted}
use e3controller.Layer1.Fate.{Fate, on_sample-Fate, refused, numbered}

-- What reaches libe3 for an indication that the encoder answers `p` to.
abbrev pub messages : Env → Option (List ℕ) → List (ℕ × List ℕ)
messages env none = []
messages env (some payload) = deliveries payload env.subscribers

-- What a sample did: nothing that a dApp could see, with the row store as it was; or a row, placed
-- in `w` at the indices `b` and `r`, whose indication was encoded and handed over for each
-- subscriber.
abbrev pub Placed : Env → E3SmLayer1 → SlotSample → Core → ShmIqWriter → ℕ → ℕ → Type 0 → Type 0
Placed env l s c w b r Sound =
    ((c.sent ≡ l.sent) × (c.shm_writer ≡ l.shm_writer) × (c.slot_publish_seq ≡ l.slot_publish_seq))
    ⊎ (Sound
        × (c.shm_writer ≡ w)
        × (c.slot_publish_seq ≡ (l.slot_publish_seq + 1) % 2 ^ 64)
        × (c.sent ≡ l.sent ++ messages env (env.encode env.encoding (indication_of l s b r))))

pub emitted-sent :
    (env : Env) (p : Option (List ℕ)) (c : Core)
    → ((emitted env p c).shm_writer ≡ c.shm_writer)
      × ((emitted env p c).slot_publish_seq ≡ c.slot_publish_seq)
      × ((emitted env p c).sent ≡ c.sent ++ messages env p)
emitted-sent env none c = (refl, refl, sym (append-nil c.sent))
emitted-sent env (some p) c = (refl, refl, refl)

sound_gnb :
    (m : E3SmLayer1) (s : SlotSample)
    → writes_rows m.shm_writer ≡ false
    → data_fault m s ≡ none
    → (is_truncated s.desc.flags ≡ false) × (0 < s.desc.bytes_written)
unfolding data_fault
sound_gnb m s g h = ground arith

sound_controller :
    (m : E3SmLayer1) (s : SlotSample)
    → writes_rows m.shm_writer ≡ true
    → data_fault m s ≡ none
    → (s.has_iq ≡ true)
      × (ports_clamped m.geom s.desc.nof_ports * cbf16_bytes_per_ant m.geom % 2 ^ 32
          ≤ s.iq_size_bytes)
unfolding data_fault expected_bytes
sound_controller m s g h = ground arith

placed :
    (env : Env) (l : E3SmLayer1) (s : SlotSample) (iq : ℕ → ℕ) (c : Core)
    → Fate env l s iq c
    → let (w, b, r) = place_row env (check_geometry l s) s iq in
      Placed env l s c w b r (data_fault (check_geometry l s) s ≡ none)
unfolding check_geometry
placed env l s iq c (refused d checked confirmed lt kept e) = inl (
  ap (λ (x : Core). x.sent) e,
  ap (λ (x : Core). x.shm_writer) e,
  ap (λ (x : Core). x.slot_publish_seq) e,
)
placed env l s iq c (numbered run good sound dapps e) =
    let m = check_geometry l s in
    let (w, b, r) = place_row env m s iq in
    let p = env.encode env.encoding (indication_of m s b r) in
    let base : Core = record (core m) {
      slot_publish_seq = (l.slot_publish_seq + 1) % 2 ^ 64;
      shm_writer = w;
    } in
    let (x, y, z) = emitted-sent env p base in
    inr (
      sound,
      ap (λ (k : Core). k.shm_writer) e ∙ x,
      ap (λ (k : Core). k.slot_publish_seq) e ∙ y,
      ap (λ (k : Core). k.sent) e ∙ z,
    )

-- The same with the row and the data's soundness spelled out.
pub Placed-at :
    (env : Env) (l : E3SmLayer1) (s : SlotSample) (c : Core) (x y : ShmIqWriter × ℕ × ℕ)
    {Sound Sound' : Type 0}
    → x ≡ y
    → (Sound → Sound')
    → Placed env l s c x.0 x.1 x.2 Sound
    → Placed env l s c y.0 y.1 y.2 Sound'
Placed-at env l s c x y e f (inl h) = inl h
Placed-at env l s c x y e f (inr (h, w, q, t)) = inr (
  f h,
  w ∙ ap (λ (z : ShmIqWriter × ℕ × ℕ). z.0) e,
  q,
  t
      ∙ ap
          (λ (z : ShmIqWriter × ℕ × ℕ).
            l.sent ++ messages env (env.encode env.encoding (indication_of l s z.1 z.2)))
          e,
)

place_gnb :
    (env : Env) (l : E3SmLayer1) (s : SlotSample) (iq : ℕ → ℕ)
    → writes_rows l.shm_writer ≡ false
    → place_row env (check_geometry l s) s iq
      ≡ (l.shm_writer, s.desc.fh_buffer_index, s.desc.fh_write_index)
unfolding place_row check_geometry
place_gnb env l s iq g = rw (g) refl

place_controller :
    (env : Env) (l : E3SmLayer1) (s : SlotSample) (iq : ℕ → ℕ)
    → writes_rows l.shm_writer ≡ true
    → let p =
        publish_row_cbf16 env.convert iq (ports_clamped l.geom s.desc.nof_ports) l.shm_writer in
      place_row env (check_geometry l s) s iq ≡ (p.after, p.buffer_index, p.write_index)
unfolding place_row check_geometry
place_controller env l s iq g = rw (g) refl

-- In gnb mode the object writes no row. A sample either does nothing that a dApp could see, or the
-- RAN wrote bytes and did not flag the slot truncated, and each subscriber is sent the encoding of an
-- indication with the indices that the RAN reported.
pub gnb_mode :
    (env : Env) (l : E3SmLayer1) (s : SlotSample) (iq : ℕ → ℕ)
    → writes_rows l.shm_writer ≡ false
    → Placed env l s
        (core (on_sample env l s iq))
        l.shm_writer
        s.desc.fh_buffer_index
        s.desc.fh_write_index
        ((is_truncated s.desc.flags ≡ false) × (0 < s.desc.bytes_written))
unfolding check_geometry
gnb_mode env l s iq g =
    Placed-at env l s (core (on_sample env l s iq)) _ _ (place_gnb env l s iq g)
      (sound_gnb (check_geometry l s) s g) (placed env l s iq _ (on_sample-Fate env l s iq))

-- In controller mode a sample either does nothing that a dApp could see, and leaves the rows alone,
-- or it carries at least the bytes of the ports to publish, and each subscriber is sent the encoding
-- of an indication with the indices of the row that this sample wrote.
pub controller_mode :
    (env : Env) (l : E3SmLayer1) (s : SlotSample) (iq : ℕ → ℕ)
    → writes_rows l.shm_writer ≡ true
    → let p =
        publish_row_cbf16 env.convert iq (ports_clamped l.geom s.desc.nof_ports) l.shm_writer in
      Placed env l s (core (on_sample env l s iq)) p.after p.buffer_index p.write_index (
        (s.has_iq ≡ true)
        × (ports_clamped l.geom s.desc.nof_ports * cbf16_bytes_per_ant l.geom % 2 ^ 32
            ≤ s.iq_size_bytes))
unfolding check_geometry
controller_mode env l s iq g =
    Placed-at env l s (core (on_sample env l s iq)) _ _ (place_controller env l s iq g)
      (sound_controller (check_geometry l s) s g) (placed env l s iq _ (on_sample-Fate env l s iq))
