-- ===== src/Codelet/Ecpri/Packet.antt =====
-- The packets of an eCPRI user plane message, written from the field layout of
-- codelets/include/xran_format.h.
use e3controller.Common.{
  ℕ, ◌+◌, ◌*◌, ◌/◌, ◌%◌, ◌^◌, ◌<◌, ◌≡◌, Option, none, some, List, ◌∷◌, length, arith,
}
use e3controller.Codelet.Ecpri.{Section}

-- A message: an optional VLAN tag, the fields of the headers that the codelet reads, and the samples.
-- `other` gives the bytes of the headers that it does not read.
pub record Message : Type 0 where
  pub vlan : Option ℕ
  pub frame_id : ℕ
  pub subframe_id : ℕ
  pub slot_id : ℕ
  pub symbol_id : ℕ
  pub section_id : ℕ
  pub rb : ℕ
  pub sym_inc : ℕ
  pub start_prbu : ℕ
  pub num_prbu : ℕ
  pub iq_width : ℕ
  pub comp_method : ℕ
  pub other : ℕ → ℕ
  pub samples : List ℕ

-- The widths of the fields, and that there are samples.
pub record InRange (m : Message) : Type 0 where
  pub subframe_lt : m.subframe_id < 16
  pub slot_lt : m.slot_id < 64
  pub symbol_lt : m.symbol_id < 64
  pub section_lt : m.section_id < 2 ^ 12
  pub rb_lt : m.rb < 2
  pub sym_inc_lt : m.sym_inc < 2
  pub start_lt : m.start_prbu < 2 ^ 10
  pub num_lt : m.num_prbu < 256
  pub width_lt : m.iq_width < 16
  pub method_lt : m.comp_method < 16
  pub some_samples : 0 < length m.samples

abbrev pub sf_slot_sym_of : Message → ℕ
sf_slot_sym_of m = m.subframe_id * 2 ^ 12 + m.slot_id * 2 ^ 6 + m.symbol_id

abbrev pub sec_bits_of : Message → ℕ
sec_bits_of m =
    m.section_id * 2 ^ 20 + m.rb * 2 ^ 19 + m.sym_inc * 2 ^ 18 + m.start_prbu * 2 ^ 8 + m.num_prbu

-- A big-endian word in front of what follows.
abbrev htons : ℕ → List ℕ → List ℕ
htons x rest = x / 2 ^ 8 ∷ x % 2 ^ 8 ∷ rest

abbrev htonl : ℕ → List ℕ → List ℕ
htonl x rest = htons (x / 2 ^ 16) (htons (x % 2 ^ 16) rest)

-- The section with its headers, from the radio application header on.
abbrev section_bytes : Message → List ℕ
section_bytes m =
    m.other 20
    ∷ m.frame_id
    ∷ htons (sf_slot_sym_of m)
        (htonl (sec_bits_of m) ((m.iq_width * 16 + m.comp_method) ∷ m.other 21 ∷ m.samples))

-- The eCPRI header, of message type 0.
abbrev ecpri_bytes : Message → List ℕ
ecpri_bytes m =
    m.other 12
    ∷ 0
    ∷ m.other 13
    ∷ m.other 14
    ∷ m.other 15
    ∷ m.other 16
    ∷ m.other 17
    ∷ m.other 18
    ∷ section_bytes m

abbrev link : Option ℕ → List ℕ → List ℕ
link none rest = htons 0xaefe rest
link (some tci) rest = htons 0x8100 (htons tci (htons 0xaefe rest))

abbrev pub frame_with : Option ℕ → Message → List ℕ
frame_with vlan m =
    m.other 0
    ∷ m.other 1
    ∷ m.other 2
    ∷ m.other 3
    ∷ m.other 4
    ∷ m.other 5
    ∷ m.other 6
    ∷ m.other 7
    ∷ m.other 8
    ∷ m.other 9
    ∷ m.other 10
    ∷ m.other 11
    ∷ link vlan (ecpri_bytes m)

abbrev pub frame_of : Message → List ℕ
frame_of m = frame_with m.vlan m

abbrev pub header_bytes : Option ℕ → ℕ
header_bytes none = 32
header_bytes (some tci) = 36

abbrev pub section_at : Message → ℕ → Section
section_at m iq_start = record {
  frame_id = m.frame_id;
  sf_slot_sym = sf_slot_sym_of m;
  sec_bits = sec_bits_of m;
  comp_hdr = m.iq_width * 16 + m.comp_method;
  iq_start = iq_start;
}

abbrev pub section_of : Message → Section
section_of m = section_at m (header_bytes m.vlan)

pub word_whole : (x : ℕ) → x / 2 ^ 8 * 2 ^ 8 + x % 2 ^ 8 ≡ x
word_whole x = omega arith

pub long_whole :
    (x : ℕ)
    → (x / 2 ^ 16 / 2 ^ 8 * 2 ^ 8 + x / 2 ^ 16 % 2 ^ 8) * 2 ^ 16
        + (x % 2 ^ 16 / 2 ^ 8 * 2 ^ 8 + x % 2 ^ 16 % 2 ^ 8)
      ≡ x
long_whole x = omega arith

-- The slot and the symbol that the codelet keeps.
pub record IsTarget (m : Message) : Type 0 where
  pub abs_slot : m.subframe_id * 2 + m.slot_id ≡ 19
  pub symbol : m.symbol_id ≡ 13
