-- ===== src/Codelet/Ecpri/Headers.antt =====
-- How the codelet parses the headers of a packet.
use e3controller.Common.{
  ℕ, ◌+◌, ◌*◌, ◌<◌, ◌≡◌, refl, ◌∙◌, ap, Option, none, some, List, length, ok, arith,
}
use e3controller.Codelet.Ecpri.{
  subframe_id_of, slot_id_of, symbol_id_of, byte_at, ntohs_at, ntohl_at, parse_section, parse_ecpri,
  parse_vlan, parse_ethernet, parse,
}
use e3controller.Codelet.Ecpri.Packet.{
  Message, InRange, sf_slot_sym_of, sec_bits_of, frame_with, header_bytes, section_at, word_whole,
  long_whole, IsTarget,
}

-- What the parser makes of the words that stand at its offsets.
parse_section-words :
    (pkt : List ℕ) (o sf sec f c : ℕ)
    → o + 10 < length pkt
    → ntohs_at pkt (o + 2) ≡ ok sf
    → ntohl_at pkt (o + 4) ≡ ok sec
    → byte_at pkt (o + 1) ≡ ok f
    → byte_at pkt (o + 4 + 4) ≡ ok c
    → subframe_id_of sf * 2 + slot_id_of sf ≡ 19
    → symbol_id_of sf ≡ 13
    → parse_section pkt o
      ≡ ok (record {
        frame_id = f;
        sf_slot_sym = sf;
        sec_bits = sec;
        comp_hdr = c;
        iq_start = o + 4 + 4 + 2;
      })
unfolding parse_section
parse_section-words pkt o sf sec f c h e1 e2 e3 e4 slot symbol = ground arith

slot_kept :
    (m : Message)
    → InRange m
    → IsTarget m
    → subframe_id_of (sf_slot_sym_of m) * 2 + slot_id_of (sf_slot_sym_of m) ≡ 19
slot_kept m r t = omega arith

symbol_kept : (m : Message) → InRange m → IsTarget m → symbol_id_of (sf_slot_sym_of m) ≡ 13
symbol_kept m r t = omega arith

plain_section :
    (m : Message)
    → InRange m
    → IsTarget m
    → parse_section (frame_with none m) 22 ≡ ok (section_at m 32)
unfolding ntohs_at ntohl_at byte_at
plain_section m r t =
    parse_section-words (frame_with none m) 22 (sf_slot_sym_of m) (sec_bits_of m) m.frame_id
      (m.iq_width * 16 + m.comp_method) (omega (arith, r.some_samples))
      (ap ok (word_whole (sf_slot_sym_of m))) (ap ok (long_whole (sec_bits_of m))) refl refl
      (slot_kept m r t) (symbol_kept m r t)

tagged_section :
    (m : Message) (tci : ℕ)
    → InRange m
    → IsTarget m
    → parse_section (frame_with (some tci) m) 26 ≡ ok (section_at m 36)
unfolding ntohs_at ntohl_at byte_at
tagged_section m tci r t =
    parse_section-words (frame_with (some tci) m) 26 (sf_slot_sym_of m) (sec_bits_of m) m.frame_id
      (m.iq_width * 16 + m.comp_method) (omega (arith, r.some_samples))
      (ap ok (word_whole (sf_slot_sym_of m))) (ap ok (long_whole (sec_bits_of m))) refl refl
      (slot_kept m r t) (symbol_kept m r t)

parse_ecpri-iq :
    (pkt : List ℕ) (o : ℕ)
    → o + 8 < length pkt
    → byte_at pkt (o + 1) ≡ ok 0
    → parse_ecpri pkt o ≡ parse_section pkt (o + 8)
unfolding parse_ecpri
parse_ecpri-iq pkt o h e = ground arith

parse-plain :
    (pkt : List ℕ) → 14 < length pkt → ntohs_at pkt 12 ≡ ok 0xaefe → parse pkt ≡ parse_ecpri pkt 14
unfolding parse parse_ethernet
parse-plain pkt h e = ground arith

parse-tagged :
    (pkt : List ℕ)
    → 18 < length pkt
    → ntohs_at pkt 12 ≡ ok 0x8100
    → ntohs_at pkt 16 ≡ ok 0xaefe
    → parse pkt ≡ parse_ecpri pkt 18
unfolding parse parse_ethernet parse_vlan
parse-tagged pkt h e e' = ground arith

-- The headers of a message of the slot and the symbol that are kept, with a VLAN tag or without,
-- parse to its fields.
pub parse-frame_with :
    (vlan : Option ℕ) (m : Message)
    → InRange m
    → IsTarget m
    → parse (frame_with vlan m) ≡ ok (section_at m (header_bytes vlan))
unfolding ntohs_at byte_at
parse-frame_with none m r t =
    parse-plain (frame_with none m) (omega (arith, r.some_samples)) refl
    ∙ parse_ecpri-iq (frame_with none m) 14 (omega (arith, r.some_samples)) refl
    ∙ plain_section m r t
parse-frame_with (some tci) m r t =
    parse-tagged (frame_with (some tci) m) (omega (arith, r.some_samples)) refl refl
    ∙ parse_ecpri-iq (frame_with (some tci) m) 18 (omega (arith, r.some_samples)) refl
    ∙ tagged_section m tci r t
