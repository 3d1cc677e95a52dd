-- ===== src/Codelet/Ecpri/Parse.antt =====
-- The parsing of a packet in `jbpf_main` of codelets/ecpri_iq_samples/ecpri_iq_collect.c, from the
-- Ethernet header to the samples.
use e3controller.Common.{
  ℕ, zero, suc, ◌+◌, ◌*◌, ◌/◌, ◌%◌, ◌^◌, List, [], ◌∷◌, length, leb, ◌==◌, ◌!=◌, if◌then◌else◌,
  Result, err, ok, refuse_if, ◌>>=◌, ◌>>◌,
}

-- What ends a call early: an undefined read, JBPF_CODELET_FAILURE, JBPF_CODELET_SUCCESS.
pub data Verdict : Type 0 where
  fault failure success : Verdict

unfoldable pub byte_at : List ℕ → ℕ → Result Verdict ℕ
byte_at [] i = err fault
byte_at (x ∷ xs) zero = ok x
byte_at (x ∷ xs) (suc i) = byte_at xs i

-- jbpf_ntohs and jbpf_ntohl of what stands at an offset.
unfoldable pub ntohs_at : List ℕ → ℕ → Result Verdict ℕ
ntohs_at pkt i = do a ← byte_at pkt i; b ← byte_at pkt (i + 1); ok (a * 2 ^ 8 + b)

unfoldable pub ntohl_at : List ℕ → ℕ → Result Verdict ℕ
ntohl_at pkt i = do a ← ntohs_at pkt i; b ← ntohs_at pkt (i + 2); ok (a * 2 ^ 16 + b)

-- The sizes of the packed headers.
abbrev pub eth_hdr_bytes : ℕ
eth_hdr_bytes = 14

abbrev pub vlan_hdr_bytes : ℕ
vlan_hdr_bytes = 4

abbrev pub ecpri_hdr_bytes : ℕ
ecpri_hdr_bytes = 8

abbrev pub app_hdr_bytes : ℕ
app_hdr_bytes = 4

abbrev pub data_section_hdr_bytes : ℕ
data_section_hdr_bytes = 4

abbrev pub compression_hdr_bytes : ℕ
compression_hdr_bytes = 2

-- `if ((void *)(hdr + 1) >= pkt_end) return JBPF_CODELET_FAILURE;`
abbrev pub room_for : List ℕ → ℕ → Result Verdict (Unit {0})
room_for pkt hdr_end = refuse_if (leb (length pkt) hdr_end) failure

abbrev pub target_abs_slot : ℕ
target_abs_slot = 19

abbrev pub target_symbol_id : ℕ
target_symbol_id = 13

-- What is read of the headers, and where the samples start.
pub record Section : Type 0 where
  pub frame_id : ℕ
  pub sf_slot_sym : ℕ
  pub sec_bits : ℕ
  pub comp_hdr : ℕ
  pub iq_start : ℕ

abbrev pub subframe_id_of : ℕ → ℕ
subframe_id_of sf_slot_sym = sf_slot_sym / 2 ^ 12 % 16

abbrev pub slot_id_of : ℕ → ℕ
slot_id_of sf_slot_sym = sf_slot_sym / 2 ^ 6 % 64

abbrev pub symbol_id_of : ℕ → ℕ
symbol_id_of sf_slot_sym = sf_slot_sym % 64

-- From the radio application header on; `o` is its offset. All reads stand together here.
unfoldable pub parse_section : List ℕ → ℕ → Result Verdict Section
parse_section pkt o = do
  room_for pkt (o + app_hdr_bytes)
  sf_slot_sym ← ntohs_at pkt (o + 2)
  refuse_if (subframe_id_of sf_slot_sym * 2 + slot_id_of sf_slot_sym != target_abs_slot) success
  refuse_if (symbol_id_of sf_slot_sym != target_symbol_id) success
  room_for pkt (o + app_hdr_bytes + data_section_hdr_bytes)
  room_for pkt (o + app_hdr_bytes + data_section_hdr_bytes + compression_hdr_bytes)
  sec_bits ← ntohl_at pkt (o + app_hdr_bytes)
  frame_id ← byte_at pkt (o + 1)
  comp_hdr ← byte_at pkt (o + app_hdr_bytes + data_section_hdr_bytes)
  ok (record {
    frame_id = frame_id;
    sf_slot_sym = sf_slot_sym;
    sec_bits = sec_bits;
    comp_hdr = comp_hdr;
    iq_start = o + app_hdr_bytes + data_section_hdr_bytes + compression_hdr_bytes;
  })

-- From the eCPRI header on, at offset `o`; only IQ data goes on.
unfoldable pub parse_ecpri : List ℕ → ℕ → Result Verdict Section
parse_ecpri pkt o = do
  room_for pkt (o + ecpri_hdr_bytes)
  mesg_type ← byte_at pkt (o + 1)
  refuse_if (mesg_type != 0) success
  parse_section pkt (o + ecpri_hdr_bytes)

-- The optional VLAN tag: the Ethernet type behind it, and the end of what was read.
unfoldable pub parse_vlan : List ℕ → Result Verdict (ℕ × ℕ)
parse_vlan pkt = do
  room_for pkt (eth_hdr_bytes + vlan_hdr_bytes)
  ether_type ← ntohs_at pkt (eth_hdr_bytes + 2)
  ok (ether_type, eth_hdr_bytes + vlan_hdr_bytes)

unfoldable pub parse_ethernet : List ℕ → Result Verdict (ℕ × ℕ)
parse_ethernet pkt = do
  room_for pkt eth_hdr_bytes
  ether_type ← ntohs_at pkt 12
  if ether_type == 0x8100 then parse_vlan pkt else ok (ether_type, eth_hdr_bytes)

unfoldable pub parse : List ℕ → Result Verdict Section
parse pkt = do
  (ether_type, o) ← parse_ethernet pkt
  refuse_if (ether_type != 0xaefe) failure
  parse_ecpri pkt o
