-- ===== src/Codelet/Ecpri.antt =====
-- The codelet codelets/ecpri_iq_samples/ecpri_iq_collect.c: `jbpf_main` on one packet. A packet is the
-- bytes from `data` to `data_end`; a read outside of them is the verdict `fault`, which stands for
-- undefined behaviour. The maps of the codelet are its state; what jbpf answers is in `Env`.
mod Parse
pub mod Safety
pub mod Packet
pub mod Roundtrip
pub mod Sampling
pub mod Headers
mod Tests
unfoldable pub use Parse.*
use e3controller.Common.{
  ℕ, zero, suc, ◌+◌, ◌-◌, ◌*◌, ◌/◌, ◌%◌, ◌^◌, Bool, true, false, not, ◌&&◌, ◌||◌, Option, none,
  some, List, [], ◌∷◌, ◌++◌, length, update, ltb, leb, ◌==◌, ◌!=◌, if◌then◌else◌, Result, err, ok,
  refuse_if, ◌>>=◌, ◌>>◌,
}

-- struct iq_sample_data
pub record IqSampleData : Type 0 where
  pub gnb_ts_ns : ℕ
  pub codelet_ts_ns : ℕ
  pub timestamp : ℕ
  pub direction : ℕ
  pub frame_id : ℕ
  pub comp_method : ℕ
  pub iq_width : ℕ
  pub subframe_id : ℕ
  pub slot_id : ℕ
  pub symbol_id : ℕ
  pub section_id : ℕ
  pub start_prbu : ℕ
  pub num_prbu : ℕ
  pub payload_size : ℕ
  pub iq_payload : ℕ → ℕ

-- The maps: the filter, the sampling period and its counter, the bytes in the temporary buffer, and
-- what was put into the output ring.
pub record Maps : Type 0 where
  pub expected_num_prbu : ℕ
  pub sampling_period : ℕ
  pub symbol_counter : ℕ
  pub tmp_payload : ℕ → ℕ
  pub output : List IqSampleData

-- One call's context and what jbpf answers: the clock at the entry and at the output, a message on
-- the control channel, whether each lookup finds its element, whether the ring takes the sample, and
-- what the cleared buffer holds.
pub record Env : Type 0 where
  pub entry_ns : ℕ
  pub output_ns : ℕ
  pub meta_data : ℕ
  pub direction : ℕ
  pub control : Option ℕ
  pub filter_found : Bool
  pub period_found : Bool
  pub counter_found : Bool
  pub tmp_found : Bool
  pub output_taken : Bool
  pub cleared : ℕ → ℕ

-- MAX_IQ_PAYLOAD_BYTES
abbrev pub max_iq_payload_bytes : ℕ
max_iq_payload_bytes = 8192

-- A section of no PRBs stands for the whole carrier.
unfoldable pub num_prbu_of : ℕ → ℕ
num_prbu_of sec_bits = if sec_bits % 256 == 0 then 273 else sec_bits % 256

-- The message on the control channel.
unfoldable pub receive_config : Env → Maps → Maps
receive_config env m = elim (env.control) [
  | none ↦ m
  | some n ↦ if env.filter_found then record m { expected_num_prbu = n } else m
]

-- Whether the PRB filter skips a packet.
abbrev pub prb_filtered : Env → Maps → ℕ → Bool
prb_filtered env m num_prbu =
    env.filter_found && ltb 0 m.expected_num_prbu && num_prbu != m.expected_num_prbu

-- The sampling: the new counter, and whether this packet is put out.
unfoldable pub sample : (period counter : ℕ) → ℕ × Bool
sample period counter =
    if ltb 0 period
    then (if ltb ((counter + 1) % 2 ^ 32) period
        then ((counter + 1) % 2 ^ 32, false)
        else (0, true))
    else (counter, true)

unfoldable pub copy_size_of : ℕ → ℕ
copy_size_of avail =
    if ltb max_iq_payload_bytes (avail % 2 ^ 16) then max_iq_payload_bytes else avail % 2 ^ 16

-- The copy loop, with `left` rounds to go.
unfoldable pub copy_loop : ℕ → List ℕ → ℕ → ℕ → ℕ → (ℕ → ℕ) → Result Verdict (ℕ → ℕ)
copy_loop zero pkt iq_start copy_size i out = ok out
copy_loop (suc left) pkt iq_start copy_size i out =
    let rest = byte_at pkt (iq_start + i) >>= λ b.
    copy_loop left pkt iq_start copy_size (i + 1) (update out i b) in
    if leb copy_size i || ltb (length pkt) (iq_start + i + 1) then ok out else rest

-- The sample, its payload given.
abbrev pub fill_sample : Env → List ℕ → Section → (ℕ → ℕ) → IqSampleData
fill_sample env pkt s payload = record {
  gnb_ts_ns = env.meta_data;
  codelet_ts_ns = env.output_ns;
  timestamp = env.entry_ns / 1000 % 2 ^ 31;
  direction = env.direction;
  frame_id = s.frame_id;
  comp_method = s.comp_hdr % 16;
  iq_width = s.comp_hdr / 16 % 16;
  subframe_id = subframe_id_of s.sf_slot_sym;
  slot_id = slot_id_of s.sf_slot_sym;
  symbol_id = symbol_id_of s.sf_slot_sym;
  section_id = s.sec_bits / 2 ^ 20 % 2 ^ 12;
  start_prbu = s.sec_bits / 2 ^ 8 % 2 ^ 10;
  num_prbu = num_prbu_of s.sec_bits;
  payload_size = copy_size_of (length pkt - s.iq_start);
  iq_payload = payload;
}

-- The output of what the copy loop gave, and the clearing of the buffer.
abbrev pub emit : Env → List ℕ → Section → Maps → Result Verdict (ℕ → ℕ) → Maps × Verdict
emit env pkt s m (err v) = (m, v)
emit env pkt s m (ok payload) =
    if env.output_taken
    then (
      record m {
        tmp_payload = env.cleared;
        output = m.output ++ (fill_sample env pkt s payload ∷ []);
      },
      success,
    )
    else (record m { tmp_payload = env.cleared }, failure)

-- From `out->gnb_ts_ns = ...` on.
unfoldable pub put_out : Env → List ℕ → Section → Maps → Maps × Verdict
put_out env pkt s m = emit env pkt s m (
    copy_loop max_iq_payload_bytes pkt s.iq_start (copy_size_of (length pkt - s.iq_start)) 0
      m.tmp_payload)

-- From the control channel on, the message received.
unfoldable pub after_config : Env → List ℕ → Section → Maps → Maps × Verdict
unfolding sample
after_config env pkt s m =
    if prb_filtered env m (num_prbu_of s.sec_bits)
    then (m, success)
    else if not (env.period_found && env.counter_found)
    then (m, failure)
    else (let (counter, due) = sample m.sampling_period m.symbol_counter in
        let m' = record m { symbol_counter = counter } in
        if not due
        then (m', success)
        else if env.tmp_found
        then put_out env pkt s m'
        else (m', failure))

unfoldable pub jbpf_main : Env → List ℕ → Maps → Maps × Verdict
jbpf_main env pkt m = elim (parse pkt) [
  | err v ↦ (m, v)
  | ok s ↦ after_config env pkt s (receive_config env m)
]
