-- ===== src/Codelet/Ecpri/Roundtrip.antt =====
-- What the codelet puts out for a packet is what the packet was made of.
use e3controller.Common.{
  ℕ, ◌+◌, ◌-◌, ◌%◌, ◌^◌, ◌/◌, ◌≤◌, ◌<◌, ◌≡◌, refl, ap, ◌∙◌, true, false, Option, none, some, List,
  [], ◌∷◌, ◌++◌, length, get_or, get_or-append_right, ◌==◌, if◌then◌else◌, arith,
}
use e3controller.Shm.Memory.{convert_loop, convert_loop_lem}
use e3controller.Codelet.Ecpri.{
  success, Section, IqSampleData, Maps, Env, max_iq_payload_bytes, num_prbu_of, receive_config,
  prb_filtered, sample, copy_size_of, fill_sample, put_out, after_config, jbpf_main,
}
use e3controller.Codelet.Ecpri.Safety.{samples_at, put_out-copies}
use e3controller.Codelet.Ecpri.Packet.{
  Message, InRange, IsTarget, sec_bits_of, frame_of, frame_with, header_bytes, section_at,
}
use e3controller.Codelet.Ecpri.Headers.{parse-frame_with}

abbrev pub prbs_of : Message → ℕ
prbs_of m = if m.num_prbu == 0 then 273 else m.num_prbu

-- What stands in a sample is what the message was made of.
pub record Carries (env : Env) (m : Message) (x : IqSampleData) : Type 0 where
  pub gnb_ts_ns : x.gnb_ts_ns ≡ env.meta_data
  pub timestamp : x.timestamp ≡ env.entry_ns / 1000 % 2 ^ 31
  pub direction : x.direction ≡ env.direction
  pub frame_id : x.frame_id ≡ m.frame_id
  pub subframe_id : x.subframe_id ≡ m.subframe_id
  pub slot_id : x.slot_id ≡ m.slot_id
  pub symbol_id : x.symbol_id ≡ m.symbol_id
  pub section_id : x.section_id ≡ m.section_id
  pub start_prbu : x.start_prbu ≡ m.start_prbu
  pub num_prbu : x.num_prbu ≡ prbs_of m
  pub iq_width : x.iq_width ≡ m.iq_width
  pub comp_method : x.comp_method ≡ m.comp_method
  pub payload_size : x.payload_size ≡ length m.samples
  pub iq_payload : (j : ℕ) → j < length m.samples → x.iq_payload j ≡ get_or m.samples j 0

-- The filter lets the message pass, nothing is sampled away, and jbpf takes the sample.
pub record Admits (env : Env) (maps : Maps) (m : Message) : Type 0 where
  pub unfiltered : prb_filtered env (receive_config env maps) (prbs_of m) ≡ false
  pub every : maps.sampling_period ≡ 0
  pub period_found : env.period_found ≡ true
  pub counter_found : env.counter_found ≡ true
  pub tmp_found : env.tmp_found ≡ true
  pub taken : env.output_taken ≡ true
  pub fits : length m.samples ≤ max_iq_payload_bytes

abbrev header : Option ℕ → Message → List ℕ
header vlan m = frame_with vlan (record m { samples = [] })

length-frame :
    (vlan : Option ℕ) (m : Message)
    → length (frame_with vlan m) ≡ header_bytes vlan + length m.samples
length-frame none m = omega arith
length-frame (some tci) m = omega arith

samples_at-frame :
    (vlan : Option ℕ) (m : Message) (j : ℕ)
    → samples_at (frame_with vlan m) (header_bytes vlan) j ≡ get_or m.samples j 0
samples_at-frame none m j = get_or-append_right (header none m) m.samples j 0
samples_at-frame (some tci) m j = get_or-append_right (header (some tci) m) m.samples j 0

num_prbu-of : (m : Message) → InRange m → num_prbu_of (sec_bits_of m) ≡ prbs_of m
unfolding num_prbu_of
num_prbu-of m r =
    let e : sec_bits_of m % 256 ≡ m.num_prbu = omega arith in ap (λ k. if k == 0 then 273 else k) e

copy_size-whole :
    (vlan : Option ℕ) (m : Message)
    → length m.samples ≤ max_iq_payload_bytes
    → copy_size_of (length (frame_with vlan m) - header_bytes vlan) ≡ length m.samples
unfolding copy_size_of
copy_size-whole vlan m h = ground (arith, length-frame vlan m)

after_config-due :
    (env : Env) (pkt : List ℕ) (s : Section) (maps : Maps)
    → prb_filtered env maps (num_prbu_of s.sec_bits) ≡ false
    → maps.sampling_period ≡ 0
    → env.period_found ≡ true
    → env.counter_found ≡ true
    → env.tmp_found ≡ true
    → after_config env pkt s maps ≡ put_out env pkt s maps
unfolding after_config sample
after_config-due env pkt s maps u p f c t = rw (u, f, c, t, p) refl

receive_config-period :
    (env : Env) (maps : Maps) → (receive_config env maps).sampling_period ≡ maps.sampling_period
unfolding receive_config
receive_config-period env maps = ground arith

receive_config-output : (env : Env) (maps : Maps) → (receive_config env maps).output ≡ maps.output
unfolding receive_config
receive_config-output env maps = ground arith

-- The copy of the samples, whatever the buffer held.
copied_byte :
    (vlan : Option ℕ) (m : Message) (tmp : ℕ → ℕ) (j : ℕ)
    → j < length m.samples
    → convert_loop (length m.samples) (samples_at (frame_with vlan m) (header_bytes vlan)) 0 0 tmp j
      ≡ get_or m.samples j 0
copied_byte vlan m tmp j h =
    let value = samples_at (frame_with vlan m) (header_bytes vlan) in
    let at : j - 0 ≡ j = omega arith in
    ground (
      arith,
      convert_loop_lem (length m.samples) value 0 0 tmp j,
      samples_at-frame vlan m j,
      ap value at,
    )

fill_sample-Carries :
    (env : Env) (m : Message) (tmp : ℕ → ℕ)
    → InRange m
    → length m.samples ≤ max_iq_payload_bytes
    → let pkt = frame_of m in
      let n = copy_size_of (length pkt - header_bytes m.vlan) in
      Carries env m (
        fill_sample env pkt
          (section_at m (header_bytes m.vlan))
          (convert_loop n (samples_at pkt (header_bytes m.vlan)) 0 0 tmp))
fill_sample-Carries env m tmp r fits =
    let size = copy_size-whole m.vlan m fits in
    rw size (record {
      gnb_ts_ns = refl;
      timestamp = refl;
      direction = refl;
      frame_id = refl;
      subframe_id = omega (arith, r);
      slot_id = omega (arith, r);
      symbol_id = omega (arith, r);
      section_id = omega (arith, r);
      start_prbu = omega (arith, r);
      num_prbu = num_prbu-of m r;
      iq_width = omega (arith, r);
      comp_method = omega (arith, r);
      payload_size = refl;
      iq_payload = copied_byte m.vlan m tmp;
    })

-- For a user plane message of the slot and the symbol that are kept, with a VLAN tag or without, that
-- the PRB filter lets pass, without sampling, of 1 to 8192 bytes of samples, and where jbpf finds the
-- maps and takes the sample, the codelet succeeds and puts out one sample: its header fields, its
-- payload size and every byte of its payload are those of the message, and a PRB count of 0 is 273.
pub collects :
    (env : Env) (maps : Maps) (m : Message)
    → InRange m
    → IsTarget m
    → Admits env maps m
    → (x : IqSampleData) × ((jbpf_main env (frame_of m) maps).0.output ≡ maps.output ++ (x ∷ []))
      × ((jbpf_main env (frame_of m) maps).1 ≡ success)
      × Carries env m x
unfolding jbpf_main receive_config
collects env maps m r t a =
    let pkt = frame_of m in
    let s = section_at m (header_bytes m.vlan) in
    let maps' = receive_config env maps in
    let n = copy_size_of (length pkt - s.iq_start) in
    let payload = convert_loop n (samples_at pkt s.iq_start) 0 0 maps'.tmp_payload in
    let parsed = parse-frame_with m.vlan m r t in
    let unfiltered : prb_filtered env maps' (num_prbu_of s.sec_bits) ≡ false =
      ap (prb_filtered env maps') (num_prbu-of m r) ∙ a.unfiltered in
    let inside : s.iq_start < length pkt = omega (arith, length-frame m.vlan m, r.some_samples) in
    let due =
      after_config-due env pkt s maps' unfiltered (receive_config-period env maps ∙ a.every)
        a.period_found a.counter_found a.tmp_found
      ∙ put_out-copies env pkt s maps' inside in
    (
      fill_sample env pkt s payload,
      rw (parsed, jbpf_main)
          (rw (due, a.taken)
            (ap (λ o. o ++ (fill_sample env pkt s payload ∷ [])) (receive_config-output env maps))),
      rw (parsed, jbpf_main) (rw (due, a.taken) refl),
      fill_sample-Carries env m maps'.tmp_payload r a.fits,
    )
