-- ===== src/Codelet/Ecpri/Sampling.antt =====
-- The sampling of the codelet: of the packets that pass its filters, every N-th is put out.
use mathlib.Core.Path.{subst}
use native.Mathlib.Nat.{add-div_left, add-mod_left, div-eq_of_lt, mod-eq_of_lt}
use e3controller.Common.{
  ℕ, suc, ◌+◌, ◌/◌, ◌%◌, ◌^◌, ◌<◌, ◌≡◌, refl, sym, ap, ◌∙◌, Bool, true, false, ◌&&◌, ◌!=◌,
  if◌then◌else◌, Bool-cases, inl, inr, none, List, [], ◌∷◌, length, length-append, ltb, ltb→lt, ok,
  arith,
}
use e3controller.Codelet.Ecpri.{
  Section, Maps, Env, num_prbu_of, receive_config, sample, put_out, after_config, jbpf_main, parse,
}
use e3controller.Codelet.Ecpri.Safety.{put_out-copies, parse-iq_start}

-- The calls of the codelet, in their order.
unfoldable pub run : List (Env × List ℕ) → Maps → Maps
unfolding jbpf_main
run [] m = m
run ((env, pkt) ∷ calls) m = run calls (jbpf_main env pkt m).0

-- A packet that passes the filters under a configured PRB count, where jbpf finds the maps and takes
-- the sample, and no new configuration arrives.
pub record Passes (expected : ℕ) (env : Env) (pkt : List ℕ) : Type 0 where
  pub section : Section
  pub parsed : parse pkt ≡ ok section
  pub unfiltered :
      (env.filter_found && ltb 0 expected && num_prbu_of section.sec_bits != expected) ≡ false
  pub no_message : env.control ≡ none
  pub period_found : env.period_found ≡ true
  pub counter_found : env.counter_found ≡ true
  pub tmp_found : env.tmp_found ≡ true
  pub taken : env.output_taken ≡ true

abbrev pub AllPass : ℕ → List (Env × List ℕ) → Type 0
AllPass expected [] = Unit
AllPass expected ((env, pkt) ∷ calls) = Passes expected env pkt × AllPass expected calls

-- What a call that passes makes of the filter, the period, the counter and the output.
pub record Ticked (m m' : Maps) (ticked : ℕ × Bool) : Type 0 where
  pub same_filter : m'.expected_num_prbu ≡ m.expected_num_prbu
  pub same_period : m'.sampling_period ≡ m.sampling_period
  pub counted : m'.symbol_counter ≡ ticked.0
  pub put : length m'.output ≡ length m.output + (if ticked.1 then 1 else 0)

put_out-Ticked :
    (env : Env) (pkt : List ℕ) (s : Section) (m : Maps) (counter : ℕ)
    → s.iq_start < length pkt
    → env.output_taken ≡ true
    → Ticked m (put_out env pkt s (record m { symbol_counter = counter })).0 (counter, true)
put_out-Ticked env pkt s m counter h t =
    rw (put_out-copies env pkt s (record m { symbol_counter = counter }) h, t)
      (record {
        same_filter = refl;
        same_period = refl;
        counted = refl;
        put = omega (arith, length-append {0} m.output);
      })

main-Ticked :
    (env : Env) (pkt : List ℕ) (m : Maps) (ticked : ℕ × Bool)
    → Passes m.expected_num_prbu env pkt
    → sample m.sampling_period m.symbol_counter ≡ ticked
    → Ticked m (jbpf_main env pkt m).0 ticked
unfolding jbpf_main after_config receive_config put_out
main-Ticked env pkt m (counter, false) p e =
    rw (p.parsed, p.no_message, jbpf_main)
      (rw (p.unfiltered, p.period_found, p.counter_found, e)
        (record { same_filter = refl; same_period = refl; counted = refl; put = omega arith }))
main-Ticked env pkt m (counter, true) p e =
    rw (p.parsed, p.no_message, jbpf_main)
      (rw (p.unfiltered, p.period_found, p.counter_found, e, p.tmp_found)
        (put_out-Ticked env pkt p.section m counter (parse-iq_start pkt p.section p.parsed)
          p.taken))

sample-skips :
    (period counter : ℕ)
    → counter + 1 < period
    → period < 2 ^ 32
    → sample period counter ≡ (counter + 1, false)
unfolding sample
sample-skips period counter h w = ground arith

sample-puts :
    (period counter : ℕ)
    → counter + 1 ≡ period
    → period < 2 ^ 32
    → sample period counter ≡ (0, true)
unfolding sample
sample-puts period counter h w = ground arith

-- `n` more calls, from a state whose counter is below the period.
abbrev pub Counts : Maps → Maps → ℕ → Type 0
Counts m m' n =
    (length m'.output ≡ length m.output + (m.symbol_counter + n) / m.sampling_period)
    × (m'.symbol_counter ≡ (m.symbol_counter + n) % m.sampling_period)

Counts-zero : (m : Maps) → m.symbol_counter < m.sampling_period → Counts m m 0
Counts-zero m h =
    let z : m.symbol_counter + 0 ≡ m.symbol_counter = omega arith in
    rw (z, div-eq_of_lt h, mod-eq_of_lt h) (omega arith, refl)

Counts-skip :
    (m m' m'' : Maps) (n : ℕ)
    → Ticked m m' (m.symbol_counter + 1, false)
    → Counts m' m'' n
    → Counts m m'' (suc n)
Counts-skip m m' m'' n t c =
    let e : m'.symbol_counter + n ≡ m.symbol_counter + suc n = omega (arith, t.counted) in
    let q =
      ap (λ k. k / m'.sampling_period) e ∙ ap (λ k. (m.symbol_counter + suc n) / k) t.same_period in
    let r =
      ap (λ k. k % m'.sampling_period) e ∙ ap (λ k. (m.symbol_counter + suc n) % k) t.same_period in
    (omega (arith, c.0, q, t.put), c.1 ∙ r)

Counts-put :
    (m m' m'' : Maps) (n : ℕ)
    → 0 < m.sampling_period
    → m.symbol_counter + 1 ≡ m.sampling_period
    → Ticked m m' (0, true)
    → Counts m' m'' n
    → Counts m m'' (suc n)
Counts-put m m' m'' n pos' h t c =
    let e : m'.symbol_counter + n ≡ n = omega (arith, t.counted) in
    let e' : m.symbol_counter + suc n ≡ m.sampling_period + n = omega arith in
    let q = ap (λ k. k / m'.sampling_period) e ∙ ap (λ k. n / k) t.same_period in
    let r = ap (λ k. k % m'.sampling_period) e ∙ ap (λ k. n % k) t.same_period in
    rw e' (
      omega (arith, c.0, q, t.put, add-div_left n pos'),
      c.1 ∙ r ∙ sym (add-mod_left m.sampling_period n),
    )

-- With a sampling period N, of any run of packets that pass the filters every N-th is put out: `n`
-- of them put out one sample for each time that the counter reaches N, which is (counter + n) / N, and
-- leave the counter at the remainder.
pub run-samples :
    (calls : List (Env × List ℕ)) (m : Maps)
    → AllPass m.expected_num_prbu calls
    → m.symbol_counter < m.sampling_period
    → m.sampling_period < 2 ^ 32
    → Counts m (run calls m) (length calls)
unfolding run
run-samples [] m all h w = Counts-zero m h
run-samples ((env, pkt) ∷ calls) m (p, all) h w =
    let m' = (jbpf_main env pkt m).0 in
    elim (Bool-cases (ltb (m.symbol_counter + 1) m.sampling_period)) [
      | inl more ↦
          let t = main-Ticked env pkt m _ p (sample-skips _ _ (ltb→lt _ _ more) w) in
          Counts-skip m m' (run calls m') (length calls) t (
            run-samples calls m' (subst (λ e. AllPass e calls) (sym t.same_filter) all)
              (omega (arith, t.counted, t.same_period, ltb→lt _ _ more))
              (omega (arith, t.same_period)))
      | inr full ↦
          let e : m.symbol_counter + 1 ≡ m.sampling_period = ground arith in
          let t = main-Ticked env pkt m _ p (sample-puts _ _ e w) in
          Counts-put m m' (run calls m') (length calls) (omega arith) e t (
            run-samples calls m' (subst (λ k. AllPass k calls) (sym t.same_filter) all)
              (omega (arith, t.counted, t.same_period)) (omega (arith, t.same_period)))
    ]
