-- ===== src/Controller/Wiring.antt =====
-- What the configuration that `main` accepts makes of the pipelines.
use Prim.Native.String.{String}
use e3controller.Pipeline.Iq.{Machine}
use e3controller.Common.{ℕ, ◌<◌, ◌≡◌, ◌∙◌, some, List, [], ◌∷◌, All, ok, arith}
use e3controller.Config.Types.{ControllerConfig}
use e3controller.Config.Parse.{Yaml}
use e3controller.Config.Load.{load_config}
use e3controller.Config.Load.Laws.{load_config-Accepted}
use e3controller.Codelet.Ecpri.{IqSampleData}
use e3controller.Pipeline.Iq
use e3controller.Pipeline.Iq.{IqPipeline, DecompressedSample, fresh, run, Event}
use e3controller.Pipeline.Iq.Filter.{IsDelivery, calls-IsDelivery}
use e3controller.Controller.{iq_config}

-- The PRB count of an accepted configuration reaches the pipeline whole, and switches its filter on.
iq_config-prbs :
    (y : Yaml) (path : String) {c : ControllerConfig}
    → load_config y path ≡ ok c
    → let n = Iq.Config.expected_num_prbu (iq_config c) in (n ≡ c.radio.nof_prbs) × (0 < n)
iq_config-prbs y path {c} h =
    let r = (load_config-Accepted y path h).geometry in omega (arith, r.prbs)

-- A section of the carrier that the configuration declares.
abbrev pub OfCarrier : ControllerConfig → ℕ × DecompressedSample → Type 0
OfCarrier c call =
    (s : IqSampleData) × (DecompressedSample.raw call.1 ≡ some s)
    × (s.direction ≡ 1)
    × (s.num_prbu ≡ c.radio.nof_prbs)

module _ (wide_shift : ℕ → ℕ → ℕ) (c : ControllerConfig) where
  OfCarrier-calls :
      (calls : List (ℕ × DecompressedSample))
      → ((n : ℕ) → n ≡ Iq.Config.expected_num_prbu (iq_config c) → n ≡ c.radio.nof_prbs)
      → 0 < Iq.Config.expected_num_prbu (iq_config c)
      → All (IsDelivery wide_shift (iq_config c)) calls
      → All (OfCarrier c) calls
  OfCarrier-calls [] same some' all = tt
  OfCarrier-calls (call ∷ calls) same some' (d, all) = (
    (d.section, d.raw, d.fit.uplink, same _ (d.fit.prbs some')),
    OfCarrier-calls calls same some' all,
  )

-- In the pipeline that `main` builds from a configuration that it accepts, every section that a
-- consumer is called with, after any interleaving, is an uplink section over exactly the PRBs that the
-- configuration declares.
pub wired_sections :
    (y : Yaml) (path : String) {c : ControllerConfig}
    → load_config y path ≡ ok c
    → (mem : ℕ → IqSampleData) (machine : Machine) (cs : List ℕ) (es : List Event)
    → All (OfCarrier c) (IqPipeline.calls (run mem machine (fresh (iq_config c) cs) es))
wired_sections y path {c} h mem machine cs es =
    let (e, some') = iq_config-prbs y path h in
    OfCarrier-calls machine.wide_shift c _ (λ n p. p ∙ e) some'
      (calls-IsDelivery mem machine (iq_config c) cs es)
