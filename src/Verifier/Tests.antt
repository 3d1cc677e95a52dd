-- ===== src/Verifier/Tests.antt =====
-- A table of two helpers in front of the program's, and the arguments of the build.
use Prim.Native.String.{String}
use e3controller.Common.{
  ℕ, ◌+◌, ◌≤◌, ◌<◌, ◌≡◌, ◌⊎◌, refl, true, Option, none, some, List, [], ◌∷◌, err, ok, ◌==◌, ◌||◌,
  if◌then◌else◌, arith,
}
use e3controller.Verifier.{
  HelperPrototype, e3_attach_proto, e3_publish_slot_proto, make_unregistered_proto, ProgramType,
  ran_ofh, ran_slot, Request, Answer, throws, result, parse, register_e3_extensions, main,
}
use e3controller.Verifier.Gate.{asks_help, main-verified, IsRegistry, register-closes}

abbrev Table : Type 0
Table = ℕ → Option HelperPrototype

abbrev set_entry : ℕ → HelperPrototype → Table → Table
set_entry id p t k = if id == k then some p else t k

abbrev lookup : Table → ℕ → Option HelperPrototype
lookup t k = t k

set_entry-IsRegistry : IsRegistry Table set_entry 2 5 lookup
set_entry-IsRegistry = record { sets = λ id p t. ground arith; keeps = λ id k p t ne. ground arith }

abbrev two_helpers : Table
two_helpers id = if id == 0 || id == 1 then some e3_attach_proto else none

abbrev build_args : List String
build_args = "uplink.o" ∷ "--asm" ∷ "uplink.s" ∷ "jbpf_ran_slot" ∷ []

build_request :
    parse build_args none none none
    ≡ ok (record { path = "uplink.o"; section = some "jbpf_ran_slot"; asmfile = some "uplink.s" })
unfolding parse
build_request = refl

asm_without_file : parse ("uplink.o" ∷ "--asm" ∷ []) none none none ≡ err 1
unfolding parse
asm_without_file = refl

abbrev passes_all : Table → List ProgramType → Request → Answer
passes_all t ps r = result true

main-verified_example :
    let status = main Table set_entry 2 5 two_helpers passes_all build_args in
    ((status ≡ 0)
      × ((asks_help build_args ≡ true)
          ⊎ ((r : Request) × (parse build_args none none none ≡ ok r)
              × (passes_all
                    (register_e3_extensions Table set_entry 2 5 two_helpers)
                    (ran_ofh ∷ ran_slot ∷ [])
                    r
                  ≡ result true))))
    ⊎ (status ≡ 1)
main-verified_example = main-verified Table set_entry 2 5 two_helpers passes_all build_args

thrown : main Table set_entry 2 5 two_helpers (λ t ps r. throws) build_args ≡ 1
unfolding main parse
thrown = refl

register-closes_example :
    let t' = register_e3_extensions Table set_entry 2 5 two_helpers in
    ((k : ℕ) → k < 2 → lookup t' k ≡ lookup two_helpers k)
    × ((k : ℕ) → 2 ≤ k → k < 5 → lookup t' k ≡ some (make_unregistered_proto k))
    × (lookup t' 5 ≡ some e3_attach_proto)
    × (lookup t' (5 + 1) ≡ some e3_publish_slot_proto)
register-closes_example =
    register-closes Table set_entry 2 5 lookup two_helpers set_entry-IsRegistry (omega arith)
