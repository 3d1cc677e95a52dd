-- ===== src/Verifier/Gate.antt =====
-- What the exit status of the verifier says, and that no helper's id is left open.
use Prim.Native.String.{String}
use text.Mathlib.Text.{◌==◌ as str_eq}
use mathlib.Core.Path.{subst}
use e3controller.Common.{
  ℕ, zero, suc, ◌+◌, ◌-◌, ◌≤◌, ◌<◌, ◌≡◌, ◌≢◌, ◌⊎◌, inl, inr, refl, sym, ◌∙◌, Bool, true, false,
  ◌||◌, Option, none, some, List, [], ◌∷◌, Result, err, ok, Result-cases, Bool-cases, ◌==◌,
  if_cases, arith,
}
use e3controller.Verifier.{
  HelperPrototype, e3_attach_proto, e3_publish_slot_proto, make_unregistered_proto, ProgramType,
  ran_ofh, ran_slot, Request, Answer, throws, result, place, is_help, at_end, parse, close_gap,
  register_e3_extensions, exit_of, main,
}

-- Whether an argument asks for help.
abbrev pub asks_help : List String → Bool
asks_help [] = false
asks_help (a ∷ args) = is_help a || asks_help args

-- An exit before the verification has status 1, or status 0 for help.
abbrev Refused : List String → ℕ → Type 0
Refused args n = (n ≡ 1) ⊎ ((n ≡ 0) × (asks_help args ≡ true))

abbrev Helped : List String → Result ℕ Request → Type 0
Helped args r = (n : ℕ) → r ≡ err n → Refused args n

failure : (args : List String) {r : Result ℕ Request} → r ≡ err 1 → Helped args r
failure args {r} e n f = let z = sym e ∙ f in let k : n ≡ 1 = cc in inl k

at_end-Helped :
    (args : List String) (path section asmfile : Option String)
    → Helped args (at_end path section asmfile)
at_end-Helped args none section asmfile n e = failure args refl n e
at_end-Helped args (some p) section asmfile n e = absurd (cc)

place-Helped :
    (args : List String) (a : String) (path section : Option String)
    (rest : Option String → Option String → Result ℕ Request)
    → ((p s : Option String) → Helped args (rest p s))
    → Helped args (place a path section rest)
place-Helped args a none section rest h = h (some a) section
place-Helped args a (some p) none rest h = h (some p) (some a)
place-Helped args a (some p) (some s) rest h = failure args refl

later : (a : String) (args : List String) → asks_help args ≡ true → asks_help (a ∷ args) ≡ true
later a args h = ground arith

later-Refused : (a : String) (args : List String) {n : ℕ} → Refused args n → Refused (a ∷ args) n
later-Refused a args (inl e) = inl e
later-Refused a args (inr (e, h)) = inr (e, later a args h)

helps : (a : String) (args : List String) → is_help a ≡ true → Helped (a ∷ args) (err 0)
helps a args h n e = let k : n ≡ 0 = cc in inr (k, ground arith)

parse-Helped :
    (args : List String) (path section asmfile : Option String)
    → Helped args (parse args path section asmfile)
unfolding parse
parse-Helped [] path section asmfile = at_end-Helped [] path section asmfile
parse-Helped (a ∷ []) path section asmfile =
    if_cases (Helped (a ∷ [])) (str_eq a "--asm") (λ t. failure (a ∷ []) refl)
      (λ f.
        if_cases (Helped (a ∷ [])) (is_help a) (λ h. helps a [] h)
          (λ n. place-Helped (a ∷ []) a path section _ (λ p s. at_end-Helped (a ∷ []) p s asmfile)))
parse-Helped (a ∷ b ∷ args) path section asmfile =
    if_cases (Helped (a ∷ b ∷ args)) (str_eq a "--asm")
      (λ t n e.
        later-Refused a (b ∷ args)
          (later-Refused b args (parse-Helped args path section (some b) n e)))
      (λ f.
        if_cases (Helped (a ∷ b ∷ args)) (is_help a) (λ h. helps a (b ∷ args) h)
          (λ n.
            place-Helped (a ∷ b ∷ args) a path section _
              (λ p s k e. later-Refused a (b ∷ args) (parse-Helped (b ∷ args) p s asmfile k e))))

exit_of-either : (a : Answer) → ((exit_of a ≡ 0) × (a ≡ result true)) ⊎ (exit_of a ≡ 1)
exit_of-either throws = inr refl
exit_of-either (result true) = inl (refl, refl)
exit_of-either (result false) = inr refl

module _ (Table : Type 0) (register_helper : ℕ → HelperPrototype → Table → Table)
    (num_helpers_max attach_id : ℕ) where
  -- `main` exits with status 0 or 1, and with 0 only where an argument asks for help, or where jbpf's
  -- verifier has passed the codelet that the arguments name, with both program types and with the
  -- program's helpers registered. So an exception, a refusal and arguments that are not understood are
  -- status 1.
  pub main-verified :
      (builtin : Table) (jbpf_verify : Table → List ProgramType → Request → Answer)
      (args : List String)
      → let status =
          main Table register_helper num_helpers_max attach_id builtin jbpf_verify args in
        ((status ≡ 0)
          × ((asks_help args ≡ true)
              ⊎ ((r : Request) × (parse args none none none ≡ ok r)
                  × (jbpf_verify
                        (register_e3_extensions Table register_helper num_helpers_max attach_id
                          builtin)
                        (ran_ofh ∷ ran_slot ∷ [])
                        r
                      ≡ result true))))
        ⊎ (status ≡ 1)
  unfolding main
  main-verified builtin jbpf_verify args = elim (Result-cases (parse args none none none)) [
    | inl (status, e) ↦ rw (e) (elim (parse-Helped args none none none status e) [
      | inl one ↦ inr one
      | inr (zero', h) ↦ inl (zero', inl h)
    ])
    | inr (r, e) ↦
        rw (e)
          (elim (exit_of-either (
            jbpf_verify
              (register_e3_extensions Table register_helper num_helpers_max attach_id builtin)
              (ran_ofh ∷ ran_slot ∷ []) r)) [
                | inl (z, passed) ↦ inl (z, inr (r, refl, passed))
                | inr one ↦ inr one
              ])
  ]

  module _ (lookup : Table → ℕ → Option HelperPrototype) where
    -- A table of helpers: a registration sets its own entry and keeps those that are set.
    pub record IsRegistry : Type 0 where
      pub sets :
          (id : ℕ) (p : HelperPrototype) (t : Table) → lookup (register_helper id p t) id ≡ some p
      pub keeps :
          (id k : ℕ) (p : HelperPrototype) (t : Table)
          → id ≢ k
          → lookup (register_helper id p t) k ≡ lookup t k

    close_gap-closes :
        IsRegistry
        → (left id k : ℕ) (t : Table)
        → let gapless = close_gap Table register_helper num_helpers_max attach_id left id t in
          (k < id → lookup gapless k ≡ lookup t k)
          × (id ≤ k → k < id + left → lookup gapless k ≡ some (make_unregistered_proto k))
    unfolding close_gap
    close_gap-closes law zero id k t = (λ below. refl, λ from' to'. absurd (omega arith))
    close_gap-closes law (suc left) id k t =
        let t' = register_helper id (make_unregistered_proto id) t in
        let (low, middle) = close_gap-closes law left (id + 1) k t' in
        (
          λ below. low (omega arith) ∙ law.keeps id k _ t (λ e. omega arith),
          λ from' to'. elim (Bool-cases (id == k)) [
            | inl h ↦
                let e : id ≡ k = ground arith in
                low (omega arith)
                ∙ subst (λ j. lookup t' j ≡ some (make_unregistered_proto j)) e (law.sets id _ t)
            | inr h ↦ middle (ground arith) (omega arith)
          ],
        )

    -- On a table of helpers where jbpf's own are set and end below the program's, the registration leaves
    -- no id open up to the program's last: jbpf's own are as they were, those between are named as not
    -- registered and refused by their return type, and the last two are the program's.
    pub register-closes :
        (t : Table)
        → IsRegistry
        → num_helpers_max ≤ attach_id
        → let t' = register_e3_extensions Table register_helper num_helpers_max attach_id t in
          ((k : ℕ) → k < num_helpers_max → lookup t' k ≡ lookup t k)
          × ((k : ℕ)
              → num_helpers_max ≤ k
              → k < attach_id
              → lookup t' k ≡ some (make_unregistered_proto k))
          × (lookup t' attach_id ≡ some e3_attach_proto)
          × (lookup t' (attach_id + 1) ≡ some e3_publish_slot_proto)
    unfolding register_e3_extensions
    register-closes t law le =
        let gapless =
          close_gap Table register_helper num_helpers_max attach_id (attach_id - num_helpers_max)
            num_helpers_max t in
        let attached = register_helper attach_id e3_attach_proto gapless in
        let gap =
          λ (k : ℕ). close_gap-closes law (attach_id - num_helpers_max) num_helpers_max k t in
        let kept = λ (k : ℕ) (lt : k < attach_id).
          law.keeps (attach_id + 1) k e3_publish_slot_proto attached (λ e. omega arith)
          ∙ law.keeps attach_id k e3_attach_proto gapless (λ e. omega arith) in
        (
          λ k lt. kept k (omega arith) ∙ (gap k).0 lt,
          λ k ge lt. kept k lt ∙ (gap k).1 ge (omega arith),
          law.keeps (attach_id + 1) attach_id e3_publish_slot_proto attached (λ e. omega arith)
              ∙ law.sets attach_id e3_attach_proto gapless,
          law.sets (attach_id + 1) e3_publish_slot_proto attached,
        )
