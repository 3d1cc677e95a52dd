-- ===== src/Verifier.antt =====
-- The build's verifier of codelets, codelets/verifier/e3_verifier_cli.cpp: what it registers with jbpf's
-- verifier, its arguments and its exit status. jbpf's verifier itself is a parameter: its table of
-- helpers, and its answer on a codelet.
pub mod Gate
mod Tests
use Prim.Native.String.{String}
use text.Mathlib.Text.{◌==◌ as str_eq}
use e3controller.Common.{
  ℕ, zero, suc, ◌+◌, ◌-◌, ℤ, pos, negsuc, Bool, true, false, ◌||◌, Option, none, some, List, [],
  ◌∷◌, Result, err, ok, if◌then◌else◌,
}

-- EbpfHelperPrototype; a name is a literal, or the one made for an id that is not registered.
pub data HelperName : Type 0 where
  named : String → HelperName
  unregistered_helper : ℕ → HelperName

pub data ReturnType : Type 0 where
  integer unsupported : ReturnType

pub data ArgumentType : Type 0 where
  ptr_to_readable_mem const_size_or_zero dontcare : ArgumentType

pub record HelperPrototype : Type 0 where
  pub name : HelperName
  pub return_type : ReturnType
  pub argument_type : List ArgumentType

abbrev pub e3_attach_proto : HelperPrototype
e3_attach_proto = record {
  name = named "e3_attach";
  return_type = integer;
  argument_type = ptr_to_readable_mem ∷ const_size_or_zero ∷ dontcare ∷ dontcare ∷ dontcare ∷ [];
}

abbrev pub e3_publish_slot_proto : HelperPrototype
e3_publish_slot_proto = record {
  name = named "e3_publish_slot";
  return_type = integer;
  argument_type =
      ptr_to_readable_mem ∷ const_size_or_zero ∷ ptr_to_readable_mem ∷ const_size_or_zero ∷ dontcare
      ∷ [];
}

abbrev pub make_unregistered_proto : ℕ → HelperPrototype
make_unregistered_proto id = record {
  name = unregistered_helper id;
  return_type = unsupported;
  argument_type = dontcare ∷ dontcare ∷ dontcare ∷ dontcare ∷ dontcare ∷ [];
}

-- EbpfProgramType with its context descriptor, as far as it is set.
pub record ProgramType : Type 0 where
  pub name : String
  pub size : ℕ
  pub data_offset : ℕ
  pub end_offset : ℕ
  pub meta : ℤ
  pub section_prefix : String

abbrev pub ran_ofh : ProgramType
ran_ofh = record {
  name = "jbpf_ran_ofh";
  size = 27;
  data_offset = 0;
  end_offset = 8;
  meta = negsuc 0;
  section_prefix = "jbpf_ran_ofh";
}

abbrev pub ran_slot : ProgramType
ran_slot = record {
  name = "jbpf_ran_slot";
  size = 47;
  data_offset = 0;
  end_offset = 8;
  meta = negsuc 0;
  section_prefix = "jbpf_ran_slot";
}

-- What the arguments ask for.
pub record Request : Type 0 where
  pub path : String
  pub section : Option String
  pub asmfile : Option String

-- jbpf_verify's answer: an exception, or a result.
pub data Answer : Type 0 where
  throws : Answer
  result : (verification_pass : Bool) → Answer

-- A positional argument: the path, then the section, then one too many.
abbrev place :
    String
    → (path section : Option String) → (Option String → Option String → Result ℕ Request)
    → Result ℕ Request
place a none section rest = rest (some a) section
place a (some p) none rest = rest (some p) (some a)
place a (some p) (some s) rest = err 1

abbrev is_help : String → Bool
is_help a = str_eq a "-h" || str_eq a "--help"

abbrev at_end : (path section asmfile : Option String) → Result ℕ Request
at_end none section asmfile = err 1
at_end (some p) section asmfile = ok (record { path = p; section = section; asmfile = asmfile })

-- The loop over the arguments; an error is an exit status after the usage text.
unfoldable pub parse : List String → (path section asmfile : Option String) → Result ℕ Request
parse [] path section asmfile = at_end path section asmfile
parse (a ∷ []) path section asmfile =
    if str_eq a "--asm"
    then err 1
    else if is_help a
    then err 0
    else place a path section (λ p s. at_end p s asmfile)
parse (a ∷ b ∷ args) path section asmfile =
    let skipped = parse args path section (some b) in
    let placed = place a path section (λ p s. parse (b ∷ args) p s asmfile) in
    if str_eq a "--asm" then skipped else if is_help a then err 0 else placed

abbrev pub exit_of : Answer → ℕ
exit_of throws = 1
exit_of (result true) = 0
exit_of (result false) = 1

-- The verifier's table of helpers, and how it takes a helper; `num_helpers_max` is the number of jbpf's
-- own, and `attach_id` JBPF_E3_ATTACH_ID.
module _ (Table : Type 0) (register_helper : ℕ → HelperPrototype → Table → Table)
    (num_helpers_max attach_id : ℕ) where
  -- The ids between jbpf's helpers and the program's own, `left` of them to go.
  unfoldable pub close_gap : ℕ → ℕ → Table → Table
  close_gap zero id t = t
  close_gap (suc left) id t =
      close_gap left (id + 1) (register_helper id (make_unregistered_proto id) t)

  unfoldable pub register_e3_extensions : Table → Table
  unfolding close_gap
  register_e3_extensions t = register_helper (attach_id + 1) e3_publish_slot_proto (
      register_helper attach_id e3_attach_proto
        (close_gap (attach_id - num_helpers_max) num_helpers_max t))

  module _ (builtin : Table) (jbpf_verify : Table → List ProgramType → Request → Answer) where
    abbrev verify_request : Result ℕ Request → ℕ
    verify_request (err status) = status
    verify_request (ok r) =
        exit_of (jbpf_verify (register_e3_extensions builtin) (ran_ofh ∷ ran_slot ∷ []) r)

    -- `main`, its arguments those behind the program's name: the exit status.
    unfoldable pub main : List String → ℕ
    unfolding parse register_e3_extensions
    main args = verify_request (parse args none none none)
