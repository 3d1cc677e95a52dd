-- ===== src/Pipeline/Lcm/Session.antt =====
-- What a history of the manager's calls leaves loaded.
use mathlib.Core.List.{append-nil}
use mathlib.Core.Path.{subst}
use e3controller.Common.{
  ℕ, ◌≡◌, refl, sym, ap, ◌∙◌, Bool, true, false, not, ◌&&◌, ◌||◌, Option, none, some, List, [], ◌∷◌,
  ◌++◌, if◌then◌else◌,
}
use e3controller.Pipeline.Lcm.{LcmCall, load_call, unload_call, LoadReq}

-- The histories in which every load comes while nothing is loaded, and every unload names the codelet
-- set that is loaded, at the socket that loaded it; with the codelet set that the history leaves loaded.
pub data Session (address : List ℕ) : List LcmCall → Option (List ℕ) → Type 0 where
  closed : Session address [] none
  loads :
      {calls : List LcmCall} (r : LoadReq)
      → Session address calls none
      → Session address (calls ++ (load_call address r true ∷ [])) (some r.codeletset_id)
  refused :
      {calls : List LcmCall} (r : LoadReq)
      → Session address calls none
      → Session address (calls ++ (load_call address r false ∷ [])) none
  unloads :
      {calls : List LcmCall} {id : List ℕ}
      → Session address calls (some id)
      → Session address (calls ++ (unload_call address id ∷ [])) none

-- What of a pipeline the manager's calls depend on.
pub record View : Type 0 where
  pub is_running : Bool
  pub joining : Bool
  pub codelets_loaded : Bool

abbrev pub loaded_id : Bool → List ℕ → Option (List ℕ)
loaded_id true id = some id
loaded_id false id = none

-- The pipeline's flag says what the history leaves loaded, and between runs it is down.
pub record Tracked (address id : List ℕ) (v : View) (calls : List LcmCall) : Type 0 where
  pub session : Session address calls (loaded_id v.codelets_loaded id)
  pub rests : v.joining ≡ false → v.is_running ≡ false → v.codelets_loaded ≡ false

or_false : (b : Bool) → (b || false) ≡ b
or_false true = refl
or_false false = refl

-- A step of a pipeline that calls nobody.
pub Tracked-quiet :
    {address id : List ℕ} {v : View} {calls : List LcmCall}
    → Tracked address id v calls
    → Tracked address id v (calls ++ [])
Tracked-quiet {address} {id} {v} {calls} t = rw (append-nil calls) t

-- The steps of `start` and `stop`, for a pipeline `p` of either kind.
module _ {S : Type 0} (view : S → View) (p : S) (address : List ℕ) (r : LoadReq)
    {calls : List LcmCall} (t : Tracked address r.codeletset_id (view p) calls) where
  abbrev T : S → List LcmCall → Type 0
  T q cs = Tracked address r.codeletset_id (view q) cs

  pub Tracked-start :
      {Code : Type 0} (good bad : Code) (launched : S) (joining running auto load_ok : Bool)
      → (view p).joining ≡ joining
      → (view p).is_running ≡ running
      → View.is_running (view launched) ≡ true
      → View.codelets_loaded (view launched) ≡ ((view p).codelets_loaded || auto)
      → T
          (if joining
            then p
            else (if◌then◌else◌ {A = S × Code} running
                (p, good)
                (if auto && not load_ok then (p, bad) else (launched, good))).0)
          (calls
            ++ (if joining || running || not auto then [] else load_call address r load_ok ∷ []))
  Tracked-start good bad launched true running auto load_ok j n l c = Tracked-quiet t
  Tracked-start good bad launched false true auto load_ok j n l c = Tracked-quiet t
  Tracked-start good bad launched false false false load_ok j n l c =
      let off = t.rests j n in
      Tracked-quiet (record {
        session =
            subst (λ b. Session address calls (loaded_id b r.codeletset_id))
              (sym (c ∙ or_false (view p).codelets_loaded)) t.session;
        rests = λ j' n'. let z = sym l ∙ n' in cc;
      })
  Tracked-start good bad launched false false true true j n l c =
      let off = t.rests j n in
      let closed' =
        subst (λ b. Session address calls (loaded_id b r.codeletset_id)) off t.session in
      record {
        session =
            subst
              (λ b.
                Session address (calls ++ (load_call address r true ∷ []))
                  (loaded_id b r.codeletset_id))
              (sym (c ∙ ap (λ b. b || true) off)) (loads r closed');
        rests = λ j' n'. let z = sym l ∙ n' in cc;
      }
  Tracked-start good bad launched false false true false j n l c =
      let off = t.rests j n in
      let closed' =
        subst (λ b. Session address calls (loaded_id b r.codeletset_id)) off t.session in
      record {
        session =
            subst
              (λ b.
                Session address (calls ++ (load_call address r false ∷ []))
                  (loaded_id b r.codeletset_id))
              (sym off) (refused r closed');
        rests = t.rests;
      }

  pub Tracked-finish :
      (finished : S) (joining absent loaded : Bool)
      → (view p).codelets_loaded ≡ loaded
      → View.codelets_loaded (view finished) ≡ false
      → T (if joining && absent then finished else p) (
          calls
          ++ (if joining && absent && loaded then unload_call address r.codeletset_id ∷ [] else []))
  Tracked-finish finished false absent loaded l f = Tracked-quiet t
  Tracked-finish finished true false loaded l f = Tracked-quiet t
  Tracked-finish finished true true true l f = record {
    session =
        subst
          (λ b.
            Session address (calls ++ (unload_call address r.codeletset_id ∷ []))
              (loaded_id b r.codeletset_id))
          (sym f)
          (unloads (subst (λ b. Session address calls (loaded_id b r.codeletset_id)) l t.session));
    rests = λ j n. f;
  }
  Tracked-finish finished true true false l f = Tracked-quiet (record {
    session =
        subst (λ b. Session address calls (loaded_id b r.codeletset_id)) (l ∙ sym f) t.session;
    rests = λ j n. f;
  })

  pub Tracked-request :
      (requested : S) (joining running : Bool)
      → View.joining (view requested) ≡ true
      → View.codelets_loaded (view requested) ≡ (view p).codelets_loaded
      → T (if joining then p else (if running then requested else p)) (calls ++ [])
  Tracked-request requested true running j c = Tracked-quiet t
  Tracked-request requested false false j c = Tracked-quiet t
  Tracked-request requested false true j c = Tracked-quiet (record {
    session = subst (λ b. Session address calls (loaded_id b r.codeletset_id)) (sym c) t.session;
    rests = λ j' n. let z = sym j ∙ j' in cc;
  })

  pub Tracked-same : (q : S) → view q ≡ view p → T q (calls ++ [])
  Tracked-same q e = Tracked-quiet (subst (λ v. Tracked address r.codeletset_id v calls) (sym e) t)
