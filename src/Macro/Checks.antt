-- ===== src/Macro/Checks.antt =====
-- What the macros `main` and `task` accept.
use rt_async.Base.{
  ==→eq, ℕ, zero, suc, ◌≡◌, ◌⊎◌, ◌↔◌, ◌==◌, not, Bool, true, false, List, [], ◌∷◌, ◌++◌, arith,
  refl, ◌∙◌, ap, inl, inr,
}
use rt_async.Macro.{
  trim, not_async, ◌>>=◌, has_generics, is_async, SynType, path, reference, tuple, other,
  ReturnType, default_return, returns, FnArg, receiver, typed, ItemFn, Message, ok, codes,
  LevelFilter, parse_log_level, extract_spawner_n, ensure, check_output, arg_pats, one_parameter,
  task, main,
}
use rt_async.Macro.Levels.{IsLevel, parse_log_level_lem}
use rt_async.Macro.Parameter.{IsSpawnerPin, extract_spawner_n_lem, >>=-eq-ok}

-- A function that `main` turns into the entry point with this log level and number of priorities.
pub record IsEntry (attr : List ℕ) (f : ItemFn) (level : LevelFilter) (n : ℕ) : Type 0 where
  pub is_sync : f.asyncness ≡ false
  pub no_generics : f.generics ≡ 0
  pub logs : IsLevel (trim attr) level
  pub pat : ℕ
  pub ty : SynType
  pub one_input : f.inputs ≡ typed pat ty ∷ []
  pub spawner : IsSpawnerPin ty n

ensure-ok : (m : Message) (b : Bool) {u : Unit {0}} → ensure m b ≡ ok u → b ≡ true
ensure-ok m true e = refl
ensure-ok m false e = absurd (cc)

one_parameter-ok :
    (inputs : List FnArg) (ty : SynType)
    → one_parameter inputs ≡ ok ty
    → (pat : ℕ) × (inputs ≡ typed pat ty ∷ [])
unfolding one_parameter
one_parameter-ok [] ty e = absurd (cc)
one_parameter-ok (receiver ∷ []) ty e = absurd (cc)
one_parameter-ok (typed pat t ∷ []) ty e = (pat, cc)
one_parameter-ok (a ∷ (b ∷ inputs)) ty e = absurd (ground (arith, e))

one_typed : (pat : ℕ) (ty : SynType) → one_parameter (typed pat ty ∷ []) ≡ ok ty
unfolding one_parameter
one_typed pat ty = refl

-- `main` accepts a function exactly if it is not async and not generic, its attribute, without the
-- white space around it, is empty or the name of a log level in small letters, and its only parameter is
-- a typed one of the form `Pin<&Spawner<n>>`; the generated code then has the level of that name, `info`
-- for the empty attribute, and that number of priorities.
pub main_lem :
    (attr : List ℕ) (f : ItemFn) (level : LevelFilter) (n : ℕ)
    → (main attr f ≡ ok (level, n)) ↔ IsEntry attr f level n
unfolding main
main_lem attr f level n = (sound, complete)
  where
    sound : main attr f ≡ ok (level, n) → IsEntry attr f level n
    sound e =
        let (u, e₁, r₁) = >>=-eq-ok (ensure is_async (not f.asyncness)) _ e in
        let (u', e₂, r₂) = >>=-eq-ok (ensure has_generics (f.generics == 0)) _ r₁ in
        let (l, e₃, r₃) = >>=-eq-ok (parse_log_level attr) _ r₂ in
        let (ty, e₄, r₄) = >>=-eq-ok (one_parameter f.inputs) _ r₃ in
        let (k, e₅, r₅) = >>=-eq-ok (extract_spawner_n ty) _ r₄ in
        let (pat, only) = one_parameter-ok f.inputs ty e₄ in
        let same_level : l ≡ level = cc in
        let same_n : k ≡ n = cc in
        record {
          is_sync = ground (arith, ensure-ok is_async (not f.asyncness) e₁);
          no_generics = ==→eq f.generics 0 (ensure-ok has_generics (f.generics == 0) e₂);
          logs = (parse_log_level_lem attr level).0 (e₃ ∙ ap ok same_level);
          pat = pat;
          ty = ty;
          one_input = only;
          spawner = (extract_spawner_n_lem ty n).0 (e₅ ∙ ap ok same_n);
        }

    complete : IsEntry attr f level n → main attr f ≡ ok (level, n)
    complete h =
        let one : one_parameter f.inputs ≡ ok h.ty =
          ap one_parameter h.one_input ∙ one_typed h.pat h.ty in
        let number : extract_spawner_n h.ty ≡ ok n = (extract_spawner_n_lem h.ty n).1 h.spawner in
        let logs : parse_log_level attr ≡ ok level = (parse_log_level_lem attr level).1 h.logs in
        ground (arith, one, number, logs)

-- The function returns nothing, written out or not.
abbrev pub ReturnsUnit : ReturnType → Type 0
ReturnsUnit output = (output ≡ default_return) ⊎ (output ≡ returns (tuple 0))

-- The parameters are patterns with a type; `self` is none.
abbrev pub typed_inputs : List (ℕ × SynType) → List FnArg
typed_inputs [] = []
typed_inputs ((pat, ty) ∷ inputs) = typed pat ty ∷ typed_inputs inputs

abbrev patterns : List (ℕ × SynType) → List ℕ
patterns [] = []
patterns ((pat, ty) ∷ inputs) = pat ∷ patterns inputs

-- A function that `task` turns into a task with these parameters.
record IsTask (f : ItemFn) (inputs : List (ℕ × SynType)) : Type 0 where
  pub is_async_fn : f.asyncness ≡ true
  pub no_generics : f.generics ≡ 0
  pub unit : ReturnsUnit f.output
  pub all_typed : f.inputs ≡ typed_inputs inputs

check_output-ok :
    (output : ReturnType) {u : Unit {0}} → check_output output ≡ ok u → ReturnsUnit output
unfolding check_output
check_output-ok default_return e = inl refl
check_output-ok (returns (tuple zero)) e = inr refl
check_output-ok (returns (tuple (suc n))) e = absurd (cc)
check_output-ok (returns (path s)) e = absurd (cc)
check_output-ok (returns (reference t)) e = absurd (cc)
check_output-ok (returns other) e = absurd (cc)

ok-check_output : (output : ReturnType) → ReturnsUnit output → check_output output ≡ ok tt
unfolding check_output
ok-check_output output (inl e) = ap check_output e
ok-check_output output (inr e) = ap check_output e

arg_pats-ok :
    (args : List FnArg) (pats : List ℕ)
    → arg_pats args ≡ ok pats
    → (inputs : List (ℕ × SynType)) × (args ≡ typed_inputs inputs) × (pats ≡ patterns inputs)
unfolding arg_pats
arg_pats-ok [] pats e = ([], refl, cc)
arg_pats-ok (receiver ∷ args) pats e = absurd (cc)
arg_pats-ok (typed pat ty ∷ args) pats e =
    let (rest, e₁, r₁) = >>=-eq-ok (arg_pats args) _ e in
    let (inputs, e₂, e₃) = arg_pats-ok args rest e₁ in
    ((pat, ty) ∷ inputs, ap (λ z. typed pat ty ∷ z) e₂, ground (arith, e₃, r₁))

ok-arg_pats : (inputs : List (ℕ × SynType)) → arg_pats (typed_inputs inputs) ≡ ok (patterns inputs)
unfolding arg_pats
ok-arg_pats [] = refl
ok-arg_pats ((pat, ty) ∷ inputs) = ap (λ r. r >>= λ pats. ok (pat ∷ pats)) (ok-arg_pats inputs)

-- `task` accepts a function exactly if it is async, not generic, returns nothing and has no `self`; the
-- inner function then has the name of the function with two underscores before it, and it is given
-- the parameters of the outer one, in order.
task_lem :
    (f : ItemFn) (inner outer : List ℕ) (pats : List ℕ)
    → (task f ≡ ok (inner, outer, pats)) ↔ (
        (inputs : List (ℕ × SynType)) × IsTask f inputs
        × (inner ≡ codes "__" ++ f.ident)
        × (outer ≡ f.ident)
        × (pats ≡ patterns inputs))
unfolding task
task_lem f inner outer pats = (sound, complete)
  where
    sound :
        task f ≡ ok (inner, outer, pats)
        → (inputs : List (ℕ × SynType)) × IsTask f inputs
          × (inner ≡ codes "__" ++ f.ident)
          × (outer ≡ f.ident)
          × (pats ≡ patterns inputs)
    sound e =
        let (u, e₁, r₁) = >>=-eq-ok (ensure not_async f.asyncness) _ e in
        let (u', e₂, r₂) = >>=-eq-ok (ensure has_generics (f.generics == 0)) _ r₁ in
        let (u'', e₃, r₃) = >>=-eq-ok (check_output f.output) _ r₂ in
        let (given, e₄, r₄) = >>=-eq-ok (arg_pats f.inputs) _ r₃ in
        let (inputs, e₅, e₆) = arg_pats-ok f.inputs given e₄ in
        (
          inputs,
          record {
            is_async_fn = ensure-ok not_async f.asyncness e₁;
            no_generics = ==→eq f.generics 0 (ensure-ok has_generics (f.generics == 0) e₂);
            unit = check_output-ok f.output e₃;
            all_typed = e₅;
          },
          ground (arith, r₄),
          ground (arith, r₄),
          ground (arith, r₄, e₆),
        )

    complete :
        ((inputs : List (ℕ × SynType)) × IsTask f inputs
          × (inner ≡ codes "__" ++ f.ident)
          × (outer ≡ f.ident)
          × (pats ≡ patterns inputs))
        → task f ≡ ok (inner, outer, pats)
    complete (inputs, h, is_inner, is_outer, given) =
        let unit : check_output f.output ≡ ok tt = ok-check_output f.output h.unit in
        let all : arg_pats f.inputs ≡ ok (patterns inputs) =
          ap arg_pats h.all_typed ∙ ok-arg_pats inputs in
        ground (arith, unit, all, h.is_async_fn, h.no_generics)
