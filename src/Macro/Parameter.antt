-- ===== src/Macro/Parameter.antt =====
-- The type of the parameter of a function under `main`.
use rt_async.Base.{
  lt→ltb, ℕ, ◌^◌, ◌<◌, ◌≡◌, ◌↔◌, true, some, List, [], ◌∷◌, if◌then◌else◌, arith, refl, ◌∙◌, ap,
  Option-cases, inl, inr, subst,
}
use rt_async.Macro.{
  too_large, expected_spawner, expected_pin, ◌>>=◌, SynType, path, reference, tuple, other,
  Segments, end, segment, Arguments, no_arguments, parenthesized, angle_bracketed, nothing,
  other_argument, type_argument, const_argument, Expr, int_literal, other_expr, Message, Result, ok,
  err, codes, text_eq, last_segment, named, pin_argument_of, const_argument_of, literal_of,
  extract_spawner_n,
}

-- The last segment of a path has this name and these arguments.
pub data Ends (name : List ℕ) (args : Arguments) : Segments → Type 0 where
  at_end : Ends name args (segment name args end)
  after_one :
      (i : List ℕ) (a : Arguments) {rest : Segments}
      → Ends name args rest
      → Ends name args (segment i a rest)

-- `Pin<&Spawner<n>>`, under any path to the two names
pub record IsSpawnerPin (ty : SynType) (n : ℕ) : Type 0 where
  pub pins : Segments
  pub spawners : Segments
  pub is_path : ty ≡ path pins
  pub is_pin : Ends (codes "Pin") (angle_bracketed (type_argument (reference (path spawners)))) pins
  pub is_spawner :
      Ends (codes "Spawner") (angle_bracketed (const_argument (int_literal n))) spawners
  pub fits : n < 2 ^ 64

pub text_eq_refl : (cs : List ℕ) → text_eq cs cs ≡ true
text_eq_refl [] = refl
text_eq_refl (c ∷ cs) = ground (arith, text_eq_refl cs)

pub eq_of_text_eq : (cs ds : List ℕ) → text_eq cs ds ≡ true → cs ≡ ds
eq_of_text_eq [] [] e = refl
eq_of_text_eq [] (d ∷ ds) e = cc
eq_of_text_eq (c ∷ cs) [] e = cc
eq_of_text_eq (c ∷ cs) (d ∷ ds) e = ground (arith, eq_of_text_eq cs ds)

Ends-last_segment :
    (name : List ℕ) (args : Arguments) (s : Segments)
    → Ends name args s
    → last_segment s ≡ some (name, args)
unfolding last_segment
Ends-last_segment name args s at_end = refl
Ends-last_segment name args s (after_one i a at_end) = refl
Ends-last_segment name args s (after_one i a (after_one j b e)) =
    Ends-last_segment name args _ (after_one j b e)

last_segment-Ends :
    (s : Segments) (name : List ℕ) (args : Arguments)
    → last_segment s ≡ some (name, args)
    → Ends name args s
unfolding last_segment
last_segment-Ends end name args e = absurd (cc)
last_segment-Ends (segment i a end) name args e =
    let names : i ≡ name = cc in
    let arguments' : a ≡ args = cc in
    subst (λ n. Ends n args (segment i a end)) names
      (subst (λ b. Ends i b (segment i a end)) arguments' at_end)
last_segment-Ends (segment i a (segment j b rest)) name args e =
    after_one i a (last_segment-Ends (segment j b rest) name args e)

-- Inversion of the parts of `extract_spawner_n`.
named-ok :
    (name : List ℕ) (m : Message) (ty : SynType) (args : Arguments)
    → named name m ty ≡ ok args
    → (s : Segments) × (ty ≡ path s) × Ends name args s
unfolding named
named-ok name m (path s) args e = elim (Option-cases (last_segment s)) [
  | inl none_there ↦ absurd (ground (arith, none_there, e))
  | inr ((ident, given), there) ↦
      let found : last_segment s ≡ some (name, args) =
        ground (arith, there, e, eq_of_text_eq ident name) in
      (s, refl, last_segment-Ends s name args found)
]
named-ok name m (reference t) args e = absurd (cc)
named-ok name m (tuple n) args e = absurd (cc)
named-ok name m other args e = absurd (cc)

ok-named :
    (name : List ℕ) (m : Message) (s : Segments) (args : Arguments)
    → Ends name args s
    → named name m (path s) ≡ ok args
unfolding named
ok-named name m s args h = ground (arith, Ends-last_segment name args s h, text_eq_refl name)

pin_argument_of-ok :
    (args : Arguments) (t : SynType)
    → pin_argument_of args ≡ ok t
    → args ≡ angle_bracketed (type_argument (reference t))
unfolding pin_argument_of
pin_argument_of-ok (angle_bracketed (type_argument (reference t'))) t e = cc
pin_argument_of-ok (angle_bracketed (type_argument (path s))) t e = absurd (cc)
pin_argument_of-ok (angle_bracketed (type_argument (tuple n))) t e = absurd (cc)
pin_argument_of-ok (angle_bracketed (type_argument other)) t e = absurd (cc)
pin_argument_of-ok (angle_bracketed nothing) t e = absurd (cc)
pin_argument_of-ok (angle_bracketed other_argument) t e = absurd (cc)
pin_argument_of-ok (angle_bracketed (const_argument x)) t e = absurd (cc)
pin_argument_of-ok no_arguments t e = absurd (cc)
pin_argument_of-ok parenthesized t e = absurd (cc)

const_argument_of-ok :
    (args : Arguments) (x : Expr)
    → const_argument_of args ≡ ok x
    → args ≡ angle_bracketed (const_argument x)
unfolding const_argument_of
const_argument_of-ok (angle_bracketed (const_argument x')) x e = cc
const_argument_of-ok (angle_bracketed (type_argument t)) x e = absurd (cc)
const_argument_of-ok (angle_bracketed nothing) x e = absurd (cc)
const_argument_of-ok (angle_bracketed other_argument) x e = absurd (cc)
const_argument_of-ok no_arguments x e = absurd (cc)
const_argument_of-ok parenthesized x e = absurd (cc)

literal_of-ok : (x : Expr) (n : ℕ) → literal_of x ≡ ok n → (x ≡ int_literal n) × (n < 2 ^ 64)
unfolding literal_of
literal_of-ok (int_literal k) n e = ground (arith, e)
literal_of-ok other_expr n e = absurd (cc)

-- A chain that succeeds: its first part gave a value, and the rest succeeds on it.
pub >>=-eq-ok {ℓ₀ ℓ₁} :
    {Value : Type ℓ₀} {Next : Type ℓ₁} (first : Result Value) (next : Value → Result Next)
    {answer : Next}
    → (first >>= next) ≡ ok answer
    → (value : Value) × (first ≡ ok value) × (next value ≡ ok answer)
>>=-eq-ok (err message) next succeeds = absurd (cc)
>>=-eq-ok (ok value) next succeeds = (value, refl, succeeds)

-- `extract_spawner_n` answers a number exactly for a path to `Pin` of a reference to a path to `Spawner` of
-- that number, written as a literal below 2 ^ 64.
pub extract_spawner_n_lem :
    (ty : SynType) (n : ℕ) → (extract_spawner_n ty ≡ ok n) ↔ IsSpawnerPin ty n
unfolding extract_spawner_n named pin_argument_of const_argument_of literal_of
extract_spawner_n_lem ty n = (sound, complete)
  where
    sound : extract_spawner_n ty ≡ ok n → IsSpawnerPin ty n
    sound e =
        let (a₁, e₁, r₁) = >>=-eq-ok (named (codes "Pin") expected_pin ty) _ e in
        let (t, e₂, r₂) = >>=-eq-ok (pin_argument_of a₁) _ r₁ in
        let (a₂, e₃, r₃) = >>=-eq-ok (named (codes "Spawner") expected_spawner t) _ r₂ in
        let (x, e₄, e₅) = >>=-eq-ok (const_argument_of a₂) _ r₃ in
        let (pins, is_path, pin_end) = named-ok (codes "Pin") expected_pin ty a₁ e₁ in
        let (spawners, is_path', spawner_end) =
          named-ok (codes "Spawner") expected_spawner t a₂ e₃ in
        let (literal, fits) = literal_of-ok x n e₅ in
        record {
          pins = pins;
          spawners = spawners;
          is_path = is_path;
          is_pin =
              subst (λ a. Ends (codes "Pin") a pins)
                (pin_argument_of-ok a₁ t e₂
                  ∙ ap (λ z. angle_bracketed (type_argument (reference z))) is_path')
                pin_end;
          is_spawner =
              subst (λ a. Ends (codes "Spawner") a spawners)
                (const_argument_of-ok a₂ x e₄
                  ∙ ap (λ z. angle_bracketed (const_argument z)) literal)
                spawner_end;
          fits = fits;
        }

    complete : IsSpawnerPin ty n → extract_spawner_n ty ≡ ok n
    complete h =
        ap extract_spawner_n h.is_path
        ∙ ap
            (λ m. m >>= λ a. pin_argument_of a >>= λ t.
              named (codes "Spawner") expected_spawner t >>= λ b.
              const_argument_of b >>= λ x. literal_of x)
            (ok-named (codes "Pin") expected_pin h.pins _ h.is_pin)
        ∙ ap (λ m. m >>= λ b. const_argument_of b >>= λ x. literal_of x)
            (ok-named (codes "Spawner") expected_spawner h.spawners _ h.is_spawner)
        ∙ ap (λ b. if b then ok n else err too_large) (lt→ltb n (2 ^ 64) h.fits)
