-- ===== src/Macro.antt =====
-- modules/executor-macro/src/lib.rs: what the procedural macros accept and which names they make. The
-- syntax trees are those of the crate `syn`, as far as the macros look into them: a variant that they
-- never look into is `other`. The code that `main` generates for the interrupt is in `Scheduler`.
mod Syntax
pub use Syntax.*
pub mod Parameter
pub mod Levels
pub mod Checks
mod Tests
use Prim.Native.Char.{code}
use Prim.Native.String.{String}
use rt_async.Base.{
  ℕ, ◌^◌, ◌==◌, ◌&&◌, ◌||◌, not, zero, suc, Bool, true, false, Option, none, some, List, [], ◌∷◌,
  ◌++◌, ltb, leb, if◌then◌else◌,
}

-- The messages of the macros
pub data Message : Type 0 where
  not_async is_async has_generics not_unit has_self : Message
  not_one_parameter not_a_type expected_pin pin_arguments pin_argument : Message
  expected_spawner spawner_arguments expected_const not_a_literal : Message
  too_large invalid_level : Message

-- `syn::Result`
pub data Result {ℓ} (Value : Type ℓ) : Type ℓ where
  err : Message → Result Value
  ok : Value → Result Value

infixl 5 ◌>>=◌
abbrev pub ◌>>=◌ {ℓ₀ ℓ₁} :
    {Value : Type ℓ₀} {Next : Type ℓ₁} → Result Value → (Value → Result Next) → Result Next
err message >>= next = err message
ok value >>= next = next value

-- The code points of a text
abbrev pub codes : String → List ℕ
codes String.[] = []
codes (String.◌∷◌ c s) = code c ∷ codes s

abbrev pub text_eq : List ℕ → List ℕ → Bool
text_eq [] [] = true
text_eq [] (d ∷ ds) = false
text_eq (c ∷ cs) [] = false
text_eq (c ∷ cs) (d ∷ ds) = if c == d then text_eq cs ds else false

-- `char::is_whitespace`
unfoldable pub is_whitespace : ℕ → Bool
is_whitespace c =
    leb 9 c && leb c 13
    || c == 32
    || c == 133
    || c == 160
    || c == 5760
    || leb 8192 c && leb c 8202
    || c == 8232
    || c == 8233
    || c == 8239
    || c == 8287
    || c == 12288

unfoldable pub trim_start : List ℕ → List ℕ
trim_start [] = []
trim_start (c ∷ cs) = if is_whitespace c then trim_start cs else c ∷ cs

unfoldable pub trim_end : List ℕ → List ℕ
trim_end [] = []
trim_end (c ∷ cs) = elim (trim_end cs) [
  | [] ↦ if is_whitespace c then [] else c ∷ []
  | d ∷ ds ↦ c ∷ (d ∷ ds)
]

unfoldable pub trim : List ℕ → List ℕ
trim cs = trim_end (trim_start cs)

pub data LevelFilter : Type 0 where
  level_trace level_debug level_info level_warn level_error level_off : LevelFilter

-- The arms of the `match` on the text
abbrev pub levels : List (List ℕ × LevelFilter)
levels =
    (codes "trace", level_trace)
    ∷ (codes "debug", level_debug)
    ∷ (codes "info", level_info)
    ∷ (codes "warn", level_warn)
    ∷ (codes "error", level_error)
    ∷ (codes "off", level_off)
    ∷ []

unfoldable pub level_of : List (List ℕ × LevelFilter) → List ℕ → Result LevelFilter
level_of [] s = err invalid_level
level_of ((text, level) ∷ arms) s = if text_eq s text then ok level else level_of arms s

unfoldable pub parse_log_level : List ℕ → Result LevelFilter
parse_log_level attr = elim (trim attr) [ [] ↦ ok level_info | c ∷ cs ↦ level_of levels (c ∷ cs) ]

-- The last segment of a path
unfoldable pub last_segment : Segments → Option (List ℕ × Arguments)
last_segment end = none
last_segment (segment ident args end) = some (ident, args)
last_segment (segment ident args (segment i a rest)) = last_segment (segment i a rest)

-- The arguments of a type that is a path whose last segment has this name
unfoldable pub named : List ℕ → Message → SynType → Result Arguments
named name message (path segments) = elim (last_segment segments) [
  | none ↦ err message
  | some (ident, args) ↦ if text_eq ident name then ok args else err message
]
named name message (reference t) = err message
named name message (tuple n) = err message
named name message other = err message

unfoldable pub pin_argument_of : Arguments → Result SynType
pin_argument_of (angle_bracketed (type_argument (reference t))) = ok t
pin_argument_of (angle_bracketed g) = err pin_argument
pin_argument_of no_arguments = err pin_arguments
pin_argument_of parenthesized = err pin_arguments

unfoldable pub const_argument_of : Arguments → Result Expr
const_argument_of (angle_bracketed (const_argument e)) = ok e
const_argument_of (angle_bracketed g) = err expected_const
const_argument_of no_arguments = err spawner_arguments
const_argument_of parenthesized = err spawner_arguments

-- `base10_parse::<usize>`
unfoldable pub literal_of : Expr → Result ℕ
literal_of (int_literal n) = if ltb n (2 ^ 64) then ok n else err too_large
literal_of other_expr = err not_a_literal

unfoldable pub extract_spawner_n : SynType → Result ℕ
extract_spawner_n ty = do
  pin_args ← named (codes "Pin") expected_pin ty
  inner ← pin_argument_of pin_args
  spawner_args ← named (codes "Spawner") expected_spawner inner
  expr ← const_argument_of spawner_args
  literal_of expr

unfoldable pub check_output : ReturnType → Result (Unit {0})
check_output default_return = ok tt
check_output (returns (tuple zero)) = ok tt
check_output (returns (tuple (suc n))) = err not_unit
check_output (returns (path segments)) = err not_unit
check_output (returns (reference t)) = err not_unit
check_output (returns other) = err not_unit

-- The patterns of the parameters, unless one is `self`
unfoldable pub arg_pats : List FnArg → Result (List ℕ)
arg_pats [] = ok []
arg_pats (receiver ∷ inputs) = err has_self
arg_pats (typed pat ty ∷ inputs) = do pats ← arg_pats inputs; ok (pat ∷ pats)

-- An early return with an error, if the test fails
abbrev pub ensure : Message → Bool → Result (Unit {0})
ensure message false = err message
ensure message true = ok tt

-- `task`: the name of the inner function, that of the outer one, and the patterns that are passed on
unfoldable pub task : ItemFn → Result (List ℕ × List ℕ × List ℕ)
task f = do
  async ← ensure not_async f.asyncness
  concrete ← ensure has_generics (f.generics == 0)
  unit ← check_output f.output
  pats ← arg_pats f.inputs
  ok (codes "__" ++ f.ident, f.ident, pats)

unfoldable pub one_parameter : List FnArg → Result SynType
one_parameter [] = err not_one_parameter
one_parameter (receiver ∷ []) = err not_a_type
one_parameter (typed pat ty ∷ []) = ok ty
one_parameter (arg ∷ (arg' ∷ inputs)) = err not_one_parameter

-- `main`: the log level of the generated code, and its number of priorities
unfoldable pub main : List ℕ → ItemFn → Result (LevelFilter × ℕ)
main attr f = do
  sync ← ensure is_async (not f.asyncness)
  concrete ← ensure has_generics (f.generics == 0)
  level ← parse_log_level attr
  ty ← one_parameter f.inputs
  n ← extract_spawner_n ty
  ok (level, n)

-- `interrupt`: the symbol of the handler
unfoldable pub interrupt : ItemFn → Result (List ℕ)
interrupt f = do
  sync ← ensure is_async (not f.asyncness)
  ok (if text_eq f.ident (codes "MachineSoft") then codes "__Inner_MachineSoft" else f.ident)
