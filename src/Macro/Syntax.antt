-- ===== src/Macro/Syntax.antt =====
-- The syntax trees of the crate `syn` that executor-macro/src/lib.rs reads, as far as it looks into
-- them. An identifier is the list of its code points.
use rt_async.Base.{ℕ, Bool, List}

mutual
  pub data SynType : Type 0 where
    -- the segments of a path
    path : Segments → SynType
    reference : SynType → SynType
    -- the number of elements
    tuple : ℕ → SynType
    other : SynType

  pub data Segments : Type 0 where
    end : Segments
    segment : List ℕ → Arguments → Segments → Segments

  pub data Arguments : Type 0 where
    no_arguments parenthesized : Arguments
    -- the first generic argument, if there is one
    angle_bracketed : Generic → Arguments

  pub data Generic : Type 0 where
    nothing other_argument : Generic
    type_argument : SynType → Generic
    const_argument : Expr → Generic

  pub data Expr : Type 0 where
    -- an integer literal
    int_literal : ℕ → Expr
    other_expr : Expr

-- The parts of a function's signature that the macros look at; the generic parameters are counted.
pub data ReturnType : Type 0 where
  default_return : ReturnType
  returns : SynType → ReturnType

pub data FnArg : Type 0 where
  receiver : FnArg
  -- a pattern, by a number, and a type
  typed : ℕ → SynType → FnArg

pub record ItemFn : Type 0 where
  pub asyncness : Bool
  pub generics : ℕ
  pub output : ReturnType
  pub inputs : List FnArg
  pub ident : List ℕ
