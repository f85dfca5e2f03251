-- ===== src/Macro/Levels.antt =====
-- The log level of the attribute of `main`.
use rt_async.Base.{
  ℕ, ◌≡◌, ◌⊎◌, ◌↔◌, Bool-cases, List, [], ◌∷◌, arith, refl, ◌∙◌, ap, inl, inr, subst, sym,
}
use rt_async.Macro.{
  Result, ok, codes, LevelFilter, level_trace, level_debug, level_info, level_warn, level_error,
  level_off, trim, text_eq, level_of, levels, parse_log_level,
}
use rt_async.Macro.Parameter.{eq_of_text_eq}

-- The attribute of `main`, without the white space around it, for a level: its name in small letters,
-- or, for `info`, nothing.
abbrev pub IsLevel : List ℕ → LevelFilter → Type 0
IsLevel text level_trace = text ≡ codes "trace"
IsLevel text level_debug = text ≡ codes "debug"
IsLevel text level_info = (text ≡ []) ⊎ (text ≡ codes "info")
IsLevel text level_warn = text ≡ codes "warn"
IsLevel text level_error = text ≡ codes "error"
IsLevel text level_off = text ≡ codes "off"

-- One of the arms has this text and this level.
abbrev Found : List (List ℕ × LevelFilter) → List ℕ → LevelFilter → Type 0
Found [] text found = ⊥
Found ((name, level) ∷ arms) text found = ((text ≡ name) × (level ≡ found)) ⊎ Found arms text found

level_of-Found :
    (arms : List (List ℕ × LevelFilter)) (text : List ℕ) (found : LevelFilter)
    → level_of arms text ≡ ok found
    → Found arms text found
unfolding level_of
level_of-Found [] text found e = absurd (cc)
level_of-Found ((name, level) ∷ arms) text found e = elim (Bool-cases (text_eq text name)) [
  | inl same ↦ inl (eq_of_text_eq text name same, ground (arith, same, e))
  | inr differs ↦ inr (level_of-Found arms text found (ground (arith, differs, e)))
]

Found-IsLevel : (text : List ℕ) (found : LevelFilter) → Found levels text found → IsLevel text found
Found-IsLevel text found (inl (is, same)) = subst (IsLevel text) same is
Found-IsLevel text found (inr (inl (is, same))) = subst (IsLevel text) same is
Found-IsLevel text found (inr (inr (inl (is, same)))) = subst (IsLevel text) same (inr is)
Found-IsLevel text found (inr (inr (inr (inl (is, same))))) = subst (IsLevel text) same is
Found-IsLevel text found (inr (inr (inr (inr (inl (is, same)))))) = subst (IsLevel text) same is
Found-IsLevel text found (inr (inr (inr (inr (inr (inl (is, same))))))) =
    subst (IsLevel text) same is
Found-IsLevel text found (inr (inr (inr (inr (inr (inr no_arm)))))) = absurd no_arm

abbrev level_in : List ℕ → Result LevelFilter
level_in [] = ok level_info
level_in (c ∷ cs) = level_of levels (c ∷ cs)

level_in-trim : (attr : List ℕ) → parse_log_level attr ≡ level_in (trim attr)
unfolding parse_log_level
level_in-trim attr = by_text (trim attr)
  where
    by_text :
        (text : List ℕ)
        → elim text [ [] ↦ ok level_info | c ∷ cs ↦ level_of levels (c ∷ cs) ] ≡ level_in text
    by_text [] = refl
    by_text (c ∷ cs) = refl

level_in-IsLevel :
    (text : List ℕ) (level : LevelFilter) → level_in text ≡ ok level → IsLevel text level
level_in-IsLevel [] level e =
    let same : level_info ≡ level = cc in subst (IsLevel []) same (inl refl)
level_in-IsLevel (c ∷ cs) level e =
    Found-IsLevel (c ∷ cs) level (level_of-Found levels (c ∷ cs) level e)

IsLevel-level_in :
    (text : List ℕ) (level : LevelFilter) → IsLevel text level → level_in text ≡ ok level
unfolding level_of
IsLevel-level_in text level_trace e = ap level_in e
IsLevel-level_in text level_debug e = ap level_in e
IsLevel-level_in text level_info (inl e) = ap level_in e
IsLevel-level_in text level_info (inr e) = ap level_in e
IsLevel-level_in text level_warn e = ap level_in e
IsLevel-level_in text level_error e = ap level_in e
IsLevel-level_in text level_off e = ap level_in e

-- The `match` on the attribute answers a level exactly for the text of that level.
pub parse_log_level_lem :
    (attr : List ℕ) (level : LevelFilter)
    → (parse_log_level attr ≡ ok level) ↔ IsLevel (trim attr) level
parse_log_level_lem attr level = (
  λ e. level_in-IsLevel (trim attr) level (sym (level_in-trim attr) ∙ e),
  λ h. level_in-trim attr ∙ IsLevel-level_in (trim attr) level h,
)
