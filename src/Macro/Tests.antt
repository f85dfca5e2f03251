-- ===== src/Macro/Tests.antt =====
-- Functions that the macros accept and refuse.
use rt_async.Base.{◌≡◌, ◌↔◌, true, false, [], ◌∷◌, refl}
use rt_async.Macro.{
  SynType, path, reference, other, end, segment, no_arguments, angle_bracketed, type_argument,
  const_argument, int_literal, default_return, receiver, typed, ItemFn, ok, err, codes, level_debug,
  level_info, invalid_level, has_self, expected_pin, parse_log_level, level_of, trim, trim_start,
  trim_end, is_whitespace, extract_spawner_n, last_segment, named, pin_argument_of,
  const_argument_of, literal_of, task, main, interrupt, check_output, arg_pats, one_parameter,
}
use rt_async.Macro.Checks.{IsEntry, main_lem}

-- `executor::spawner::Spawner<4>`
abbrev spawner_4 : SynType
spawner_4 = path (
    segment (codes "executor") no_arguments
      (segment (codes "Spawner") (angle_bracketed (const_argument (int_literal 4))) end))

-- `Pin<&executor::spawner::Spawner<4>>`
abbrev pinned_4 : SynType
pinned_4 = path (segment (codes "Pin") (angle_bracketed (type_argument (reference spawner_4))) end)

pinned_run : extract_spawner_n pinned_4 ≡ ok 4
unfolding extract_spawner_n named last_segment pin_argument_of const_argument_of literal_of
pinned_run = refl

bare_run : extract_spawner_n spawner_4 ≡ err expected_pin
unfolding extract_spawner_n named last_segment
bare_run = refl

level_run : parse_log_level (codes " debug ") ≡ ok level_debug
unfolding parse_log_level trim trim_start trim_end is_whitespace level_of
level_run = refl

level_default : parse_log_level (codes "  ") ≡ ok level_info
unfolding parse_log_level trim trim_start trim_end is_whitespace level_of
level_default = refl

level_case : parse_log_level (codes "Debug") ≡ err invalid_level
unfolding parse_log_level trim trim_start trim_end is_whitespace level_of
level_case = refl

-- `fn main(spawner: Pin<&executor::spawner::Spawner<4>>)`
abbrev entry : ItemFn
entry = record {
  asyncness = false;
  generics = 0;
  output = default_return;
  inputs = typed 1 pinned_4 ∷ [];
  ident = codes "main";
}

entry_run : main (codes "debug") entry ≡ ok (level_debug, 4)
unfolding main parse_log_level trim trim_start trim_end is_whitespace level_of one_parameter
    extract_spawner_n named last_segment pin_argument_of const_argument_of literal_of
entry_run = refl

main_lem_example :
    (main (codes "debug") entry ≡ ok (level_debug, 4)) ↔ IsEntry (codes "debug") entry level_debug 4
main_lem_example = main_lem (codes "debug") entry level_debug 4

-- `async fn blink(led: usize)`
abbrev blink : ItemFn
blink = record {
  asyncness = true;
  generics = 0;
  output = default_return;
  inputs = typed 1 other ∷ [];
  ident = codes "blink";
}

blink_run : task blink ≡ ok (codes "__blink", codes "blink", 1 ∷ [])
unfolding task check_output arg_pats
blink_run = refl

self_run : task (record blink { inputs = receiver ∷ [] }) ≡ err has_self
unfolding task check_output arg_pats
self_run = refl

symbol_run :
    interrupt (record entry { ident = codes "MachineSoft" }) ≡ ok (codes "__Inner_MachineSoft")
unfolding interrupt
symbol_run = refl

symbol_same : interrupt (record entry { ident = codes "MachineTimer" }) ≡ ok (codes "MachineTimer")
unfolding interrupt
symbol_same = refl
