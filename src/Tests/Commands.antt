-- ===== src/Tests/Commands.antt =====
-- internal/domain/command.go and filter.go at concrete texts.
use patrizio_bot.Prelude.{◌≡◌, ◌↔◌, refl, none, true, some, [], ◌∷◌, ◌++◌}
use patrizio_bot.Text.{Text, codes, strip_prefix}
use patrizio_bot.Text.Laws.{IsTrimmed}
use patrizio_bot.Trigger.{normalize_message, normalize_trigger, validate_trigger, all_allowed}
use patrizio_bot.Trigger.Normal.{
  normalize_message_canonical, normalize_message_caseless, normalize_trigger_stable,
}
use patrizio_bot.Command.{
  filter, ok, text, parse_filter_command, parse_comma_separated_triggers, get_command_type,
  command_filter,
}
use patrizio_bot.Command.Kind.{IsCommand, get_command_type_iff}
use patrizio_bot.Command.Triggers.{IsGood, parse_comma_separated_triggers-IsGood}
use patrizio_bot.Command.RoundTrip.{show_filter, parse-show_filter}
use patrizio_bot.Command.Spacing.{IsWord, wide_reaction, parse_filter_command-wide}
use patrizio_bot.Tests.Fixtures.{ascii, ascii-IsUnicode, absent-Lacks}

normalize_message_canonical_example :
    (all_allowed ascii (normalize_message ascii (codes "Hi, ALL!!")) ≡ true)
    × (normalize_message ascii (normalize_message ascii (codes "Hi, ALL!!"))
        ≡ normalize_message ascii (codes "Hi, ALL!!"))
normalize_message_canonical_example =
    normalize_message_canonical ascii ascii-IsUnicode (codes "Hi, ALL!!")

normalize_message_caseless_example :
    normalize_message ascii (codes "Hi, ALL!!") ≡ normalize_message ascii (codes "hI, all!!")
normalize_message_caseless_example =
    normalize_message_caseless ascii ascii-IsUnicode (codes "Hi, ALL!!") (codes "hI, all!!") refl

valid_trigger : validate_trigger ascii (codes "Hello World") ≡ true
unfolding validate_trigger
valid_trigger = refl

normalize_trigger_stable_example :
    (validate_trigger ascii (normalize_trigger ascii (codes "Hello World")) ≡ true)
    × (normalize_trigger ascii (normalize_trigger ascii (codes "Hello World"))
        ≡ normalize_trigger ascii (codes "Hello World"))
    × (normalize_message ascii (normalize_trigger ascii (codes "Hello World"))
        ≡ normalize_trigger ascii (codes "Hello World"))
normalize_trigger_stable_example =
    normalize_trigger_stable ascii ascii-IsUnicode (codes "Hello World") valid_trigger

get_command_type_example :
    (get_command_type (codes "/filter x y") ≡ some filter) ↔ IsCommand filter (codes "/filter x y")
get_command_type_example = get_command_type_iff (codes "/filter x y") filter

parse_comma_separated_triggers_example :
    IsGood (parse_comma_separated_triggers (codes "\"a, b\", c"))
parse_comma_separated_triggers_example = parse_comma_separated_triggers-IsGood (codes "\"a, b\", c")

hello-IsTrimmed : IsTrimmed (codes "hey you")
unfolding patrizio_bot.Text.trim_space
hello-IsTrimmed = refl

hello-text : strip_prefix (codes "react:") (codes "hey you") ≡ none
unfolding patrizio_bot.Text.strip_prefix
hello-text = refl

parse-show_filter_example :
    parse_filter_command (show_filter (codes "hi, all") (codes "yo" ∷ []) (text (codes "hey you")))
    ≡ ok
        (record { triggers = codes "hi, all" ∷ codes "yo" ∷ []; response = text (codes "hey you") })
parse-show_filter_example =
    parse-show_filter (codes "hi, all") (codes "yo" ∷ []) (text (codes "hey you"))
      (refl, absent-Lacks b'"' (codes "hi, all") refl, absent-Lacks b')' (codes "hi, all") refl)
      ((refl, absent-Lacks b'"' (codes "yo") refl, absent-Lacks b')' (codes "yo") refl), tt)
      (refl, hello-IsTrimmed, hello-text)

hello-IsWord : IsWord b'h' (codes "ello")
unfolding patrizio_bot.Text.is_space
hello-IsWord = record {
  starts = refl;
  not_quote = refl;
  not_paren = refl;
  one_word = absent-Lacks b' ' (codes "hello") refl;
}

thumb-IsTrimmed : IsTrimmed (codes "+1")
unfolding patrizio_bot.Text.trim_space
thumb-IsTrimmed = refl

parse_filter_command-wide_example :
    parse_filter_command (command_filter ++ b' ' ∷ (codes "hello" ++ wide_reaction (codes "+1")))
    ≡ ok (record { triggers = codes "hello" ∷ []; response = text (codes " react:+1") })
parse_filter_command-wide_example =
    parse_filter_command-wide b'h' (codes "ello") (codes "+1") hello-IsWord thumb-IsTrimmed refl
