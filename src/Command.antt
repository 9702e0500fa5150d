-- ===== src/Command.antt =====
-- internal/domain/command.go: the kind of a command, and the parsers of the commands' arguments.
pub mod Kind
pub mod Spacing
pub mod Triggers
pub mod RoundTrip
use patrizio_bot.Prelude.{
  ℕ, zero, suc, ◌+◌, Bool, true, false, ◌&&◌, ◌||◌, not, Option, none, some, List, [], ◌∷◌, ◌++◌,
  leb, ◌==◌, if◌then◌else◌, length,
}
use patrizio_bot.Text.{
  Text, codes, text_eq, is_empty, strip_prefix, has_prefix, trim_prefix, cut, trim_space,
}

abbrev pub command_filter : Text
command_filter = codes "/filter"

abbrev pub command_stop : Text
command_stop = codes "/stop"

abbrev pub command_stop_all : Text
command_stop_all = codes "/stopall"

abbrev pub command_filters : Text
command_filters = codes "/filters"

abbrev pub command_prompt : Text
command_prompt = codes "/prompt"

abbrev pub command_memory : Text
command_memory = codes "/memory"

-- What `GetCommandType` answers; its "" is `none`.
pub data CommandType : Type 0 where
  filter stop stop_all filters prompt memory : CommandType

abbrev pub spelling : CommandType → Text
spelling filter = command_filter
spelling stop = command_stop
spelling stop_all = command_stop_all
spelling filters = command_filters
spelling prompt = command_prompt
spelling memory = command_memory

-- the word characters of `\b`, ASCII only
unfoldable pub is_word : ℕ → Bool
is_word c =
    leb b'a' c && leb c b'z' || leb b'A' c && leb c b'Z' || leb b'0' c && leb c b'9' || c == b'_'

-- `\b` behind a word character, before `s`
unfoldable pub at_boundary : Text → Bool
unfolding is_word
at_boundary [] = true
at_boundary (c ∷ s) = not (is_word c)

-- one alternative of `commandPattern`, at the start of the text
unfoldable pub matches_command : CommandType → Text → Bool
unfolding strip_prefix at_boundary
matches_command k text = elim (strip_prefix (spelling k) text) [
  | some rest ↦ at_boundary rest
  | none ↦ false
]

-- The first alternative that matches with its `\b`.
unfoldable pub first_match : List CommandType → Text → Option CommandType
unfolding matches_command
first_match [] text = none
first_match (k ∷ ks) text = if matches_command k text then some k else first_match ks text

abbrev pub command_pattern : List CommandType
command_pattern = filter ∷ stop ∷ stop_all ∷ filters ∷ prompt ∷ memory ∷ []

unfoldable pub get_command_type : Text → Option CommandType
unfolding first_match
get_command_type text = first_match command_pattern text

-- The texts wrapped into `ErrInvalidCommand`, and the fuel of the trigger list's loop.
pub data ParseError : Type 0 where
  no_arguments unclosed_parenthesis empty_reaction no_trigger text_after_trigger : ParseError
  expected_token unclosed_quote unclosed_quote_in_list empty_trigger no_triggers : ParseError
  message_required out_of_fuel : ParseError
  unknown_memory_command : Text → ParseError

pub data Parsed {ℓ} (A : Type ℓ) : Type ℓ where
  ok : A → Parsed A
  err : ParseError → Parsed A

infixl 5 ◌>>=◌
abbrev pub ◌>>=◌ {ℓ κ} : {A : Type ℓ} {B : Type κ} → Parsed A → (A → Parsed B) → Parsed B
ok a >>= f = f a
err e >>= f = err e

-- `ResponseType` with the fields that go with it.
pub data Response : Type 0 where
  media : Response
  text : Text → Response
  reaction : Text → Response

pub record FilterCommand : Type 0 where
  pub triggers : List Text
  pub response : Response

pub data MemorySubCommand : Type 0 where
  show clear enable disable : MemorySubCommand

-- `strings.SplitN(text, " ", 2)`, with "" for a second part that is not there
abbrev first_word : Option (Text × Text) → Text → Text × Text
first_word none s = (s, [])
first_word (some p) s = p

abbrev quoted_token : Option (Text × Text) → Parsed (Text × Text)
quoted_token none = err unclosed_quote
quoted_token (some (token, rest)) = ok (token, trim_space rest)

next_token : Text → Parsed (Text × Text)
next_token [] = err expected_token
next_token (c ∷ s) =
    if c == b'"' then quoted_token (cut b'"' s) else ok (first_word (cut b' ' (c ∷ s)) (c ∷ s))

-- the token and what remains behind it
unfoldable pub parse_next_token : Text → Parsed (Text × Text)
unfolding next_token cut trim_space
parse_next_token s = next_token (trim_space s)

-- One round of the list's loop up to the test for an empty trigger: the trigger, what is left, and
-- `afterQuoted`.
abbrev quoted_trigger : Option (Text × Text) → Parsed (Text × Text × Bool)
quoted_trigger none = err unclosed_quote_in_list
quoted_trigger (some (trigger, rest)) = ok (trigger, trim_space rest, true)

abbrev unquoted_trigger : Option (Text × Text) → Text → Text × Text × Bool
unquoted_trigger none s = (trim_space s, [], false)
unquoted_trigger (some (trigger, rest)) s = (trim_space trigger, trim_space rest, false)

next_trigger : ℕ → Text → Parsed (Text × Text × Bool)
next_trigger c s =
    if c == b'"'
    then quoted_trigger (cut b'"' s)
    else ok (unquoted_trigger (cut b',' (c ∷ s)) (c ∷ s))

-- For a quoted trigger, skip the comma.
abbrev skip_comma : Bool → Text → Text
skip_comma false s = s
skip_comma true [] = []
skip_comma true (c ∷ s) = if c == b',' then trim_space s else c ∷ s

-- One whole round, on a text that is not empty.
unfoldable pub trigger_round : ℕ → Text → Parsed (Text × Text)
unfolding next_trigger cut trim_space
trigger_round c s = do
  (trigger, rest, after_quoted) ← next_trigger c s
  if is_empty trigger then err empty_trigger else ok (trigger, skip_comma after_quoted rest)

abbrev some_triggers : List Text → Parsed (List Text)
some_triggers [] = err no_triggers
some_triggers (t ∷ ts) = ok (t ∷ ts)

-- `for text != ""`, on fuel
unfoldable pub trigger_loop : ℕ → List Text → Text → Parsed (List Text)
unfolding trigger_round
trigger_loop fuel triggers [] = some_triggers triggers
trigger_loop zero triggers (c ∷ s) = err out_of_fuel
trigger_loop (suc fuel) triggers (c ∷ s) = do
  (trigger, rest) ← trigger_round c s
  trigger_loop fuel (triggers ++ trigger ∷ []) rest

-- Each round shortens the text, so its length is fuel enough.
unfoldable pub parse_comma_separated_triggers : Text → Parsed (List Text)
unfolding trigger_loop trim_space
parse_comma_separated_triggers s = let t = trim_space s in trigger_loop (length t) [] t

-- What the remaining text asks for.
unfoldable pub parse_response : List Text → Text → Parsed FilterCommand
unfolding strip_prefix trim_space
parse_response triggers remaining =
    if is_empty remaining
    then ok (record { triggers = triggers; response = media })
    else elim (strip_prefix (codes "react:") remaining) [
      | none ↦ ok (record { triggers = triggers; response = text remaining })
      | some rest ↦
          let emoji = trim_space rest in
          if is_empty emoji
          then err empty_reaction
          else ok (record { triggers = triggers; response = reaction emoji })
    ]

-- `triggerList` and the trimmed rest, around the first ")"
parenthesized : Option (Text × Text) → Parsed FilterCommand
unfolding parse_comma_separated_triggers parse_response trim_space
parenthesized none = err unclosed_parenthesis
parenthesized (some (list, rest)) = do
  triggers ← parse_comma_separated_triggers list
  parse_response triggers (trim_space rest)

filter_arguments : Text → Parsed FilterCommand
unfolding parenthesized
filter_arguments [] = err no_arguments
filter_arguments (c ∷ s) =
    if c == b'('
    then parenthesized (cut b')' s)
    else do (trigger, remaining) ← parse_next_token (c ∷ s); parse_response (trigger ∷ []) remaining

unfoldable pub parse_filter_command : Text → Parsed FilterCommand
unfolding filter_arguments parenthesized parse_next_token cut trim_prefix trim_space
parse_filter_command s = filter_arguments (trim_space (trim_prefix s command_filter))

stop_arguments : Text → Parsed Text
stop_arguments [] = err no_trigger
stop_arguments (c ∷ s) = do
  (trigger, remaining) ← parse_next_token (c ∷ s)
  if is_empty remaining then ok trigger else err text_after_trigger

unfoldable pub parse_stop_command : Text → Parsed Text
unfolding stop_arguments parse_next_token trim_prefix trim_space
parse_stop_command s = stop_arguments (trim_space (trim_prefix s command_stop))

memory_argument : Text → Parsed MemorySubCommand
unfolding text_eq
memory_argument s =
    if text_eq s (codes "show")
    then ok show
    else if text_eq s (codes "clear")
    then ok clear
    else if text_eq s (codes "enable")
    then ok enable
    else if text_eq s (codes "disable")
    then ok disable
    else err (unknown_memory_command s)

unfoldable pub parse_memory_command : Text → Parsed MemorySubCommand
unfolding memory_argument trim_prefix trim_space
parse_memory_command s = memory_argument (trim_space (trim_prefix s command_memory))

unfoldable pub parse_prompt_command : Text → Parsed Text
unfolding trim_prefix trim_space
parse_prompt_command s =
    let t = trim_space (trim_prefix s command_prompt) in
    if is_empty t then err message_required else ok t
