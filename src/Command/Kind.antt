-- ===== src/Command/Kind.antt =====
-- What `GetCommandType` of internal/domain/command.go recognises.
use patrizio_bot.Prelude.{◌≡◌, ◌↔◌, inl, inr, true, some, List, [], ◌∷◌, ◌++◌, arith, Option-cases}
use patrizio_bot.Text.{Text, strip_prefix}
use patrizio_bot.Text.Laws.{strip_prefix-eq_some}
use patrizio_bot.Command.{
  CommandType, filter, spelling, at_boundary, matches_command, first_match, command_pattern,
  get_command_type,
}

-- `text` is the command's word, alone or before a character that cannot continue a word.
abbrev pub IsCommand : CommandType → Text → Type 0
IsCommand k text = (rest : Text) × (text ≡ spelling k ++ rest) × (at_boundary rest ≡ true)

matches_command-IsCommand :
    (k : CommandType) (text : Text) → matches_command k text ≡ true → IsCommand k text
unfolding matches_command
matches_command-IsCommand k text h = elim (Option-cases (strip_prefix (spelling k) text)) [
  | inl e ↦ ground arith
  | inr (r, e) ↦ (r, strip_prefix-eq_some (spelling k) text e, ground arith)
]

first_match-matches :
    (ks : List CommandType) (text : Text) (k : CommandType)
    → first_match ks text ≡ some k
    → matches_command k text ≡ true
unfolding first_match
first_match-matches [] text k h = cc
first_match-matches (j ∷ ks) text k h = ground (arith, first_match-matches ks text k)

first_match-spelling :
    (k : CommandType) (rest : Text)
    → at_boundary rest ≡ true
    → get_command_type (spelling k ++ rest) ≡ some k
unfolding get_command_type
first_match-spelling filter rest h = ground arith
first_match-spelling _ rest h = ground arith

-- A message is command `k` exactly when it begins with the word of `k` and no ASCII letter, digit
-- or `_` follows: "/stopall" is no "/stop", and "/filterx" is no command.
pub get_command_type_iff :
    (text : Text) (k : CommandType) → (get_command_type text ≡ some k) ↔ IsCommand k text
unfolding get_command_type
get_command_type_iff text k = (
  λ h. matches_command-IsCommand k text (first_match-matches command_pattern text k h),
  λ (rest, e, b). rw e (first_match-spelling k rest b),
)
