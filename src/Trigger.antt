-- ===== src/Trigger.antt =====
-- internal/domain/filter.go: normalization of messages and triggers, validation of triggers. The
-- Unicode tables of Go's regexp and strings packages are a parameter.
pub mod Normal
use patrizio_bot.Prelude.{
  ℕ, Bool, true, false, ◌&&◌, ◌||◌, List, [], ◌∷◌, map, ◌≡◌, ◌==◌, if◌then◌else◌,
}
use patrizio_bot.Text.{Text, is_empty}

-- \p{L}, \p{N} and unicode.ToLower.
pub record Unicode : Type 0 where
  pub is_letter : ℕ → Bool
  pub is_number : ℕ → Bool
  pub lower : ℕ → ℕ

-- \s of RE2: tab, newline, form feed, carriage return, space
unfoldable pub is_blank : ℕ → Bool
is_blank c = c == 9 || c == 10 || c == 12 || c == 13 || c == 32

-- [\p{L}\p{N}\s]
unfoldable pub is_allowed : Unicode → ℕ → Bool
unfolding is_blank
is_allowed u c = u.is_letter c || u.is_number c || is_blank c

-- `ReplaceAllString(msg, " ")` of `[^\p{L}\p{N}\s]+`; the flag says that the character before
-- belongs to a run that has its space already.
unfoldable pub replace_runs : Unicode → Bool → Text → Text
unfolding is_allowed
replace_runs u in_run [] = []
replace_runs u in_run (c ∷ s) =
    let allowed = is_allowed u c in
    let rest = replace_runs u (if allowed then false else true) s in
    if allowed then c ∷ rest else if in_run then rest else b' ' ∷ rest

-- strings.ToLower
abbrev pub to_lower : Unicode → Text → Text
to_lower u = map u.lower

unfoldable pub normalize_message : Unicode → Text → Text
unfolding replace_runs
normalize_message u msg = to_lower u (replace_runs u false msg)

unfoldable pub all_allowed : Unicode → Text → Bool
unfolding is_allowed
all_allowed u [] = true
all_allowed u (c ∷ s) = is_allowed u c && all_allowed u s

-- `^[\p{L}\p{N}\s]+$`; true for a nil error
unfoldable pub validate_trigger : Unicode → Text → Bool
unfolding all_allowed
validate_trigger u [] = false
validate_trigger u (c ∷ s) = all_allowed u (c ∷ s)

unfoldable pub normalize_trigger : Unicode → Text → Text
normalize_trigger u s = to_lower u s

-- What the code relies on of the tables: case does not change what a character is, and lower case
-- is final. A plain space is its own lower case.
pub record IsUnicode (u : Unicode) : Type 0 where
  pub letter-lower : (c : ℕ) → u.is_letter (u.lower c) ≡ u.is_letter c
  pub number-lower : (c : ℕ) → u.is_number (u.lower c) ≡ u.is_number c
  pub blank-lower : (c : ℕ) → is_blank (u.lower c) ≡ is_blank c
  pub lower-lower : (c : ℕ) → u.lower (u.lower c) ≡ u.lower c
  pub lower-space : u.lower b' ' ≡ b' '
