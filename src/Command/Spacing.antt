-- ===== src/Command/Spacing.antt =====
-- What a second space behind an unquoted trigger does to `/filter`.
use patrizio_bot.Prelude.{ℕ, ◌≡◌, ap, ◌∙◌, false, [], ◌∷◌, ◌++◌, ◌==◌}
use patrizio_bot.Text.{Text, codes, is_empty, is_space, trim_space}
use patrizio_bot.Text.Laws.{Lacks, cut-append, trim_space-cons_space, IsTrimmed}
use patrizio_bot.Text.Ends.{EndsSolid-append, trim_space-solid, IsTrimmed-EndsSolid}
use patrizio_bot.Command.{
  ok, text, parse_next_token, next_token, first_word, parse_response, filter_arguments,
  parse_filter_command, command_filter,
}

-- A word that `/filter` reads as an unquoted trigger.
pub record IsWord (c : ℕ) (w : Text) : Type 0 where
  pub starts : is_space c ≡ false
  pub not_quote : (c == b'"') ≡ false
  pub not_paren : (c == b'(') ≡ false
  pub one_word : Lacks b' ' (c ∷ w)

-- the two spaces and the reaction
abbrev pub wide_reaction : Text → Text
wide_reaction e = b' ' ∷ b' ' ∷ (codes "react:" ++ e)

module _ (c : ℕ) (w e : Text) (h : IsWord c w) (t : IsTrimmed e) (n : is_empty e ≡ false) where
  wide_trimmed : trim_space ((c ∷ w) ++ wide_reaction e) ≡ (c ∷ w) ++ wide_reaction e
  wide_trimmed = trim_space-solid c (w ++ wide_reaction e) h.starts (
      EndsSolid-append (c ∷ w) (wide_reaction e)
        (EndsSolid-append (codes "  react:") e (IsTrimmed-EndsSolid e t n)))

  parse_next_token-wide :
      parse_next_token ((c ∷ w) ++ wide_reaction e) ≡ ok (c ∷ w, b' ' ∷ (codes "react:" ++ e))
  unfolding parse_next_token
  parse_next_token-wide =
      ap next_token wide_trimmed
      ∙ rw h.not_quote (
          ap (λ o. ok (first_word o ((c ∷ w) ++ wide_reaction e)))
            (cut-append b' ' (c ∷ w) (b' ' ∷ (codes "react:" ++ e)) h.one_word))

  filter_arguments-wide :
      filter_arguments ((c ∷ w) ++ wide_reaction e)
      ≡ ok (record { triggers = (c ∷ w) ∷ []; response = text (b' ' ∷ (codes "react:" ++ e)) })
  unfolding filter_arguments parse_response
  filter_arguments-wide = rw h.not_paren (rw parse_next_token-wide)

-- Behind an unquoted trigger and two spaces, `react:<emoji>` is taken as a text response that
-- begins with a space, and not as a reaction.
pub parse_filter_command-wide :
    (c : ℕ) (w e : Text)
    → IsWord c w
    → IsTrimmed e
    → is_empty e ≡ false
    → parse_filter_command (command_filter ++ b' ' ∷ ((c ∷ w) ++ wide_reaction e))
      ≡ ok (record { triggers = (c ∷ w) ∷ []; response = text (b' ' ∷ (codes "react:" ++ e)) })
unfolding parse_filter_command
parse_filter_command-wide c w e h t n =
    ap filter_arguments
      (trim_space-cons_space ((c ∷ w) ++ wide_reaction e) ∙ wide_trimmed c w e h t n)
    ∙ filter_arguments-wide c w e h t n
