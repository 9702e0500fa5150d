-- ===== src/Text/Ends.antt =====
-- Texts that `strings.TrimSpace` leaves alone at their ends.
use patrizio_bot.Prelude.{ℕ, ◌≡◌, refl, sym, ap, ◌∙◌, false, [], ◌∷◌, ◌++◌}
use patrizio_bot.Text.{Text, is_empty, trim_space, trim_left, trim_right, is_space}
use patrizio_bot.Text.Laws.{trim_right-append, trim_right_idem, IsTrimmed}

-- A text whose last character is there, and is no space.
abbrev pub EndsSolid : Text → Type 0
EndsSolid s = (trim_right s ≡ s) × (is_empty s ≡ false)

is_empty-tail : (s t : Text) → is_empty t ≡ false → is_empty (s ++ t) ≡ false
is_empty-tail [] t h = h
is_empty-tail (c ∷ s) t h = refl

pub EndsSolid-append : (s t : Text) → EndsSolid t → EndsSolid (s ++ t)
EndsSolid-append s t h =
    (trim_right-append s t (rw h.0 h.1) ∙ ap (◌++◌ s) h.0, is_empty-tail s t h.1)

pub quote-EndsSolid : EndsSolid (b'"' ∷ [])
unfolding trim_right
quote-EndsSolid = (refl, refl)

-- A text that begins and ends solid is not trimmed.
pub trim_space-solid :
    (c : ℕ) (s : Text) → is_space c ≡ false → EndsSolid (c ∷ s) → trim_space (c ∷ s) ≡ c ∷ s
unfolding trim_space trim_left
trim_space-solid c s h k = rw h k.0

pub IsTrimmed-EndsSolid : (s : Text) → IsTrimmed s → is_empty s ≡ false → EndsSolid s
unfolding trim_space
IsTrimmed-EndsSolid s h e = (ap trim_right (sym h) ∙ trim_right_idem (trim_left s) ∙ h, e)
