-- ===== src/Trigger/Normal.antt =====
-- Normal forms of messages: what they hold, and what they forget.
use patrizio_bot.Prelude.{
  inl, inr, ℕ, Bool, true, false, [], ◌∷◌, ◌≡◌, refl, sym, ap, ◌∙◌, arith, Bool-cases,
}
use mathlib.Core.Bool.{false≢true}
use patrizio_bot.Text.{Text}
use patrizio_bot.Trigger.{
  Unicode, IsUnicode, is_allowed, replace_runs, to_lower, normalize_message, all_allowed,
  validate_trigger, normalize_trigger,
}

module _ (u : Unicode) (laws : IsUnicode u) where
  is_allowed-lower : (c : ℕ) → is_allowed u (u.lower c) ≡ is_allowed u c
  unfolding is_allowed
  is_allowed-lower c = rw laws.letter-lower (rw laws.number-lower (rw laws.blank-lower))

  is_allowed-space : is_allowed u b' ' ≡ true
  unfolding is_allowed
  is_allowed-space = ground arith

  all_allowed-lower : (s : Text) → all_allowed u (to_lower u s) ≡ all_allowed u s
  unfolding all_allowed
  all_allowed-lower [] = refl
  all_allowed-lower (c ∷ s) = rw is_allowed-lower (rw (all_allowed-lower s))

  all_allowed-replace_runs : (b : Bool) (s : Text) → all_allowed u (replace_runs u b s) ≡ true
  unfolding all_allowed replace_runs
  all_allowed-replace_runs b [] = refl
  all_allowed-replace_runs b (c ∷ s) = elim (Bool-cases (is_allowed u c)) [
    | inl e ↦ rw e (rw e (all_allowed-replace_runs false s))
    | inr e ↦ rw e (elim (Bool-cases b) [
      | inl x ↦ rw x (all_allowed-replace_runs true s)
      | inr x ↦ rw x (rw is_allowed-space (all_allowed-replace_runs true s))
    ])
  ]

  -- On a text of allowed characters nothing is replaced.
  replace_runs-allowed : (b : Bool) (s : Text) → all_allowed u s ≡ true → replace_runs u b s ≡ s
  unfolding all_allowed replace_runs
  replace_runs-allowed b [] h = refl
  replace_runs-allowed b (c ∷ s) h = elim (Bool-cases (is_allowed u c)) [
    | inl e ↦ rw e (ap (◌∷◌ c) (replace_runs-allowed false s (rw e at h)))
    | inr e ↦ absurd (false≢true (rw e at h))
  ]

  -- Lowering commutes with replacing.
  replace_runs-lower :
      (b : Bool) (s : Text) → replace_runs u b (to_lower u s) ≡ to_lower u (replace_runs u b s)
  unfolding replace_runs
  replace_runs-lower b [] = refl
  replace_runs-lower b (c ∷ s) = rw is_allowed-lower (elim (Bool-cases (is_allowed u c)) [
    | inl e ↦ rw e (ap (◌∷◌ (u.lower c)) (replace_runs-lower false s))
    | inr e ↦ rw e (elim (Bool-cases b) [
      | inl x ↦ rw x (replace_runs-lower true s)
      | inr x ↦ rw x (rw laws.lower-space (ap (◌∷◌ b' ') (replace_runs-lower true s)))
    ])
  ])

  lower_idem : (s : Text) → to_lower u (to_lower u s) ≡ to_lower u s
  lower_idem [] = refl
  lower_idem (c ∷ s) = rw laws.lower-lower (rw (lower_idem s))

  -- A normalized message holds nothing but letters, digits and whitespace, and is its own normal
  -- form. The Unicode tables obey the laws of `IsUnicode`.
  pub normalize_message_canonical :
      (s : Text)
      → (all_allowed u (normalize_message u s) ≡ true)
        × (normalize_message u (normalize_message u s) ≡ normalize_message u s)
  unfolding normalize_message
  normalize_message_canonical s =
      let allowed = all_allowed-lower (replace_runs u false s) ∙ all_allowed-replace_runs false s in
      (
        allowed,
        ap (to_lower u) (replace_runs-allowed false (to_lower u (replace_runs u false s)) allowed)
            ∙ lower_idem (replace_runs u false s),
      )

  -- Messages that differ in case alone have one normal form. The Unicode tables obey the laws of
  -- `IsUnicode`.
  pub normalize_message_caseless :
      (s t : Text) → to_lower u s ≡ to_lower u t → normalize_message u s ≡ normalize_message u t
  unfolding normalize_message
  normalize_message_caseless s t e =
      sym (replace_runs-lower false s) ∙ ap (replace_runs u false) e ∙ replace_runs-lower false t

  -- A trigger that passes validation passes it again in the lower case in which it is stored, and
  -- is then its own normal form, as a trigger and as a message. The Unicode tables obey the laws of
  -- `IsUnicode`.
  pub normalize_trigger_stable :
      (s : Text)
      → validate_trigger u s ≡ true
      → (validate_trigger u (normalize_trigger u s) ≡ true)
        × (normalize_trigger u (normalize_trigger u s) ≡ normalize_trigger u s)
        × (normalize_message u (normalize_trigger u s) ≡ normalize_trigger u s)
  unfolding validate_trigger normalize_trigger normalize_message
  normalize_trigger_stable [] h = absurd (false≢true h)
  normalize_trigger_stable (c ∷ s) h =
      let allowed = all_allowed-lower (c ∷ s) ∙ h in
      (
        allowed,
        lower_idem (c ∷ s),
        ap (to_lower u) (replace_runs-allowed false (to_lower u (c ∷ s)) allowed)
            ∙ lower_idem (c ∷ s),
      )
