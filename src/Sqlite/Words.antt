-- ===== src/Sqlite/Words.antt =====
-- What the INSTR of findMatchingFilters finds, said without its padding: a trigger between spaces or ends.
use patrizio_bot.Prelude.{
  ℕ, ◌≡◌, ◌≢◌, ◌↔◌, ◌⊎◌, refl, sym, ap, ◌∙◌, inl, inr, true, [], ◌∷◌, ◌++◌, append-nil,
  append_assoc, subst,
}
use patrizio_bot.Text.{Text, contains}
use patrizio_bot.Text.Laws.{contains_split, contains-append}
use patrizio_bot.Sqlite.Queries.{trigger_matches}

-- A text behind which a word may begin.
pub data Before : Text → Type 0 where
  at_start : Before []
  behind_space : (l : Text) → Before (l ++ b' ' ∷ [])

-- A text before which a word may end.
pub data After : Text → Type 0 where
  at_end : After []
  before_space : (r : Text) → After (b' ' ∷ r)

-- The trigger is a part of the message, from its start or a space on, up to a space or its end.
abbrev pub StandsIn : Text → Text → Type 0
StandsIn message trigger =
    (l : Text) × (r : Text) × (message ≡ l ++ (trigger ++ r)) × Before l × After r

head-eq : {x y : ℕ} {s t : Text} → x ∷ s ≡ y ∷ t → x ≡ y
head-eq e = cc

tail-eq : {x y : ℕ} {s t : Text} → x ∷ s ≡ y ∷ t → s ≡ t
tail-eq e = cc

nil-ne : (x : ℕ) (s t : Text) → [] ≢ s ++ x ∷ t
nil-ne x [] t e = cc
nil-ne x (y ∷ s) t e = cc

-- A text that ends in `x`: another `x` in it is that one or lies before it.
ends_with :
    (x : ℕ) (m q r : Text) → m ++ x ∷ [] ≡ q ++ x ∷ r → (m ≡ q) ⊎ ((s : Text) × (m ≡ q ++ x ∷ s))
ends_with x [] [] r e = inl refl
ends_with x (c ∷ m) [] r e = inr (m, ap (λ d. d ∷ m) (head-eq e))
ends_with x [] (d ∷ q) r e = absurd (nil-ne x q r (tail-eq e))
ends_with x (c ∷ m) (d ∷ q) r e = elim (ends_with x m q r (tail-eq e)) [
  | inl h ↦ inl (ap (◌∷◌ c) h ∙ ap (λ y. y ∷ q) (head-eq e))
  | inr h ↦ inr (h.0, ap (◌∷◌ c) h.1 ∙ ap (λ y. y ∷ (q ++ x ∷ h.0)) (head-eq e))
]

module _ (message trigger : Text) where
  stands_behind :
      (l r : Text)
      → Before l
      → message ++ b' ' ∷ [] ≡ (l ++ trigger) ++ b' ' ∷ r
      → StandsIn message trigger
  stands_behind l r h e = elim (ends_with b' ' message (l ++ trigger) r e) [
    | inl k ↦ (l, [], k ∙ ap (◌++◌ l) (sym (append-nil trigger)), h, at_end)
    | inr k ↦ (l, b' ' ∷ k.0, k.1 ∙ append_assoc l trigger (b' ' ∷ k.0), h, before_space k.0)
  ]

  -- The padded trigger, and what is behind it.
  abbrev padded : Text
  padded = b' ' ∷ (trigger ++ b' ' ∷ [])

  split-StandsIn :
      (l r : Text) → b' ' ∷ (message ++ b' ' ∷ []) ≡ l ++ (padded ++ r) → StandsIn message trigger
  split-StandsIn [] r e =
      stands_behind [] r at_start (tail-eq e ∙ append_assoc trigger (b' ' ∷ []) r)
  split-StandsIn (c ∷ l) r e = stands_behind (l ++ b' ' ∷ []) r (behind_space l) (
      tail-eq e
      ∙ ap (λ s. l ++ b' ' ∷ s) (append_assoc trigger (b' ' ∷ []) r)
      ∙ sym (append_assoc l (b' ' ∷ []) (trigger ++ b' ' ∷ r))
      ∙ sym (append_assoc (l ++ b' ' ∷ []) trigger (b' ' ∷ r)))

  front_spaces : (l s : Text) → Before l → (k : Text) × (b' ' ∷ (l ++ s) ≡ k ++ b' ' ∷ s)
  front_spaces l s at_start = ([], refl)
  front_spaces l s (behind_space k) = (b' ' ∷ k, ap (◌∷◌ b' ') (append_assoc k (b' ' ∷ []) s))

  back_spaces : (r : Text) → After r → (k : Text) × (r ++ b' ' ∷ [] ≡ b' ' ∷ k)
  back_spaces r at_end = ([], refl)
  back_spaces r (before_space k) = (k ++ b' ' ∷ [], refl)

  StandsIn-contains : StandsIn message trigger → trigger_matches message trigger ≡ true
  unfolding trigger_matches
  StandsIn-contains (l, r, e, before, after) =
      let behind = back_spaces r after in
      let front = front_spaces l (trigger ++ (r ++ b' ' ∷ [])) before in
      let whole : b' ' ∷ (message ++ b' ' ∷ []) ≡ front.0 ++ (padded ++ behind.0) =
        ap (λ s. b' ' ∷ (s ++ b' ' ∷ [])) e
        ∙ ap (◌∷◌ b' ') (append_assoc l (trigger ++ r) (b' ' ∷ []))
        ∙ ap (λ s. b' ' ∷ (l ++ s)) (append_assoc trigger r (b' ' ∷ []))
        ∙ front.1
        ∙ ap (λ s. front.0 ++ b' ' ∷ (trigger ++ s)) behind.1
        ∙ ap (λ s. front.0 ++ b' ' ∷ s) (sym (append_assoc trigger (b' ' ∷ []) behind.0)) in
      subst (λ s. contains s padded ≡ true) (sym whole) (contains-append front.0 padded behind.0)

  pub trigger_matches_iff : (trigger_matches message trigger ≡ true) ↔ StandsIn message trigger
  unfolding trigger_matches
  trigger_matches_iff = (
    λ h.
        let (l, r, e) = contains_split (b' ' ∷ (message ++ b' ' ∷ [])) padded h in
        split-StandsIn l r e,
    StandsIn-contains,
  )
