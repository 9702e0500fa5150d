-- ===== src/Sqlite/Repository/Gone.antt =====
-- A filter that goes, and the rows of other filters and other triggers, which do not notice it.
use patrizio_bot.Prelude.{
  ℕ, ◌≤◌, ◌≡◌, ◌≢◌, refl, sym, ap, ◌∙◌, true, false, ◌&&◌, not, List, [], ◌∷◌, ◌==◌, keep, any,
  count_if, arith, Bool-cases, inl, inr, ◌⊎◌, All, All-mono, All-both, any-keep, count_if-congr,
  count_if-keep,
}
use mathlib.Core.Bool.{false≢true}
use patrizio_bot.Text.{Text}
use patrizio_bot.Text.Laws.{text_eq_iff}
use patrizio_bot.Sqlite.Db.{FilterRow, TriggerRow, Db}
use patrizio_bot.Sqlite.Queries.{in_chat, is_trigger}
use patrizio_bot.Sqlite.Repository.Sound.{Owned, IsSound, and_true}

abbrev pub Other : ℕ → TriggerRow → Type 0
Other id t = (t.filter_id == id) ≡ false

-- The filter `id` goes, and no row of `rows` belongs to it.
module _ (d d' : Db) (id : ℕ) (gone : d'.filters ≡ keep (λ f. not (f.id == id)) d.filters) where
  has_filter-gone : (t : TriggerRow) → Other id t → Owned d t → Owned d' t
  has_filter-gone t o h =
      ap (λ fs. any (λ (f : FilterRow). f.id == t.filter_id) fs) gone
      ∙ any-keep (λ f. f.id == t.filter_id) (λ f. not (f.id == id)) d.filters (λ f e. ground arith)
      ∙ h

  pub is_trigger-gone :
      (c : ℕ) (n : Text) (t : TriggerRow)
      → Other id t
      → is_trigger d'.filters c n t ≡ is_trigger d.filters c n t
  unfolding is_trigger in_chat
  is_trigger-gone c n t o = rw gone (
      rw (
        any-keep (λ f. f.id == t.filter_id && f.chat_id == c) (λ f. not (f.id == id)) d.filters
          (λ f e. ground arith)))

  pub gone-IsSound :
      IsSound d
      → All (Other id) d'.triggers
      → All (Owned d) d'.triggers
      → ((c : ℕ) (n : Text)
          → count_if (is_trigger d.filters c n) d'.triggers
            ≤ count_if (is_trigger d.filters c n) d.triggers)
      → IsSound d'
  gone-IsSound h others owned fewer = record {
    ids = λ i.
        rw gone (
          omega (arith, h.ids i, count_if-keep (λ f. f.id == i) (λ f. not (f.id == id)) d.filters));
    owned =
        All-mono (λ t. Other id t × Owned d t) (Owned d') d'.triggers
          (λ t h. has_filter-gone t h.0 h.1)
          (All-both (Other id) (Owned d) d'.triggers others owned);
    unique = λ c n.
        rw
          (count_if-congr (is_trigger d'.filters c n) (is_trigger d.filters c n) d'.triggers
            (All-mono (Other id) _ d'.triggers (is_trigger-gone c n) others))
          (omega (arith, h.unique c n, fewer c n));
  }

in_chat_none :
    (fs : List FilterRow) (a : ℕ) (t : TriggerRow)
    → count_if (λ f. f.id == t.filter_id) fs ≡ 0
    → in_chat fs a t ≡ false
unfolding in_chat
in_chat_none [] a t h = refl
in_chat_none (f ∷ fs) a t h = ground (arith, in_chat_none fs a t)

-- A filter id stands for one chat.
in_chat_unique :
    (fs : List FilterRow) (a b : ℕ) (t : TriggerRow)
    → count_if (λ f. f.id == t.filter_id) fs ≤ 1
    → in_chat fs a t ≡ true
    → in_chat fs b t ≡ true
    → a ≡ b
unfolding in_chat
in_chat_unique [] a b t le h k = absurd (false≢true h)
in_chat_unique (f ∷ fs) a b t le h k = elim (Bool-cases (f.id == t.filter_id)) [
  | inl e ↦ ground (arith, in_chat_none fs a t, in_chat_none fs b t)
  | inr e ↦ ground (arith, in_chat_unique fs a b t)
]

-- Another trigger than `n` of `chat`.
abbrev pub IsOther : ℕ → Text → ℕ → Text → Type 0
IsOther chat n c m = (c ≢ chat) ⊎ (m ≢ n)

pub other_row :
    (d : Db) (chat c : ℕ) (n m : Text) (t : TriggerRow)
    → IsSound d
    → is_trigger d.filters chat n t ≡ true
    → IsOther chat n c m
    → is_trigger d.filters c m t ≡ false
unfolding is_trigger
other_row d chat c n m t h y o = elim (Bool-cases (is_trigger d.filters c m t)) [
  | inr e ↦ e
  | inl e ↦
      let one = and_true _ _ y in
      let two = and_true _ _ e in
      let same_text : m ≡ n =
        sym ((text_eq_iff t.trigger_text m).0 two.1) ∙ (text_eq_iff t.trigger_text n).0 one.1 in
      let same_chat : c ≡ chat =
        in_chat_unique d.filters c chat t (h.ids t.filter_id) two.0 one.0 in
      absurd (elim o [ inl x ↦ x same_chat | inr x ↦ x same_text ])
]
