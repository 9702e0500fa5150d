-- ===== src/Sqlite/Repository/Sound.antt =====
-- The invariant of the filter tables: filters have different ids, no chat has one trigger text
-- twice, and every trigger row belongs to a filter.
use patrizio_bot.Prelude.{
  ℕ, ◌+◌, ◌≤◌, ◌≡◌, refl, sym, ◌∙◌, Bool, true, false, ◌&&◌, ◌||◌, List, [], ◌∷◌, map, ◌==◌,
  if◌then◌else◌, any, count_if, arith, All, All-mono, count_if-none, count_if-congr, ==_iff,
}
use mathlib.Core.Path.{subst₂}
use mathlib.Core.Bool.{false≢true}
use patrizio_bot.Text.{Text}
use patrizio_bot.Text.Laws.{text_eq_iff}
use patrizio_bot.Sqlite.Db.{ResponseType, FilterRow, TriggerRow, Db, Engine, IsEngine}
use patrizio_bot.Sqlite.Queries.{in_chat, is_trigger, has_filter}
use patrizio_bot.Sqlite.Statements.{with_trigger, with_filter, new_id}

abbrev pub Owned : Db → TriggerRow → Type 0
Owned d t = has_filter d t.filter_id ≡ true

pub record IsSound (d : Db) : Type 0 where
  pub ids : (i : ℕ) → count_if (λ f. f.id == i) d.filters ≤ 1
  pub owned : All (Owned d) d.triggers
  pub unique : (chat : ℕ) (s : Text) → count_if (is_trigger d.filters chat s) d.triggers ≤ 1

ids_differ :
    (fs : List FilterRow) (x y : ℕ)
    → any (λ i. i == x) (map (λ f. f.id) fs) ≡ false
    → any (λ f. f.id == y) fs ≡ true
    → (x == y) ≡ false
ids_differ [] x y h k = absurd (false≢true k)
ids_differ (f ∷ fs) x y h k = ground (arith, ids_differ fs x y)

-- A filter with a new id owns no trigger, so the triggers of every chat stay as they were.
pub new_id-Owned :
    (d : Db) (e : Engine)
    → IsEngine e
    → (t : TriggerRow) → Owned d t
    → (new_id e d == t.filter_id) ≡ false
new_id-Owned d e ie t o =
    ids_differ d.filters (new_id e d) t.filter_id (ie.row_id_fresh (map (λ f. f.id) d.filters)) o

pub or_right : (a b : Bool) → b ≡ true → (a || b) ≡ true
or_right a b h = ground arith

one_more : (b : Bool) (m : ℕ) → m ≤ 1 → (b ≡ true → m ≡ 0) → (if b then 1 else 0) + m ≤ 1
one_more true m h z = omega (arith, z refl)
one_more false m h z = omega arith

fresh_count :
    (fs : List FilterRow) (x i : ℕ)
    → any (λ j. j == x) (map (λ f. f.id) fs) ≡ false
    → (x == i) ≡ true
    → count_if (λ f. f.id == i) fs ≡ 0
fresh_count [] x i h e = refl
fresh_count (f ∷ fs) x i h e = ground (arith, fresh_count fs x i)

module _ (e : Engine) (chat : ℕ) (kind : ResponseType) (d : Db) (ie : IsEngine e) where
  pub is_trigger-with_filter :
      (c : ℕ) (s : Text) (t : TriggerRow)
      → Owned d t
      → is_trigger (with_filter e chat kind d).filters c s t ≡ is_trigger d.filters c s t
  unfolding is_trigger in_chat
  is_trigger-with_filter c s t o = rw (new_id-Owned d e ie t o)

  pub with_filter-IsSound : IsSound d → IsSound (with_filter e chat kind d)
  with_filter-IsSound h = record {
    ids = λ i.
        one_more (new_id e d == i) (count_if (λ f. f.id == i) d.filters) (h.ids i)
          (fresh_count d.filters (new_id e d) i (ie.row_id_fresh (map (λ f. f.id) d.filters)));
    owned =
        All-mono (Owned d) (Owned (with_filter e chat kind d)) d.triggers (λ t o. or_right _ _ o)
          h.owned;
    unique = λ c s.
        rw
          (count_if-congr (is_trigger (with_filter e chat kind d).filters c s)
            (is_trigger d.filters c s) d.triggers
            (All-mono (Owned d) _ d.triggers (is_trigger-with_filter c s) h.owned))
          (h.unique c s);
  }

pub and_true : (a b : Bool) → (a && b) ≡ true → (a ≡ true) × (b ≡ true)
and_true a b h = ground arith

-- A trigger row is added for filter `id` of `chat`, where no row of `chat` has its text.
abbrev pub new_row : Engine → ℕ → Text → Db → TriggerRow
new_row e id n d = record {
  id = e.row_id (map (λ t. t.id) d.triggers);
  filter_id = id;
  trigger_text = n;
}

module _ (e : Engine) (chat id : ℕ) (n : Text) (d : Db) where
  no_other :
      any (is_trigger d.filters chat n) d.triggers ≡ false
      → (c : ℕ) (s : Text) → in_chat d.filters c (new_row e id n d) ≡ (chat == c)
      → is_trigger d.filters c s (new_row e id n d) ≡ true
      → count_if (is_trigger d.filters c s) d.triggers ≡ 0
  unfolding is_trigger
  no_other free c s k h =
      let both = and_true _ _ h in
      let same_chat = (==_iff chat c).0 (sym k ∙ both.0) in
      let same_text = (text_eq_iff n s).0 both.1 in
      count_if-none (is_trigger d.filters c s) d.triggers
        (subst₂ (λ c s. any (is_trigger d.filters c s) d.triggers ≡ false) same_chat same_text free)

  pub with_trigger-IsSound :
      has_filter d id ≡ true
      → ((c : ℕ) (t : TriggerRow) → t.filter_id ≡ id → in_chat d.filters c t ≡ (chat == c))
      → any (is_trigger d.filters chat n) d.triggers ≡ false
      → IsSound d
      → IsSound (with_trigger e id n d)
  with_trigger-IsSound own chats free h = record {
    ids = h.ids;
    owned = (own, h.owned);
    unique = λ c s.
        one_more (is_trigger d.filters c s (new_row e id n d))
          (count_if (is_trigger d.filters c s) d.triggers) (h.unique c s)
          (no_other free c s (chats c (new_row e id n d) refl));
  }

-- The invariant looks at two of the tables.
pub IsSound-same :
    {d d' : Db} → d'.filters ≡ d.filters → d'.triggers ≡ d.triggers → IsSound d → IsSound d'
IsSound-same {d} {d'} f t h = record {
  ids = λ i. rw f (h.ids i);
  owned =
      subst₂ (λ fs ts. All (λ r. any (λ f. f.id == r.filter_id) fs ≡ true) ts) (sym f) (sym t)
        h.owned;
  unique = λ c s. rw f (rw t (h.unique c s));
}
