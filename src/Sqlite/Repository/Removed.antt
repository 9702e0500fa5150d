-- ===== src/Sqlite/Repository/Removed.antt =====
-- The tables behind the two deletions of `RemoveTrigger`.
use patrizio_bot.Prelude.{
  ℕ, suc, ◌≡◌, sym, ap, ◌∙◌, subst, Bool, true, false, not, List, ◌==◌, keep, any, count_if, arith,
  Bool-cases, inl, inr, All, All-mono, All-count_if, any-congr, any-count_if, keep-All,
}
use patrizio_bot.Text.{Text}
use patrizio_bot.Sqlite.Db.{TriggerRow, Db}
use patrizio_bot.Sqlite.Queries.{is_trigger, without_filter}
use patrizio_bot.Sqlite.Repository.Sound.{Owned, IsSound}
use patrizio_bot.Sqlite.Repository.Create.{has_trigger}
use patrizio_bot.Sqlite.Repository.Taken.{
  Taken, All-Taken, count_if-Taken, any-Taken, any-Taken_only,
}
use patrizio_bot.Sqlite.Repository.Gone.{Other, gone-IsSound, is_trigger-gone, IsOther, other_row}

pub record Removed (chat : ℕ) (n : Text) (d d' : Db) : Type 0 where
  pub sound : IsSound d'
  pub was : has_trigger d chat n ≡ true
  pub gone : has_trigger d' chat n ≡ false
  pub others : (c : ℕ) (m : Text) → IsOther chat n c m → has_trigger d' c m ≡ has_trigger d c m

not_zero : (n : ℕ) → not (suc n == 0) ≡ true
not_zero n = ground arith

-- The trigger row alone is deleted.
module _ (chat : ℕ) (n : Text) (d : Db) (id : ℕ) (us : List TriggerRow)
    (k : Taken (is_trigger d.filters chat n) d.triggers id us) where
  pub Removed-row : IsSound d → Removed chat n d (record d { triggers = us })
  Removed-row h = record {
    sound = record {
      ids = h.ids;
      owned = All-Taken (is_trigger d.filters chat n) d.triggers id us k (Owned d) h.owned;
      unique = λ c m. omega (
        arith,
        h.unique c m,
        count_if-Taken (is_trigger d.filters chat n) d.triggers id us k (is_trigger d.filters c m),
      );
    };
    was =
        let counted : count_if (is_trigger d.filters chat n) d.triggers
            ≡ suc (count_if (is_trigger d.filters chat n) us) =
          omega (
            arith,
            rw k.chosen at (
                count_if-Taken (is_trigger d.filters chat n) d.triggers id us k
                  (is_trigger d.filters chat n)),
          ) in
        any-count_if (is_trigger d.filters chat n) d.triggers
        ∙ ap (λ i. not (i == 0)) counted
        ∙ not_zero _;
    gone =
        any-Taken_only (is_trigger d.filters chat n) d.triggers id us k
          (is_trigger d.filters chat n) k.chosen (h.unique chat n);
    others = λ c m o.
        any-Taken (is_trigger d.filters chat n) d.triggers id us k (is_trigger d.filters c m)
          (other_row d chat c n m k.row h k.chosen o);
  }

-- Then the filter too, which has no trigger row left.
module _ (chat : ℕ) (n : Text) (d d1 : Db) (id : ℕ) (cascade : Bool)
    (unused : count_if (λ t. t.filter_id == id) d1.triggers ≡ 0) where
  others_left : All (Other id) d1.triggers
  others_left = All-count_if (λ t. t.filter_id == id) d1.triggers unused

  same_triggers : (without_filter cascade id d1).triggers ≡ d1.triggers
  unfolding without_filter
  same_triggers = elim (Bool-cases cascade) [
    | inl e ↦ rw e (
        keep-All (λ t. not (t.filter_id == id)) d1.triggers
          (All-mono (Other id) (λ t. not (t.filter_id == id) ≡ true) d1.triggers (λ t o. ap not o)
            others_left))
    | inr e ↦ rw e
  ]

  same_filters : (without_filter cascade id d1).filters ≡ keep (λ f. not (f.id == id)) d1.filters
  unfolding without_filter
  same_filters = ground arith

  has_trigger-without :
      (c : ℕ) (m : Text) → has_trigger (without_filter cascade id d1) c m ≡ has_trigger d1 c m
  has_trigger-without c m =
      ap (any (is_trigger (without_filter cascade id d1).filters c m)) same_triggers
      ∙ any-congr _ _ d1.triggers (
          All-mono (Other id) _ d1.triggers
            (is_trigger-gone d1 (without_filter cascade id d1) id same_filters c m) others_left)

  pub Removed-filter : Removed chat n d d1 → Removed chat n d (without_filter cascade id d1)
  Removed-filter h = record {
    sound =
        gone-IsSound d1 (without_filter cascade id d1) id same_filters h.sound
          (subst (All (Other id)) (sym same_triggers) others_left)
          (subst (All (Owned d1)) (sym same_triggers) h.sound.owned)
          (λ c m. rw same_triggers (omega arith));
    was = h.was;
    gone = has_trigger-without chat n ∙ h.gone;
    others = λ c m o. has_trigger-without c m ∙ h.others c m o;
  }
