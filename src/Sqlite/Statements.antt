-- ===== src/Sqlite/Statements.antt =====
-- What each statement leaves behind when it does not fail.
use patrizio_bot.Prelude.{
  ℕ, ◌≡◌, refl, sym, ap, ◌∙◌, Bool, true, false, ◌&&◌, ◌||◌, not, Option, some, List, [], ◌∷◌, map,
  ◌==◌, if◌then◌else◌, any, arith, Bool-cases, Option-cases, inl, inr,
}
use patrizio_bot.Text.{Text, text_eq}
use patrizio_bot.Exec.{Outcome, ok, err}
use patrizio_bot.Exec.Ensures.{Ensures, Ensures-imp}
use patrizio_bot.Sqlite.Db.{
  ResponseType, TriggerRow, Db, Engine, Session, SqlError, constraint, statement, statement_under,
  select,
}
use patrizio_bot.Sqlite.Queries.{
  is_trigger, check_duplicate_trigger_in_chat, insert_filter, insert_filter_trigger, has_filter,
  insert_text_response, insert_media_response, insert_reaction_response, take_first, deleted,
  delete_trigger_by_chat_and_text, without_filter, delete_filter, one_row,
}

-- The tables become `after`, and the connection stays what it was.
pub record Leaves (s t : Session) (after : Db) : Type 0 where
  pub tables : t.db ≡ after
  pub same_keys : t.foreign_keys ≡ s.foreign_keys

pub Leaves-same : {s t v : Session} → Leaves s t s.db → Leaves t v t.db → Leaves s v s.db
Leaves-same h k = record { tables = k.tables ∙ h.tables; same_keys = k.same_keys ∙ h.same_keys }

module _ {A : Type 0} (s : Session) (after : Db) (X : A → Type 0) where
  answered :
      (later : List Bool) (r : Outcome SqlError A × Db)
      → Ensures r (λ a d. (d ≡ after) × X a)
      → Ensures {S = Session}
          (r.0, record s { faults = later; db = r.1 })
          (λ a t. Leaves s t after × X a)
  answered later (ok a, d) h = (record { tables = h.0; same_keys = refl }, h.1)
  answered later (err e, d) h = tt

  pub statement-Ensures :
      (f : Db → Outcome SqlError A × Db)
      → Ensures (f s.db) (λ a d. (d ≡ after) × X a)
      → Ensures (statement f s) (λ a t. Leaves s t after × X a)
  unfolding statement statement_under
  statement-Ensures f h = go s.faults
    where
      go : (l : List Bool) → Ensures (statement_under l f s) (λ a t. Leaves s t after × X a)
      go [] = answered s.faults (f s.db) h
      go (true ∷ later) = tt
      go (false ∷ later) = answered later (f s.db) h

pub select-Ensures :
    {A : Type 0} (f : Db → A) (s : Session)
    → Ensures (select f s) (λ a t. Leaves s t s.db × (a ≡ f s.db))
select-Ensures f s = statement-Ensures s s.db (λ a. a ≡ f s.db) (λ d. (ok (f d), d)) (refl, refl)

-- An insertion that its constraints may refuse.
guarded-Ensures :
    (s : Session) (test : Db → Bool) (write : Db → Db)
    → Ensures
        (statement (λ d. if test d then (err constraint, d) else (ok tt, write d)) s)
        (λ (_ : Unit {0}) t. Leaves s t (write s.db) × (test s.db ≡ false))
guarded-Ensures s test write =
    statement-Ensures s (write s.db) (λ _. test s.db ≡ false)
      (λ d. if test d then (err constraint, d) else (ok tt, write d))
      (elim (Bool-cases (test s.db)) [ inl e ↦ rw e tt | inr e ↦ rw e (refl, refl) ])

or_false : (a b : Bool) → (a || b) ≡ false → b ≡ false
or_false a b h = ground arith

-- The rows that the insertions write.
abbrev pub with_trigger : Engine → ℕ → Text → Db → Db
with_trigger e filter_id s d = record d {
  triggers =
      record { id = e.row_id (map (λ t. t.id) d.triggers); filter_id = filter_id; trigger_text = s }
      ∷ d.triggers;
}

abbrev pub new_id : Engine → Db → ℕ
new_id e d = e.row_id (map (λ f. f.id) d.filters)

abbrev pub with_filter : Engine → ℕ → ResponseType → Db → Db
with_filter e chat kind d = record d {
  filters =
      record { id = new_id e d; chat_id = chat; response_type = kind; created_at = e.now d }
      ∷ d.filters;
}

abbrev pub Looked : ℕ → Text → Session → Bool → Session → Type 0
Looked chat n s b t = Leaves s t s.db × (b ≡ any (is_trigger s.db.filters chat n) s.db.triggers)

pub check_duplicate-Ensures :
    (chat : ℕ) (n : Text) (s : Session)
    → Ensures (check_duplicate_trigger_in_chat chat n s) (Looked chat n s)
unfolding check_duplicate_trigger_in_chat
check_duplicate-Ensures chat n s =
    select-Ensures (λ d. any (is_trigger d.filters chat n) d.triggers) s

abbrev pub FilterAdded : Engine → ℕ → ResponseType → Session → ℕ → Session → Type 0
FilterAdded e chat kind s id t = Leaves s t (with_filter e chat kind s.db) × (id ≡ new_id e s.db)

pub insert_filter-Ensures :
    (e : Engine) (chat : ℕ) (kind : ResponseType) (s : Session)
    → Ensures (insert_filter e chat kind s) (FilterAdded e chat kind s)
unfolding insert_filter
insert_filter-Ensures e chat kind s =
    statement-Ensures s (with_filter e chat kind s.db) (λ id. id ≡ new_id e s.db)
      (λ d. (ok (new_id e d), with_filter e chat kind d)) (refl, refl)

-- the rows that a new trigger of the same filter must not meet
abbrev pub same_trigger : ℕ → Text → TriggerRow → Bool
same_trigger filter_id n t = t.filter_id == filter_id && text_eq t.trigger_text n

abbrev pub TriggerAdded : Engine → ℕ → Text → Session → Unit {0} → Session → Type 0
TriggerAdded e id n s _ t =
    Leaves s t (with_trigger e id n s.db) × (any (same_trigger id n) s.db.triggers ≡ false)

pub insert_filter_trigger-Ensures :
    (e : Engine) (id : ℕ) (n : Text) (s : Session)
    → Ensures (insert_filter_trigger e id n s) (TriggerAdded e id n s)
unfolding insert_filter_trigger
insert_filter_trigger-Ensures e id n s =
    Ensures-imp (insert_filter_trigger e id n s) _ _
      (guarded-Ensures s
        (λ d. (s.foreign_keys && not (has_filter d id)) || any (same_trigger id n) d.triggers)
        (with_trigger e id n))
      (λ _ t h. (h.0, or_false _ _ h.1))

-- A response row is added, and nothing else.
pub record Answered (s t : Session) : Type 0 where
  pub same_filters : t.db.filters ≡ s.db.filters
  pub same_triggers : t.db.triggers ≡ s.db.triggers
  pub same_keys : t.foreign_keys ≡ s.foreign_keys

module _ (s : Session) (test : Db → Bool) (write : Db → Db) where
  response-Answered :
      (write s.db).filters ≡ s.db.filters
      → (write s.db).triggers ≡ s.db.triggers
      → Ensures
          (statement (λ d. if test d then (err constraint, d) else (ok tt, write d)) s)
          (λ (_ : Unit {0}) t. Answered s t)
  response-Answered f k =
      Ensures-imp (statement (λ d. if test d then (err constraint, d) else (ok tt, write d)) s) _ _
        (guarded-Ensures s test write)
        (λ _ t h. record {
          same_filters = ap (λ (d : Db). d.filters) h.0.tables ∙ f;
          same_triggers = ap (λ (d : Db). d.triggers) h.0.tables ∙ k;
          same_keys = h.0.same_keys;
        })

pub insert_text_response-Answered :
    (id : ℕ) (r : Text) (s : Session) → Ensures (insert_text_response id r s) (λ _ t. Answered s t)
unfolding insert_text_response
insert_text_response-Answered id r s = response-Answered s _ _ refl refl

pub insert_media_response-Answered :
    (id : ℕ) (h k : Text) (s : Session)
    → Ensures (insert_media_response id h k s) (λ _ t. Answered s t)
unfolding insert_media_response
insert_media_response-Answered id h k s = response-Answered s _ _ refl refl

pub insert_reaction_response-Answered :
    (id : ℕ) (r : Text) (s : Session)
    → Ensures (insert_reaction_response id r s) (λ _ t. Answered s t)
unfolding insert_reaction_response
insert_reaction_response-Answered id r s = response-Answered s _ _ refl refl

-- One trigger row is deleted.
pub record Deleted (chat : ℕ) (n : Text) (s : Session) (id : ℕ) (t : Session) : Type 0 where
  pub rest : List TriggerRow
  pub found : take_first (is_trigger s.db.filters chat n) s.db.triggers ≡ some (id, rest)
  pub leaves : Leaves s t (record s.db { triggers = rest })

pub delete_trigger-Ensures :
    (chat : ℕ) (n : Text) (s : Session)
    → Ensures (delete_trigger_by_chat_and_text chat n s) (Deleted chat n s)
unfolding delete_trigger_by_chat_and_text
delete_trigger-Ensures chat n s =
    elim (Option-cases (take_first (is_trigger s.db.filters chat n) s.db.triggers)) [
      | inl e ↦
          Ensures-imp (delete_trigger_by_chat_and_text chat n s) _ _
            (statement-Ensures s s.db (λ _. ⊥)
              (λ d. deleted d (take_first (is_trigger d.filters chat n) d.triggers)) (rw e tt))
            (λ _ _ h. absurd h.1)
      | inr ((id, us), e) ↦
          Ensures-imp (delete_trigger_by_chat_and_text chat n s) _ _
            (statement-Ensures s (record s.db { triggers = us }) (λ i. i ≡ id)
              (λ d. deleted d (take_first (is_trigger d.filters chat n) d.triggers))
              (rw e (refl, refl)))
            (λ i t h. record {
              rest = us;
              found = e ∙ ap (λ j. some (j, us)) (sym h.1);
              leaves = h.0;
            })
    ]

pub delete_filter-Ensures :
    (id : ℕ) (s : Session)
    → Ensures (delete_filter id s) (λ _ t. Leaves s t (without_filter s.foreign_keys id s.db))
unfolding delete_filter
delete_filter-Ensures id s =
    Ensures-imp (delete_filter id s) _ _
      (statement-Ensures s (without_filter s.foreign_keys id s.db) (λ (_ : Unit {0}). tt ≡ tt)
        (λ d. (ok tt, without_filter s.foreign_keys id d)) (refl, refl))
      (λ _ _ h. h.0)

pub one_row-Ensures :
    {A : Type 0} (f : Db → Option A) (s : Session)
    → Ensures (statement (λ d. one_row (f d) d) s) (λ r t. Leaves s t s.db × (f s.db ≡ some r))
one_row-Ensures f s = elim (Option-cases (f s.db)) [
  | inl e ↦
      Ensures-imp (statement (λ d. one_row (f d) d) s) _ _
        (statement-Ensures s s.db (λ _. ⊥) (λ d. one_row (f d) d) (rw e tt)) (λ _ _ h. absurd h.1)
  | inr (r, e) ↦
      Ensures-imp (statement (λ d. one_row (f d) d) s) _ _
        (statement-Ensures s s.db (λ x. x ≡ r) (λ d. one_row (f d) d) (rw e (refl, refl)))
        (λ x _ h. (h.0, e ∙ ap (λ y. some y) (sym h.1)))
]
