-- ===== src/Sqlite/Repository/NewFilter.antt =====
-- What a successful creation of a filter leaves in the tables.
use mathlib.Core.Path.{subst, subst₂}
use patrizio_bot.Prelude.{
  ℕ, ◌≡◌, refl, sym, fun_ext, Bool, true, false, ◌&&◌, ◌||◌, not, List, [], ◌∷◌, map, ◌==◌, any,
  arith, All, any-imp, any_mono, ==_iff,
}
use patrizio_bot.Text.{Text}
use patrizio_bot.Trigger.{Unicode, normalize_trigger}
use patrizio_bot.Exec.{ok, Exec}
use patrizio_bot.Exec.Ensures.{
  Ensures, Ensures-continue, Ensures-step, Ensures-imp, Ensures-rename, Ensures-ok,
}
use patrizio_bot.Sqlite.Db.{
  ResponseType, text, media, reaction, FilterRow, TriggerRow, Db, Engine, IsEngine, Session,
  SqlError,
}
use patrizio_bot.Sqlite.Queries.{
  in_chat, is_trigger, insert_filter, insert_text_response, insert_media_response,
  insert_reaction_response,
}
use patrizio_bot.Sqlite.Statements.{
  Leaves, Answered, insert_text_response-Answered, insert_media_response-Answered,
  insert_reaction_response-Answered, with_filter, new_id, FilterAdded, insert_filter-Ensures,
}
use patrizio_bot.Sqlite.Repository.{
  insert_filter_failed, insert_response_failed, Repo, transaction, create_text_filter,
  create_media_filter, create_reaction_filter, check_triggers, insert_triggers, create_filter,
}
use patrizio_bot.Sqlite.Repository.Transaction.{transaction-Ensures}
use patrizio_bot.Sqlite.Repository.Sound.{IsSound, IsSound-same, with_filter-IsSound}
use patrizio_bot.Sqlite.Repository.Create.{
  has_trigger, Checked, check_triggers-Ensures, Elsewhere, Ready, Inserted, insert_triggers-Ensures,
}

or-false : (a : Bool) → (a || false) ≡ a
or-false true = refl
or-false false = refl

-- No row of the old filters is that of the new one.
in_chat-fresh :
    (fs : List FilterRow) (c x y : ℕ)
    → any (λ i. i == x) (map (λ f. f.id) fs) ≡ false
    → y ≡ x
    → any (λ f. f.id == y && f.chat_id == c) fs ≡ false
in_chat-fresh [] c x y h e = refl
in_chat-fresh (f ∷ fs) c x y h e = ground (arith, in_chat-fresh fs c x y)

abbrev pub InsertsResponse : (ℕ → Exec Session SqlError (Unit {0})) → Type 0
InsertsResponse ins = (id : ℕ) (s : Session) → Ensures (ins id s) (λ _ t. Answered s t)

-- What holds behind the three methods, if they return no error.
pub record Created (u : Unicode) (chat : ℕ) (ts : List Text) (d d' : Db) : Type 0 where
  pub sound : IsSound d'
  pub stored : All (λ x. has_trigger d' chat (normalize_trigger u x) ≡ true) ts
  pub kept : (c : ℕ) (n : Text) → has_trigger d c n ≡ true → has_trigger d' c n ≡ true
  pub free : All (Checked u chat d) ts

module _ (e : Engine) (u : Unicode) (chat : ℕ) (kind : ResponseType) (ie : IsEngine e) where
  is_trigger-old :
      (d : Db) (n : Text) (t : TriggerRow)
      → (not (t.filter_id == new_id e d) && is_trigger (with_filter e chat kind d).filters chat n t)
        ≡ true
      → is_trigger d.filters chat n t ≡ true
  unfolding is_trigger in_chat
  is_trigger-old d n t h = ground arith

  Elsewhere-with_filter :
      (d : Db) (ts : List Text)
      → All (Checked u chat d) ts
      → All
          (λ x. Elsewhere u chat (new_id e d) (with_filter e chat kind d) (normalize_trigger u x))
          ts
  Elsewhere-with_filter d [] h = tt
  Elsewhere-with_filter d (x ∷ ts) h = (
    any-imp
        (λ t.
          not (t.filter_id == new_id e d)
          && is_trigger (with_filter e chat kind d).filters chat (normalize_trigger u x) t)
        (is_trigger d.filters chat (normalize_trigger u x)) d.triggers
        (is_trigger-old d (normalize_trigger u x)) h.0,
    Elsewhere-with_filter d ts h.1,
  )

  chats-with_filter :
      (d : Db) (c : ℕ) (t : TriggerRow)
      → t.filter_id ≡ new_id e d
      → in_chat (with_filter e chat kind d).filters c t ≡ (chat == c)
  unfolding in_chat
  chats-with_filter d c t h =
      let none_old =
        in_chat-fresh d.filters c (new_id e d) t.filter_id
          (ie.row_id_fresh (map (λ f. f.id) d.filters)) h in
      rw none_old (rw h (rw ((==_iff (new_id e d) (new_id e d)).1 refl) (or-false (chat == c))))

  Ready-with_filter :
      (ts : List Text) (d : Db)
      → IsSound d
      → All (Checked u chat d) ts
      → Ready u chat (new_id e d) ts (with_filter e chat kind d)
  Ready-with_filter ts d sound h = record {
    own = rw ((==_iff (new_id e d) (new_id e d)).1 refl);
    chats = chats-with_filter d;
    elsewhere = Elsewhere-with_filter d ts h;
    sound = with_filter-IsSound e chat kind d ie sound;
  }

  Ready-added :
      (ts : List Text) (s a b : Session) (id : ℕ)
      → IsSound s.db
      → Leaves s a s.db × All (Checked u chat s.db) ts
      → FilterAdded e chat kind a id b
      → Ready u chat id ts b.db
  Ready-added ts s a b id sound checked added =
      let back = sym checked.0.tables in
      subst₂ (λ i d. Ready u chat i ts d) (sym added.1) (sym added.0.tables)
        (Ready-with_filter ts a.db (subst IsSound back sound)
          (subst (λ d. All (Checked u chat d) ts) back checked.1))

  -- A new filter takes no trigger away.
  has_trigger-with_filter :
      (d : Db) (c : ℕ) (n : Text)
      → has_trigger d c n ≡ true
      → has_trigger (with_filter e chat kind d) c n ≡ true
  unfolding is_trigger in_chat
  has_trigger-with_filter d c n =
      any_mono (is_trigger d.filters c n) (is_trigger (with_filter e chat kind d).filters c n)
        d.triggers (λ t h. ground arith)

  has_trigger-Answered :
      (c d : Session)
      → Answered c d
      → (i : ℕ) (n : Text) → has_trigger c.db i n ≡ has_trigger d.db i n
  has_trigger-Answered c d h i n = rw h.same_filters (rw h.same_triggers)

  Created-end :
      (ts : List Text) (s a b c d : Session) (id : ℕ)
      → Leaves s a s.db × All (Checked u chat s.db) ts
      → FilterAdded e chat kind a id b
      → Inserted u chat id ts b c
      → Answered c d
      → Created u chat ts s.db d.db
  Created-end ts s a b c d id checked added inserted answered = record {
    sound = IsSound-same answered.same_filters answered.same_triggers inserted.sound;
    stored =
        subst (λ (f : ℕ → Text → Bool). All (λ x. f chat (normalize_trigger u x) ≡ true) ts)
          (fun_ext λ i. fun_ext λ n. has_trigger-Answered c d answered i n) inserted.stored;
    kept = λ i n h. rw (← has_trigger-Answered c d answered i n) (
        inserted.grows i n
          (rw added.0.tables (has_trigger-with_filter a.db i n (rw checked.0.tables h))));
    free = checked.1;
  }

  create_filter-Ensures :
      (ins : ℕ → Exec Session SqlError (Unit {0}))
      → InsertsResponse ins
      → (ts : List Text) (s : Session) → IsSound s.db
      → Ensures (create_filter e u chat ts kind ins s) (λ _ t. Created u chat ts s.db t.db)
  unfolding create_filter
  create_filter-Ensures ins inserts ts s sound =
      Ensures-continue (check_triggers u chat ts s) _
        (λ _ a. Leaves s a s.db × All (Checked u chat s.db) ts) _
        (check_triggers-Ensures u chat ts s)
        λ _ a checked.
          Ensures-step (FilterAdded e chat kind a) _ insert_filter_failed
            (insert_filter e chat kind) _ a (insert_filter-Ensures e chat kind a)
            λ id b added.
              Ensures-continue (insert_triggers e u id ts b) _ (λ _ c. Inserted u chat id ts b c) _
                (insert_triggers-Ensures u chat id e ts b
                  (Ready-added ts s a b id sound checked added))
                λ _ c inserted. Ensures-rename insert_response_failed (ins id c) _ (
                  Ensures-imp (ins id c) _ _ (inserts id c)
                    (λ _ d answered. Created-end ts s a b c d id checked added inserted answered))

  transaction-Created :
      (ins : ℕ → Exec Session SqlError (Unit {0}))
      → InsertsResponse ins
      → (ts : List Text) (s : Session) → IsSound s.db
      → Ensures
          (transaction (create_filter e u chat ts kind ins) s)
          (λ _ t. Created u chat ts s.db t.db)
  transaction-Created ins inserts ts s sound =
      transaction-Ensures (create_filter e u chat ts kind ins) s (λ _ d. Created u chat ts s.db d)
        λ a same _.
          subst
            (λ d. Ensures (create_filter e u chat ts kind ins a) (λ _ t. Created u chat ts d t.db))
            same (create_filter-Ensures ins inserts ts a (subst IsSound (sym same) sound))

-- The three methods that create a filter.
pub data Creation : Type 0 where
  of_text : Text → Creation
  of_media : Text → Text → Creation
  of_reaction : Text → Creation

abbrev pub create : Engine → Unicode → ℕ → List Text → Creation → Repo (Unit {0})
create e u chat ts (of_text r) = create_text_filter e u chat ts r
create e u chat ts (of_media h k) = create_media_filter e u chat ts h k
create e u chat ts (of_reaction r) = create_reaction_filter e u chat ts r

create-Ensures :
    (e : Engine) (u : Unicode) (chat : ℕ) (ts : List Text) (c : Creation) (s : Session)
    → IsEngine e
    → IsSound s.db
    → Ensures (create e u chat ts c s) (λ _ t. Created u chat ts s.db t.db)
unfolding create_text_filter create_media_filter create_reaction_filter
create-Ensures e u chat ts (of_text r) s ie h =
    transaction-Created e u chat text ie (λ id. insert_text_response id r)
      (λ id. insert_text_response-Answered id r) ts s h
create-Ensures e u chat ts (of_media k m) s ie h =
    transaction-Created e u chat media ie (λ id. insert_media_response id k m)
      (λ id. insert_media_response-Answered id k m) ts s h
create-Ensures e u chat ts (of_reaction r) s ie h =
    transaction-Created e u chat reaction ie (λ id. insert_reaction_response id r)
      (λ id. insert_reaction_response-Answered id r) ts s h

-- When `CreateTextFilter`, `CreateMediaFilter` or `CreateReactionFilter` returns no error, its
-- triggers were free in the chat before and are the chat's now, and no trigger of any chat is lost.
-- If no chat had one trigger text twice, filter ids were different and every trigger row belonged to
-- a filter, then it is so again. The database picks filter ids that are not in use.
pub create-Created :
    (e : Engine) (u : Unicode) (chat : ℕ) (ts : List Text) (c : Creation) (s t : Session)
    → IsEngine e
    → IsSound s.db
    → create e u chat ts c s ≡ (ok tt, t)
    → Created u chat ts s.db t.db
create-Created e u chat ts c s t ie h r =
    Ensures-ok (create e u chat ts c s) (λ _ t. Created u chat ts s.db t.db) tt t
      (create-Ensures e u chat ts c s ie h) r
