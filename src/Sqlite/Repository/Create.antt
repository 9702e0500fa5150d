-- ===== src/Sqlite/Repository/Create.antt =====
-- The two loops of the creation of a filter: the check for duplicates, and the insertions.
use mathlib.Core.Path.{subst}
use patrizio_bot.Prelude.{
  ℕ, ◌≡◌, refl, sym, ◌∙◌, Bool, true, false, ◌&&◌, not, List, [], ◌∷◌, ◌==◌, if◌then◌else◌, any,
  arith, All, ==_iff,
}
use patrizio_bot.Text.{Text}
use patrizio_bot.Text.Laws.{text_eq_refl}
use patrizio_bot.Trigger.{Unicode, validate_trigger, normalize_trigger}
use patrizio_bot.Exec.{raise}
use patrizio_bot.Exec.Ensures.{Ensures, Ensures-step, Ensures-imp}
use patrizio_bot.Sqlite.Db.{TriggerRow, Db, Engine, Session}
use patrizio_bot.Sqlite.Queries.{
  in_chat, is_trigger, has_filter, check_duplicate_trigger_in_chat, insert_filter_trigger,
}
use patrizio_bot.Sqlite.Statements.{
  Leaves, with_trigger, same_trigger, Looked, TriggerAdded, check_duplicate-Ensures,
  insert_filter_trigger-Ensures,
}
use patrizio_bot.Sqlite.Repository.{
  trigger_exists, check_failed, insert_trigger_failed, check_triggers, insert_triggers,
}
use patrizio_bot.Sqlite.Repository.Sound.{or_right, new_row, IsSound, with_trigger-IsSound}

-- Does chat `chat` have the trigger `n`?
abbrev pub has_trigger : Db → ℕ → Text → Bool
has_trigger d chat n = any (is_trigger d.filters chat n) d.triggers

module _ (u : Unicode) (chat : ℕ) where
  abbrev pub Checked : Db → Text → Type 0
  Checked d x = has_trigger d chat (normalize_trigger u x) ≡ false

  -- One round of the loop behind the validation.
  check_round :
      (x : Text) (ts : List Text) (s : Session) (dup : Bool) (t : Session)
      → Leaves s t s.db × (dup ≡ has_trigger s.db chat (normalize_trigger u x))
      → Ensures (check_triggers u chat ts t) (λ _ r. Leaves t r t.db × All (Checked t.db) ts)
      → Ensures
          ((if dup then raise (trigger_exists x) else check_triggers u chat ts) t)
          (λ _ r. Leaves s r s.db × All (Checked s.db) (x ∷ ts))
  check_round x ts s true t q ih = tt
  check_round x ts s false t q ih = Ensures-imp (check_triggers u chat ts t) _ _ ih λ _ r h. (
    record { tables = h.0.tables ∙ q.0.tables; same_keys = h.0.same_keys ∙ q.0.same_keys },
    (sym q.1, subst (λ d. All (Checked d) ts) q.0.tables h.1),
  )

  pub check_triggers-Ensures :
      (ts : List Text) (s : Session)
      → Ensures (check_triggers u chat ts s) (λ _ t. Leaves s t s.db × All (Checked s.db) ts)
  unfolding check_triggers
  check_triggers-Ensures [] s = (record { tables = refl; same_keys = refl }, tt)
  check_triggers-Ensures (x ∷ ts) s =
      validated (λ t. check_triggers-Ensures ts t) (validate_trigger u (normalize_trigger u x)) refl
    where
      validated :
          ((t : Session)
            → Ensures (check_triggers u chat ts t) (λ _ r. Leaves t r t.db × All (Checked t.db) ts))
          → (b : Bool) → validate_trigger u (normalize_trigger u x) ≡ b
          → Ensures
              (check_triggers u chat (x ∷ ts) s)
              (λ _ t. Leaves s t s.db × All (Checked s.db) (x ∷ ts))
      validated ih false e = rw e tt
      validated ih true e =
          rw (e, check_triggers)
            (Ensures-step (Looked chat (normalize_trigger u x) s)
              (λ _ r. Leaves s r s.db × All (Checked s.db) (x ∷ ts)) check_failed
              (check_duplicate_trigger_in_chat chat (normalize_trigger u x))
              (λ dup. if dup then raise (trigger_exists x) else check_triggers u chat ts) s
              (check_duplicate-Ensures chat (normalize_trigger u x) s)
              (λ dup t q. check_round x ts s dup t q (ih t)))

-- What stands between the insertion of filter `id` and that of its triggers: none of the triggers
-- to come is in the chat under another filter.
module _ (u : Unicode) (chat id : ℕ) where
  abbrev pub Elsewhere : Db → Text → Type 0
  Elsewhere d n =
      any (λ t. not (t.filter_id == id) && is_trigger d.filters chat n t) d.triggers ≡ false

  pub record Ready (ts : List Text) (d : Db) : Type 0 where
    pub own : has_filter d id ≡ true
    pub chats : (c : ℕ) (t : TriggerRow) → t.filter_id ≡ id → in_chat d.filters c t ≡ (chat == c)
    pub elsewhere : All (λ x. Elsewhere d (normalize_trigger u x)) ts
    pub sound : IsSound d

  -- A trigger of the chat is one of another filter, or one of this.
  cover :
      (d : Db) (n : Text) (rows : List TriggerRow)
      → any (λ t. not (t.filter_id == id) && is_trigger d.filters chat n t) rows ≡ false
      → any (same_trigger id n) rows ≡ false
      → any (is_trigger d.filters chat n) rows ≡ false
  unfolding is_trigger
  cover d n [] h k = refl
  cover d n (t ∷ rows) h k = ground (arith, cover d n rows)

  still-Elsewhere :
      (e : Engine) (n : Text) (d : Db) (ts : List Text)
      → All (λ x. Elsewhere d (normalize_trigger u x)) ts
      → All (λ x. Elsewhere (with_trigger e id n d) (normalize_trigger u x)) ts
  still-Elsewhere e n d [] h = tt
  still-Elsewhere e n d (x ∷ ts) h = (rw ((==_iff id id).1 refl) h.0, still-Elsewhere e n d ts h.1)

  Ready-with_trigger :
      (e : Engine) (x : Text) (ts : List Text) (d : Db)
      → Ready (x ∷ ts) d
      → any (same_trigger id (normalize_trigger u x)) d.triggers ≡ false
      → Ready ts (with_trigger e id (normalize_trigger u x) d)
  Ready-with_trigger e x ts d r k = record {
    own = r.own;
    chats = r.chats;
    elsewhere = still-Elsewhere e (normalize_trigger u x) d ts r.elsewhere.1;
    sound =
        with_trigger-IsSound e chat id (normalize_trigger u x) d r.own r.chats
          (cover d (normalize_trigger u x) d.triggers r.elsewhere.0 k) r.sound;
  }

  -- The triggers that a chat has, it keeps.
  abbrev pub Grows : Db → Db → Type 0
  Grows d d' = (c : ℕ) (n : Text) → has_trigger d c n ≡ true → has_trigger d' c n ≡ true

  pub record Inserted (ts : List Text) (s t : Session) : Type 0 where
    pub sound : IsSound t.db
    pub grows : Grows s.db t.db
    pub stored : All (λ x. has_trigger t.db chat (normalize_trigger u x) ≡ true) ts
    pub same_keys : t.foreign_keys ≡ s.foreign_keys

  -- One more trigger in front of those that a later part of the loop inserts.
  Inserted-cons :
      (e : Engine) (x : Text) (ts : List Text) (s t v : Session)
      → Ready (x ∷ ts) s.db
      → Leaves s t (with_trigger e id (normalize_trigger u x) s.db)
      → Inserted ts t v
      → Inserted (x ∷ ts) s v
  unfolding is_trigger
  Inserted-cons e x ts s t v r l i = record {
    sound = i.sound;
    grows = λ c n h. i.grows c n (rw l.tables (or_right _ _ h));
    stored = (
      i.grows chat (normalize_trigger u x) (
          rw l.tables (
            rw (r.chats chat (new_row e id (normalize_trigger u x) s.db) refl)
              (rw ((==_iff chat chat).1 refl) (rw text_eq_refl)))),
      i.stored,
    );
    same_keys = i.same_keys ∙ l.same_keys;
  }

  pub insert_triggers-Ensures :
      (e : Engine) (ts : List Text) (s : Session)
      → Ready ts s.db
      → Ensures (insert_triggers e u id ts s) (λ _ t. Inserted ts s t)
  unfolding insert_triggers
  insert_triggers-Ensures e [] s r = record {
    sound = r.sound;
    grows = λ c n h. h;
    stored = tt;
    same_keys = refl;
  }
  insert_triggers-Ensures e (x ∷ ts) s r =
      let n = normalize_trigger u x in
      Ensures-step (TriggerAdded e id n s) (λ _ t. Inserted (x ∷ ts) s t) insert_trigger_failed
        (insert_filter_trigger e id n) (λ _. insert_triggers e u id ts) s
        (insert_filter_trigger-Ensures e id n s)
        (λ _ t q.
          Ensures-imp (insert_triggers e u id ts t) (λ _ v. Inserted ts t v) _
            (insert_triggers-Ensures e ts t
              (subst (Ready ts) (sym q.0.tables) (Ready-with_trigger e x ts s.db r q.1)))
            (λ _ v i. Inserted-cons e x ts s t v r q.0 i))
