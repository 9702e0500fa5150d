-- ===== src/Sqlite/Repository/Hashes.antt =====
-- The hash that `RemoveTrigger` returns is one of the media responses.
use patrizio_bot.Prelude.{
  ℕ, suc, zero, ◌≡◌, sym, ap, subst, ◌∙◌, Bool, true, false, Option, none, some, List, [], ◌∷◌,
  ◌==◌, if◌then◌else◌, find, count_if, All, Bool-cases, inl, inr,
}
use patrizio_bot.Text.{Text, text_eq}
use patrizio_bot.Trigger.{Unicode, normalize_trigger}
use patrizio_bot.Exec.{ok, pure}
use patrizio_bot.Exec.Ensures.{Ensures, Ensures-continue, Ensures-step, Ensures-ok}
use patrizio_bot.Sqlite.Db.{ResponseType, text, media, reaction, MediaRow, Db, Session}
use patrizio_bot.Sqlite.Queries.{
  delete_trigger_by_chat_and_text, count_triggers_by_filter_id, get_filter_by_id,
  get_media_response_by_filter_id, count_media_responses_by_hash, delete_filter,
}
use patrizio_bot.Sqlite.Statements.{
  Leaves, Deleted, select-Ensures, one_row-Ensures, delete_trigger-Ensures,
}
use patrizio_bot.Sqlite.Repository.{
  count_failed, get_filter_failed, get_response_failed, count_references_failed,
  delete_filter_failed, delete_error, last_media_hash, drop_if_unused, remove_trigger_body,
  remove_trigger,
}
use patrizio_bot.Sqlite.Repository.Transaction.{transaction-Ensures}
use patrizio_bot.Sqlite.Repository.Remove.{get_media-Ensures, count_media-Ensures}

module _ (P : Text → Type 0) where
  abbrev pub HashesAre : Db → Type 0
  HashesAre d = All (λ r. P r.media_hash) d.medias

  abbrev pub HashIs : Option Text → Type 0
  HashIs none = Unit
  HashIs (some hash) = P hash

  found_hash :
      (p : MediaRow → Bool) (rows : List MediaRow) (r : MediaRow)
      → All (λ r. P r.media_hash) rows
      → find p rows ≡ some r
      → P r.media_hash
  found_hash p [] r h e = cc
  found_hash p (x ∷ rows) r h e = elim (Bool-cases (p x)) [
    | inl y ↦ subst P (ap or_hash (rw y at e)) h.0
    | inr n ↦ found_hash p rows r h.1 (rw n at e)
  ]
    where
      or_hash : Option MediaRow → Text
      or_hash none = []
      or_hash (some r) = r.media_hash

  if_one : (b : Bool) (hash : Text) → P hash → HashIs (if b then some hash else none)
  if_one true hash h = h
  if_one false hash h = tt

  last_media_hash-HashIs :
      (kind : ResponseType) (id : ℕ) (s : Session)
      → HashesAre s.db
      → Ensures (last_media_hash kind id s) (λ h _. HashIs h)
  unfolding last_media_hash
  last_media_hash-HashIs text id s a = tt
  last_media_hash-HashIs reaction id s a = tt
  last_media_hash-HashIs media id s a =
      Ensures-step (λ r v. Leaves s v s.db × (find (λ r. r.filter_id == id) s.db.medias ≡ some r))
        (λ h _. HashIs h) get_response_failed (get_media_response_by_filter_id id) _ s
        (get_media-Ensures id s)
        λ r v read.
          Ensures-step
            (λ n w.
              Leaves v w v.db × (n ≡ count_if (λ x. text_eq x.media_hash r.media_hash) v.db.medias))
            (λ h _. HashIs h) count_references_failed (count_media_responses_by_hash r.media_hash) _
            v (count_media-Ensures r.media_hash v)
            λ n w counted.
              if_one (n == 1) r.media_hash
                (found_hash (λ r. r.filter_id == id) s.db.medias r a read.1)

  drop_if_unused-HashIs :
      (id count : ℕ) (s : Session)
      → HashesAre s.db
      → Ensures (drop_if_unused id count s) (λ h _. HashIs h)
  unfolding drop_if_unused
  drop_if_unused-HashIs id (suc count) s a = tt
  drop_if_unused-HashIs id zero s a =
      Ensures-step (λ f v. Leaves s v s.db × (find (λ f. f.id == id) s.db.filters ≡ some f))
        (λ h _. HashIs h) get_filter_failed (get_filter_by_id id) _ s
        (one_row-Ensures (λ d. find (λ f. f.id == id) d.filters) s)
        λ f v sv.
          Ensures-continue (last_media_hash f.response_type id v) _ (λ h _. HashIs h)
            (λ h _. HashIs h)
            (last_media_hash-HashIs f.response_type id v (subst HashesAre (sym sv.0.tables) a))
            λ h w vw.
              Ensures-step (λ _ _. Unit) (λ h _. HashIs h) delete_filter_failed (delete_filter id)
                (λ _. pure h) w (anything (delete_filter id w)) λ _ x wx. vw
    where
      anything :
          {E A : Type 0} (r : patrizio_bot.Exec.Outcome E A × Session) → Ensures r (λ _ _. Unit)
      anything (ok x, t) = tt
      anything (patrizio_bot.Exec.err x, t) = tt

  remove_trigger_body-HashIs :
      (u : Unicode) (chat : ℕ) (x : Text) (s : Session)
      → HashesAre s.db
      → Ensures (remove_trigger_body u chat x s) (λ h _. HashIs h)
  unfolding remove_trigger_body
  remove_trigger_body-HashIs u chat x s a =
      Ensures-step (Deleted chat (normalize_trigger u x) s) _ (delete_error x)
        (delete_trigger_by_chat_and_text chat (normalize_trigger u x)) _ s
        (delete_trigger-Ensures chat (normalize_trigger u x) s)
        λ id v z.
          Ensures-step
            (λ count w. Leaves v w v.db × (count ≡ count_if (λ t. t.filter_id == id) v.db.triggers))
            _ count_failed (count_triggers_by_filter_id id) _ v
            (select-Ensures (λ d. count_if (λ t. t.filter_id == id) d.triggers) v)
            λ count w vw.
              drop_if_unused-HashIs id count w
                (subst HashesAre (sym (vw.0.tables ∙ z.leaves.tables)) a)

  pub remove_trigger-HashIs :
      (u : Unicode) (chat : ℕ) (x : Text) (s t : Session) (h : Option Text)
      → HashesAre s.db
      → remove_trigger u chat x s ≡ (ok h, t)
      → HashIs h
  unfolding remove_trigger
  remove_trigger-HashIs u chat x s t h a r =
      Ensures-ok (remove_trigger u chat x s) (λ h _. HashIs h) h t
        (transaction-Ensures (remove_trigger_body u chat x) s (λ h _. HashIs h)
          λ b same keys. remove_trigger_body-HashIs u chat x b (subst HashesAre (sym same) a))
        r
