-- ===== src/Sqlite/Repository.antt =====
-- internal/adapter/sqlite/repository.go: the operations on filters, each in one transaction.
pub mod Atomic
pub mod Sound
pub mod Transaction
pub mod Create
pub mod NewFilter
pub mod Taken
pub mod Gone
pub mod Removed
pub mod Remove
pub mod Hashes
pub mod Lists
pub mod Found
use patrizio_bot.Prelude.{
  ℕ, zero, suc, Bool, true, false, ◌&&◌, ◌||◌, not, Option, none, some, List, [], ◌∷◌, ◌++◌, map,
  ◌==◌, if◌then◌else◌,
}
use patrizio_bot.Text.{Text}
use patrizio_bot.Trigger.{Unicode, validate_trigger, normalize_trigger}
use patrizio_bot.Exec.{Outcome, ok, err, Exec, pure, raise, ◌>>=◌, ◌>>◌, or_fail, continue}
use patrizio_bot.Sqlite.Db.{
  ResponseType, text, media, reaction, FilterRow, TriggerRow, TextRow, MediaRow, ReactionRow, Db,
  Engine, Session, SqlError, no_rows, fault, constraint, select,
}
use patrizio_bot.Sqlite.Queries.{
  check_duplicate_trigger_in_chat, insert_filter, insert_filter_trigger, insert_text_response,
  insert_media_response, insert_reaction_response, delete_trigger_by_chat_and_text,
  count_triggers_by_filter_id, get_filter_by_id, get_media_response_by_filter_id,
  get_text_response_by_filter_id, get_reaction_response_by_filter_id, count_media_responses_by_hash,
  delete_filter, list_filters_by_chat_id, get_media_hashes_by_chat_id, get_triggers_by_filter_id,
  MatchRow, find_matching_filters,
}

-- One constructor for each error that the methods return.
pub data RepoError : Type 0 where
  begin_failed commit_failed : SqlError → RepoError
  invalid_trigger : RepoError
  check_failed insert_filter_failed insert_trigger_failed insert_response_failed :
      SqlError → RepoError
  trigger_exists trigger_not_found : Text → RepoError
  delete_trigger_failed count_failed get_filter_failed get_response_failed : SqlError → RepoError
  count_references_failed delete_filter_failed get_hashes_failed list_failed : SqlError → RepoError
  get_triggers_failed find_failed : SqlError → RepoError

abbrev pub Repo : Type 0 → Type 0
Repo A = Exec Session RepoError A

module _ {A : Type 0} where
  -- tx.Commit(), which leaves nothing behind when it fails
  abbrev pub commit :
      Db → A → Outcome RepoError (Unit {0}) × Session → Outcome RepoError A × Session
  commit before a (ok _, s) = (ok a, s)
  commit before a (err e, s) = (err e, record s { db = before })

  -- `defer tx.Rollback()`
  abbrev pub end_transaction : Db → Outcome RepoError A × Session → Outcome RepoError A × Session
  end_transaction before (ok a, s) = commit before a (or_fail commit_failed (select (λ d. tt)) s)
  end_transaction before (err e, s) = (err e, record s { db = before })

  -- r.db.BeginTx, then the statements on `qtx`
  unfoldable pub transaction : Repo A → Repo A
  transaction body = do or_fail begin_failed (select (λ d. tt)); λ s. end_transaction s.db (body s)

-- Check for duplicate triggers
unfoldable pub check_triggers : Unicode → ℕ → List Text → Repo (Unit {0})
unfolding normalize_trigger validate_trigger check_duplicate_trigger_in_chat
check_triggers u chat [] = pure tt
check_triggers u chat (trigger ∷ rest) =
    let normalized = normalize_trigger u trigger in
    if not (validate_trigger u normalized) then raise invalid_trigger else do
      has_dup ← or_fail check_failed (check_duplicate_trigger_in_chat chat normalized)
      if has_dup then raise (trigger_exists trigger) else check_triggers u chat rest

-- Insert triggers
unfoldable pub insert_triggers : Engine → Unicode → ℕ → List Text → Repo (Unit {0})
unfolding normalize_trigger insert_filter_trigger
insert_triggers e u filter_id [] = pure tt
insert_triggers e u filter_id (trigger ∷ rest) = do
  or_fail insert_trigger_failed (insert_filter_trigger e filter_id (normalize_trigger u trigger))
  insert_triggers e u filter_id rest

-- The part that the three `Create…Filter` methods share, with the insertion of the response.
unfoldable pub create_filter :
    Engine
    → Unicode
    → ℕ
    → List Text
    → ResponseType
    → (ℕ → Exec Session SqlError (Unit {0}))
    → Repo (Unit {0})
unfolding check_triggers insert_triggers insert_filter
create_filter e u chat triggers kind insert_response = do
  check_triggers u chat triggers
  filter_id ← or_fail insert_filter_failed (insert_filter e chat kind)
  insert_triggers e u filter_id triggers
  or_fail insert_response_failed (insert_response filter_id)

unfoldable pub create_text_filter : Engine → Unicode → ℕ → List Text → Text → Repo (Unit {0})
unfolding create_filter transaction insert_text_response
create_text_filter e u chat triggers response =
    transaction (create_filter e u chat triggers text (λ id. insert_text_response id response))

unfoldable pub create_media_filter :
    Engine → Unicode → ℕ → List Text → Text → Text → Repo (Unit {0})
unfolding create_filter transaction insert_media_response
create_media_filter e u chat triggers hash kind =
    transaction (create_filter e u chat triggers media (λ id. insert_media_response id hash kind))

unfoldable pub create_reaction_filter : Engine → Unicode → ℕ → List Text → Text → Repo (Unit {0})
unfolding create_filter transaction insert_reaction_response
create_reaction_filter e u chat triggers emoji =
    transaction (create_filter e u chat triggers reaction (λ id. insert_reaction_response id emoji))

delete_error : Text → SqlError → RepoError
delete_error trigger no_rows = trigger_not_found trigger
delete_error trigger fault = delete_trigger_failed fault
delete_error trigger constraint = delete_trigger_failed constraint

-- The hash of a media filter that is about to go, if no other filter refers to it.
last_media_hash : ResponseType → ℕ → Repo (Option Text)
last_media_hash media filter_id = do
  response ← or_fail get_response_failed (get_media_response_by_filter_id filter_id)
  references ← or_fail count_references_failed (count_media_responses_by_hash response.media_hash)
  pure (if references == 1 then some response.media_hash else none)
last_media_hash text filter_id = pure none
last_media_hash reaction filter_id = pure none

-- Behind the count of the triggers that remain: without any, the filter goes.
drop_if_unused : ℕ → ℕ → Repo (Option Text)
unfolding last_media_hash get_filter_by_id get_media_response_by_filter_id
    count_media_responses_by_hash delete_filter
drop_if_unused filter_id (suc n) = pure none
drop_if_unused filter_id zero = do
  filter ← or_fail get_filter_failed (get_filter_by_id filter_id)
  media_hash ← last_media_hash filter.response_type filter_id
  or_fail delete_filter_failed (delete_filter filter_id)
  pure media_hash

unfoldable pub remove_trigger_body : Unicode → ℕ → Text → Repo (Option Text)
unfolding delete_error drop_if_unused normalize_trigger delete_trigger_by_chat_and_text
    count_triggers_by_filter_id
remove_trigger_body u chat trigger = do
  filter_id ←
      or_fail (delete_error trigger)
        (delete_trigger_by_chat_and_text chat (normalize_trigger u trigger))
  count ← or_fail count_failed (count_triggers_by_filter_id filter_id)
  drop_if_unused filter_id count

unfoldable pub remove_trigger : Unicode → ℕ → Text → Repo (Option Text)
unfolding remove_trigger_body transaction
remove_trigger u chat trigger = transaction (remove_trigger_body u chat trigger)

unfoldable pub delete_filters : List FilterRow → Repo (Unit {0})
unfolding delete_filter
delete_filters [] = pure tt
delete_filters (f ∷ fs) = do or_fail delete_filter_failed (delete_filter f.id); delete_filters fs

-- The hashes that no response refers to any more.
unfoldable pub unreferenced : List Text → Repo (List Text)
unfolding count_media_responses_by_hash
unreferenced [] = pure []
unreferenced (hash ∷ hashes) = do
  references ← or_fail count_references_failed (count_media_responses_by_hash hash)
  rest ← unreferenced hashes
  pure (if references == 0 then hash ∷ rest else rest)

unfoldable pub remove_all_body : Engine → ℕ → Repo (List Text)
unfolding delete_filters unreferenced get_media_hashes_by_chat_id list_filters_by_chat_id
remove_all_body e chat = do
  hashes ← or_fail get_hashes_failed (get_media_hashes_by_chat_id chat)
  filters ← or_fail list_failed (list_filters_by_chat_id e chat)
  delete_filters filters
  unreferenced hashes

unfoldable pub remove_all_filters : Engine → ℕ → Repo (List Text)
unfolding remove_all_body transaction
remove_all_filters e chat = transaction (remove_all_body e chat)
