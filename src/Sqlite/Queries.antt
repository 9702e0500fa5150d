-- ===== src/Sqlite/Queries.antt =====
-- internal/database/queries: the statements on the filter tables, read from their SQL.
use patrizio_bot.Prelude.{
  ℕ, Bool, ◌&&◌, ◌||◌, not, Option, none, some, List, [], ◌∷◌, ◌++◌, map, ◌==◌, if◌then◌else◌, leb,
  keep, any, find, count_if,
}
use patrizio_bot.Text.{Text, text_eq, contains}
use patrizio_bot.Exec.{Outcome, ok, err, Exec}
use patrizio_bot.Sqlite.Db.{
  ResponseType, FilterRow, TriggerRow, TextRow, MediaRow, ReactionRow, Db, Engine, Session,
  SqlError, no_rows, constraint, statement, select, execute,
}

-- FROM filter_triggers ft JOIN filters f ON ft.filter_id = f.id WHERE f.chat_id = ?1
unfoldable pub in_chat : List FilterRow → ℕ → TriggerRow → Bool
in_chat fs chat t = any (λ f. f.id == t.filter_id && f.chat_id == chat) fs

-- … AND ft.trigger_text = ?2
unfoldable pub is_trigger : List FilterRow → ℕ → Text → TriggerRow → Bool
unfolding in_chat text_eq
is_trigger fs chat s t = in_chat fs chat t && text_eq t.trigger_text s

-- CheckDuplicateTriggerInChat
unfoldable pub check_duplicate_trigger_in_chat : ℕ → Text → Exec Session SqlError Bool
unfolding is_trigger statement
check_duplicate_trigger_in_chat chat s = select (λ d. any (is_trigger d.filters chat s) d.triggers)

-- InsertFilter
unfoldable pub insert_filter : Engine → ℕ → ResponseType → Exec Session SqlError ℕ
unfolding statement
insert_filter e chat kind = statement λ d.
    let id = e.row_id (map (λ f. f.id) d.filters) in
    (
      ok id,
      record d {
        filters =
            record { id = id; chat_id = chat; response_type = kind; created_at = e.now d }
            ∷ d.filters;
      },
    )

abbrev pub has_filter : Db → ℕ → Bool
has_filter d id = any (λ f. f.id == id) d.filters

-- InsertFilterTrigger: `UNIQUE(filter_id, trigger_text)`, and the reference to `filters`.
unfoldable pub insert_filter_trigger : Engine → ℕ → Text → Exec Session SqlError (Unit {0})
unfolding statement text_eq
insert_filter_trigger e filter_id s session =
    statement
      (λ d.
        if (session.foreign_keys && not (has_filter d filter_id))
          || any (λ t. t.filter_id == filter_id && text_eq t.trigger_text s) d.triggers
        then (err constraint, d)
        else (
          ok tt,
          record d {
            triggers =
                record {
                  id = e.row_id (map (λ t. t.id) d.triggers);
                  filter_id = filter_id;
                  trigger_text = s;
                }
                ∷ d.triggers;
          },
        ))
      session

-- InsertTextResponse, InsertMediaResponse, InsertReactionResponse: `filter_id` is the primary key.
unfoldable pub insert_text_response : ℕ → Text → Exec Session SqlError (Unit {0})
unfolding statement
insert_text_response filter_id s session =
    statement
      (λ d.
        if (session.foreign_keys && not (has_filter d filter_id))
          || any (λ r. r.filter_id == filter_id) d.texts
        then (err constraint, d)
        else (
          ok tt,
          record d { texts = record { filter_id = filter_id; response_text = s } ∷ d.texts },
        ))
      session

unfoldable pub insert_media_response : ℕ → Text → Text → Exec Session SqlError (Unit {0})
unfolding statement
insert_media_response filter_id hash kind session =
    statement
      (λ d.
        if (session.foreign_keys && not (has_filter d filter_id))
          || any (λ r. r.filter_id == filter_id) d.medias
        then (err constraint, d)
        else (
          ok tt,
          record d {
            medias =
                record { filter_id = filter_id; media_hash = hash; media_type = kind } ∷ d.medias;
          },
        ))
      session

unfoldable pub insert_reaction_response : ℕ → Text → Exec Session SqlError (Unit {0})
unfolding statement
insert_reaction_response filter_id emoji session =
    statement
      (λ d.
        if (session.foreign_keys && not (has_filter d filter_id))
          || any (λ r. r.filter_id == filter_id) d.reactions
        then (err constraint, d)
        else (
          ok tt,
          record d { reactions = record { filter_id = filter_id; reaction = emoji } ∷ d.reactions },
        ))
      session

-- the first row that `LIMIT 1` leaves, taken out
abbrev pub take_first : (TriggerRow → Bool) → List TriggerRow → Option (ℕ × List TriggerRow)
take_first p [] = none
take_first p (t ∷ ts) =
    let rest = take_first p ts in
    if p t
    then some (t.filter_id, ts)
    else elim rest [ none ↦ none | some (i, us) ↦ some (i, t ∷ us) ]

abbrev pub deleted : Db → Option (ℕ × List TriggerRow) → Outcome SqlError ℕ × Db
deleted d none = (err no_rows, d)
deleted d (some (filter_id, ts)) = (ok filter_id, record d { triggers = ts })

-- DeleteTriggerByChatAndText
unfoldable pub delete_trigger_by_chat_and_text : ℕ → Text → Exec Session SqlError ℕ
unfolding is_trigger statement
delete_trigger_by_chat_and_text chat s =
    statement (λ d. deleted d (take_first (is_trigger d.filters chat s) d.triggers))

-- CountTriggersByFilterID
unfoldable pub count_triggers_by_filter_id : ℕ → Exec Session SqlError ℕ
unfolding statement
count_triggers_by_filter_id filter_id =
    select (λ d. count_if (λ t. t.filter_id == filter_id) d.triggers)

-- QueryRowContext and Scan: no row is an error
abbrev pub one_row : {A : Type 0} → Option A → Db → Outcome SqlError A × Db
one_row none d = (err no_rows, d)
one_row (some r) d = (ok r, d)

-- GetFilterByID
unfoldable pub get_filter_by_id : ℕ → Exec Session SqlError FilterRow
unfolding statement
get_filter_by_id id = statement (λ d. one_row (find (λ f. f.id == id) d.filters) d)

-- GetMediaResponseByFilterID, GetTextResponseByFilterID, GetReactionResponseByFilterID
unfoldable pub get_media_response_by_filter_id : ℕ → Exec Session SqlError MediaRow
unfolding statement
get_media_response_by_filter_id id =
    statement (λ d. one_row (find (λ r. r.filter_id == id) d.medias) d)

unfoldable pub get_text_response_by_filter_id : ℕ → Exec Session SqlError TextRow
unfolding statement
get_text_response_by_filter_id id =
    statement (λ d. one_row (find (λ r. r.filter_id == id) d.texts) d)

unfoldable pub get_reaction_response_by_filter_id : ℕ → Exec Session SqlError ReactionRow
unfolding statement
get_reaction_response_by_filter_id id =
    statement (λ d. one_row (find (λ r. r.filter_id == id) d.reactions) d)

-- CountMediaResponsesByHash
unfoldable pub count_media_responses_by_hash : Text → Exec Session SqlError ℕ
unfolding statement text_eq
count_media_responses_by_hash hash =
    select (λ d. count_if (λ r. text_eq r.media_hash hash) d.medias)

-- `ON DELETE CASCADE`, which SQLite follows only where foreign keys are on.
unfoldable pub without_filter : Bool → ℕ → Db → Db
without_filter cascade id d =
    if cascade
    then record {
      filters = keep (λ f. not (f.id == id)) d.filters;
      triggers = keep (λ t. not (t.filter_id == id)) d.triggers;
      texts = keep (λ r. not (r.filter_id == id)) d.texts;
      medias = keep (λ r. not (r.filter_id == id)) d.medias;
      reactions = keep (λ r. not (r.filter_id == id)) d.reactions;
    }
    else record d { filters = keep (λ f. not (f.id == id)) d.filters }

-- DeleteFilter
unfoldable pub delete_filter : ℕ → Exec Session SqlError (Unit {0})
unfolding without_filter statement
delete_filter id session = execute (without_filter session.foreign_keys id) session

-- ListFiltersByChatID
unfoldable pub list_filters_by_chat_id : Engine → ℕ → Exec Session SqlError (List FilterRow)
unfolding statement
list_filters_by_chat_id e chat =
    select (λ d. e.newest_first (keep (λ f. f.chat_id == chat) d.filters))

-- SELECT DISTINCT
unfoldable pub distinct : List Text → List Text
unfolding text_eq
distinct [] = []
distinct (s ∷ ss) = let rest = distinct ss in if any (text_eq s) ss then rest else s ∷ rest

abbrev pub chat_medias : ℕ → Db → List MediaRow
chat_medias chat d =
    keep (λ r. any (λ f. f.id == r.filter_id && f.chat_id == chat) d.filters) d.medias

-- GetMediaHashesByChatID
unfoldable pub get_media_hashes_by_chat_id : ℕ → Exec Session SqlError (List Text)
unfolding distinct statement
get_media_hashes_by_chat_id chat =
    select (λ d. distinct (map (λ r. r.media_hash) (chat_medias chat d)))

insert_by_id : TriggerRow → List TriggerRow → List TriggerRow
insert_by_id t [] = t ∷ []
insert_by_id t (x ∷ xs) =
    let rest = insert_by_id t xs in if leb t.id x.id then t ∷ x ∷ xs else x ∷ rest

-- ORDER BY id
unfoldable pub order_by_id : List TriggerRow → List TriggerRow
unfolding insert_by_id
order_by_id [] = []
order_by_id (t ∷ ts) = insert_by_id t (order_by_id ts)

-- GetTriggersByFilterID
unfoldable pub get_triggers_by_filter_id : ℕ → Exec Session SqlError (List TriggerRow)
unfolding order_by_id statement
get_triggers_by_filter_id id = select (λ d. order_by_id (keep (λ t. t.filter_id == id) d.triggers))

-- A row of FindMatchingFilters: the columns of the three left joins, "" for one that is not there.
pub record MatchRow : Type 0 where
  pub id : ℕ
  pub response_type : ResponseType
  pub response_text : Text
  pub media_hash : Text
  pub media_type : Text
  pub reaction : Text

-- INSTR(' ' || ?2 || ' ', ' ' || t.trigger_text || ' ') > 0
unfoldable pub trigger_matches : Text → Text → Bool
unfolding contains
trigger_matches message trigger =
    contains (b' ' ∷ (message ++ b' ' ∷ [])) (b' ' ∷ (trigger ++ b' ' ∷ []))

abbrev pub coalesce : {A : Type 0} → (A → Text) → Option A → Text
coalesce f none = []
coalesce f (some r) = f r

abbrev pub match_row : Db → FilterRow → MatchRow
match_row d f = record {
  id = f.id;
  response_type = f.response_type;
  response_text = coalesce (λ r. r.response_text) (find (λ r. r.filter_id == f.id) d.texts);
  media_hash = coalesce (λ r. r.media_hash) (find (λ r. r.filter_id == f.id) d.medias);
  media_type = coalesce (λ r. r.media_type) (find (λ r. r.filter_id == f.id) d.medias);
  reaction = coalesce (λ r. r.reaction) (find (λ r. r.filter_id == f.id) d.reactions);
}

-- the filters joined to one matching trigger
abbrev pub joined : ℕ → Text → List FilterRow → TriggerRow → List FilterRow
joined chat message fs t =
    if trigger_matches message t.trigger_text
    then keep (λ f. t.filter_id == f.id && f.chat_id == chat) fs
    else []

unfoldable pub matched : ℕ → Text → List FilterRow → List TriggerRow → List FilterRow
unfolding trigger_matches
matched chat message fs [] = []
matched chat message fs (t ∷ ts) = joined chat message fs t ++ matched chat message fs ts

-- FindMatchingFilters
unfoldable pub find_matching_filters : ℕ → Text → Exec Session SqlError (List MatchRow)
unfolding matched statement
find_matching_filters chat message =
    select (λ d. map (match_row d) (matched chat message d.filters d.triggers))
