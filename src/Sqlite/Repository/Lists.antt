-- ===== src/Sqlite/Repository/Lists.antt =====
-- internal/adapter/sqlite/repository.go: `ListFilters` and `FindMatchingFilters`, which only read.
use patrizio_bot.Prelude.{ℕ, List, [], ◌∷◌, map}
use patrizio_bot.Text.{Text}
use patrizio_bot.Exec.{pure, ◌>>=◌, or_fail}
use patrizio_bot.Sqlite.Db.{ResponseType, text, media, reaction, FilterRow, TriggerRow, Engine}
use patrizio_bot.Sqlite.Queries.{
  get_media_response_by_filter_id, get_text_response_by_filter_id,
  get_reaction_response_by_filter_id, list_filters_by_chat_id, get_triggers_by_filter_id, MatchRow,
  find_matching_filters,
}
use patrizio_bot.Sqlite.Repository.{
  get_response_failed, list_failed, get_triggers_failed, find_failed, Repo,
}

-- domain.FilterResponse, with the fields of its response type
pub data FilterResponse : Type 0 where
  text_response : ℕ → Text → FilterResponse
  media_response : ℕ → Text → Text → FilterResponse
  reaction_response : ℕ → Text → FilterResponse

-- domain.Filter
pub record Filter : Type 0 where
  pub row : FilterRow
  pub triggers : List TriggerRow
  pub response : FilterResponse

-- Build response based on type
unfoldable pub response_of : ResponseType → ℕ → Repo FilterResponse
unfolding get_text_response_by_filter_id get_media_response_by_filter_id
    get_reaction_response_by_filter_id
response_of text id = do
  r ← or_fail get_response_failed (get_text_response_by_filter_id id)
  pure (text_response id r.response_text)
response_of media id = do
  r ← or_fail get_response_failed (get_media_response_by_filter_id id)
  pure (media_response id r.media_hash r.media_type)
response_of reaction id = do
  r ← or_fail get_response_failed (get_reaction_response_by_filter_id id)
  pure (reaction_response id r.reaction)

unfoldable pub describe_filters : List FilterRow → Repo (List Filter)
unfolding response_of get_triggers_by_filter_id
describe_filters [] = pure []
describe_filters (f ∷ fs) = do
  triggers ← or_fail get_triggers_failed (get_triggers_by_filter_id f.id)
  response ← response_of f.response_type f.id
  rest ← describe_filters fs
  pure (record { row = f; triggers = triggers; response = response } ∷ rest)

unfoldable pub list_filters : Engine → ℕ → Repo (List Filter)
unfolding describe_filters list_filters_by_chat_id
list_filters e chat = do
  filters ← or_fail list_failed (list_filters_by_chat_id e chat)
  describe_filters filters

abbrev pub row_response : ResponseType → MatchRow → FilterResponse
row_response text r = text_response r.id r.response_text
row_response media r = media_response r.id r.media_hash r.media_type
row_response reaction r = reaction_response r.id r.reaction

unfoldable pub find_filters : ℕ → Text → Repo (List FilterResponse)
unfolding find_matching_filters
find_filters chat message = do
  rows ← or_fail find_failed (find_matching_filters chat message)
  pure (map (λ r. row_response r.response_type r) rows)
