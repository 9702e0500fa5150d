-- ===== src/Bot/Listing.antt =====
-- internal/bot/handler.go: the command /filters.
pub mod Cut
use patrizio_bot.Prelude.{
  ℕ, zero, suc, ◌-◌, Bool, true, false, Option, none, some, List, [], ◌∷◌, ◌++◌, map, ltb, leb,
  if◌then◌else◌,
}
use patrizio_bot.Text.{Text, codes, join, rune_length, byte_length}
use patrizio_bot.Exec.{Outcome, ok, err}
use patrizio_bot.Sqlite.Repository.{RepoError}
use patrizio_bot.Sqlite.Repository.Lists.{
  FilterResponse, text_response, media_response, reaction_response, Filter, list_filters,
}
use patrizio_bot.Messenger.{IncomingMessage}
use patrizio_bot.Bot.{Env, Act, ◌>>=◌, on_session, send_error_message, send_confirmation}

-- A byte that belongs to no whole code point stands as U+FFFD.
abbrev pub broken : ℕ → Text
broken zero = []
broken (suc n) = 0xfffd ∷ broken n

-- s[:n], which counts bytes
unfoldable pub slice_bytes : ℕ → Text → Text
unfolding rune_length
slice_bytes n [] = []
slice_bytes n (c ∷ s) =
    let rest = slice_bytes (n - rune_length c) s in
    if leb (rune_length c) n then c ∷ rest else broken n

-- Truncate long responses
unfoldable pub truncate : Text → Text
unfolding slice_bytes byte_length
truncate s = if ltb 50 (byte_length s) then slice_bytes 47 s ++ codes "..." else s

-- Format response based on type
unfoldable pub response_description : FilterResponse → Text
unfolding truncate
response_description (text_response id s) = codes "→ " ++ truncate s
response_description (media_response id hash kind) = codes "→ [" ++ kind ++ codes " media]"
response_description (reaction_response id emoji) = codes "→ " ++ emoji

unfoldable pub filter_line : Filter → Text
unfolding response_description join
filter_line f =
    codes "• "
    ++ join (codes ", ") (map (λ t. t.trigger_text) f.triggers)
    ++ codes " "
    ++ response_description f.response
    ++ codes "\n"

unfoldable pub filter_lines : List Filter → Text
unfolding filter_line
filter_lines [] = []
filter_lines (f ∷ fs) = filter_line f ++ filter_lines fs

module _ (e : Env) (chat to : ℕ) where
  unfoldable pub listed : Outcome RepoError (List Filter) → Act
  unfolding filter_lines
  listed (err x) =
      send_error_message e chat to (codes "❌ Failed to list filters: " ++ e.show_repo x)
  listed (ok []) = send_confirmation e chat to (codes "No filters configured for this chat.")
  listed (ok (f ∷ fs)) =
      send_confirmation e chat to (codes "📋 Active filters:\n\n" ++ filter_lines (f ∷ fs))

  unfoldable pub handle_filters_command : Act
  unfolding filter_lines list_filters send_error_message send_confirmation
  handle_filters_command = do r ← on_session (list_filters e.engine chat); listed r
