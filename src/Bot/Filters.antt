-- ===== src/Bot/Filters.antt =====
-- internal/bot/handler.go: the commands /filter and /stop, /stopall, /filters in Bot/Listing.
pub mod Answered
pub mod Stopped
pub mod Lost
pub mod Race
pub mod Backed
use patrizio_bot.Prelude.{
  ℕ, Bool, true, false, ◌&&◌, ◌||◌, not, Option, none, some, List, [], ◌∷◌, ◌++◌, map, ◌==◌,
  if◌then◌else◌,
}
use patrizio_bot.Text.{Text, codes, is_empty, join}
use patrizio_bot.Trigger.{validate_trigger, normalize_trigger}
use patrizio_bot.Command.{
  Parsed, ParseError, FilterCommand, Response, text, media, reaction, parse_filter_command,
  parse_stop_command,
}
use patrizio_bot.Command
use patrizio_bot.Exec.{Outcome, ok, err}
use patrizio_bot.Sqlite.Repository.{
  RepoError, create_text_filter, create_media_filter, create_reaction_filter, remove_trigger,
  remove_all_filters,
}
use patrizio_bot.Messenger.{
  IncomingMessage, DownloadState, download_done, download_available, download_other,
}
use patrizio_bot.Media.{save, delete}
use patrizio_bot.Bot.{
  Env, Bot, Do, Act, give, ◌>>=◌, ◌>>◌, ask, on_session, on_files, run_elsewhere,
  send_error_message, send_confirmation, fetch,
}

module _ (e : Env) (chat to : ℕ) where
  -- sendErrorMessage with the answer that goes with it
  abbrev pub fail : {A : Type 0} → A → Text → Do A
  fail a message = do send_error_message e chat to message; give a

  -- `%v` of an error that comes from outside
  abbrev pub fail_call : {A : Type 0} → A → Text → Do A
  fail_call a prefix b = fail a (prefix ++ e.show_call b.clock) b

  -- Validate all triggers
  unfoldable pub validate_triggers : List Text → Do Bool
  unfolding validate_trigger send_error_message
  validate_triggers [] = give true
  validate_triggers (t ∷ ts) =
      let rest = validate_triggers ts in
      if validate_trigger e.unicode t
      then rest
      else fail false (codes "❌ Invalid trigger '" ++ t ++ codes "': " ++ e.show_trigger)

  unfoldable pub validate_and_normalize_triggers : List Text → Do (Option (List Text))
  unfolding validate_triggers normalize_trigger
  validate_and_normalize_triggers triggers = do
    valid ← validate_triggers triggers
    give (if valid then some (map (normalize_trigger e.unicode) triggers) else none)

  -- The answer to a creation.
  abbrev pub report : Text → Text → Outcome RepoError (Unit {0}) → Act
  report failed created (ok _) = send_confirmation e chat to created
  report failed created (err x) = send_error_message e chat to (failed ++ e.show_repo x)

  abbrev pub trigger_list : List Text → Text
  trigger_list triggers = join (codes ", ") triggers

  unfoldable pub handle_text_filter_creation : List Text → Text → List Text → Bool → Act
  unfolding create_text_filter send_error_message send_confirmation join
  handle_text_filter_creation triggers response normalized true = send_error_message e chat to (
      codes
        "❌ You're replying to a media message. Did you mean to create a media filter? Remove the reply or use the command without text if you want to create a media filter.")
  handle_text_filter_creation triggers response normalized false = do
    r ← on_session (create_text_filter e.engine e.unicode chat normalized response)
    report (codes "❌ Failed to create filter: ")
        (codes "✅ Filter created! Triggers: " ++ trigger_list triggers) r

  unfoldable pub handle_reaction_filter_creation : List Text → Text → List Text → Act
  unfolding create_reaction_filter send_error_message send_confirmation join
  handle_reaction_filter_creation triggers emoji normalized = do
    r ← on_session (create_reaction_filter e.engine e.unicode chat normalized emoji)
    report (codes "❌ Failed to create reaction filter: ")
        (codes "✅ Reaction filter created! Triggers: "
          ++ trigger_list triggers
          ++ codes " → "
          ++ emoji)
        r

  abbrev pub incomplete : Do (Option IncomingMessage)
  incomplete = fail none (codes "❌ Media download incomplete. Please try again in a moment.")

  -- Re-fetch the message after download
  abbrev pub complete_only : DownloadState → IncomingMessage → Do (Option IncomingMessage)
  complete_only download_done m = give (some m)
  complete_only download_available m = incomplete
  complete_only (download_other s) m = incomplete

  abbrev pub refetched : Option IncomingMessage → Do (Option IncomingMessage)
  refetched none = incomplete
  refetched (some m) = complete_only m.download_state m

  abbrev pub downloaded : ℕ → Bool → Do (Option IncomingMessage)
  downloaded id false = fail_call none (codes "❌ Failed to download media: ")
  downloaded id true = do m ← fetch e id; refetched m

  abbrev pub by_state : DownloadState → IncomingMessage → ℕ → Do (Option IncomingMessage)
  by_state download_done m id = give (some m)
  by_state (download_other s) m id = fail none (codes "❌ Media is not available for download.")
  by_state download_available m id = do
    done ← ask (λ now. e.rpc.download now id)
    downloaded id done

  unfoldable pub download_media_if_needed : IncomingMessage → ℕ → Do (Option IncomingMessage)
  unfolding send_error_message patrizio_bot.Messenger.fetch_message
  download_media_if_needed m id = by_state m.download_state m id

  abbrev pub saved : Text → Bool → Do (Option Text)
  saved hash true = give (some hash)
  saved hash false = fail_call none (codes "❌ Failed to save media file: ")

  abbrev pub was_read : Text → Option Text → Do (Option Text)
  was_read path none = fail_call none (codes "❌ Failed to read media file: ")
  was_read path (some held) =
      let hash = e.sha512_hex held ++ e.extension path in
      do
        done ←
            on_files (λ works. save e.partly_written e.settings.media_path works hash held)
              e.disk_works
        saved hash done

  unfoldable pub process_media_file : Text → Do (Option Text)
  unfolding send_error_message patrizio_bot.Media.put
  process_media_file [] = fail none (codes "❌ No file path found in media message.")
  process_media_file (c ∷ path) = do
    held ← ask (λ now. e.os_read_file now (c ∷ path))
    was_read (c ∷ path) held

  -- Clean up the saved file
  abbrev pub media_created : Text → Text → List Text → Outcome RepoError (Unit {0}) → Act
  media_created hash kind triggers (ok x) =
      report []
        (codes "✅ Media filter created! Triggers: "
          ++ trigger_list triggers
          ++ codes " → ["
          ++ kind
          ++ codes "]")
        (ok x)
  media_created hash kind triggers (err x) = do
    on_files (λ works. delete e.settings.media_path works hash) e.disk_works
    report (codes "❌ Failed to create media filter: ") [] (err x)

  unfoldable pub with_hash : List Text → List Text → Text → Option Text → Act
  unfolding create_media_filter
  with_hash triggers normalized kind none = give tt
  with_hash triggers normalized kind (some hash) = do
    r ← on_session (create_media_filter e.engine e.unicode chat normalized hash kind)
    media_created hash kind triggers r

  abbrev pub with_media : List Text → List Text → Option IncomingMessage → Act
  with_media triggers normalized none = give tt
  with_media triggers normalized (some m) = do
    hash ← process_media_file m.file
    with_hash triggers normalized m.media_type hash

  abbrev pub supported : ℕ → IncomingMessage → Bool → Do (Option IncomingMessage)
  supported id m true =
      fail none (codes "❌ Unsupported media type. Supported types: image, sticker, gif, video.")
  supported id m false = download_media_if_needed m id

  abbrev pub quoted : ℕ → Option IncomingMessage → Do (Option IncomingMessage)
  quoted id none = fail_call none (codes "❌ Failed to get quoted message: ")
  quoted id (some m) = supported id m (is_empty m.media_type)

  -- The id of the quoted message, 0 for none.
  abbrev pub quote_id : IncomingMessage → ℕ
  quote_id m = elim m.quote [ none ↦ 0 | some id ↦ id ]

  -- Resolve the message that carries the media: an attachment, or the quoted message.
  abbrev pub resolve : IncomingMessage → Bool → Do (Option IncomingMessage)
  resolve m true = download_media_if_needed m m.id
  resolve m false = do q ← fetch e (quote_id m); quoted (quote_id m) q

  unfoldable pub handle_media_filter_creation :
      IncomingMessage → List Text → List Text → Bool → Bool → Act
  unfolding process_media_file download_media_if_needed create_media_filter send_error_message
      send_confirmation join patrizio_bot.Messenger.fetch_message patrizio_bot.Media.put
  handle_media_filter_creation m triggers normalized false false = send_error_message e chat to (
      codes
        "❌ To create a media filter, attach media (image, sticker, GIF, or video) to the /filter command, or reply to a media message.")
  handle_media_filter_creation m triggers normalized quotes true = do
    carrier ← resolve m true
    with_media triggers normalized carrier
  handle_media_filter_creation m triggers normalized true false = do
    carrier ← resolve m false
    with_media triggers normalized carrier

  abbrev pub has_quoted_media : IncomingMessage → Bool
  has_quoted_media m = not (quote_id m == 0)

  abbrev pub has_attached_media : IncomingMessage → Bool
  has_attached_media m = not (is_empty m.media_type) && not (is_empty m.file)

  abbrev pub by_response : IncomingMessage → List Text → List Text → Response → Act
  by_response m triggers normalized (text s) =
      handle_text_filter_creation triggers s normalized (has_quoted_media m || has_attached_media m)
  by_response m triggers normalized (reaction emoji) =
      handle_reaction_filter_creation triggers emoji normalized
  by_response m triggers normalized media =
      handle_media_filter_creation m triggers normalized (has_quoted_media m) (has_attached_media m)

  abbrev pub with_triggers : IncomingMessage → FilterCommand → Option (List Text) → Act
  with_triggers m c none = give tt
  with_triggers m c (some normalized) = by_response m c.triggers normalized c.response

  abbrev pub with_filter_command : IncomingMessage → Parsed FilterCommand → Act
  with_filter_command m (Command.err x) =
      send_error_message e chat to (codes "❌ Invalid command syntax. " ++ e.show_parse x)
  with_filter_command m (Command.ok c) = do
    normalized ← validate_and_normalize_triggers c.triggers
    with_triggers m c normalized

  unfoldable pub handle_filter_command : IncomingMessage → Act
  unfolding validate_and_normalize_triggers handle_text_filter_creation
      handle_reaction_filter_creation handle_media_filter_creation parse_filter_command
  handle_filter_command m = with_filter_command m (parse_filter_command m.body)

  -- The file is removed behind the commit, so other goroutines come between; a failure is logged.
  abbrev pub clean_up : Text → Act
  clean_up hash = do
    run_elsewhere e
    on_files (λ works. delete e.settings.media_path works hash) e.disk_works
    give tt

  abbrev pub removed : Text → Outcome RepoError (Option Text) → Act
  removed trigger (err x) =
      send_error_message e chat to
        (codes "❌ Failed to remove trigger '" ++ trigger ++ codes "': " ++ e.show_repo x)
  removed trigger (ok none) =
      send_confirmation e chat to (codes "✅ Trigger '" ++ trigger ++ codes "' removed")
  removed trigger (ok (some hash)) = do
    clean_up hash
    send_confirmation e chat to (codes "✅ Trigger '" ++ trigger ++ codes "' removed")

  unfoldable pub with_stop_command : Parsed Text → Act
  unfolding normalize_trigger remove_trigger
  with_stop_command (Command.err x) =
      send_error_message e chat to (codes "❌ Invalid command syntax. " ++ e.show_parse x)
  with_stop_command (Command.ok trigger) = do
    r ← on_session (remove_trigger e.unicode chat (normalize_trigger e.unicode trigger))
    removed trigger r

  unfoldable pub handle_stop_command : IncomingMessage → Act
  unfolding parse_stop_command normalize_trigger remove_trigger send_error_message send_confirmation
      patrizio_bot.Media.put
  handle_stop_command m = with_stop_command (parse_stop_command m.body)

  unfoldable pub clean_up_all : List Text → Act
  unfolding patrizio_bot.Media.put
  clean_up_all [] = give tt
  clean_up_all (hash ∷ hashes) = do clean_up hash; clean_up_all hashes

  abbrev pub removed_all : Outcome RepoError (List Text) → Act
  removed_all (err x) =
      send_error_message e chat to (codes "❌ Failed to remove filters: " ++ e.show_repo x)
  removed_all (ok hashes) = do
    clean_up_all hashes
    send_confirmation e chat to (codes "✅ All filters removed from this chat")

  unfoldable pub handle_stop_all_command : Act
  unfolding clean_up_all remove_all_filters send_error_message send_confirmation
  handle_stop_all_command = do r ← on_session (remove_all_filters e.engine chat); removed_all r
