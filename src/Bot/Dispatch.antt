-- ===== src/Bot/Dispatch.antt =====
-- internal/bot/handler.go: which handler a message goes to, and the answers of the filters.
pub mod Unauthorized
pub mod Responses
pub mod Answered
use patrizio_bot.Prelude.{ℕ, Bool, true, false, Option, none, some, List, [], ◌∷◌, if◌then◌else◌}
use patrizio_bot.Text.{Text, codes}
use patrizio_bot.Trigger.{normalize_message}
use patrizio_bot.Command.{
  CommandType, filter, stop, stop_all, filters, prompt, memory, get_command_type,
}
use patrizio_bot.Exec.{Outcome, ok, err}
use patrizio_bot.Sqlite.Repository.{RepoError}
use patrizio_bot.Sqlite.Repository.Lists.{
  FilterResponse, text_response, media_response, reaction_response, find_filters,
}
use patrizio_bot.Messenger.{
  IncomingMessage, ChatType, group, single, unknown, fetch_message, fetch_chat_type,
  is_special_contact, map_media_type_to_view_type,
}
use patrizio_bot.Media.{exists, path}
use patrizio_bot.Bot.{
  Env, Bot, Do, Act, give, ◌>>=◌, ◌>>◌, ask, on_session, send_text_reply, send_media_reply,
  send_reaction, send_text_message, fetch,
}
use patrizio_bot.Bot.Filters.{handle_filter_command, handle_stop_command, handle_stop_all_command}
use patrizio_bot.Bot.Listing.{handle_filters_command}
use patrizio_bot.Bot.Assist.{
  handle_prompt_command, handle_thread_continuation, is_thread_continuation,
}
use patrizio_bot.Bot.Notes.{handle_memory_command}

abbrev pub help_text : Text
help_text =
    codes
      "Hi! I'm Patrizio, a group chat bot.\n\nAdd me to a group and I'll respond to messages based on configured filters. Here's what I can do:\n\n/filter <trigger> <response>\n  Create a filter. When a message contains the trigger word, I'll reply with the response text.\n  Examples:\n  /filter hello Hi there!\n  /filter \"good morning\" Rise and shine!\n\n/filter (<trigger1>, <trigger2>, ...) <response>\n  Create a filter with multiple triggers for the same response.\n  Example:\n  /filter (hi, hello, \"good morning\") Hey!\n\n/filter <trigger> react:<emoji>\n  Create a reaction filter. I'll react to the triggering message with the given emoji.\n  Example:\n  /filter lol react:😂\n\n/filter <trigger>\n  Create a media filter. Attach an image, sticker, GIF, or video to the command, or reply to a media message. I'll send that media when the trigger matches.\n  Example:\n  /filter cat (with an image attached)\n\n/stop <trigger>\n  Remove a single trigger.\n  Examples:\n  /stop hello\n  /stop \"good morning\"\n\n/stopall\n  Remove all filters from the current chat.\n\n/filters\n  List all active filters in the current chat.\n\n/prompt <message>\n  Send a message to the AI assistant. Each /prompt starts a new conversation thread.\n  To continue the conversation, simply reply to my response — no need to type /prompt again.\n  Example:\n  /prompt What is the capital of France?\n\n/memory show\n  Show what the AI currently remembers about this chat.\n\n/memory clear\n  Wipe the AI's memory for this chat.\n\n/memory enable\n  Re-enable AI memory after it was disabled.\n\n/memory disable\n  Stop the AI from reading or writing memory in this chat.\n\nTriggers are matched as whole words anywhere in a message and are case-insensitive."

module _ (e : Env) where
  -- The media file, if it is there.
  unfoldable pub media_found : ℕ → ℕ → Text → Text → Option Bool → Act
  unfolding map_media_type_to_view_type
  media_found chat msg hash kind none = give tt
  media_found chat msg hash kind (some false) = give tt
  media_found chat msg hash kind (some true) = do
    send_media_reply e chat msg (path e.settings.media_path hash) kind
    give tt

  abbrev pub look_for : Text → Do (Option Bool)
  look_for hash b = (exists e.settings.media_path (e.disk_works b.clock) hash b.files, b)

  -- One case of the switch over the response type.
  unfoldable pub respond : ℕ → ℕ → FilterResponse → Act
  unfolding map_media_type_to_view_type
  respond chat msg (text_response id content) = do send_text_reply e chat msg content; give tt
  respond chat msg (media_response id hash kind) = do
    there ← look_for hash
    media_found chat msg hash kind there
  respond chat msg (reaction_response id emoji) = do send_reaction e msg emoji; give tt

  -- Dispatch responses for each matching filter
  unfoldable pub respond_all : ℕ → ℕ → List FilterResponse → Act
  unfolding respond
  respond_all chat msg [] = give tt
  respond_all chat msg (r ∷ rs) = do respond chat msg r; respond_all chat msg rs

  abbrev pub matched_filters : ℕ → ℕ → Outcome RepoError (List FilterResponse) → Act
  matched_filters chat msg (err x) = give tt
  matched_filters chat msg (ok rs) = respond_all chat msg rs

  unfoldable pub answer_by_filters : ℕ → IncomingMessage → Act
  unfolding respond_all normalize_message find_filters
  answer_by_filters msg m = do
    r ← on_session (find_filters m.chat_id (normalize_message e.unicode m.body))
    matched_filters m.chat_id msg r

  unfoldable pub continue_or : ℕ → IncomingMessage → ChatType → Act → Option ℕ → Act
  unfolding handle_thread_continuation
  continue_or msg m kind otherwise none = otherwise
  continue_or msg m kind otherwise (some root) =
      handle_thread_continuation e m.chat_id msg m root kind

  unfoldable pub reply_or : ℕ → IncomingMessage → ChatType → Act → Act
  unfolding is_thread_continuation handle_thread_continuation
  reply_or msg m kind otherwise = do
    root ← is_thread_continuation e m.chat_id msg m
    continue_or msg m kind otherwise root

  unfoldable pub group_command : ℕ → IncomingMessage → Option CommandType → Act
  unfolding handle_filter_command handle_stop_command handle_stop_all_command handle_filters_command
      handle_prompt_command handle_memory_command answer_by_filters is_thread_continuation
      handle_thread_continuation
  group_command msg m (some filter) = handle_filter_command e m.chat_id msg m
  group_command msg m (some stop) = handle_stop_command e m.chat_id msg m
  group_command msg m (some stop_all) = handle_stop_all_command e m.chat_id msg
  group_command msg m (some filters) = handle_filters_command e m.chat_id msg
  group_command msg m (some prompt) = handle_prompt_command e m.chat_id msg m group
  group_command msg m (some memory) = handle_memory_command e m.chat_id msg m
  group_command msg m none = reply_or msg m group (answer_by_filters msg m)

  unfoldable pub handle_group_message : ℕ → IncomingMessage → Act
  unfolding handle_filter_command handle_stop_command handle_stop_all_command handle_filters_command
      handle_prompt_command handle_memory_command answer_by_filters is_thread_continuation
      handle_thread_continuation get_command_type
  handle_group_message msg m = group_command msg m (get_command_type m.body)

  abbrev pub send_help : IncomingMessage → Act
  send_help m = do send_text_message e m.chat_id help_text; give tt

  unfoldable pub direct_command : ℕ → IncomingMessage → Option CommandType → Act
  unfolding handle_prompt_command handle_memory_command is_thread_continuation
      handle_thread_continuation
  direct_command msg m (some prompt) = handle_prompt_command e m.chat_id msg m single
  direct_command msg m (some memory) = handle_memory_command e m.chat_id msg m
  direct_command msg m (some filter) = reply_or msg m single (send_help m)
  direct_command msg m (some stop) = reply_or msg m single (send_help m)
  direct_command msg m (some stop_all) = reply_or msg m single (send_help m)
  direct_command msg m (some filters) = reply_or msg m single (send_help m)
  direct_command msg m none = reply_or msg m single (send_help m)

  unfoldable pub handle_direct_message : ℕ → IncomingMessage → Act
  unfolding handle_prompt_command handle_memory_command is_thread_continuation
      handle_thread_continuation get_command_type
  handle_direct_message msg m = direct_command msg m (get_command_type m.body)

  unfoldable pub by_chat_type : ℕ → IncomingMessage → Option ChatType → Act
  unfolding handle_group_message handle_direct_message
  by_chat_type msg m none = give tt
  by_chat_type msg m (some group) = handle_group_message msg m
  by_chat_type msg m (some single) = handle_direct_message msg m
  by_chat_type msg m (some unknown) = give tt

  -- Ignore messages from special contacts
  unfoldable pub unless_special : ℕ → IncomingMessage → Bool → Act
  unfolding handle_group_message handle_direct_message fetch_chat_type
  unless_special msg m true = give tt
  unless_special msg m false = do
    kind ← ask (λ now. fetch_chat_type e.rpc now m.chat_id)
    by_chat_type msg m kind

  unfoldable pub fetched : ℕ → Option IncomingMessage → Act
  unfolding handle_group_message handle_direct_message fetch_chat_type is_special_contact
  fetched msg none = give tt
  fetched msg (some m) = unless_special msg m (is_special_contact e.rpc 0 m.from_id)

  unfoldable pub process_message : ℕ → Act
  unfolding handle_group_message handle_direct_message fetch_message fetch_chat_type
      is_special_contact
  process_message msg = do m ← fetch e msg; fetched msg m
