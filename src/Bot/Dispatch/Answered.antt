-- ===== src/Bot/Dispatch/Answered.antt =====
-- How many texts the commands of a group and the direct messages send.
use patrizio_bot.Prelude.{
  ℕ, zero, suc, ◌≡◌, refl, Bool, true, false, Option, none, some, List, [], ◌∷◌, arith,
  if◌then◌else◌,
}
use patrizio_bot.Text.{Text, codes}
use patrizio_bot.Command.{
  Parsed, MemorySubCommand, show, clear, enable, disable, parse_memory_command, CommandType, filter,
  stop, stop_all, filters, prompt, memory, get_command_type,
}
use patrizio_bot.Command
use patrizio_bot.Exec.{Outcome, ok, err}
use patrizio_bot.Sqlite.Repository.{RepoError}
use patrizio_bot.Sqlite.Repository.Lists.{Filter, list_filters}
use patrizio_bot.Memory.{MemoryError, Reply, set_enabled}
use patrizio_bot.Memory.Storage
use patrizio_bot.Messenger.{IncomingMessage, ChatType, single, group}
use patrizio_bot.Bot.{
  Env, Bot, Act, ◌>>=◌, post, give, on_session, on_store, send_text_reply, send_error_message,
}
use patrizio_bot.Bot.Replies.{
  replies, Replies, Answers, Replies-bind, Replies-give, Replies-session, Replies-store,
  send_text_reply-Replies, send_error_message-Answers, send_confirmation-Answers,
}
use patrizio_bot.Bot.Filters.Answered.{handle_filter_command-Answers}
use patrizio_bot.Bot.Filters.Stopped.{handle_stop_command-Answers, handle_stop_all_command-Answers}
use patrizio_bot.Bot.Listing.{listed, handle_filters_command}
use patrizio_bot.Bot.Assist.{execute, authorized, look_up, found_root, is_thread_continuation}
use patrizio_bot.Bot.Assist.Answered.{
  execute-Replies, authorized-Answers, handle_prompt_command-Answers,
  handle_thread_continuation-Answers,
}
use patrizio_bot.Bot.Notes.{
  say, shown, reply_or_none, clear_job, reported, with_content, switched, memory_show, memory_clear,
  memory_switch, by_sub_command, with_memory_command, handle_memory_command,
}
use patrizio_bot.Conversation.{is_conversation_message}
use patrizio_bot.Bot.Filters.{quote_id}
use patrizio_bot.Bot.Dispatch.{
  send_help, reply_or, continue_or, direct_command, handle_direct_message, group_command,
  handle_group_message,
}

module _ (e : Env) (chat msg : ℕ) where
  listed-Answers : (r : Outcome RepoError (List Filter)) → Answers (listed e chat msg r)
  unfolding listed
  listed-Answers (err x) = send_error_message-Answers e chat msg _
  listed-Answers (ok []) = send_confirmation-Answers e chat msg _
  listed-Answers (ok (f ∷ fs)) = send_confirmation-Answers e chat msg _

  handle_filters_command-Answers : Answers (handle_filters_command e chat msg)
  unfolding handle_filters_command
  handle_filters_command-Answers =
      Replies-bind 0 (λ _. 0) (λ _. 1) (on_session (list_filters e.engine chat)) (listed e chat msg)
        (Replies-session 0 _) listed-Answers

  say-Answers : (content : Text) → Answers (say e chat msg content)
  say-Answers content =
      Replies-bind 0 (λ _. 1) (λ _. 1) (send_text_reply e chat msg content) (λ _. give tt)
        (send_text_reply-Replies e chat msg content) λ _. Replies-give 1 (λ _. 1) tt refl

  shown-Answers : (r : Outcome MemoryError Text) → Answers (shown e chat msg r)
  shown-Answers (err x) = send_error_message-Answers e chat msg _
  shown-Answers (ok []) = say-Answers (codes "(memory is empty)")
  shown-Answers (ok (c ∷ s)) = say-Answers (c ∷ s)

  clear_job-Replies : (content : Text) → Replies 0 (λ _. 0) (clear_job e chat msg content)
  unfolding Storage.clear
  clear_job-Replies content =
      Replies-bind 0 (λ _. 0) (λ _. 0) (on_store _) (λ r. give (reply_or_none e chat msg r))
        (Replies-store 0 _) λ r. Replies-give 0 (λ _. 0) _ refl

  cleared-Replies :
      (content : Text) (executor : Bool)
      → Replies 0
          (λ _. 0)
          (if executor
            then execute e chat msg none (clear_job e chat msg content)
            else clear_job e chat msg content)
  cleared-Replies content true =
      execute-Replies e chat msg none (clear_job e chat msg content) (clear_job-Replies content)
  cleared-Replies content false = clear_job-Replies content

  reported-Answers : (r : Option Reply) → Answers (reported e chat msg r)
  reported-Answers none = send_error_message-Answers e chat msg _
  reported-Answers (some r) = say-Answers (codes "Memory cleared.")

  with_content-Answers : (r : Outcome MemoryError Text) → Answers (with_content e chat msg r)
  unfolding with_content Storage.clear
  with_content-Answers (err x) = send_error_message-Answers e chat msg _
  with_content-Answers (ok content) =
      Replies-bind 0 (λ _. 0) (λ _. 1) _ (reported e chat msg)
        (cleared-Replies content e.settings.chat_executor) reported-Answers

  switched-Answers :
      (failed done : Text) (r : Outcome MemoryError (Unit {0}))
      → Answers (switched e chat msg failed done r)
  switched-Answers failed done (err x) = send_error_message-Answers e chat msg failed
  switched-Answers failed done (ok x) = say-Answers done

  memory_switch-Answers :
      (enabled : Bool) (failed done : Text) → Answers (memory_switch e chat msg enabled failed done)
  unfolding memory_switch
  memory_switch-Answers enabled failed done =
      Replies-bind 0 (λ _. 0) (λ _. 1) (on_store (set_enabled chat enabled))
        (switched e chat msg failed done) (Replies-store 0 _) (switched-Answers failed done)

  by_sub_command-Answers : (sub : MemorySubCommand) → Answers (by_sub_command e chat msg sub)
  unfolding by_sub_command memory_show memory_clear
  by_sub_command-Answers show =
      Replies-bind 0 (λ _. 0) (λ _. 1) (on_store (Storage.read e.world.checksum chat msg))
        (shown e chat msg) (Replies-store 0 _) shown-Answers
  by_sub_command-Answers clear =
      Replies-bind 0 (λ _. 0) (λ _. 1) (on_store (Storage.read e.world.checksum chat msg))
        (with_content e chat msg) (Replies-store 0 _) with_content-Answers
  by_sub_command-Answers enable = memory_switch-Answers true _ _
  by_sub_command-Answers disable = memory_switch-Answers false _ _

  with_memory_command-Answers :
      (p : Parsed MemorySubCommand) → Answers (with_memory_command e chat msg p)
  with_memory_command-Answers (Command.err x) = send_error_message-Answers e chat msg _
  with_memory_command-Answers (Command.ok sub) = by_sub_command-Answers sub

  handle_memory_command-Answers :
      (m : IncomingMessage) → Answers (handle_memory_command e chat msg m)
  unfolding handle_memory_command
  handle_memory_command-Answers m = go e.settings.memory_repository
    where
      go :
          (there : Bool)
          → Answers (
              if there
              then authorized e chat msg
                  (with_memory_command e chat msg (parse_memory_command m.body))
              else send_error_message e chat msg (codes "Memory is not configured."))
      go true =
          authorized-Answers e chat msg _
            (with_memory_command-Answers (parse_memory_command m.body))
      go false = send_error_message-Answers e chat msg _

module _ (e : Env) (msg : ℕ) (m : IncomingMessage) where
  group_command-Answers : (c : CommandType) → Answers (group_command e msg m (some c))
  unfolding group_command
  group_command-Answers filter = handle_filter_command-Answers e m.chat_id msg m
  group_command-Answers stop = handle_stop_command-Answers e m.chat_id msg m
  group_command-Answers stop_all = handle_stop_all_command-Answers e m.chat_id msg
  group_command-Answers filters = handle_filters_command-Answers e m.chat_id msg
  group_command-Answers prompt = handle_prompt_command-Answers e m.chat_id msg m group
  group_command-Answers memory = handle_memory_command-Answers e m.chat_id msg m

  -- For a message of a group that starts with a command, exactly one text is sent, delivered or not, on every branch of the command's handler.
  pub replies-handle_group_message :
      (c : CommandType) (b : Bot)
      → get_command_type m.body ≡ some c
      → replies (handle_group_message e msg m b).1 ≡ suc (replies b)
  unfolding handle_group_message
  replies-handle_group_message c b h = rw h (omega (arith, (group_command-Answers c).count b))

  send_help-Answers : Answers (send_help e m)
  unfolding post ◌>>=◌
  send_help-Answers = record { count = λ b. omega arith }

  look_up-Replies : (there : Bool) (q : ℕ) → Replies 0 (λ _. 0) (look_up e m.chat_id msg there q)
  look_up-Replies false q = Replies-give 0 (λ _. 0) none refl
  look_up-Replies true zero = Replies-give 0 (λ _. 0) none refl
  look_up-Replies true (suc q) =
      Replies-bind 0 (λ _. 0) (λ _. 0) (on_store (is_conversation_message (suc q)))
        (λ r. give (found_root e m.chat_id msg r)) (Replies-store 0 _)
        λ r. Replies-give 0 (λ _. 0) _ refl

  continue_or-Answers :
      (kind : ChatType) (otherwise : Act) (root : Option ℕ)
      → Answers otherwise
      → Answers (continue_or e msg m kind otherwise root)
  unfolding continue_or
  continue_or-Answers kind otherwise none h = h
  continue_or-Answers kind otherwise (some root) h =
      handle_thread_continuation-Answers e m.chat_id msg m root kind

  reply_or-Answers :
      (kind : ChatType) (otherwise : Act)
      → Answers otherwise
      → Answers (reply_or e msg m kind otherwise)
  unfolding reply_or is_thread_continuation
  reply_or-Answers kind otherwise h =
      Replies-bind 0 (λ _. 0) (λ _. 1)
        (look_up e m.chat_id msg e.settings.conversation_repository (quote_id e m.chat_id msg m))
        (continue_or e msg m kind otherwise)
        (look_up-Replies e.settings.conversation_repository (quote_id e m.chat_id msg m))
        λ root. continue_or-Answers kind otherwise root h

  direct_command-Answers : (c : Option CommandType) → Answers (direct_command e msg m c)
  unfolding direct_command
  direct_command-Answers (some prompt) = handle_prompt_command-Answers e m.chat_id msg m single
  direct_command-Answers (some memory) = handle_memory_command-Answers e m.chat_id msg m
  direct_command-Answers (some filter) = reply_or-Answers single (send_help e m) send_help-Answers
  direct_command-Answers (some stop) = reply_or-Answers single (send_help e m) send_help-Answers
  direct_command-Answers (some stop_all) = reply_or-Answers single (send_help e m) send_help-Answers
  direct_command-Answers (some filters) = reply_or-Answers single (send_help e m) send_help-Answers
  direct_command-Answers none = reply_or-Answers single (send_help e m) send_help-Answers

  -- For a direct message exactly one text is sent, delivered or not: the reply of /prompt, of /memory or
  -- of a thread, or else the help.
  pub replies-handle_direct_message :
      (b : Bot) → replies (handle_direct_message e msg m b).1 ≡ suc (replies b)
  unfolding handle_direct_message
  replies-handle_direct_message b =
      omega (arith, (direct_command-Answers (get_command_type m.body)).count b)
