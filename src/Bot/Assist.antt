-- ===== src/Bot/Assist.antt =====
-- internal/bot/handler.go: /prompt, the replies in a thread, and /memory.
pub mod Answered
pub mod Authorized
pub mod Threads
use patrizio_bot.Prelude.{
  ℕ, zero, suc, Bool, true, false, ◌&&◌, ◌||◌, not, Option, none, some, List, [], ◌∷◌, ◌++◌, ◌==◌,
  ℤ, pos, int_eq, any, if◌then◌else◌,
}
use patrizio_bot.Text.{Text, codes, is_empty}
use patrizio_bot.Command.{
  Parsed, ParseError, MemorySubCommand, show, clear, enable, disable, parse_prompt_command,
  parse_memory_command,
}
use patrizio_bot.Command
use patrizio_bot.Exec.{Outcome, ok, err, Exec}
use patrizio_bot.Store.{Store}
use patrizio_bot.Conversation.{
  ChatMessage, ConversationError, save_message, get_thread_chain, is_conversation_message,
}
use patrizio_bot.Memory.{MemoryError, Reply, is_enabled, set_enabled}
use patrizio_bot.Memory.Storage
use patrizio_bot.Assistant.{ChatResponse, ChatError, Turn, chat_completion}
use patrizio_bot.Messenger.{
  IncomingMessage, ChatType, group, single, unknown, fetch_contact_display_name,
}
use patrizio_bot.Bot.{
  Env, Bot, Do, Act, give, ◌>>=◌, ◌>>◌, ask, on_store, send_text_reply, send_reaction,
  send_error_message,
}
use patrizio_bot.Bot.Filters.{quote_id}

-- isAllowedChat: an empty list allows every chat.
unfoldable pub is_allowed_chat : List ℤ → ℕ → Bool
is_allowed_chat [] chat = true
is_allowed_chat (i ∷ is) chat = any (λ j. int_eq j (pos chat)) (i ∷ is)

abbrev pub not_configured : Text
not_configured =
    codes
      "The AI assistant is not configured. Please set the proper configuration (API key, base URL, model) and restart the bot."

abbrev pub not_authorized : Text
not_authorized = codes "This chat is not authorized to use the AI assistant."

abbrev pub tool_use : Text
tool_use =
    codes
      "\n<tool_use>\nYou have per-chat memory tools (read_memory, append_memory, update_memory).\nMemory is markdown. Call read_memory only when prior context likely matters;\ncall update_memory when the user shares a durable fact. Keep memory concise.\n</tool_use>"

abbrev pub group_info : Text
group_info =
    codes
      "\n<general_group_chat_information>\nThis is a group conversation. Each user message is prefixed with the sender's name in the format \"[Name]: message\".\nPay attention to who is speaking.\n</general_group_chat_information>"

-- fmt.Sprintf("[%s]: %s", …), without a name the text alone
unfoldable pub display_content : Text → Text → Text
display_content [] s = s
display_content (c ∷ name) s = codes "[" ++ (c ∷ name) ++ codes "]: " ++ s

abbrev plain_system : Text → List ChatMessage
plain_system [] = []
plain_system (c ∷ s) = record { role = codes "system"; name = []; content = c ∷ s } ∷ []

-- The messages in front of the conversation.
unfoldable pub system_messages : Text → Bool → ChatType → List ChatMessage
system_messages prompt memory group =
    record {
      role = codes "system";
      name = [];
      content = (if memory then prompt ++ tool_use else prompt) ++ group_info;
    }
    ∷ []
system_messages prompt memory single = plain_system (if memory then prompt ++ tool_use else prompt)
system_messages prompt memory unknown = plain_system (if memory then prompt ++ tool_use else prompt)

abbrev pub user_entry : Text → Text → ChatMessage
user_entry name content = record { role = codes "user"; name = name; content = content }

module _ (e : Env) (chat msg : ℕ) where
  -- A failed lookup of the name is logged.
  abbrev pub name_or_empty : Option Text → Text
  name_or_empty none = []
  name_or_empty (some name) = name

  unfoldable pub sender_name : ChatType → ℕ → Do Text
  unfolding fetch_contact_display_name
  sender_name group from = do
    name ← ask (λ now. fetch_contact_display_name e.rpc now from)
    give (name_or_empty name)
  sender_name single from = give []
  sender_name unknown from = give []

  abbrev pub enabled_or_not : Outcome MemoryError Bool → Bool
  enabled_or_not (ok b) = b
  enabled_or_not (err x) = false

  abbrev pub enabled_if : Bool → Do Bool
  enabled_if false = give false
  enabled_if true = do r ← on_store (is_enabled chat); give (enabled_or_not r)

  unfoldable pub memory_enabled : Do Bool
  unfolding is_enabled
  memory_enabled = enabled_if e.settings.memory_repository

  -- ChatCompletion, with a fresh tool handler for this message
  abbrev pub turn_of : Bot → Turn
  turn_of b = record { store = b.store; read_token = []; wrote = false; requests = b.requests }

  abbrev pub back_from : Bot → Outcome ChatError ChatResponse × Turn → Option ChatResponse × Bot
  back_from b (ok response, t) =
      (some response, record b { store = t.store; requests = t.requests })
  back_from b (err x, t) = (none, record b { store = t.store; requests = t.requests })

  unfoldable pub complete_chat : Bool → List ChatMessage → Do (Option ChatResponse)
  unfolding chat_completion
  complete_chat has_handler messages b = back_from b (
      chat_completion e.world e.settings.max_memory_bytes chat msg e.settings.max_tool_iterations
        has_handler messages (turn_of b))

  -- ChatExecutor.Run: the jobs before this one run first; a stopped registry takes none.
  abbrev pub run_job : {A : Type 0} → A → Do A → Bool → Do A
  run_job refused job false = give refused
  run_job refused job true = λ b. job (record b { store = e.others b.clock b.store })

  unfoldable pub execute : {A : Type 0} → A → Do A → Do A
  execute refused job = do open_now ← ask e.admits; run_job refused job open_now

  unfoldable pub complete : Bool → List ChatMessage → Do (Option ChatResponse)
  unfolding complete_chat execute
  complete memory messages =
      if memory && e.settings.chat_executor
      then execute none (complete_chat true messages)
      else complete_chat false messages

  -- sendToolReaction
  unfoldable pub send_tool_reaction : ChatResponse → Act
  send_tool_reaction response =
      if response.memory_written
      then (do send_reaction e msg (codes "🔖"); give tt)
      else if response.memory_read
      then (do send_reaction e msg (codes "📑"); give tt)
      else give tt

  unfoldable pub save_rows : ℕ → Option ℕ → Text → Text → ℕ → Text → Act
  unfolding save_message
  save_rows root parent content name answer_id answer = do
    on_store (save_message root msg parent (codes "user") content name)
    on_store (save_message root answer_id (some msg) (codes "assistant") answer [])
    give tt

  -- A method of the repository is called, also where there is none.
  abbrev pub nil_panic : Act
  nil_panic b = (tt, record b { crashed = true })

  -- Both messages of the turn; a failed save is logged.
  unfoldable pub save_turn : ℕ → Option ℕ → Text → Text → ℕ → Text → Act
  unfolding save_rows save_message
  save_turn root parent content name answer_id answer =
      if e.settings.conversation_repository
      then save_rows root parent content name answer_id answer
      else nil_panic

  abbrev pub sent_answer : ℕ → Option ℕ → Text → Text → ChatResponse → Option ℕ → Act
  sent_answer root parent content name response none = give tt
  sent_answer root parent content name response (some answer_id) = do
    send_tool_reaction response
    save_turn root parent content name answer_id response.answer

  abbrev pub completed : ℕ → Option ℕ → Text → Text → Option ChatResponse → Act
  completed root parent content name none =
      send_error_message e chat msg (
        codes
          "Sorry, I encountered an error while processing your request. Please try again later.")
  completed root parent content name (some response) = do
    answer_id ← send_text_reply e chat msg response.answer
    sent_answer root parent content name response answer_id

  -- From the sender's name on, /prompt and a reply in a thread go the same way.
  unfoldable pub converse : ℕ → Option ℕ → List ChatMessage → Text → ChatType → ℕ → Act
  unfolding sender_name memory_enabled complete send_tool_reaction save_turn display_content
      system_messages send_error_message
  converse root parent history content kind from = do
    name ← sender_name kind from
    memory ← memory_enabled
    response ← complete memory (
        system_messages e.settings.system_prompt memory kind
        ++ history
        ++ user_entry name (display_content name content) ∷ [])
    completed root parent (display_content name content) name response

  -- Check if AI client is configured, check allowlist
  unfoldable pub authorized : Act → Act
  unfolding is_allowed_chat send_error_message
  authorized act =
      if e.settings.ai_client
      then (if is_allowed_chat e.settings.allowed_chat_ids chat
          then act
          else send_error_message e chat msg not_authorized)
      else send_error_message e chat msg not_configured

  abbrev pub prompted : ChatType → ℕ → Parsed Text → Act
  prompted kind from (Command.err x) =
      send_error_message e chat msg (codes "Invalid command: " ++ e.show_parse x)
  prompted kind from (Command.ok prompt) = converse msg none [] prompt kind from

  unfoldable pub handle_prompt_command : IncomingMessage → ChatType → Act
  unfolding authorized converse parse_prompt_command send_error_message
  handle_prompt_command m kind = authorized (prompted kind m.from_id (parse_prompt_command m.body))

  abbrev pub continued :
      IncomingMessage → ℕ → ChatType → Outcome ConversationError (List ChatMessage) → Act
  continued m root kind (err x) =
      send_error_message e chat msg
        (codes "Sorry, I encountered an error while retrieving the conversation history.")
  continued m root kind (ok history) =
      converse root (some (quote_id e chat msg m)) history m.body kind m.from_id

  abbrev pub with_history : IncomingMessage → ℕ → ChatType → Act
  with_history m root kind = do
    history ← on_store (get_thread_chain (quote_id e chat msg m) e.settings.max_history)
    continued m root kind history

  unfoldable pub handle_thread_continuation : IncomingMessage → ℕ → ChatType → Act
  unfolding authorized converse get_thread_chain send_error_message
  handle_thread_continuation m root kind = authorized (with_history m root kind)

  abbrev pub found_root : Outcome ConversationError (Option ℕ) → Option ℕ
  found_root (ok root) = root
  found_root (err x) = none

  abbrev pub look_up : Bool → ℕ → Do (Option ℕ)
  look_up false q = give none
  look_up true zero = give none
  look_up true (suc q) = do r ← on_store (is_conversation_message (suc q)); give (found_root r)

  -- The root of the thread that the message continues, if it does.
  unfoldable pub is_thread_continuation : IncomingMessage → Do (Option ℕ)
  unfolding is_conversation_message
  is_thread_continuation m = look_up e.settings.conversation_repository (quote_id e chat msg m)
