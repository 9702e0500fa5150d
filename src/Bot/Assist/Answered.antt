-- ===== src/Bot/Assist/Answered.antt =====
-- How many texts /prompt and a reply in a thread send.
use patrizio_bot.Prelude.{
  ℕ, ◌≡◌, refl, Bool, true, false, ◌&&◌, Option, none, some, List, [], Bool-cases, inl, inr, arith,
  if◌then◌else◌,
}
use patrizio_bot.Text.{Text, codes}
use patrizio_bot.Command.{Parsed, parse_prompt_command}
use patrizio_bot.Command
use patrizio_bot.Exec.{Outcome, ok, err}
use patrizio_bot.Conversation.{ChatMessage, ConversationError, get_thread_chain}
use patrizio_bot.Memory.{is_enabled}
use patrizio_bot.Assistant.{ChatResponse, ChatError, Turn, chat_completion}
use patrizio_bot.Messenger.{IncomingMessage, ChatType, group, single, unknown}
use patrizio_bot.Bot.{
  Env, Bot, Do, Act, give, ◌>>=◌, ◌>>◌, ask, on_store, post, send_text_reply, send_reaction,
  send_error_message,
}
use patrizio_bot.Bot.Replies.{
  replies, Replies, Answers, Replies-bind, Replies-give, Replies-ask, Replies-store,
  send_text_reply-Replies, send_error_message-Answers,
}
use patrizio_bot.Bot.Filters.{quote_id}
use patrizio_bot.Bot.Assist.{
  is_allowed_chat, not_configured, not_authorized, enabled_if, enabled_or_not, turn_of, back_from,
  sender_name, memory_enabled, complete_chat, run_job, execute, complete, send_tool_reaction,
  save_turn, sent_answer, completed, converse, authorized, prompted, handle_prompt_command,
  continued, with_history, handle_thread_continuation, display_content,
}

module _ (e : Env) (chat msg : ℕ) where
  silent : {A : Type 0} (a : A) → Replies 0 (λ _. 0) (give a)
  silent a = Replies-give 0 (λ _. 0) a refl

  sender_name-Replies :
      (kind : ChatType) (from : ℕ) → Replies 0 (λ _. 0) (sender_name e chat msg kind from)
  unfolding sender_name ask ◌>>=◌
  sender_name-Replies group from = record { count = λ b. refl }
  sender_name-Replies single from = silent []
  sender_name-Replies unknown from = silent []

  enabled_if-Replies : (there : Bool) → Replies 0 (λ _. 0) (enabled_if e chat msg there)
  enabled_if-Replies false = silent false
  enabled_if-Replies true =
      Replies-bind 0 (λ _. 0) (λ _. 0) (on_store (is_enabled chat))
        (λ r. give (enabled_or_not e chat msg r)) (Replies-store 0 _) λ r. silent _

  memory_enabled-Replies : Replies 0 (λ _. 0) (memory_enabled e chat msg)
  unfolding memory_enabled
  memory_enabled-Replies = enabled_if-Replies e.settings.memory_repository

  complete_chat-Replies :
      (has_handler : Bool) (messages : List ChatMessage)
      → Replies 0 (λ _. 0) (complete_chat e chat msg has_handler messages)
  unfolding complete_chat
  complete_chat-Replies has_handler messages = record {
    count = λ b. omega (
      arith,
      back_from-replies b (
          chat_completion e.world e.settings.max_memory_bytes chat msg
            e.settings.max_tool_iterations has_handler messages (turn_of e chat msg b)),
    );
  }
    where
      back_from-replies :
          (b : Bot) (r : Outcome ChatError ChatResponse × Turn)
          → replies (back_from e chat msg b r).1 ≡ replies b
      back_from-replies b (ok response, t) = refl
      back_from-replies b (err x, t) = refl

  run_job-Replies :
      {A : Type 0} (refused : A) (job : Do A) (taken : Bool)
      → Replies 0 (λ _. 0) job
      → Replies 0 (λ _. 0) (run_job e chat msg refused job taken)
  run_job-Replies refused job false h = silent refused
  run_job-Replies refused job true h = record {
    count = λ b. h.count (record b { store = e.others b.clock b.store });
  }

  pub execute-Replies :
      {A : Type 0} (refused : A) (job : Do A)
      → Replies 0 (λ _. 0) job
      → Replies 0 (λ _. 0) (execute e chat msg refused job)
  unfolding execute
  execute-Replies refused job h =
      Replies-bind 0 (λ _. 0) (λ _. 0) (ask e.admits) (run_job e chat msg refused job)
        (Replies-ask 0 _) λ taken. run_job-Replies refused job taken h

  complete-Replies :
      (memory : Bool) (messages : List ChatMessage)
      → Replies 0 (λ _. 0) (complete e chat msg memory messages)
  unfolding complete
  complete-Replies memory messages = go (memory && e.settings.chat_executor)
    where
      go :
          (tools : Bool)
          → Replies 0
              (λ _. 0)
              (if tools
                then execute e chat msg none (complete_chat e chat msg true messages)
                else complete_chat e chat msg false messages)
      go true =
          execute-Replies none (complete_chat e chat msg true messages)
            (complete_chat-Replies true messages)
      go false = complete_chat-Replies false messages

  reaction-Replies :
      (emoji : Text) → Replies 0 (λ _. 0) (send_reaction e msg emoji >> give (tt {0}))
  unfolding post ◌>>=◌
  reaction-Replies emoji = record { count = λ b. omega arith }

  send_tool_reaction-Replies :
      (r : ChatResponse) → Replies 0 (λ _. 0) (send_tool_reaction e chat msg r)
  unfolding send_tool_reaction
  send_tool_reaction-Replies r = go r.memory_written r.memory_read
    where
      go :
          (w d : Bool)
          → Replies 0
              (λ _. 0)
              (if w
                then (send_reaction e msg (codes "🔖") >> give (tt {0}))
                else if d
                then (send_reaction e msg (codes "📑") >> give (tt {0}))
                else give (tt {0}))
      go true d = reaction-Replies (codes "🔖")
      go false true = reaction-Replies (codes "📑")
      go false false = silent tt

  save_turn-Replies :
      (root : ℕ) (parent : Option ℕ) (content name : Text) (answer_id : ℕ) (answer : Text)
      → Replies 0 (λ _. 0) (save_turn e chat msg root parent content name answer_id answer)
  unfolding save_turn patrizio_bot.Bot.Assist.save_rows on_store ◌>>=◌
  save_turn-Replies root parent content name answer_id answer =
      elim (Bool-cases e.settings.conversation_repository) [
        | inl y ↦ rw y (record { count = λ b. refl })
        | inr n ↦ rw n (record { count = λ b. refl })
      ]

  module _ (root : ℕ) (parent : Option ℕ) where
    sent_answer-Replies :
        (content name : Text) (r : ChatResponse) (id : Option ℕ)
        → Replies 1 (λ _. 1) (sent_answer e chat msg root parent content name r id)
    sent_answer-Replies content name r none = Replies-give 1 (λ _. 1) tt refl
    sent_answer-Replies content name r (some id) = record { count = λ b. omega (arith, h.count b) }
      where
        h : Replies 0 (λ _. 0) (sent_answer e chat msg root parent content name r (some id))
        h =
            Replies-bind 0 (λ _. 0) (λ _. 0) (send_tool_reaction e chat msg r) _
              (send_tool_reaction-Replies r)
              λ _. save_turn-Replies root parent content name id r.answer

    completed-Answers :
        (content name : Text) (o : Option ChatResponse)
        → Answers (completed e chat msg root parent content name o)
    completed-Answers content name none = send_error_message-Answers e chat msg _
    completed-Answers content name (some r) =
        Replies-bind 0 (λ _. 1) (λ _. 1) (send_text_reply e chat msg r.answer)
          (sent_answer e chat msg root parent content name r)
          (send_text_reply-Replies e chat msg r.answer) (sent_answer-Replies content name r)

    converse-Answers :
        (history : List ChatMessage) (content : Text) (kind : ChatType) (from : ℕ)
        → Answers (converse e chat msg root parent history content kind from)
    unfolding converse
    converse-Answers history content kind from =
        Replies-bind 0 (λ _. 0) (λ _. 1) (sender_name e chat msg kind from) _
          (sender_name-Replies kind from)
          λ name.
            Replies-bind 0 (λ _. 0) (λ _. 1) (memory_enabled e chat msg) _ memory_enabled-Replies
              λ memory.
                Replies-bind 0 (λ _. 0) (λ _. 1) (complete e chat msg memory _)
                  (completed e chat msg root parent (display_content name content) name)
                  (complete-Replies memory _)
                  (completed-Answers (display_content name content) name)

  pub authorized-Answers : (act : Act) → Answers act → Answers (authorized e chat msg act)
  unfolding authorized
  authorized-Answers act h =
      go e.settings.ai_client (is_allowed_chat e.settings.allowed_chat_ids chat)
    where
      go :
          (there allowed : Bool)
          → Answers (
              if there
              then (if allowed then act else send_error_message e chat msg not_authorized)
              else send_error_message e chat msg not_configured)
      go false allowed = send_error_message-Answers e chat msg not_configured
      go true false = send_error_message-Answers e chat msg not_authorized
      go true true = h

  prompted-Answers :
      (kind : ChatType) (from : ℕ) (p : Parsed Text) → Answers (prompted e chat msg kind from p)
  prompted-Answers kind from (Command.err x) = send_error_message-Answers e chat msg _
  prompted-Answers kind from (Command.ok prompt) = converse-Answers msg none [] prompt kind from

  pub handle_prompt_command-Answers :
      (m : IncomingMessage) (kind : ChatType) → Answers (handle_prompt_command e chat msg m kind)
  unfolding handle_prompt_command
  handle_prompt_command-Answers m kind =
      authorized-Answers (prompted e chat msg kind m.from_id (parse_prompt_command m.body))
        (prompted-Answers kind m.from_id (parse_prompt_command m.body))

  continued-Answers :
      (m : IncomingMessage) (root : ℕ) (kind : ChatType)
      (r : Outcome ConversationError (List ChatMessage))
      → Answers (continued e chat msg m root kind r)
  continued-Answers m root kind (err x) = send_error_message-Answers e chat msg _
  continued-Answers m root kind (ok history) =
      converse-Answers root (some (quote_id e chat msg m)) history m.body kind m.from_id

  pub handle_thread_continuation-Answers :
      (m : IncomingMessage) (root : ℕ) (kind : ChatType)
      → Answers (handle_thread_continuation e chat msg m root kind)
  unfolding handle_thread_continuation get_thread_chain
  handle_thread_continuation-Answers m root kind =
      authorized-Answers (with_history e chat msg m root kind) (
        Replies-bind 0 (λ _. 0) (λ _. 1) (on_store _) (continued e chat msg m root kind)
          (Replies-store 0 _) (continued-Answers m root kind))
