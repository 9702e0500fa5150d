-- ===== src/Bot/Dispatch/Unauthorized.antt =====
-- The assistant's commands in a chat that may not use it.
use patrizio_bot.Prelude.{ℕ, ◌≡◌, Bool, true, false, ◌&&◌, if◌then◌else◌}
use patrizio_bot.Text.{codes}
use patrizio_bot.Command.{parse_memory_command}
use patrizio_bot.Messenger.{IncomingMessage, ChatType}
use patrizio_bot.Bot.{Env, Bot, send_error_message}
use patrizio_bot.Bot.Assist.{
  is_allowed_chat, authorized, handle_prompt_command, handle_thread_continuation,
}
use patrizio_bot.Bot.Assist.Authorized.{Kept, send_error_message-Kept, authorized-Kept}
use patrizio_bot.Bot.Notes.{with_memory_command, handle_memory_command}

module _ (e : Env) (chat msg : ℕ) where
  handle_memory_command-Kept :
      (m : IncomingMessage) (b : Bot)
      → e.settings.ai_client && is_allowed_chat e.settings.allowed_chat_ids chat ≡ false
      → Kept b (handle_memory_command e chat msg m b).1
  unfolding handle_memory_command
  handle_memory_command-Kept m b h = go e.settings.memory_repository
    where
      go :
          (there : Bool)
          → Kept b
              ((if there
                  then authorized e chat msg
                      (with_memory_command e chat msg (parse_memory_command m.body))
                  else send_error_message e chat msg (codes "Memory is not configured."))
                b).1
      go true = authorized-Kept e chat msg _ b h
      go false = send_error_message-Kept e chat msg _ b

  -- Where no AI client is set, or a list of allowed chats does not have the chat, /prompt, a reply in a
  -- thread and /memory change no table, no memory and no media file, save no message, and ask the
  -- model nothing.
  pub handle_prompt_command-Kept :
      (m : IncomingMessage) (kind : ChatType) (root : ℕ) (b : Bot)
      → e.settings.ai_client && is_allowed_chat e.settings.allowed_chat_ids chat ≡ false
      → Kept b (handle_prompt_command e chat msg m kind b).1
        × Kept b (handle_thread_continuation e chat msg m root kind b).1
        × Kept b (handle_memory_command e chat msg m b).1
  unfolding handle_prompt_command handle_thread_continuation
  handle_prompt_command-Kept m kind root b h = (
    authorized-Kept e chat msg _ b h,
    authorized-Kept e chat msg _ b h,
    handle_memory_command-Kept m b h,
  )
