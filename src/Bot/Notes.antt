-- ===== src/Bot/Notes.antt =====
-- internal/bot/handler.go: the command /memory.
pub mod Race
use patrizio_bot.Prelude.{
  ℕ, Bool, true, false, Option, none, some, List, [], ◌∷◌, ◌++◌, if◌then◌else◌,
}
use patrizio_bot.Text.{Text, codes}
use patrizio_bot.Command.{
  Parsed, MemorySubCommand, show, clear, enable, disable, parse_memory_command,
}
use patrizio_bot.Command
use patrizio_bot.Exec.{Outcome, ok, err}
use patrizio_bot.Memory.{MemoryError, Reply, set_enabled}
use patrizio_bot.Memory.Storage
use patrizio_bot.Messenger.{IncomingMessage}
use patrizio_bot.Bot.{
  Env, Do, Act, give, ◌>>=◌, ◌>>◌, on_store, send_text_reply, send_error_message,
}
use patrizio_bot.Bot.Assist.{execute, authorized}

module _ (e : Env) (chat msg : ℕ) where
  abbrev pub say : Text → Act
  say content = do send_text_reply e chat msg content; give tt

  abbrev pub shown : Outcome MemoryError Text → Act
  shown (err x) = send_error_message e chat msg (codes "Failed to read memory.")
  shown (ok []) = say (codes "(memory is empty)")
  shown (ok (c ∷ s)) = say (c ∷ s)

  abbrev pub reply_or_none : Outcome MemoryError Reply → Option Reply
  reply_or_none (ok reply) = some reply
  reply_or_none (err x) = none

  abbrev pub clear_job : Text → Do (Option Reply)
  clear_job content = do
    r ← on_store (Storage.clear e.world.checksum content chat msg)
    give (reply_or_none r)

  -- Without an error the reply is not looked at; with one, `clearMsg` is "".
  abbrev pub reported : Option Reply → Act
  reported none = send_error_message e chat msg []
  reported (some reply) = say (codes "Memory cleared.")

  unfoldable pub with_content : Outcome MemoryError Text → Act
  unfolding execute Storage.clear
  with_content (err x) = send_error_message e chat msg (codes "Failed to clear memory.")
  with_content (ok content) = do
    reply ←
        if e.settings.chat_executor
        then execute e chat msg none (clear_job content)
        else clear_job content
    reported reply

  abbrev pub switched : Text → Text → Outcome MemoryError (Unit {0}) → Act
  switched failed done (err x) = send_error_message e chat msg failed
  switched failed done (ok _) = say done

  unfoldable pub memory_show : Act
  unfolding Storage.read send_error_message
  memory_show = do r ← on_store (Storage.read e.world.checksum chat msg); shown r

  unfoldable pub memory_clear : Act
  unfolding Storage.read Storage.clear execute send_error_message
  memory_clear = do r ← on_store (Storage.read e.world.checksum chat msg); with_content r

  unfoldable pub memory_switch : Bool → Text → Text → Act
  unfolding set_enabled send_error_message
  memory_switch enabled failed done = do
    r ← on_store (set_enabled chat enabled)
    switched failed done r

  unfoldable pub by_sub_command : MemorySubCommand → Act
  unfolding memory_show memory_clear memory_switch
  by_sub_command show = memory_show
  by_sub_command clear = memory_clear
  by_sub_command enable =
      memory_switch true (codes "Failed to enable memory.") (codes "Memory enabled.")
  by_sub_command disable =
      memory_switch false (codes "Failed to disable memory.") (codes "Memory disabled.")

  abbrev pub with_memory_command : Parsed MemorySubCommand → Act
  with_memory_command (Command.err x) =
      send_error_message e chat msg (codes "Invalid command: " ++ e.show_parse x)
  with_memory_command (Command.ok sub) = by_sub_command sub

  unfoldable pub handle_memory_command : IncomingMessage → Act
  unfolding memory_show memory_clear memory_switch authorized parse_memory_command
      send_error_message
  handle_memory_command m =
      if e.settings.memory_repository
      then authorized e chat msg (with_memory_command (parse_memory_command m.body))
      else send_error_message e chat msg (codes "Memory is not configured.")
