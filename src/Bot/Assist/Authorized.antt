-- ===== src/Bot/Assist/Authorized.antt =====
-- A chat that may not use the assistant.
use patrizio_bot.Prelude.{ℕ, ◌≡◌, refl, Bool, true, false, ◌&&◌, if◌then◌else◌}
use patrizio_bot.Text.{Text}
use patrizio_bot.Bot.{Env, Bot, Act, post, ◌>>=◌, send_error_message}
use patrizio_bot.Bot.Assist.{is_allowed_chat, not_configured, not_authorized, authorized}

-- Nothing of the chat was read or written, the model was not asked, and nothing panicked.
pub record Kept (b t : Bot) : Type 0 where
  pub session : t.session ≡ b.session
  pub store : t.store ≡ b.store
  pub files : t.files ≡ b.files
  pub requests : t.requests ≡ b.requests
  pub crashed : t.crashed ≡ b.crashed

module _ (e : Env) (chat msg : ℕ) where
  pub send_error_message-Kept : (s : Text) (b : Bot) → Kept b (send_error_message e chat msg s b).1
  unfolding send_error_message ◌>>=◌ post
  send_error_message-Kept s b = record {
    session = refl;
    store = refl;
    files = refl;
    requests = refl;
    crashed = refl;
  }

  pub authorized-Kept :
      (act : Act) (b : Bot)
      → e.settings.ai_client && is_allowed_chat e.settings.allowed_chat_ids chat ≡ false
      → Kept b (authorized e chat msg act b).1
  unfolding authorized
  authorized-Kept act b = go e.settings.ai_client (is_allowed_chat e.settings.allowed_chat_ids chat)
    where
      go :
          (there allowed : Bool)
          → there && allowed ≡ false
          → Kept b
              ((if there
                  then (if allowed then act else send_error_message e chat msg not_authorized)
                  else send_error_message e chat msg not_configured)
                b).1
      go false allowed h = send_error_message-Kept not_configured b
      go true false h = send_error_message-Kept not_authorized b
      go true true h = cc
