-- ===== src/Bot.antt =====
-- What the handlers of internal/bot/handler.go work on: the tables, the memories, the media files and
-- the chat. A handler returns nothing and logs its errors, so it is a function from the state to the
-- state, written with do blocks; logging is left out.
pub mod Replies
pub mod Filters
pub mod Listing
pub mod Assist
pub mod Notes
pub mod Dispatch
use patrizio_bot.Prelude.{
  ℕ, suc, Bool, true, false, Option, none, some, List, [], ◌∷◌, ℤ, if◌then◌else◌,
}
use patrizio_bot.Text.{Text}
use patrizio_bot.Trigger.{Unicode}
use patrizio_bot.Command.{ParseError}
use patrizio_bot.Exec.{Outcome, ok, err, Exec}
use patrizio_bot.Sqlite.Db.{Engine, Session}
use patrizio_bot.Sqlite.Repository.{RepoError, Repo}
use patrizio_bot.Store.{Store}
use patrizio_bot.Assistant.{World}
use patrizio_bot.Messenger.{
  Rpc, Sent, text_reply, media_reply, reaction_to, text_message, IncomingMessage, ChatType,
  fetch_message, fetch_chat_type, fetch_contact_display_name, map_media_type_to_view_type, ViewType,
}
use patrizio_bot.Media.{Files}

-- domain.Config, and which of the optional parts of domain.Dependencies are there
pub record Settings : Type 0 where
  pub ai_client : Bool
  pub conversation_repository : Bool
  pub memory_repository : Bool
  pub chat_executor : Bool
  pub allowed_chat_ids : List ℤ
  pub system_prompt : Text
  pub max_history : ℕ
  pub max_tool_iterations : ℕ
  pub max_memory_bytes : ℕ
  pub media_path : Text

-- What is outside the repository: what answers at a time, and the texts of errors. `admits` says
-- whether the executor still takes a job, and `others` what the jobs before it do. `elsewhere` is what the
-- goroutines of other messages do to the tables and the media files at a time.
pub record Env : Type 0 where
  pub settings : Settings
  pub rpc : Rpc
  pub unicode : Unicode
  pub engine : Engine
  pub world : World
  pub os_read_file : ℕ → Text → Option Text
  pub disk_works : ℕ → Bool
  pub partly_written : Text → Option Text → Option Text
  pub sha512_hex : Text → Text
  pub extension : Text → Text
  pub admits : ℕ → Bool
  pub others : ℕ → Store → Store
  pub elsewhere : ℕ → Session → Files → Session × Files
  pub show_parse : ParseError → Text
  pub show_repo : RepoError → Text
  pub show_trigger : Text
  pub show_call : ℕ → Text

-- The outbox has the newest first, each with whether it was delivered. `crashed` stands for a panic of the
-- handler's goroutine, which nothing recovers.
pub record Bot : Type 0 where
  pub session : Session
  pub store : Store
  pub files : Files
  pub requests : ℕ
  pub clock : ℕ
  pub outbox : List (Sent × Bool)
  pub crashed : Bool

abbrev pub Do : Type 0 → Type 0
Do A = Bot → A × Bot

abbrev pub Act : Type 0
Act = Do (Unit {0})

module _ {A : Type 0} where
  abbrev pub give : A → Do A
  give a b = (a, b)

module _ {A B : Type 0} where
  infixl 10 ◌>>=◌ ◌>>◌
  unfoldable pub ◌>>=◌ : Do A → (A → Do B) → Do B
  ◌>>=◌ m f b = let r = m b in f r.0 r.1

  abbrev pub ◌>>◌ : Do A → Do B → Do B
  m >> n = m >>= λ _. n

module _ {A : Type 0} where
  -- A call outside that changes nothing here, at its time.
  unfoldable pub ask : (ℕ → A) → Do A
  ask f b = (f b.clock, record b { clock = suc b.clock })

module _ {E A : Type 0} where
  unfoldable pub on_session : Exec Session E A → Do (Outcome E A)
  on_session m b = let r = m b.session in (r.0, record b { session = r.1 })

  unfoldable pub on_store : Exec Store E A → Do (Outcome E A)
  on_store m b = let r = m b.store in (r.0, record b { store = r.1 })

module _ {A : Type 0} where
  unfoldable pub on_files : (Bool → Files → A × Files) → (ℕ → Bool) → Do A
  on_files f works b =
      let r = f (works b.clock) b.files in (r.0, record b { files = r.1; clock = suc b.clock })

  abbrev pub arrived : Option A → Bool
  arrived none = false
  arrived (some a) = true

module _ (e : Env) where
  -- The goroutines of other messages run.
  unfoldable pub run_elsewhere : Act
  run_elsewhere b =
      let r = e.elsewhere b.clock b.session b.files in (tt, record b { session = r.0; files = r.1 })

  -- The adapter sends; `none` is an error.
  unfoldable pub post : Sent → Do (Option ℕ)
  post sent b =
      let r = e.rpc.post b.clock sent in
      (r, record b { clock = suc b.clock; outbox = (sent, arrived r) ∷ b.outbox })

  abbrev pub send_text_reply : ℕ → ℕ → Text → Do (Option ℕ)
  send_text_reply chat to content = post (text_reply chat to content)

  -- An unknown media type is an error before anything is sent.
  abbrev pub send_as : ℕ → ℕ → Text → Option ViewType → Do (Option ℕ)
  send_as chat to path none = give none
  send_as chat to path (some view) = post (media_reply chat to path view)

  unfoldable pub send_media_reply : ℕ → ℕ → Text → Text → Do (Option ℕ)
  unfolding map_media_type_to_view_type
  send_media_reply chat to path kind = send_as chat to path (map_media_type_to_view_type kind)

  abbrev pub send_reaction : ℕ → Text → Do Bool
  send_reaction msg emoji = do r ← post (reaction_to msg emoji); give (arrived r)

  abbrev pub send_text_message : ℕ → Text → Do Bool
  send_text_message chat content = do r ← post (text_message chat content); give (arrived r)

  -- sendErrorMessage and sendConfirmation
  unfoldable pub send_error_message : ℕ → ℕ → Text → Act
  send_error_message chat to message = do send_text_reply chat to message; give tt

  unfoldable pub send_confirmation : ℕ → ℕ → Text → Act
  send_confirmation chat to message = do send_text_reply chat to message; give tt

  unfoldable pub fetch : ℕ → Do (Option IncomingMessage)
  unfolding fetch_message
  fetch id = ask λ now. fetch_message e.rpc now id
