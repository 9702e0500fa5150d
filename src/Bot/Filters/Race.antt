-- ===== src/Bot/Filters/Race.antt =====
-- The removal of a media file runs behind the commit of /stop, beside the goroutines of other messages.
use patrizio_bot.Prelude.{ℕ, ◌≡◌, refl, Bool, true, none, some, List, any}
use patrizio_bot.Text.{Text, text_eq}
use patrizio_bot.Text.Laws.{text_eq_refl}
use patrizio_bot.Trigger.{normalize_trigger}
use patrizio_bot.Command.{parse_stop_command}
use patrizio_bot.Command
use patrizio_bot.Exec.{ok}
use patrizio_bot.Sqlite.Db.{MediaRow, Session}
use patrizio_bot.Sqlite.Repository.{remove_trigger}
use patrizio_bot.Media.{path, put}
use patrizio_bot.Messenger.{IncomingMessage}
use patrizio_bot.Bot.{Env, Bot, ◌>>=◌, on_session, on_files, run_elsewhere, post, send_confirmation}
use patrizio_bot.Bot.Filters.{with_stop_command, handle_stop_command}

-- A media filter of some chat answers with this file.
abbrev pub is_used : Text → List MediaRow → Bool
is_used hash rows = any (λ r. text_eq r.media_hash hash) rows

module _ (e : Env) (chat to : ℕ) where
  -- /stop removes the last trigger of the last media filter with a hash, and between its commit and the
  -- removal of the file, the goroutine of another message creates a media filter with the same hash
  -- and saves its file. Then the file is removed all the same: behind /stop a media filter names a
  -- file that is gone. Removing a file works at that time.
  pub handle_stop_command_race :
      (m : IncomingMessage) (b : Bot) (trigger hash content : Text) (t : Session)
      → parse_stop_command m.body ≡ Command.ok trigger
      → remove_trigger e.unicode chat (normalize_trigger e.unicode trigger) b.session
        ≡ (ok (some hash), t)
      → is_used hash (e.elsewhere b.clock t b.files).0.db.medias ≡ true
      → (e.elsewhere b.clock t b.files).1 (path e.settings.media_path hash) ≡ some content
      → e.disk_works b.clock ≡ true
      → (is_used hash (handle_stop_command e chat to m b).1.session.db.medias ≡ true)
        × ((handle_stop_command e chat to m b).1.files (path e.settings.media_path hash) ≡ none)
  unfolding handle_stop_command with_stop_command ◌>>=◌ on_session on_files run_elsewhere post
      send_confirmation put
  handle_stop_command_race m b trigger hash content t parses removes used there works = rw parses (
      rw removes
        (rw works (rw there (used, rw (text_eq_refl (path e.settings.media_path hash)) refl))))
