-- ===== src/Bot/Filters/Lost.antt =====
-- The file of a media filter that could not be created.
use patrizio_bot.Prelude.{ℕ, ◌≡◌, refl, true, Option, none, some, List}
use patrizio_bot.Text.{Text}
use patrizio_bot.Text.Laws.{text_eq_refl}
use patrizio_bot.Exec.{err}
use patrizio_bot.Sqlite.Db.{Session}
use patrizio_bot.Sqlite.Repository.{RepoError, create_media_filter}
use patrizio_bot.Sqlite.Repository.Atomic.{create_media, error_changes_nothing}
use patrizio_bot.Media.{Files, path, put, remove_found}
use patrizio_bot.Bot.{Env, Bot, ◌>>=◌, on_session, on_files, post, send_error_message}
use patrizio_bot.Bot.Filters.{with_hash}

remove_found-none :
    (held : Option Text) (hash : Text) (files : Files)
    → files hash ≡ held
    → (remove_found held hash files).1 hash ≡ none
unfolding put
remove_found-none none hash files h = h
remove_found-none (some content) hash files h = rw (text_eq_refl hash) refl

module _ (e : Env) (chat to : ℕ) (ts ns : List Text) (kind hash : Text) where
  -- When the creation of a media filter fails, the tables stay what they were, and the file with the
  -- hash of the media is gone, whichever filters' rows name it; removing a file works at that time.
  pub with_hash_err :
      (b : Bot) (x : RepoError) (t : Session)
      → create_media_filter e.engine e.unicode chat ns hash kind b.session ≡ (err x, t)
      → e.disk_works b.clock ≡ true
      → ((with_hash e chat to ts ns kind (some hash) b).1.session.db ≡ b.session.db)
        × ((with_hash e chat to ts ns kind (some hash) b).1.files (path e.settings.media_path hash)
            ≡ none)
  unfolding with_hash on_session on_files ◌>>=◌ post send_error_message
  with_hash_err b x t fails works = rw fails (
      rw works (
        error_changes_nothing e.engine e.unicode (create_media chat ns hash kind) b.session t x
            fails,
        let file_path = path e.settings.media_path hash in
            remove_found-none (b.files file_path) file_path b.files refl,
      ))
