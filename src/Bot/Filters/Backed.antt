-- ===== src/Bot/Filters/Backed.antt =====
-- The files of the media filters behind /stop.
use patrizio_bot.Prelude.{
  ℕ, ◌≡◌, refl, sym, ap, ◌∙◌, subst, Bool, true, false, Option, none, some, List, [], ◌∷◌, count_if,
  Bool-cases, inl, inr, arith,
}
use mathlib.Core.Bool.{false≢true}
use patrizio_bot.Text.{Text, text_eq}
use patrizio_bot.Text.Laws.{text_eq_iff}
use patrizio_bot.Trigger.{normalize_trigger}
use patrizio_bot.Command.{Parsed, parse_stop_command}
use patrizio_bot.Command
use patrizio_bot.Exec.{Outcome, ok, err}
use patrizio_bot.Sqlite.Db.{MediaRow, Session}
use patrizio_bot.Sqlite.Repository.{RepoError, remove_trigger}
use patrizio_bot.Sqlite.Repository.Sound.{IsSound}
use patrizio_bot.Sqlite.Repository.Remove.{HashFree, remove_trigger-Removed}
use patrizio_bot.Sqlite.Repository.Hashes.{HashesAre, remove_trigger-HashIs}
use patrizio_bot.Paths.{join_path}
use patrizio_bot.Paths.Laws.{IsPlain, text_eq-join_path}
use patrizio_bot.Media.{Files, path, remove_path, remove_found}
use patrizio_bot.Media.Laws.{put-other}
use patrizio_bot.Messenger.{IncomingMessage}
use patrizio_bot.Bot.{
  Env, Bot, ◌>>=◌, on_session, on_files, run_elsewhere, post, send_error_message, send_confirmation,
}
use patrizio_bot.Bot.Filters.{removed, with_stop_command, handle_stop_command}
use patrizio_bot.Bot.Filters.Race.{is_used}

-- The goroutines of other messages create no filter with this hash, and leave its file alone.
pub record SparesHash (e : Env) (hash : Text) : Type 0 where
  pub no_new_filter :
      (now : ℕ) (s : Session) (f : Files)
      → is_used hash (e.elsewhere now s f).0.db.medias ≡ true
      → is_used hash s.db.medias ≡ true
  pub same_file :
      (now : ℕ) (s : Session) (f : Files)
      → (e.elsewhere now s f).1 (path e.settings.media_path hash)
        ≡ f (path e.settings.media_path hash)

used_count :
    (hash : Text) (rows : List MediaRow)
    → count_if (λ r. text_eq r.media_hash hash) rows ≡ 0
    → is_used hash rows ≡ false
used_count hash [] h = refl
used_count hash (r ∷ rows) h = ground (arith, h, used_count hash rows)

remove_path-other :
    (works : Bool) (file_path other : Text) (files : Files)
    → text_eq other file_path ≡ false
    → (remove_path works file_path files).1 other ≡ files other
remove_path-other false file_path other files n = refl
remove_path-other true file_path other files n = found (files file_path)
  where
    found : (held : Option Text) → (remove_found held file_path files).1 other ≡ files other
    found none = refl
    found (some content) = put-other file_path other none files n

-- A hash that some row uses is not one that no row uses.
used-other :
    (hash other : Text) (rows : List MediaRow)
    → count_if (λ r. text_eq r.media_hash hash) rows ≡ 0
    → is_used other rows ≡ true
    → text_eq other hash ≡ false
used-other hash other rows free used = elim (Bool-cases (text_eq other hash)) [
  | inl y ↦ absurd (
      false≢true (
        sym (used_count hash rows free)
        ∙ ap (λ h. is_used h rows) (sym ((text_eq_iff other hash).0 y))
        ∙ used))
  | inr n ↦ n
]

module _ (e : Env) (chat to : ℕ) (other : Text) (plain : IsPlain other)
    (spares : SparesHash e other) where
  removed-files :
      (trigger : Text) (r : Outcome RepoError (Option Text)) (b : Bot)
      → ((hash : Text) → r ≡ ok (some hash) → IsPlain hash)
      → ((hash : Text)
          → r ≡ ok (some hash)
          → is_used other b.session.db.medias ≡ true
          → text_eq other hash ≡ false)
      → is_used other (removed e chat to trigger r b).1.session.db.medias ≡ true
      → (removed e chat to trigger r b).1.files (path e.settings.media_path other)
        ≡ b.files (path e.settings.media_path other)
  unfolding ◌>>=◌ on_files run_elsewhere post send_error_message send_confirmation
  removed-files trigger (err x) b p n used = refl
  removed-files trigger (ok none) b p n used = refl
  removed-files trigger (ok (some hash)) b p n used =
      let base = e.settings.media_path in
      let before = spares.no_new_filter b.clock b.session b.files used in
      remove_path-other (e.disk_works b.clock) (join_path base hash) (join_path base other)
        (e.elsewhere b.clock b.session b.files).1
        (text_eq-join_path base other hash plain (p hash refl) ∙ n hash refl before)
      ∙ spares.same_file b.clock b.session b.files

  with_stop_command-files :
      (p : Parsed Text) (b : Bot)
      → IsSound b.session.db
      → b.session.foreign_keys ≡ true
      → HashesAre IsPlain b.session.db
      → is_used other (with_stop_command e chat to p b).1.session.db.medias ≡ true
      → (with_stop_command e chat to p b).1.files (path e.settings.media_path other)
        ≡ b.files (path e.settings.media_path other)
  unfolding with_stop_command ◌>>=◌ on_session post send_error_message
  with_stop_command-files (Command.err x) b sound keys hashes used = refl
  with_stop_command-files (Command.ok trigger) b sound keys hashes used =
      let name = normalize_trigger e.unicode trigger in
      let r = remove_trigger e.unicode chat name b.session in
      removed-files trigger r.0 (record b { session = r.1 })
        (λ hash h.
          remove_trigger-HashIs IsPlain e.unicode chat name b.session r.1 (some hash) hashes
            (ap (λ o. (o, r.1)) h))
        (λ hash h still.
          let free : HashFree b.session.foreign_keys (some hash) r.1.db =
            (remove_trigger-Removed e.unicode chat name b.session r.1 (some hash) sound
              (ap (λ o. (o, r.1)) h)).1 in
          used-other hash other r.1.db.medias (subst (λ k. HashFree k (some hash) r.1.db) keys free)
            still)
        used

module _ (e : Env) (chat to : ℕ) where
  -- With foreign keys on, sound tables and hashes that are plain file names, /stop leaves the file of
  -- every hash that a media filter of any chat names behind it, whether it removes a trigger or fails.
  -- Between its commit and the removal of a file, the goroutines of other messages create no filter
  -- with that hash and leave its file alone.
  pub files-handle_stop_command :
      (m : IncomingMessage) (b : Bot) (other : Text)
      → SparesHash e other
      → IsPlain other
      → IsSound b.session.db
      → b.session.foreign_keys ≡ true
      → HashesAre IsPlain b.session.db
      → is_used other (handle_stop_command e chat to m b).1.session.db.medias ≡ true
      → (handle_stop_command e chat to m b).1.files (path e.settings.media_path other)
        ≡ b.files (path e.settings.media_path other)
  unfolding handle_stop_command
  files-handle_stop_command m b other spares plain sound keys hashes used =
      with_stop_command-files e chat to other plain spares (parse_stop_command m.body) b sound keys
        hashes used
