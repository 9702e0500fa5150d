-- ===== src/Bot/Filters/Stopped.antt =====
-- How many texts /stop and /stopall send.
use patrizio_bot.Prelude.{ℕ, refl, ◌++◌, Option, none, some, List, [], ◌∷◌}
use patrizio_bot.Text.{Text, codes}
use patrizio_bot.Trigger.{normalize_trigger}
use patrizio_bot.Command.{
  Parsed, FilterCommand, Response, text, media, reaction, parse_filter_command, parse_stop_command,
}
use patrizio_bot.Command
use patrizio_bot.Exec.{Outcome, ok, err}
use patrizio_bot.Sqlite.Repository.{RepoError, remove_trigger, remove_all_filters}
use patrizio_bot.Messenger.{IncomingMessage}
use patrizio_bot.Bot.{Env, give, on_session, on_files, run_elsewhere}
use patrizio_bot.Bot.Replies.{
  Replies, Answers, Replies-bind, Replies-give, Replies-session, Replies-files,
  run_elsewhere-Replies, send_error_message-Answers, send_confirmation-Answers,
}
use patrizio_bot.Bot.Filters.{
  clean_up, removed, with_stop_command, handle_stop_command, clean_up_all, removed_all,
  handle_stop_all_command,
}

module _ (e : Env) (chat to : ℕ) where
  clean_up-Replies : (hash : Text) → Replies 0 (λ _. 0) (clean_up e chat to hash)
  clean_up-Replies hash =
      Replies-bind 0 (λ _. 0) (λ _. 0) (run_elsewhere e) _ (run_elsewhere-Replies e)
        λ _.
          Replies-bind 0 (λ _. 0) (λ _. 0) (on_files _ e.disk_works) (λ _. give tt)
            (Replies-files 0 _ _) λ _. Replies-give 0 (λ _. 0) tt refl

  clean_up_all-Replies : (hashes : List Text) → Replies 0 (λ _. 0) (clean_up_all e chat to hashes)
  unfolding clean_up_all
  clean_up_all-Replies [] = Replies-give 0 (λ _. 0) tt refl
  clean_up_all-Replies (hash ∷ hashes) =
      Replies-bind 0 (λ _. 0) (λ _. 0) (clean_up e chat to hash)
        (λ _. clean_up_all e chat to hashes) (clean_up-Replies hash)
        λ _. clean_up_all-Replies hashes

  removed-Answers :
      (t : Text) (r : Outcome RepoError (Option Text)) → Answers (removed e chat to t r)
  removed-Answers t (err x) = send_error_message-Answers e chat to _
  removed-Answers t (ok none) = send_confirmation-Answers e chat to _
  removed-Answers t (ok (some hash)) =
      Replies-bind 0 (λ _. 0) (λ _. 1) (clean_up e chat to hash) _ (clean_up-Replies hash)
        λ _. send_confirmation-Answers e chat to (codes "✅ Trigger '" ++ t ++ codes "' removed")

  with_stop_command-Answers : (p : Parsed Text) → Answers (with_stop_command e chat to p)
  unfolding with_stop_command normalize_trigger remove_trigger
  with_stop_command-Answers (Command.err x) = send_error_message-Answers e chat to _
  with_stop_command-Answers (Command.ok t) =
      Replies-bind 0 (λ _. 0) (λ _. 1) (on_session _) (removed e chat to t) (Replies-session 0 _)
        (removed-Answers t)

  pub handle_stop_command-Answers :
      (m : IncomingMessage) → Answers (handle_stop_command e chat to m)
  unfolding handle_stop_command
  handle_stop_command-Answers m = with_stop_command-Answers (parse_stop_command m.body)

  removed_all-Answers : (r : Outcome RepoError (List Text)) → Answers (removed_all e chat to r)
  removed_all-Answers (err x) = send_error_message-Answers e chat to _
  removed_all-Answers (ok hashes) =
      Replies-bind 0 (λ _. 0) (λ _. 1) (clean_up_all e chat to hashes) _
        (clean_up_all-Replies hashes)
        λ _. send_confirmation-Answers e chat to (codes "✅ All filters removed from this chat")

  pub handle_stop_all_command-Answers : Answers (handle_stop_all_command e chat to)
  unfolding handle_stop_all_command
  handle_stop_all_command-Answers =
      Replies-bind 0 (λ _. 0) (λ _. 1) (on_session (remove_all_filters e.engine chat))
        (removed_all e chat to) (Replies-session 0 _) removed_all-Answers
