-- ===== src/Bot/Filters/Answered.antt =====
-- How many texts /filter sends.
use patrizio_bot.Prelude.{
  ℕ, ◌≡◌, refl, sym, ◌++◌, Bool, true, false, Option, none, some, List, [], ◌∷◌, if◌then◌else◌,
  Bool-cases, inl, inr,
}
use patrizio_bot.Text.{Text, codes, is_empty}
use patrizio_bot.Trigger.{validate_trigger}
use patrizio_bot.Command.{
  Parsed, FilterCommand, Response, text, media, reaction, parse_filter_command, parse_stop_command,
}
use patrizio_bot.Command
use patrizio_bot.Exec.{Outcome, ok, err}
use patrizio_bot.Sqlite.Repository.{RepoError, create_media_filter}
use patrizio_bot.Messenger.{
  fetch_message, IncomingMessage, DownloadState, download_done, download_available, download_other,
}
use patrizio_bot.Bot.{fetch, Env, give, ◌>>=◌, ask, on_session, on_files, send_error_message}
use patrizio_bot.Bot.Replies.{
  Replies, Answers, Replies-bind, Replies-give, Replies-ask, Replies-session, Replies-files,
  send_error_message-Answers, send_confirmation-Answers,
}
use patrizio_bot.Bot.Filters.{
  fail, fail_call, quote_id, trigger_list, validate_triggers, validate_and_normalize_triggers,
  report, handle_text_filter_creation, handle_reaction_filter_creation, complete_only, refetched,
  downloaded, by_state, download_media_if_needed, saved, was_read, process_media_file,
  media_created, with_hash, with_media, supported, quoted, resolve, handle_media_filter_creation,
  by_response, with_triggers, with_filter_command, handle_filter_command,
}

-- No result means that the reply was sent.
abbrev owed : {A : Type 0} → Option A → ℕ
owed none = 1
owed (some a) = 0

abbrev failed : Bool → ℕ
failed true = 0
failed false = 1

module _ (e : Env) (chat to : ℕ) where
  fail-Replies :
      {A : Type 0} (n : A → ℕ) (a : A) (s : Text) → n a ≡ 1 → Replies 0 n (fail e chat to a s)
  fail-Replies n a s h =
      Replies-bind 0 (λ _. 1) n (send_error_message e chat to s) (λ _. give a)
        (send_error_message-Answers e chat to s) (λ _. Replies-give 1 n a (sym h))

  fail_call-Replies :
      {A : Type 0} (n : A → ℕ) (a : A) (s : Text) → n a ≡ 1 → Replies 0 n (fail_call e chat to a s)
  fail_call-Replies n a s h = record {
    count = λ b. (fail-Replies n a (s ++ e.show_call b.clock) h).count b;
  }

  validate_triggers-Replies : (ts : List Text) → Replies 0 failed (validate_triggers e chat to ts)
  unfolding validate_triggers
  validate_triggers-Replies [] = Replies-give _ _ _ refl
  validate_triggers-Replies (t ∷ ts) = elim (Bool-cases (validate_trigger e.unicode t)) [
    | inl y ↦ rw y (validate_triggers-Replies ts)
    | inr n ↦ rw n (fail-Replies failed false _ refl)
  ]

  if_some :
      {A : Type 0} (v : Bool) (a : A) → Replies (failed v) owed (give (if v then some a else none))
  if_some true a = Replies-give _ _ _ refl
  if_some false a = Replies-give _ _ _ refl

  validate_and_normalize_triggers-Replies :
      (ts : List Text) → Replies 0 owed (validate_and_normalize_triggers e chat to ts)
  unfolding validate_and_normalize_triggers
  validate_and_normalize_triggers-Replies ts =
      Replies-bind 0 failed owed (validate_triggers e chat to ts) _ (validate_triggers-Replies ts)
        λ v. if_some v _

  report-Answers :
      (f c : Text) (r : Outcome RepoError (Unit {0})) → Answers (report e chat to f c r)
  report-Answers f c (ok x) = send_confirmation-Answers e chat to c
  report-Answers f c (err x) = send_error_message-Answers e chat to _

  handle_text_filter_creation-Answers :
      (ts : List Text) (s : Text) (ns : List Text) (media_too : Bool)
      → Answers (handle_text_filter_creation e chat to ts s ns media_too)
  unfolding handle_text_filter_creation
  handle_text_filter_creation-Answers ts s ns true = send_error_message-Answers e chat to _
  handle_text_filter_creation-Answers ts s ns false =
      Replies-bind 0 (λ _. 0) (λ _. 1) (on_session _) _ (Replies-session 0 _)
        (report-Answers (codes "❌ Failed to create filter: ")
          (codes "✅ Filter created! Triggers: " ++ trigger_list e chat to ts))

  handle_reaction_filter_creation-Answers :
      (ts : List Text) (s : Text) (ns : List Text)
      → Answers (handle_reaction_filter_creation e chat to ts s ns)
  unfolding handle_reaction_filter_creation
  handle_reaction_filter_creation-Answers ts s ns =
      Replies-bind 0 (λ _. 0) (λ _. 1) (on_session _) _ (Replies-session 0 _)
        (report-Answers (codes "❌ Failed to create reaction filter: ") (
          codes "✅ Reaction filter created! Triggers: "
          ++ trigger_list e chat to ts
          ++ codes " → "
          ++ s))

  complete_only-Replies :
      (d : DownloadState) (m : IncomingMessage) → Replies 0 owed (complete_only e chat to d m)
  complete_only-Replies download_done m = Replies-give _ _ _ refl
  complete_only-Replies download_available m = fail-Replies owed none _ refl
  complete_only-Replies (download_other s) m = fail-Replies owed none _ refl

  refetched-Replies : (o : Option IncomingMessage) → Replies 0 owed (refetched e chat to o)
  refetched-Replies none = fail-Replies owed none _ refl
  refetched-Replies (some m) = complete_only-Replies m.download_state m

  fetch-Replies : (id : ℕ) → Replies 0 (λ _. 0) (fetch e id)
  unfolding fetch_message fetch
  fetch-Replies id = Replies-ask 0 (λ now. fetch_message e.rpc now id)

  downloaded-Replies : (id : ℕ) (d : Bool) → Replies 0 owed (downloaded e chat to id d)
  downloaded-Replies id false =
      fail_call-Replies owed none (codes "❌ Failed to download media: ") refl
  downloaded-Replies id true =
      Replies-bind 0 (λ _. 0) owed (fetch e id) (refetched e chat to) (fetch-Replies id)
        refetched-Replies

  by_state-Replies :
      (d : DownloadState) (m : IncomingMessage) (id : ℕ)
      → Replies 0 owed (by_state e chat to d m id)
  by_state-Replies download_done m id = Replies-give _ _ _ refl
  by_state-Replies (download_other s) m id = fail-Replies owed none _ refl
  by_state-Replies download_available m id =
      Replies-bind 0 (λ _. 0) owed (ask _) _ (Replies-ask 0 _) (downloaded-Replies id)

  download_media_if_needed-Replies :
      (m : IncomingMessage) (id : ℕ) → Replies 0 owed (download_media_if_needed e chat to m id)
  unfolding download_media_if_needed
  download_media_if_needed-Replies m id = by_state-Replies m.download_state m id

  saved-Replies : (hash : Text) (d : Bool) → Replies 0 owed (saved e chat to hash d)
  saved-Replies hash true = Replies-give _ _ _ refl
  saved-Replies hash false =
      fail_call-Replies owed none (codes "❌ Failed to save media file: ") refl

  was_read-Replies : (path : Text) (o : Option Text) → Replies 0 owed (was_read e chat to path o)
  was_read-Replies path none =
      fail_call-Replies owed none (codes "❌ Failed to read media file: ") refl
  was_read-Replies path (some held) =
      Replies-bind 0 (λ _. 0) owed (on_files _ e.disk_works) _ (Replies-files 0 _ _)
        (saved-Replies _)

  process_media_file-Replies : (path : Text) → Replies 0 owed (process_media_file e chat to path)
  unfolding process_media_file
  process_media_file-Replies [] = fail-Replies owed none _ refl
  process_media_file-Replies (c ∷ path) =
      Replies-bind 0 (λ _. 0) owed (ask _) _ (Replies-ask 0 _) (was_read-Replies (c ∷ path))

  media_created-Answers :
      (hash kind : Text) (ts : List Text) (r : Outcome RepoError (Unit {0}))
      → Answers (media_created e chat to hash kind ts r)
  media_created-Answers hash kind ts (ok x) = send_confirmation-Answers e chat to _
  media_created-Answers hash kind ts (err x) =
      Replies-bind 0 (λ _. 0) (λ _. 1) (on_files _ e.disk_works) _ (Replies-files 0 _ _)
        λ _.
          send_error_message-Answers e chat to
            (codes "❌ Failed to create media filter: " ++ e.show_repo x)

  with_hash-Replies :
      (ts ns : List Text) (kind : Text) (o : Option Text)
      → Replies (owed o) (λ _. 1) (with_hash e chat to ts ns kind o)
  unfolding with_hash create_media_filter
  with_hash-Replies ts ns kind none = Replies-give 1 (λ _. 1) tt refl
  with_hash-Replies ts ns kind (some hash) =
      Replies-bind 0 (λ _. 0) (λ _. 1) (on_session _) (media_created e chat to hash kind ts)
        (Replies-session 0 _) (media_created-Answers hash kind ts)

  with_media-Replies :
      (ts ns : List Text) (o : Option IncomingMessage)
      → Replies (owed o) (λ _. 1) (with_media e chat to ts ns o)
  with_media-Replies ts ns none = Replies-give 1 (λ _. 1) tt refl
  with_media-Replies ts ns (some m) =
      Replies-bind 0 owed (λ _. 1) (process_media_file e chat to m.file)
        (with_hash e chat to ts ns m.media_type) (process_media_file-Replies m.file)
        (with_hash-Replies ts ns m.media_type)

  supported-Replies :
      (id : ℕ) (m : IncomingMessage) (bad : Bool) → Replies 0 owed (supported e chat to id m bad)
  supported-Replies id m true = fail-Replies owed none _ refl
  supported-Replies id m false = download_media_if_needed-Replies m id

  quoted-Replies : (id : ℕ) (o : Option IncomingMessage) → Replies 0 owed (quoted e chat to id o)
  quoted-Replies id none =
      fail_call-Replies owed none (codes "❌ Failed to get quoted message: ") refl
  quoted-Replies id (some m) = supported-Replies id m (is_empty m.media_type)

  resolve-Replies :
      (m : IncomingMessage) (attached : Bool) → Replies 0 owed (resolve e chat to m attached)
  resolve-Replies m true = download_media_if_needed-Replies m m.id
  resolve-Replies m false =
      Replies-bind 0 (λ _. 0) owed (fetch e (quote_id e chat to m))
        (quoted e chat to (quote_id e chat to m)) (fetch-Replies (quote_id e chat to m))
        (quoted-Replies (quote_id e chat to m))

  carried-Answers :
      (m : IncomingMessage) (ts ns : List Text) (attached : Bool)
      → Answers (resolve e chat to m attached >>= with_media e chat to ts ns)
  carried-Answers m ts ns attached =
      Replies-bind 0 owed (λ _. 1) (resolve e chat to m attached) (with_media e chat to ts ns)
        (resolve-Replies m attached) (with_media-Replies ts ns)

  handle_media_filter_creation-Answers :
      (m : IncomingMessage) (ts ns : List Text) (quotes attached : Bool)
      → Answers (handle_media_filter_creation e chat to m ts ns quotes attached)
  unfolding handle_media_filter_creation
  handle_media_filter_creation-Answers m ts ns false false = send_error_message-Answers e chat to _
  handle_media_filter_creation-Answers m ts ns true false = carried-Answers m ts ns false
  handle_media_filter_creation-Answers m ts ns false true = carried-Answers m ts ns true
  handle_media_filter_creation-Answers m ts ns true true = carried-Answers m ts ns true

  by_response-Answers :
      (m : IncomingMessage) (ts ns : List Text) (r : Response)
      → Answers (by_response e chat to m ts ns r)
  by_response-Answers m ts ns (text s) = handle_text_filter_creation-Answers ts s ns _
  by_response-Answers m ts ns (reaction emoji) = handle_reaction_filter_creation-Answers ts emoji ns
  by_response-Answers m ts ns media = handle_media_filter_creation-Answers m ts ns _ _

  with_triggers-Replies :
      (m : IncomingMessage) (c : FilterCommand) (o : Option (List Text))
      → Replies (owed o) (λ _. 1) (with_triggers e chat to m c o)
  with_triggers-Replies m c none = Replies-give 1 (λ _. 1) tt refl
  with_triggers-Replies m c (some ns) = by_response-Answers m c.triggers ns c.response

  with_filter_command-Answers :
      (m : IncomingMessage) (p : Parsed FilterCommand) → Answers (with_filter_command e chat to m p)
  with_filter_command-Answers m (Command.err x) = send_error_message-Answers e chat to _
  with_filter_command-Answers m (Command.ok c) =
      Replies-bind 0 owed (λ _. 1) (validate_and_normalize_triggers e chat to c.triggers)
        (with_triggers e chat to m c) (validate_and_normalize_triggers-Replies c.triggers)
        (with_triggers-Replies m c)

  pub handle_filter_command-Answers :
      (m : IncomingMessage) → Answers (handle_filter_command e chat to m)
  unfolding handle_filter_command
  handle_filter_command-Answers m = with_filter_command-Answers m (parse_filter_command m.body)
