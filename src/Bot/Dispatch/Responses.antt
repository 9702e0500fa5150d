-- ===== src/Bot/Dispatch/Responses.antt =====
-- What the filters answer to a message.
use patrizio_bot.Prelude.{
  ℕ, ◌≡◌, refl, ap, ◌∙◌, Bool, true, false, Option, none, some, List, [], ◌∷◌, map, ◌==◌, count_if,
}
use patrizio_bot.Text.{Text}
use patrizio_bot.Trigger.{normalize_message}
use patrizio_bot.Command.{get_command_type}
use patrizio_bot.Exec.{ok}
use patrizio_bot.Sqlite.Db.{Session}
use patrizio_bot.Sqlite.Repository.Lists.{
  FilterResponse, text_response, media_response, reaction_response, find_filters,
}
use patrizio_bot.Sqlite.Repository.Sound.{IsSound}
use patrizio_bot.Sqlite.Repository.Found.{filter_of, calls_filter, Called, find_filters-Called}
use patrizio_bot.Sqlite.Repository.Found.Often.{find_filters-count}
use patrizio_bot.Messenger.{
  Sent, text_reply, media_reply, reaction_to, IncomingMessage, ViewType,
  map_media_type_to_view_type,
}
use patrizio_bot.Media.{Files, path, there}
use patrizio_bot.Bot.{Env, Bot, ◌>>=◌, on_session, post, give, ◌>>◌, send_as, send_media_reply}
use patrizio_bot.Bot.Assist.{look_up, is_thread_continuation}
use patrizio_bot.Bot.Dispatch.{
  media_found, respond, respond_all, answer_by_filters, continue_or, reply_or, group_command,
  handle_group_message,
}

-- What was sent, newest first, delivered or not.
abbrev pub messages : Bot → List Sent
messages b = map (λ (p : Sent × Bool). p.0) b.outbox

module _ (e : Env) (chat msg : ℕ) where
  abbrev viewed : Text → Option ViewType → List Sent → List Sent
  viewed hash none sent = sent
  viewed hash (some view) sent = media_reply chat msg (path e.settings.media_path hash) view ∷ sent

  abbrev held : Text → Option ViewType → Option Text → List Sent → List Sent
  held hash view none sent = sent
  held hash view (some content) sent = viewed hash view sent

  -- A text and a reaction are sent, and a file that is there and of a type that can be sent.
  abbrev pub responded : Files → FilterResponse → List Sent → List Sent
  responded files (text_response id content) sent = text_reply chat msg content ∷ sent
  responded files (reaction_response id emoji) sent = reaction_to msg emoji ∷ sent
  responded files (media_response id hash kind) sent =
      held hash (map_media_type_to_view_type kind) (files (path e.settings.media_path hash)) sent

  abbrev pub all_responded : Files → List FilterResponse → List Sent → List Sent
  all_responded files [] sent = sent
  all_responded files (r ∷ rs) sent = all_responded files rs (responded files r sent)

  sent_as-viewed :
      (hash : Text) (v : Option ViewType) (b : Bot)
      → (messages ((send_as e chat msg (path e.settings.media_path hash) v >> give (tt {0})) b).1
          ≡ viewed hash v (messages b))
        × (((send_as e chat msg (path e.settings.media_path hash) v >> give (tt {0})) b).1.files
            ≡ b.files)
  unfolding ◌>>=◌ post
  sent_as-viewed hash none b = (refl, refl)
  sent_as-viewed hash (some view) b = (refl, refl)

  media_found-held :
      (hash kind : Text) (o : Option Text) (b : Bot)
      → (messages (media_found e chat msg hash kind (some (there o)) b).1
          ≡ held hash (map_media_type_to_view_type kind) o (messages b))
        × ((media_found e chat msg hash kind (some (there o)) b).1.files ≡ b.files)
  unfolding media_found send_media_reply
  media_found-held hash kind none b = (refl, refl)
  media_found-held hash kind (some content) b =
      sent_as-viewed hash (map_media_type_to_view_type kind) b

  module _ (works : (now : ℕ) → e.disk_works now ≡ true) where
    respond-responded :
        (r : FilterResponse) (b : Bot)
        → (messages (respond e chat msg r b).1 ≡ responded b.files r (messages b))
          × ((respond e chat msg r b).1.files ≡ b.files)
    unfolding respond ◌>>=◌ post
    respond-responded (text_response id content) b = (refl, refl)
    respond-responded (reaction_response id emoji) b = (refl, refl)
    respond-responded (media_response id hash kind) b =
        rw (works b.clock)
          (media_found-held hash kind (b.files (path e.settings.media_path hash)) b)

    respond_all-responded :
        (rs : List FilterResponse) (b : Bot)
        → messages (respond_all e chat msg rs b).1 ≡ all_responded b.files rs (messages b)
    unfolding respond_all ◌>>=◌
    respond_all-responded [] b = refl
    respond_all-responded (r ∷ rs) b =
        let one = respond-responded r b in
        respond_all-responded rs (respond e chat msg r b).1
        ∙ ap (λ (f : Files). all_responded f rs (messages (respond e chat msg r b).1)) one.1
        ∙ ap (λ sent. all_responded b.files rs sent) one.0

  look_up-nothing : (c : Bool) (b : Bot) → look_up e chat msg c 0 b ≡ (none, b)
  look_up-nothing true b = refl
  look_up-nothing false b = refl

  is_thread_continuation-unquoted :
      (m : IncomingMessage) (b : Bot)
      → m.quote ≡ none
      → is_thread_continuation e chat msg m b ≡ (none, b)
  unfolding is_thread_continuation
  is_thread_continuation-unquoted m b h =
      ap
        (λ (o : Option ℕ).
          look_up e chat msg e.settings.conversation_repository (elim o [ none ↦ 0 | some id ↦ id ])
            b)
        h
      ∙ look_up-nothing e.settings.conversation_repository b

module _ (e : Env) (msg : ℕ) where
  -- A message of a group that is no command and replies to nothing is answered for each response that
  -- FindMatchingFilters returns without an error, in their order: each text, each reaction and each media
  -- file that is there and of a type that can be sent is sent once for its response, whether or not the
  -- ones before it were delivered, and nothing else. A filter is among the responses exactly if it is
  -- the chat's and a trigger of it stands in the normalized message between spaces or ends, and it is
  -- there once for each row of such a trigger: with two triggers in the message it answers twice. The
  -- calls of the media storage work, and the tables are sound.
  pub messages-handle_group_message :
      (m : IncomingMessage) (rs : List FilterResponse) (t : Session) (b : Bot) (i : ℕ)
      → IsSound b.session.db
      → ((now : ℕ) → e.disk_works now ≡ true)
      → get_command_type m.body ≡ none
      → m.quote ≡ none
      → find_filters m.chat_id (normalize_message e.unicode m.body) b.session ≡ (ok rs, t)
      → (messages (handle_group_message e msg m b).1
          ≡ all_responded e m.chat_id msg b.files rs (messages b))
        × Called m.chat_id (normalize_message e.unicode m.body) b.session i rs t
        × (count_if (λ r. filter_of r == i) rs
            ≡ count_if
                (calls_filter m.chat_id (normalize_message e.unicode m.body) b.session.db.filters i)
                b.session.db.triggers)
  unfolding handle_group_message group_command reply_or continue_or answer_by_filters ◌>>=◌
      on_session
  messages-handle_group_message m rs t b i sound works no_command no_quote finds =
      let message = normalize_message e.unicode m.body in
      (
        rw no_command (
            rw (is_thread_continuation-unquoted e m.chat_id msg m b no_quote) (
              rw finds
                (respond_all-responded e m.chat_id msg works rs (record b { session = t })))),
        find_filters-Called m.chat_id message i b.session t rs finds,
        find_filters-count m.chat_id message i b.session t rs (sound.ids i) finds,
      )
