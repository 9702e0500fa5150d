-- ===== src/Tests/Answers.antt =====
-- The filters of a small bot at work: /stop beside other goroutines, and the answers to a message.
use patrizio_bot.Prelude.{◌≡◌, refl, true, none, some, List, [], ◌∷◌, ◌==◌, count_if}
use patrizio_bot.Text.{codes, text_eq}
use patrizio_bot.Exec.{ok}
use patrizio_bot.Command.{filter, get_command_type, parse_stop_command}
use patrizio_bot.Command
use patrizio_bot.Paths.{join_path}
use patrizio_bot.Media.{path, put}
use patrizio_bot.Sqlite.Repository.{create_media_filter, remove_trigger}
use patrizio_bot.Messenger.{IncomingMessage}
use patrizio_bot.Bot.{◌>>=◌, on_session, Settings, Env, Bot}
use patrizio_bot.Bot.Filters.{with_hash}
use patrizio_bot.Bot.Filters.{handle_stop_command}
use patrizio_bot.Bot.Filters.Race.{is_used, handle_stop_command_race}
use patrizio_bot.Bot.Dispatch.{handle_group_message}
use patrizio_bot.Trigger.{normalize_message}
use patrizio_bot.Sqlite.Repository.Lists.{FilterResponse, text_response, find_filters}
use patrizio_bot.Bot.Dispatch.Responses.{messages, all_responded, messages-handle_group_message}
use patrizio_bot.Tests.Fixtures.{ascii}
use patrizio_bot.Sqlite.Repository.Found.{filter_of, calls_filter, Called}
use patrizio_bot.Tests.Filters.{
  smaller_session, last_session, removes_last, small_session, small-IsSound, two_session,
  two-IsSound,
}
use patrizio_bot.Tests.Files.{abc-IsPlain, def-IsPlain}
use patrizio_bot.Paths.Laws.{IsPlain}
use patrizio_bot.Sqlite.Repository.Hashes.{HashesAre}
use patrizio_bot.Bot.Filters.Backed.{SparesHash, files-handle_stop_command}
use patrizio_bot.Tests.Bots.{elsewhere, env, bot, message}

-- The last trigger of the picture is removed, while chat 9 gets a filter with it.
abbrev stop_good_day : IncomingMessage
stop_good_day = record message { body = codes "/stop \"good day\"" }

abbrev before_stop : Bot
before_stop = record bot { session = smaller_session }

stop_parses : parse_stop_command stop_good_day.body ≡ Command.ok (codes "good day")
unfolding parse_stop_command
stop_parses = refl

used_again : is_used (codes "abc") (elsewhere 0 last_session before_stop.files).0.db.medias ≡ true
unfolding create_media_filter remove_trigger text_eq
used_again = refl

saved_again :
    (elsewhere 0 last_session before_stop.files).1 (path (codes "/data/media") (codes "abc"))
    ≡ some (codes "dots")
unfolding put join_path
saved_again = refl

handle_stop_command_race_example :
    (is_used
        (codes "abc")
        (handle_stop_command env 7 40 stop_good_day before_stop).1.session.db.medias
      ≡ true)
    × ((handle_stop_command env 7 40 stop_good_day before_stop).1.files
          (path (codes "/data/media") (codes "abc"))
        ≡ none)
unfolding patrizio_bot.Trigger.normalize_trigger
handle_stop_command_race_example =
    handle_stop_command_race env 7 40 stop_good_day before_stop (codes "good day") (codes "abc")
      (codes "dots") last_session stop_parses removes_last used_again saved_again refl

-- Another picture keeps its file behind the same command.
abbrev quiet_env : Env
quiet_env = record env { elsewhere = λ now s files. (s, files) }

spares_def : SparesHash quiet_env (codes "def")
spares_def = record { no_new_filter = λ now s f u. u; same_file = λ now s f. refl }

abbrev two_bot : Bot
two_bot = record bot { session = two_session }

abbrev stopped : Bot
stopped = (handle_stop_command quiet_env 7 40 stop_good_day two_bot).1

two_hashes : HashesAre IsPlain two_session.db
unfolding create_media_filter remove_trigger
two_hashes = (def-IsPlain, (abc-IsPlain, tt))

keys_on : two_session.foreign_keys ≡ true
unfolding create_media_filter remove_trigger
keys_on = refl

still_used : is_used (codes "def") stopped.session.db.medias ≡ true
unfolding handle_stop_command ◌>>=◌ on_session create_media_filter remove_trigger text_eq put
    join_path patrizio_bot.Bot.Filters.with_stop_command patrizio_bot.Bot.post
    patrizio_bot.Bot.run_elsewhere patrizio_bot.Bot.on_files
still_used = refl

files-handle_stop_command_example :
    stopped.files (path (codes "/data/media") (codes "def"))
    ≡ two_bot.files (path (codes "/data/media") (codes "def"))
files-handle_stop_command_example =
    files-handle_stop_command quiet_env 7 40 stop_good_day two_bot (codes "def") spares_def
      def-IsPlain two-IsSound keys_on two_hashes still_used

-- A message with both triggers of one filter is answered twice.
abbrev twice_bot : Bot
twice_bot = record bot { session = small_session }

abbrev greeting : IncomingMessage
greeting = record message { body = codes "Hi, YO!" }

abbrev found : List FilterResponse
found = text_response 1 (codes "hey") ∷ text_response 1 (codes "hey") ∷ []

no_command : get_command_type greeting.body ≡ none
unfolding get_command_type
no_command = refl

finds :
    find_filters 7 (normalize_message ascii greeting.body) small_session ≡ (ok found, small_session)
unfolding find_filters normalize_message
finds = refl

messages-handle_group_message_example :
    (messages (handle_group_message env 40 greeting twice_bot).1
      ≡ all_responded env 7 40 bot.files found (messages twice_bot))
    × Called 7 (normalize_message ascii greeting.body) small_session 1 found small_session
    × (count_if (λ r. filter_of r == 1) found
        ≡ count_if
            (calls_filter 7 (normalize_message ascii greeting.body) small_session.db.filters 1)
            small_session.db.triggers)
messages-handle_group_message_example =
    messages-handle_group_message env 40 greeting found small_session twice_bot 1 small-IsSound
      (λ now. refl) no_command refl finds
