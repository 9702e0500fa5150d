-- ===== src/Tests/Bots.antt =====
-- The handlers on a small bot.
use patrizio_bot.Prelude.{
  ℕ, suc, ◌≡◌, ◌≢◌, refl, sym, ap, ◌∙◌, true, false, ◌&&◌, none, some, List, [], ◌∷◌, ◌==◌, pos,
  if◌then◌else◌,
}
use mathlib.Core.Bool.{false≢true}
use patrizio_bot.Text.{Text, codes, text_eq}
use patrizio_bot.Text.Laws.{text_eq_refl}
use patrizio_bot.Exec.{ok, err}
use patrizio_bot.Command.{filter, get_command_type}
use patrizio_bot.Paths.{join_path}
use patrizio_bot.Media.{Files, save}
use patrizio_bot.Sqlite.Db.{Session}
use patrizio_bot.Sqlite.Repository.{trigger_exists, create_media_filter}
use patrizio_bot.Store.{Store}
use patrizio_bot.Memory.{memory_changed, contents}
use patrizio_bot.Memory.Storage
use patrizio_bot.Messenger.{
  Rpc, text_reply, view_other, rpc_done, rpc_group, IncomingMessage, download_done, group,
}
use patrizio_bot.Bot.{Settings, Env, Bot}
use patrizio_bot.Bot.Replies.{replies}
use patrizio_bot.Bot.Filters.{with_hash}
use patrizio_bot.Bot.Filters.Lost.{with_hash_err}
use patrizio_bot.Bot.Assist.{
  save_turn, is_thread_continuation, user_entry, is_allowed_chat, handle_prompt_command,
  handle_thread_continuation,
}
use patrizio_bot.Bot.Assist.Authorized.{Kept}
use patrizio_bot.Bot.Dispatch.Unauthorized.{handle_prompt_command-Kept}
use patrizio_bot.Bot.Assist.Threads.{calm_bot, prompt_thread}
use patrizio_bot.Conversation.{get_thread_chain}
use patrizio_bot.Bot.Notes.{memory_clear, handle_memory_command}
use patrizio_bot.Bot.Notes.Race.{last_sent, memory_clear_race}
use patrizio_bot.Bot.Dispatch.{handle_group_message, handle_direct_message}
use patrizio_bot.Bot.Dispatch.Answered.{replies-handle_group_message, replies-handle_direct_message}
use patrizio_bot.Tests.Fixtures.{ascii, counting, signed, signed-IsChecksum}
use patrizio_bot.Tests.Filters.{created_session}
use patrizio_bot.Tests.Notes.{eager, small_store}

-- A group in which member 12 writes; contacts up to 9 are special.
abbrev rpc : Rpc
rpc = record {
  get_message = λ now id. some (record {
    rpc_id = id;
    rpc_chat_id = 7;
    rpc_from_id = id;
    rpc_text = codes "/filter hello hi";
    rpc_file = none;
    view_type = view_other;
    rpc_download_state = rpc_done;
    rpc_quote = none;
  });
  get_chat_type = λ now chat. some rpc_group;
  get_contact = λ now id. none;
  post = λ now sent. some (suc now);
  download = λ now id. true;
  contact_last_special = 9;
}

-- Chat 8 alone may use the assistant. Another job of a chat writes "likes coffee".
abbrev pub settings : Settings
settings = record {
  ai_client = true;
  conversation_repository = true;
  memory_repository = true;
  chat_executor = true;
  allowed_chat_ids = pos 8 ∷ [];
  system_prompt = codes "Be kind.";
  max_history = 50;
  max_tool_iterations = 15;
  max_memory_bytes = 8192;
  media_path = codes "/data/media";
}

abbrev others : ℕ → Store → Store
others now s = record s { files = λ c. if c == 7 then some (codes "likes coffee") else none }

-- Another message's goroutine creates a filter with the picture "abc".
abbrev pub elsewhere : ℕ → Session → Files → Session × Files
elsewhere now s files = (
  (create_media_filter counting ascii 9 (codes "again" ∷ []) (codes "abc") (codes "image") s).1,
  (save (λ content old. none) (codes "/data/media") true (codes "abc") (codes "dots") files).1,
)

abbrev pub env : Env
env = record {
  settings = settings;
  rpc = rpc;
  unicode = ascii;
  engine = counting;
  world = eager;
  os_read_file = λ now path. none;
  disk_works = λ now. true;
  partly_written = λ content old. none;
  sha512_hex = λ content. content;
  extension = λ path. [];
  admits = λ now. true;
  others = others;
  elsewhere = elsewhere;
  show_parse = λ x. [];
  show_repo = λ x. [];
  show_trigger = [];
  show_call = λ now. [];
}

-- Chat 7 has a filter with the picture "abc".
abbrev pub bot : Bot
bot = record {
  session = created_session;
  store = small_store;
  files = λ p. if text_eq p (codes "/data/media/abc") then some (codes "pixels") else none;
  requests = 0;
  clock = 0;
  outbox = [];
  crashed = false;
}

abbrev pub message : IncomingMessage
message = record {
  id = 40;
  chat_id = 7;
  from_id = 12;
  body = codes "/filter hello hi";
  file = [];
  media_type = [];
  download_state = download_done;
  quote = none;
}

is_command : get_command_type message.body ≡ some filter
unfolding get_command_type
is_command = refl

replies-handle_group_message_example :
    replies (handle_group_message env 40 message bot).1 ≡ suc (replies bot)
replies-handle_group_message_example =
    replies-handle_group_message env 40 message filter bot is_command

denied : true && is_allowed_chat (pos 8 ∷ []) 7 ≡ false
unfolding is_allowed_chat
denied = refl

handle_prompt_command-Kept_example :
    Kept bot (handle_prompt_command env 7 40 message group bot).1
    × Kept bot (handle_thread_continuation env 7 40 message 30 group bot).1
    × Kept bot (handle_memory_command env 7 40 message bot).1
handle_prompt_command-Kept_example = handle_prompt_command-Kept env 7 40 message group 30 bot denied

-- A second filter for the same picture and a trigger that is taken.
abbrev taken : List Text
taken = codes "hello" ∷ []

abbrev failed_session : Session
failed_session =
    (create_media_filter counting ascii 7 taken (codes "abc") (codes "image") created_session).1

creation_fails :
    create_media_filter counting ascii 7 taken (codes "abc") (codes "image") created_session
    ≡ (err (trigger_exists (codes "hello")), failed_session)
unfolding create_media_filter
creation_fails = refl

with_hash_err_example :
    ((with_hash env 7 40 taken taken (codes "image") (some (codes "abc")) bot).1.session.db
      ≡ created_session.db)
    × ((with_hash env 7 40 taken taken (codes "image") (some (codes "abc")) bot).1.files
          (codes "/data/media/abc")
        ≡ none)
unfolding join_path
with_hash_err_example =
    with_hash_err env 7 40 taken taken (codes "image") (codes "abc") bot
      (trigger_exists (codes "hello")) failed_session creation_fails refl

-- /memory clear by message 40, behind which another job writes.
abbrev read_by_40 : Store
read_by_40 = (Storage.read signed 7 40 small_store).1

abbrev not_cleared : Store
not_cleared = (Storage.clear signed (codes "likes tea") 7 40 (others 1 read_by_40)).1

reads_tea : Storage.read signed 7 40 small_store ≡ (ok (codes "likes tea"), read_by_40)
unfolding Storage.read
reads_tea = refl

clear_refused :
    Storage.clear signed (codes "likes tea") 7 40 (others 1 read_by_40)
    ≡ (ok memory_changed, not_cleared)
unfolding Storage.clear Storage.read text_eq
clear_refused = refl

teas_differ : text_eq (codes "likes coffee") (codes "likes tea") ≡ false
unfolding text_eq
teas_differ = refl

coffee_now : contents (others 1 read_by_40) 7 ≢ codes "likes tea"
coffee_now h =
    false≢true (
      sym teas_differ
      ∙ ap (λ s. text_eq s (codes "likes tea")) h
      ∙ text_eq_refl (codes "likes tea"))

memory_clear_race_example :
    ((memory_clear env 7 40 bot).1.store.files ≡ (others 1 read_by_40).files)
    × (last_sent (memory_clear env 7 40 bot).1 ≡ some (text_reply 7 40 (codes "Memory cleared.")))
memory_clear_race_example =
    memory_clear_race env 7 40 bot (codes "likes tea") memory_changed read_by_40 not_cleared
      signed-IsChecksum reads_tea refl refl coffee_now clear_refused

-- Message 40 is a prompt, and 41 the answer; message 45 replies to it.
abbrev reply : IncomingMessage
reply = record message { id = 45; body = codes "why?"; quote = some 41 }

prompt_thread_example :
    ((is_thread_continuation env 7 45 reply
        (save_turn env 7 40 40 none
          (codes "hi")
          (codes "Ann")
          41
          (codes "hello")
          (calm_bot bot)).1).0
      ≡ some 40)
    × ((get_thread_chain 41 50
          (save_turn env 7 40 40 none
            (codes "hi")
            (codes "Ann")
            41
            (codes "hello")
            (calm_bot bot)).1.store).0
        ≡ ok (
            user_entry (codes "Ann") (codes "hi")
            ∷ record { role = codes "assistant"; name = []; content = codes "hello" }
            ∷ []))
prompt_thread_example =
    prompt_thread env 7 40 40 45 48 (codes "hi") (codes "Ann") (codes "hello") bot reply refl refl
      refl refl refl

replies-handle_direct_message_example :
    replies (handle_direct_message env 40 message bot).1 ≡ suc (replies bot)
replies-handle_direct_message_example = replies-handle_direct_message env 40 message bot
