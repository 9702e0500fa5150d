-- ===== src/Tests/Notes.antt =====
-- The conversation, memory and assistant code on a small store.
use patrizio_bot.Prelude.{
  ℕ, ◌+◌, ◌≡◌, ◌≢◌, ◌≤◌, refl, sym, ap, subst, ◌∙◌, true, false, Option, none, some, List, [], ◌∷◌,
  ◌++◌, ◌==◌, if◌then◌else◌, arith, Bool-cases, inl, inr,
}
use mathlib.Core.Bool.{false≢true}
use patrizio_bot.Text.{Text, codes, is_empty, text_eq, byte_length}
use patrizio_bot.Text.Laws.{text_eq_refl}
use patrizio_bot.Exec.{Outcome, ok, ◌>>=◌}
use patrizio_bot.Store.{MessageRow, Store}
use patrizio_bot.Conversation.{ChatMessage, chat_message, find_message, get_thread_chain}
use patrizio_bot.Conversation.Thread.{IsOrdered, Recent, get_thread_chain-Recent}
use patrizio_bot.Memory.{
  MemoryError, Reply, done, call_read_memory, memory_changed, contents, get_read_token,
}
use patrizio_bot.Memory.Storage.{read, write}
use patrizio_bot.Memory.Reads.{HasToken}
use patrizio_bot.Memory.Safety.{
  Modification, writes, appends, Fits, Made, modify, modify-Made, modify-refused,
  modify-lost_update, modify-Fits,
}
use patrizio_bot.Memory.Turn.{calm, write-read}
use patrizio_bot.Assistant.{Turn, World, tool_message, reply_text, run_tools, chat_completion}
use patrizio_bot.Assistant.Bounds.{chat_completion_requests}
use patrizio_bot.Assistant.Effects.{Effect, flag_of, chat_completion-Effect}
use patrizio_bot.Assistant.Flags.{calm_turn, update_call, refused_turn, run_tools-unread}
use patrizio_bot.Tests.Fixtures.{signed, signed-IsChecksum}

abbrev prompt_row : MessageRow
prompt_row = record {
  id = 1;
  thread_root_id = 30;
  msg_id = 30;
  parent_msg_id = none;
  role = codes "user";
  content = codes "hi";
  sender_name = codes "Ann";
}

abbrev answer_row : MessageRow
answer_row = record {
  id = 2;
  thread_root_id = 30;
  msg_id = 31;
  parent_msg_id = some 30;
  role = codes "assistant";
  content = codes "hello";
  sender_name = [];
}

abbrev pub small_store : Store
small_store = record {
  files = λ c. if c == 7 then some (codes "likes tea") else none;
  temporary = λ c. none;
  messages = answer_row ∷ prompt_row ∷ [];
  tokens = [];
  settings = [];
  faults = [];
}

abbrev tea : Text
tea = codes "likes tea"

-- Behind a read by message 31, and then a write by it.
abbrev read_store : Store
read_store = (read signed 7 31 small_store).1

abbrev coffee : Modification
coffee = writes (codes "likes coffee")

abbrev written_store : Store
written_store = (modify signed 100 coffee tea 7 31 read_store).1

written : modify signed 100 coffee tea 7 31 read_store ≡ (ok done, written_store)
unfolding write read patrizio_bot.Text.text_eq
written = refl

modify-Made_example :
    HasToken signed read_store 31 tea × Made 100 coffee read_store 7 tea written_store
modify-Made_example =
    modify-Made signed 100 signed-IsChecksum coffee tea 7 31 read_store written_store written

-- The same read does not do for a second modification.
abbrev stale_store : Store
stale_store = (modify signed 100 (appends (codes "and milk")) tea 7 31 written_store).1

stale_write :
    modify signed 100 (appends (codes "and milk")) tea 7 31 written_store
    ≡ (ok memory_changed, stale_store)
unfolding write read patrizio_bot.Memory.Storage.append patrizio_bot.Text.text_eq
stale_write = refl

changed-ne-done : ◌≢◌ {A = Outcome MemoryError Reply} (ok memory_changed) (ok done)
changed-ne-done e = cc

modify-refused_example : stale_store.files ≡ written_store.files
modify-refused_example =
    modify-refused signed 100 signed-IsChecksum (appends (codes "and milk")) tea 7 31 written_store
      stale_store (ok memory_changed) stale_write changed-ne-done

now_coffee : contents written_store 7 ≡ codes "likes coffee"
unfolding write read patrizio_bot.Text.text_eq
now_coffee = refl

was_tea : contents read_store 7 ≡ tea
unfolding read
was_tea = refl

texts_differ : text_eq (codes "likes coffee") tea ≡ false
unfolding patrizio_bot.Text.text_eq
texts_differ = refl

coffee-ne-tea : contents written_store 7 ≢ contents read_store 7
coffee-ne-tea e =
    false≢true
      (sym texts_differ ∙ ap (λ s. text_eq s tea) (sym now_coffee ∙ e ∙ was_tea) ∙ text_eq_refl tea)

modify-lost_update_example : stale_store.files ≡ written_store.files
modify-lost_update_example =
    modify-lost_update signed 100 signed-IsChecksum coffee (appends (codes "and milk")) tea 7 31 31
      read_store written_store stale_store (ok memory_changed) written coffee-ne-tea stale_write

tea_length : byte_length tea ≤ 100
unfolding byte_length
tea_length = omega arith

small : (c : ℕ) → Fits 100 (small_store.files c)
small c = elim (Bool-cases (c == 7)) [ inl y ↦ rw y tea_length | inr n ↦ rw n tt ]

modify-Fits_example : Fits 100 ((modify signed 100 coffee tea 7 31 small_store).1.files 7)
modify-Fits_example = modify-Fits signed 100 signed-IsChecksum coffee tea 7 31 small_store small 7

coffee_length : byte_length (codes "likes coffee") ≤ 100
unfolding byte_length
coffee_length = omega arith

write-read_example :
    ((read signed 7 31 >>= λ x. write signed 100 x 7 31 (codes "likes coffee"))
      (calm small_store)).0
    ≡ ok done
write-read_example =
    write-read signed (λ x. refl) 100 small_store 7 31 (codes "likes coffee") coffee_length

abbrev id_of : Option MessageRow → ℕ
id_of none = 0
id_of (some r) = r.id

abbrev parent_of : Option MessageRow → Option ℕ
parent_of none = none
parent_of (some r) = r.parent_msg_id

none-ne : {p : ℕ} → ◌≢◌ {A = Option ℕ} none (some p)
none-ne e = cc

no_row-ne : {r : MessageRow} → ◌≢◌ {A = Option MessageRow} none (some r)
no_row-ne e = cc

-- The two rows of the thread.
small-IsOrdered : IsOrdered small_store.messages
small-IsOrdered m p r q f e g = elim (Bool-cases (31 == m)) [
  | inl y ↦
      let found = rw y at f in
      let parent : 30 ≡ p =
        ap (λ (o : Option ℕ). elim o [ none ↦ 0 | some x ↦ x ]) (ap parent_of found ∙ e) in
      let above : find_message 30 small_store.messages ≡ some q =
        subst (λ i. find_message i small_store.messages ≡ some q) (sym parent) g in
      omega (arith, ap id_of found, ap id_of above)
  | inr n ↦ elim (Bool-cases (30 == m)) [
    | inl y ↦ absurd (none-ne (ap parent_of (rw y at (rw n at f)) ∙ e))
    | inr k ↦ absurd (no_row-ne (rw k at (rw n at f)))
  ]
]

abbrev thread : List ChatMessage
thread = chat_message prompt_row ∷ chat_message answer_row ∷ []

chain_answer : get_thread_chain 31 5 small_store ≡ (ok thread, small_store)
unfolding get_thread_chain
chain_answer = refl

get_thread_chain-Recent_example : Recent small_store.messages 31 5 thread
get_thread_chain-Recent_example =
    get_thread_chain-Recent small_store small_store 31 5 thread small-IsOrdered chain_answer

-- A model that always asks for the memory.
abbrev pub eager : World
eager = record {
  complete = λ n messages.
      ok (record { choice_content = []; tool_calls = update_call (codes "id") [] ∷ [] } ∷ []);
  decode_append = λ s. some (codes "and milk");
  decode_update = λ s. some (codes "likes coffee");
  describe = λ e. [];
  checksum = signed;
}

abbrev first_turn : Turn
first_turn = record { store = small_store; read_token = []; wrote = false; requests = 0 }

abbrev question : List ChatMessage
question = record { role = codes "user"; name = []; content = codes "hi" } ∷ []

chat_completion_requests_example :
    (chat_completion eager 100 7 31 15 true question first_turn).1.requests ≤ 0 + 15 + 1
chat_completion_requests_example =
    chat_completion_requests eager 100 7 31 15 true question first_turn

chat_completion-Effect_example :
    Effect 100 7 small_store
      (flag_of (chat_completion eager 100 7 31 15 true question first_turn).0)
      (chat_completion eager 100 7 31 15 true question first_turn).1.store
chat_completion-Effect_example =
    chat_completion-Effect eager 100 7 31 15 true question first_turn signed-IsChecksum

unread : get_read_token (calm small_store) 31 ≡ none
unfolding get_read_token
unread = refl

run_tools-unread_example :
    run_tools eager 100 7 31
      (update_call (codes "id") [] ∷ [])
      false
      false
      []
      (calm_turn first_turn)
    ≡ (
      true,
      false,
      [] ++ tool_message (reply_text call_read_memory) (codes "id") ∷ [],
      refused_turn eager 100 7 31 first_turn,
    )
run_tools-unread_example =
    run_tools-unread eager 100 7 31 (codes "id") [] (codes "likes coffee") [] first_turn unread refl
