-- ===== src/Bot/Assist/Threads.antt =====
-- A reply to the answer of a /prompt.
use patrizio_bot.Prelude.{
  ℕ, zero, suc, ◌≡◌, refl, true, false, Option, none, some, List, [], ◌∷◌, ◌==◌, arith, ltb, take,
}
use patrizio_bot.Text.{Text, codes}
use patrizio_bot.Exec.{ok}
use patrizio_bot.Store.{MessageRow, call, call_under}
use patrizio_bot.Memory.Turn.{calm}
use patrizio_bot.Conversation.{
  has_message, next_id, insert_conversation_message, save_message, ancestors, chain,
  newest_message_first, get_thread_chain, is_conversation_message,
}
use patrizio_bot.Messenger.{IncomingMessage}
use patrizio_bot.Bot.{Env, Bot, ◌>>=◌, on_store}
use patrizio_bot.Bot.Assist.{save_turn, is_thread_continuation, user_entry}

abbrev user_row : ℕ → ℕ → Option ℕ → Text → Text → List MessageRow → MessageRow
user_row root msg parent content name rows = record {
  id = next_id rows;
  thread_root_id = root;
  msg_id = msg;
  parent_msg_id = parent;
  role = codes "user";
  content = content;
  sender_name = name;
}

abbrev answer_row : ℕ → ℕ → ℕ → Text → List MessageRow → MessageRow
answer_row root msg answer_id answer rows = record {
  id = suc (next_id rows);
  thread_root_id = root;
  msg_id = answer_id;
  parent_msg_id = some msg;
  role = codes "assistant";
  content = answer;
  sender_name = [];
}

-- The two rows of a turn, on the rows of before.
abbrev turn_rows : ℕ → ℕ → Option ℕ → Text → Text → ℕ → Text → List MessageRow → List MessageRow
turn_rows root msg parent content name answer_id answer rows =
    answer_row root msg answer_id answer rows ∷ user_row root msg parent content name rows ∷ rows

not_below : (n : ℕ) → ltb n n ≡ false
not_below n = ground arith

same_code : (n : ℕ) → (n == n) ≡ true
same_code n = ground arith

flipped : (m n : ℕ) → (m == n) ≡ false → (n == m) ≡ false
flipped m n h = ground (arith, h)

not_above : (n : ℕ) → ltb (suc n) n ≡ false
not_above n = ground arith

take-nil : (n : ℕ) → take {A = MessageRow} n [] ≡ []
take-nil zero = refl
take-nil (suc n) = refl

ancestors-none : (n : ℕ) (rows : List MessageRow) → ancestors n rows none ≡ []
unfolding ancestors
ancestors-none zero rows = refl
ancestors-none (suc n) rows = refl

module _ (msg answer_id : ℕ) (content name answer : Text) (rows : List MessageRow) where
  chain-turn_rows :
      (msg == answer_id) ≡ false
      → chain (turn_rows msg msg none content name answer_id answer rows) answer_id
        ≡ answer_row msg msg answer_id answer rows ∷ user_row msg msg none content name rows ∷ []
  unfolding chain ancestors
  chain-turn_rows apart =
      rw (same_code answer_id, chain)
        (rw (flipped msg answer_id apart, ancestors)
          (rw (same_code msg) (
            rw
              (ancestors-none (next_id rows)
                (turn_rows msg msg none content name answer_id answer rows))
              refl)))

  newest_message_first-turn :
      newest_message_first
        (answer_row msg msg answer_id answer rows ∷ user_row msg msg none content name rows ∷ [])
      ≡ answer_row msg msg answer_id answer rows ∷ user_row msg msg none content name rows ∷ []
  unfolding newest_message_first
  newest_message_first-turn = rw (not_above (next_id rows)) refl

-- No call of the store fails.
abbrev pub calm_bot : Bot → Bot
calm_bot b = record b { store = calm b.store }

module _ (e : Env) (chat msg : ℕ) where
  saved_turn :
      (root : ℕ) (parent : Option ℕ) (content name : Text) (answer_id : ℕ) (answer : Text) (b : Bot)
      → has_message msg b.store.messages ≡ false
      → has_message answer_id b.store.messages ≡ false
      → (msg == answer_id) ≡ false
      → e.settings.conversation_repository ≡ true
      → (save_turn e chat msg root parent content name answer_id answer (calm_bot b)).1 ≡ record b {
        store = record (calm b.store) {
          messages = turn_rows root msg parent content name answer_id answer b.store.messages;
        };
      }
  unfolding save_turn patrizio_bot.Bot.Assist.save_rows on_store ◌>>=◌ save_message
      insert_conversation_message call call_under next_id
  saved_turn root parent content name answer_id answer b new_prompt new_answer apart there =
      rw there
        (rw new_prompt (rw apart (rw new_answer (rw (not_below (next_id b.store.messages)) refl))))

  -- A turn whose prompt starts a thread is saved, and neither message was kept before: a message that
  -- replies to the answer continues the thread of the prompt, and the history that the model then gets
  -- is the prompt and the answer, where at least two messages are asked for. No call of the store fails.
  pub prompt_thread :
      (q later limit : ℕ) (content name answer : Text) (b : Bot) (m : IncomingMessage)
      → has_message msg b.store.messages ≡ false
      → has_message (suc q) b.store.messages ≡ false
      → (msg == suc q) ≡ false
      → e.settings.conversation_repository ≡ true
      → m.quote ≡ some (suc q)
      → ((is_thread_continuation e chat later m
            (save_turn e chat msg msg none content name (suc q) answer (calm_bot b)).1).0
          ≡ some msg)
        × ((get_thread_chain
              (suc q)
              (suc (suc limit))
              (save_turn e chat msg msg none content name (suc q) answer (calm_bot b)).1.store).0
            ≡ ok (
                user_entry name content
                ∷ record { role = codes "assistant"; name = []; content = answer }
                ∷ []))
  unfolding is_thread_continuation is_conversation_message get_thread_chain on_store ◌>>=◌ call
      call_under
  prompt_thread q later limit content name answer b m new_prompt new_answer apart there quotes =
      rw (saved_turn msg none content name (suc q) answer b new_prompt new_answer apart there) (
        rw there (rw quotes (rw (same_code (suc q)) refl)),
        rw (chain-turn_rows msg (suc q) content name answer b.store.messages apart) (
            rw (newest_message_first-turn msg (suc q) content name answer b.store.messages)
              (rw (take-nil limit) refl)),
      )
