-- ===== src/Conversation.antt =====
-- internal/adapter/sqlite/conversation.go and its statements, internal/database/queries/conversations.sql.go.
pub mod Thread
pub mod Saved
use patrizio_bot.Prelude.{
  ℕ, zero, suc, ◌+◌, Bool, true, false, not, Option, none, some, List, [], ◌∷◌, map, ◌==◌, ltb,
  if◌then◌else◌, any, find, reverse, take,
}
use patrizio_bot.Text.{Text}
use patrizio_bot.Exec.{Outcome, ok, err, Exec, pure, ◌>>=◌, ◌>>◌, or_fail, continue, rename}
use patrizio_bot.Store.{MessageRow, Store, CallError, broken, absent, duplicate, call, call_under}

-- domain.ChatMessage
pub record ChatMessage : Type 0 where
  pub role : Text
  pub name : Text
  pub content : Text

pub data ConversationError : Type 0 where
  insert_message_failed get_chain_failed check_message_failed : CallError → ConversationError

abbrev pub has_message : ℕ → List MessageRow → Bool
has_message msg rows = any (λ r. r.msg_id == msg) rows

abbrev pub find_message : ℕ → List MessageRow → Option MessageRow
find_message msg rows = find (λ r. r.msg_id == msg) rows

-- INTEGER PRIMARY KEY: one more than the largest id
unfoldable pub next_id : List MessageRow → ℕ
next_id [] = 1
next_id (r ∷ rows) = let rest = next_id rows in if ltb r.id rest then rest else suc r.id

-- msg_id is UNIQUE
unfoldable pub insert_conversation_message :
    ℕ → ℕ → Option ℕ → Text → Text → Text → Exec Store CallError (Unit {0})
unfolding next_id call call_under
insert_conversation_message root msg parent role content sender = call λ s.
    if has_message msg s.messages then (err duplicate, s) else (
      ok tt,
      record s {
        messages =
            record {
              id = next_id s.messages;
              thread_root_id = root;
              msg_id = msg;
              parent_msg_id = parent;
              role = role;
              content = content;
              sender_name = sender;
            }
            ∷ s.messages;
      },
    )

unfoldable pub save_message :
    ℕ → ℕ → Option ℕ → Text → Text → Text → Exec Store ConversationError (Unit {0})
unfolding insert_conversation_message
save_message root msg parent role content sender =
    or_fail insert_message_failed (insert_conversation_message root msg parent role content sender)

-- The rows above a message, the nearest first: the recursive part of both queries.
unfoldable pub ancestors : ℕ → List MessageRow → Option ℕ → List MessageRow
ancestors zero rows p = []
ancestors (suc fuel) rows none = []
ancestors (suc fuel) rows (some p) = elim (find_message p rows) [
  | none ↦ []
  | some r ↦ r ∷ ancestors fuel rows r.parent_msg_id
]

-- A row's id is the fuel for the rows above it, whose ids are smaller.
unfoldable pub chain : List MessageRow → ℕ → List MessageRow
unfolding ancestors
chain rows leaf = elim (find_message leaf rows) [
  | none ↦ []
  | some r ↦ r ∷ ancestors r.id rows r.parent_msg_id
]

abbrev pub insert_newest : MessageRow → List MessageRow → List MessageRow
insert_newest r [] = r ∷ []
insert_newest r (x ∷ xs) =
    let rest = insert_newest r xs in if ltb r.id x.id then x ∷ rest else r ∷ x ∷ xs

-- ORDER BY chain.id DESC
unfoldable pub newest_message_first : List MessageRow → List MessageRow
newest_message_first [] = []
newest_message_first (r ∷ rows) = insert_newest r (newest_message_first rows)

abbrev pub chat_message : MessageRow → ChatMessage
chat_message r = record { role = r.role; name = r.sender_name; content = r.content }

unfoldable pub get_thread_chain : ℕ → ℕ → Exec Store ConversationError (List ChatMessage)
unfolding chain ancestors newest_message_first call call_under
get_thread_chain leaf limit = or_fail get_chain_failed (
    call λ s. (
      ok (map chat_message (reverse (take limit (newest_message_first (chain s.messages leaf))))),
      s,
    ))

-- The thread root of a message of the table.
unfoldable pub is_conversation_message : ℕ → Exec Store ConversationError (Option ℕ)
unfolding call call_under
is_conversation_message msg = or_fail check_message_failed (
    call λ s.
      (ok (elim (find_message msg s.messages) [ none ↦ none | some r ↦ some r.thread_root_id ]), s))
