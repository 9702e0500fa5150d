-- ===== src/Store.antt =====
-- What the conversation, settings and memory code keeps: tables of migrations/003 to 006 and the
-- memory files of the chats. Every call on the file system or the database may fail.
use patrizio_bot.Prelude.{ℕ, Bool, true, false, Option, List, [], ◌∷◌, ◌==◌, if◌then◌else◌}
use patrizio_bot.Text.{Text}
use patrizio_bot.Exec.{Outcome, err, Exec}

-- conversation_messages
pub record MessageRow : Type 0 where
  pub id : ℕ
  pub thread_root_id : ℕ
  pub msg_id : ℕ
  pub parent_msg_id : Option ℕ
  pub role : Text
  pub content : Text
  pub sender_name : Text

-- memory_read_tokens
pub record TokenRow : Type 0 where
  pub token_msg_id : ℕ
  pub observed_sha : Text

-- chat_settings
pub record SettingRow : Type 0 where
  pub setting_chat_id : ℕ
  pub key : Text
  pub value : Text

-- `memory.md` and `memory.md.tmp` of every chat, the tables, and which of the next calls fail.
pub record Store : Type 0 where
  pub files : ℕ → Option Text
  pub temporary : ℕ → Option Text
  pub messages : List MessageRow
  pub tokens : List TokenRow
  pub settings : List SettingRow
  pub faults : List Bool

-- A map with one entry replaced.
abbrev pub update : {A : Type 0} → ℕ → A → (ℕ → A) → ℕ → A
update k v f i = if i == k then v else f i

pub data CallError : Type 0 where
  broken absent duplicate : CallError

module _ {A : Type 0} where
  abbrev after_call : Store → Outcome CallError A × Store → Outcome CallError A × Store
  after_call s r = r

  -- The next call fails by itself, or does what it does.
  unfoldable pub call_under :
      List Bool → (Store → Outcome CallError A × Store) → Exec Store CallError A
  call_under [] f s = f s
  call_under (true ∷ later) f s = (err broken, record s { faults = later })
  call_under (false ∷ later) f s = f (record s { faults = later })

  unfoldable pub call : (Store → Outcome CallError A × Store) → Exec Store CallError A
  unfolding call_under
  call f s = call_under s.faults f s
