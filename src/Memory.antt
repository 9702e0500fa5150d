-- ===== src/Memory.antt =====
-- internal/adapter/storage/memory.go, with the token table of internal/adapter/sqlite/memory_read_tokens.go
-- and the settings table of internal/adapter/sqlite/chat_settings.go. SHA-256 is the parameter
-- `checksum`.
pub mod Storage
pub mod Calls
pub mod Guard
pub mod Reads
pub mod Update
pub mod Safety
pub mod Turn
use patrizio_bot.Prelude.{
  ℕ, zero, suc, Bool, true, false, ◌&&◌, ◌||◌, not, Option, none, some, List, [], ◌∷◌, ◌++◌, ◌==◌,
  ltb, if◌then◌else◌, keep, find, String,
}
use patrizio_bot.Text.{Text, codes, text_eq, is_empty, byte_length}
use patrizio_bot.Exec.{Outcome, ok, err, Exec, pure, raise, ◌>>=◌, ◌>>◌, or_fail, continue, rename}
use patrizio_bot.Store.{
  MessageRow, TokenRow, SettingRow, Store, update, CallError, broken, absent, call, call_under,
}
use patrizio_bot.Conversation.{find_message, ancestors, chain}

pub data MemoryError : Type 0 where
  read_token_failed checksum_failed read_failed save_checksum_failed : CallError → MemoryError
  make_directory_failed write_temporary_failed rename_failed : CallError → MemoryError
  check_file_failed remove_failed settings_failed : CallError → MemoryError

-- The string that the modifying methods return: empty, or one of three messages to the model.
pub data Reply : Type 0 where
  done call_read_memory memory_changed memory_too_large : Reply

abbrev pub Memory : Type 0 → Type 0
Memory A = Exec Store MemoryError A

-- What the file of a chat holds; a missing file is empty.
abbrev pub contents : Store → ℕ → Text
contents s chat = elim (s.files chat) [ none ↦ [] | some held ↦ held ]

-- GetReadToken: the token of the message or of the nearest message above it.
abbrev token_of : List TokenRow → ℕ → Option Text
token_of rows msg = elim (find (λ t. t.token_msg_id == msg) rows) [
  | none ↦ none
  | some t ↦ some t.observed_sha
]

abbrev nearest : List TokenRow → List MessageRow → Option Text
nearest tokens [] = none
nearest tokens (r ∷ rows) =
    let rest = nearest tokens rows in
    elim (token_of tokens r.msg_id) [ none ↦ rest | some sha ↦ some sha ]

abbrev above : List MessageRow → ℕ → List MessageRow
above rows msg = elim (find_message msg rows) [
  | none ↦ []
  | some r ↦ ancestors r.id rows r.parent_msg_id
]

unfoldable pub get_read_token : Store → ℕ → Option Text
unfolding ancestors
get_read_token s msg = elim (token_of s.tokens msg) [
  | none ↦ nearest s.tokens (above s.messages msg)
  | some sha ↦ some sha
]

-- ReadTokens.GetToken, which turns no row into ""
unfoldable pub get_token : ℕ → Exec Store CallError Text
unfolding get_read_token call call_under
get_token msg = call λ s. (ok (elim (get_read_token s msg) [ none ↦ [] | some sha ↦ sha ]), s)

-- INSERT … ON CONFLICT (msg_id) DO UPDATE
unfoldable pub save_token : ℕ → Text → Exec Store CallError (Unit {0})
unfolding call call_under
save_token msg sha = call λ s. (
  ok tt,
  record s {
    tokens =
        record { token_msg_id = msg; observed_sha = sha }
        ∷ keep (λ t. not (t.token_msg_id == msg)) s.tokens;
  },
)

-- afero.ReadFile
unfoldable pub read_file : ℕ → Exec Store CallError Text
unfolding call call_under
read_file chat = call λ s. (elim (s.files chat) [ none ↦ err absent | some held ↦ ok held ], s)

-- afero.Exists
unfoldable pub file_exists : ℕ → Exec Store CallError Bool
unfolding call call_under
file_exists chat = call λ s. (ok (elim (s.files chat) [ none ↦ false | some held ↦ true ]), s)

unfoldable pub make_directory : Exec Store CallError (Unit {0})
unfolding call call_under
make_directory = call λ s. (ok tt, s)

-- The tempfile
unfoldable pub write_temporary : ℕ → Text → Exec Store CallError (Unit {0})
unfolding call call_under
write_temporary chat content =
    call λ s. (ok tt, record s { temporary = update chat (some content) s.temporary })

unfoldable pub remove_temporary : ℕ → Exec Store CallError (Unit {0})
unfolding call call_under
remove_temporary chat = call λ s. (ok tt, record s { temporary = update chat none s.temporary })

-- fs.Rename(tmp, memoryPath)
unfoldable pub rename_temporary : ℕ → Exec Store CallError (Unit {0})
unfolding call call_under
rename_temporary chat = call λ s. elim (s.temporary chat) [
  | none ↦ (err absent, s)
  | some content ↦ (
    ok tt,
    record s {
      files = update chat (some content) s.files;
      temporary = update chat none s.temporary;
    },
  )
]

unfoldable pub remove_file : ℕ → Exec Store CallError (Unit {0})
unfolding call call_under
remove_file chat = call λ s. (ok tt, record s { files = update chat none s.files })

abbrev pub setting_enabled : Text
setting_enabled = codes "memory.enabled"

abbrev is_setting : ℕ → Text → SettingRow → Bool
is_setting chat key r = r.setting_chat_id == chat && text_eq r.key key

-- ChatSettings.Get, .Set and .Delete
unfoldable pub get_setting : ℕ → Text → Exec Store CallError (Option Text)
unfolding call call_under
get_setting chat key = call λ s.
    (ok (elim (find (is_setting chat key) s.settings) [ none ↦ none | some r ↦ some r.value ]), s)

unfoldable pub set_setting : ℕ → Text → Text → Exec Store CallError (Unit {0})
unfolding call call_under
set_setting chat key value = call λ s. (
  ok tt,
  record s {
    settings =
        record { setting_chat_id = chat; key = key; value = value }
        ∷ keep (λ r. not (is_setting chat key r)) s.settings;
  },
)

unfoldable pub delete_setting : ℕ → Text → Exec Store CallError (Unit {0})
unfolding call call_under
delete_setting chat key =
    call λ s. (ok tt, record s { settings = keep (λ r. not (is_setting chat key r)) s.settings })

-- MemoryStorage.IsEnabled and .SetEnabled
unfoldable pub is_enabled : ℕ → Memory Bool
unfolding get_setting
is_enabled chat = do
  value ← or_fail settings_failed (get_setting chat setting_enabled)
  pure (elim value [ none ↦ true | some v ↦ text_eq v (codes "true") ])

unfoldable pub set_enabled : ℕ → Bool → Memory (Unit {0})
unfolding set_setting
set_enabled chat enabled =
    or_fail settings_failed
      (set_setting chat setting_enabled (if enabled then codes "true" else codes "false"))
