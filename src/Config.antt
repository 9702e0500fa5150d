-- ===== src/Config.antt =====
-- internal/config/config.go: what Load takes out of viper, and the ids of the chats that may use the
-- assistant. Viper is outside the repository and a parameter: the file it read, and the values it has
-- for a key, with the default that Load sets.
pub mod Chats
pub mod Numerals
pub mod Printed
use patrizio_bot.Prelude.{
  ℕ, zero, suc, ◌+◌, ◌*◌, ◌-◌, Bool, true, false, ◌&&◌, Option, none, some, List, [], ◌∷◌, ◌++◌,
  ◌==◌, ltb, leb, ℤ, pos, negsuc, if◌then◌else◌,
}
use patrizio_bot.Text.{Text, codes, is_empty, trim_space}

-- strings.Split(s, sep) for one character: the part up to the next separator, and the other parts
abbrev pub split_first : ℕ → Text → Text × List Text
split_first sep [] = ([], [])
split_first sep (c ∷ s) =
    let rest = split_first sep s in if c == sep then ([], rest.0 ∷ rest.1) else (c ∷ rest.0, rest.1)

abbrev pub split : ℕ → Text → List Text
split sep s = let parts = split_first sep s in parts.0 ∷ parts.1

abbrev pub is_digit : ℕ → Bool
is_digit c = leb b'0' c && leb c b'9'

-- The number that the digits continue.
abbrev pub digits_value : ℕ → Text → Option ℕ
digits_value n [] = some n
digits_value n (c ∷ s) =
    let rest = digits_value (n * 10 + (c - b'0')) s in if is_digit c then rest else none

-- strconv.ParseUint in base 10, without its range test
abbrev pub magnitude : Text → Option ℕ
magnitude [] = none
magnitude (c ∷ s) = digits_value 0 (c ∷ s)

-- 1 << 63
abbrev pub cutoff : ℕ
cutoff = 9223372036854775808

abbrev pub minus : ℕ → ℤ
minus zero = pos zero
minus (suc n) = negsuc n

abbrev pub in_range : Bool → Option ℕ → Option ℤ
in_range negative none = none
in_range true (some n) = if leb n cutoff then some (minus n) else none
in_range false (some n) = if ltb n cutoff then some (pos n) else none

-- strconv.ParseInt(s, 10, 64); `none` for its errors
unfoldable pub parse_int : Text → Option ℤ
parse_int [] = none
parse_int (c ∷ s) =
    if c == b'-'
    then in_range true (magnitude s)
    else if c == b'+'
    then in_range false (magnitude s)
    else in_range false (magnitude (c ∷ s))

-- One part of the text: blank parts and parts that are no number are passed over.
abbrev pub part_id : Text → Option ℤ
part_id part = if is_empty part then none else parse_int part

abbrev pub add_id : Option ℤ → List ℤ → List ℤ
add_id none ids = ids
add_id (some id) ids = id ∷ ids

unfoldable pub ids_of : List Text → List ℤ
unfolding parse_int trim_space
ids_of [] = []
ids_of (part ∷ parts) = add_id (part_id (trim_space part)) (ids_of parts)

-- An element of a list in the file; a float64 stands as its int64.
pub data RawId : Type 0 where
  int64_id int_id float64_id : ℤ → RawId
  other_id : RawId

abbrev pub raw_id : RawId → Option ℤ
raw_id (int64_id z) = some z
raw_id (int_id z) = some z
raw_id (float64_id z) = some z
raw_id other_id = none

abbrev pub raw_ids : List RawId → List ℤ
raw_ids [] = []
raw_ids (id ∷ ids) = add_id (raw_id id) (raw_ids ids)

-- viper.Get(KeyOpenAIAllowedChatIDs)
pub data RawIds : Type 0 where
  no_value other_value : RawIds
  list_value : List RawId → RawIds
  string_value : Text → RawIds

unfoldable pub allowed_chat_ids : RawIds → List ℤ
unfolding ids_of
allowed_chat_ids no_value = []
allowed_chat_ids other_value = []
allowed_chat_ids (list_value ids) = raw_ids ids
allowed_chat_ids (string_value s) = ids_of (split b',' s)

-- viper.ReadInConfig
pub data ConfigFile : Type 0 where
  was_read not_found read_failed : ConfigFile

pub record Viper : Type 0 where
  pub config_file : ConfigFile
  pub get : Text → RawIds
  pub get_string : Text → Text → Text
  pub get_int : Text → ℕ → ℕ

pub record Config : Type 0 where
  pub db_path : Text
  pub log_level : Text
  pub media_path : Text
  pub chat_state_path : Text
  pub openai_base_url : Text
  pub openai_api_key : Text
  pub openai_model : Text
  pub openai_max_history : ℕ
  pub openai_allowed_chat_ids : List ℤ
  pub openai_system_prompt : Text
  pub openai_max_tool_iterations : ℕ
  pub openai_max_memory_bytes : ℕ

unfoldable pub from_viper : Viper → Config
unfolding allowed_chat_ids
from_viper v = record {
  db_path = v.get_string (codes "db_path") (codes "/data/db/patrizio.db");
  log_level = v.get_string (codes "log_level") (codes "info");
  media_path = v.get_string (codes "media_path") (codes "/data/media");
  chat_state_path = v.get_string (codes "chat_state_path") (codes "/data/chat_state");
  openai_base_url = v.get_string (codes "openai_base_url") [];
  openai_api_key = v.get_string (codes "openai_api_key") [];
  openai_model = v.get_string (codes "openai_model") (codes "gpt-4o-mini");
  openai_max_history = v.get_int (codes "openai_max_history") 50;
  openai_allowed_chat_ids = allowed_chat_ids (v.get (codes "openai_allowed_chat_ids"));
  openai_system_prompt =
      v.get_string (codes "openai_system_prompt") (codes "You are a helpful assistant.");
  openai_max_tool_iterations = v.get_int (codes "openai_max_tool_iterations") 15;
  openai_max_memory_bytes = v.get_int (codes "openai_max_memory_bytes") 8192;
}

-- A file that is not there is no error.
abbrev pub loaded : ConfigFile → Viper → Option Config
loaded was_read v = some (from_viper v)
loaded not_found v = some (from_viper v)
loaded read_failed v = none

unfoldable pub load : Viper → Option Config
unfolding from_viper
load v = loaded v.config_file v
