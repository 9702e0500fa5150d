-- ===== src/Messenger.antt =====
-- internal/adapter/deltachat/messenger.go over a Delta Chat account, and the messages of
-- internal/domain/models.go. The RPC server is outside the repository: what it answers to the call at
-- a time is the parameter Rpc, and `none` or `false` is an error.
pub mod Kinds
use patrizio_bot.Prelude.{
  ℕ, suc, Bool, true, false, Option, none, some, List, [], ◌∷◌, leb, if◌then◌else◌,
}
use patrizio_bot.Text.{Text, codes, text_eq, is_empty}

-- dc.Viewtype, as far as the adapter tells the types apart
pub data ViewType : Type 0 where
  view_image view_sticker view_gif view_video view_other : ViewType

-- dc.DownloadState
pub data RpcDownload : Type 0 where
  rpc_done rpc_available : RpcDownload
  rpc_download : Text → RpcDownload

-- dc.MessageQuote
pub data RpcQuote : Type 0 where
  with_message : ℕ → RpcQuote
  just_text : RpcQuote

-- dc.Message
pub record RpcMessage : Type 0 where
  pub rpc_id : ℕ
  pub rpc_chat_id : ℕ
  pub rpc_from_id : ℕ
  pub rpc_text : Text
  pub rpc_file : Option Text
  pub view_type : ViewType
  pub rpc_download_state : RpcDownload
  pub rpc_quote : Option RpcQuote

-- dc.ChatType
pub data RpcChatType : Type 0 where
  rpc_group rpc_out_broadcast rpc_in_broadcast rpc_mailinglist rpc_single rpc_other : RpcChatType

pub record Contact : Type 0 where
  pub display_name : Text
  pub contact_name : Text
  pub address : Text

-- What is sent, when it is sent.
pub data Sent : Type 0 where
  text_reply : ℕ → ℕ → Text → Sent
  media_reply : ℕ → ℕ → Text → ViewType → Sent
  reaction_to : ℕ → Text → Sent
  text_message : ℕ → Text → Sent

-- The answers at a time. `post` gives the new message its id.
pub record Rpc : Type 0 where
  pub get_message : ℕ → ℕ → Option RpcMessage
  pub get_chat_type : ℕ → ℕ → Option RpcChatType
  pub get_contact : ℕ → ℕ → Option Contact
  pub post : ℕ → Sent → Option ℕ
  pub download : ℕ → ℕ → Bool
  pub contact_last_special : ℕ

-- domain.DownloadState
pub data DownloadState : Type 0 where
  download_done download_available : DownloadState
  download_other : Text → DownloadState

-- domain.IncomingMessage; no quote is `none`
pub record IncomingMessage : Type 0 where
  pub id : ℕ
  pub chat_id : ℕ
  pub from_id : ℕ
  pub body : Text
  pub file : Text
  pub media_type : Text
  pub download_state : DownloadState
  pub quote : Option ℕ

-- domain.ChatType
pub data ChatType : Type 0 where
  group single unknown : ChatType

abbrev pub media_type_image : Text
media_type_image = codes "image"

abbrev pub media_type_sticker : Text
media_type_sticker = codes "sticker"

abbrev pub media_type_gif : Text
media_type_gif = codes "gif"

abbrev pub media_type_video : Text
media_type_video = codes "video"

unfoldable pub map_view_type_to_media_type : ViewType → Text
map_view_type_to_media_type view_image = media_type_image
map_view_type_to_media_type view_sticker = media_type_sticker
map_view_type_to_media_type view_gif = media_type_gif
map_view_type_to_media_type view_video = media_type_video
map_view_type_to_media_type view_other = []

-- "" of the source is `none`
unfoldable pub map_media_type_to_view_type : Text → Option ViewType
unfolding text_eq
map_media_type_to_view_type kind =
    if text_eq kind media_type_image
    then some view_image
    else if text_eq kind media_type_sticker
    then some view_sticker
    else if text_eq kind media_type_gif
    then some view_gif
    else if text_eq kind media_type_video
    then some view_video
    else none

unfoldable pub map_download_state : RpcDownload → DownloadState
map_download_state rpc_done = download_done
map_download_state rpc_available = download_available
map_download_state (rpc_download s) = download_other s

abbrev pub quoted_message : Option RpcQuote → Option ℕ
quoted_message none = none
quoted_message (some (with_message id)) = some id
quoted_message (some just_text) = none

abbrev pub file_path : Option Text → Text
file_path none = []
file_path (some path) = path

abbrev pub incoming : RpcMessage → IncomingMessage
unfolding map_view_type_to_media_type map_download_state
incoming m = record {
  id = m.rpc_id;
  chat_id = m.rpc_chat_id;
  from_id = m.rpc_from_id;
  body = m.rpc_text;
  file = file_path m.rpc_file;
  media_type = map_view_type_to_media_type m.view_type;
  download_state = map_download_state m.rpc_download_state;
  quote = quoted_message m.rpc_quote;
}

abbrev pub chat_type_of : RpcChatType → ChatType
chat_type_of rpc_group = group
chat_type_of rpc_out_broadcast = group
chat_type_of rpc_in_broadcast = group
chat_type_of rpc_mailinglist = group
chat_type_of rpc_single = single
chat_type_of rpc_other = unknown

abbrev pub contact_label : Contact → Text
contact_label c =
    if is_empty c.display_name
    then (if is_empty c.contact_name then c.address else c.contact_name)
    else c.display_name

module _ {A B : Type 0} where
  abbrev pub answered_with : (A → B) → Option A → Option B
  answered_with f none = none
  answered_with f (some a) = some (f a)

-- A text the adapter's SendTextReply sends, and the calls that only ask; `now` is the time.
module _ (rpc : Rpc) (now : ℕ) where
  unfoldable pub fetch_message : ℕ → Option IncomingMessage
  unfolding map_view_type_to_media_type map_download_state
  fetch_message id = answered_with incoming (rpc.get_message now id)

  unfoldable pub fetch_chat_type : ℕ → Option ChatType
  fetch_chat_type chat = answered_with chat_type_of (rpc.get_chat_type now chat)

  unfoldable pub is_special_contact : ℕ → Bool
  is_special_contact from = leb from rpc.contact_last_special

  unfoldable pub fetch_contact_display_name : ℕ → Option Text
  fetch_contact_display_name id = answered_with contact_label (rpc.get_contact now id)
