-- ===== src/Messages.antt =====
-- core/messaging: the normalised message that every part of the gateway passes on, and the helpers
-- on it of core/persistence/message-store.utils.ts. A JavaScript number that is only carried and
-- printed (a latitude) is the text that it prints as; an instant is its milliseconds.
pub mod Format
pub mod Clean
mod Tests
use messaging_gateway.Prelude.{ℕ, String, Option, List, Bool}

pub data ChannelType : Type 0 where
  whatsapp telegram email sms : ChannelType

pub data Direction : Type 0 where
  inbound outbound : Direction

pub record ContactRef : Type 0 where
  pub id : String
  pub display_name : Option String
  pub phone : Option String
  pub lid : Option String

pub data MediaStatus : Type 0 where
  pending ready skipped expired : MediaStatus

pub data SkipReason : Type 0 where
  too_large download_failed : SkipReason

pub record MediaInfo : Type 0 where
  pub id : Option String
  pub url : Option String
  pub mime_type : String
  pub size : Option ℕ
  pub base64 : Option String
  pub filename : Option String
  pub status : Option MediaStatus
  pub skip_reason : Option SkipReason

pub record ContactCard : Type 0 where
  pub name : String
  pub phones : List (String × Option String)
  pub emails : List (String × Option String)

pub data ResponseType : Type 0 where
  button list other : ResponseType

-- The discriminated union of content.ts, the fields of each member in its order.
pub data MessageContent : Type 0 where
  text : String → MessageContent
  image : MediaInfo → Option String → MessageContent
  audio : MediaInfo → Bool → Option ℕ → MessageContent
  video : MediaInfo → Option String → Option ℕ → MessageContent
  document : MediaInfo → String → Option String → MessageContent
  sticker : MediaInfo → Bool → MessageContent
  location : String → String → Option String → Option String → Option String → MessageContent
  contact : List ContactCard → MessageContent
  reaction : String → String → MessageContent
  poll : String → List String → MessageContent
  interactive_response : ResponseType → String → String → Option String → MessageContent
  system : String → Option String → MessageContent
  unknown : Option String → MessageContent

-- `channelDetails`: the platform, and the provider's message id where it is a text.
pub record ChannelDetails : Type 0 where
  pub platform : String
  pub message_id : Option String

pub record GatewayMetadata : Type 0 where
  pub received_at : ℕ
  pub adapter_id : String
  pub account_id : String
  pub alias : String
  pub owner : String
  pub tags : List String

pub record UnifiedEnvelope : Type 0 where
  pub id : String
  pub account_id : String
  pub channel : ChannelType
  pub direction : Direction
  pub timestamp : ℕ
  pub seq : Option ℕ
  pub account_seq : Option ℕ
  pub conversation_id : String
  pub sender : ContactRef
  pub recipient : ContactRef
  pub content : MessageContent
  pub channel_details : Option ChannelDetails
  pub gateway : GatewayMetadata
