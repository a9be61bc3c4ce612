-- ===== src/Accounts/Routing.antt =====
-- core/routing/message-router.service.ts: a message that is to be sent picks its account, goes to
-- the account's adapter and is announced. The adapter is a parameter: what it answers or throws for
-- an account and a command. So are the fresh id and the moment of an announcement.
use messaging_gateway.Prelude.{
  ℕ, String, Option, none, some, Bool, true, false, not, ◌&&◌, if◌then◌else◌, truthy, truthy?,
}
use messaging_gateway.Messages.{
  MessageContent, text, image, video, audio, document, location, MediaInfo, UnifiedEnvelope,
  ChannelDetails, outbound,
}
use messaging_gateway.Accounts.{
  ChannelAccount, is_active, AccountIdentity, whatsapp_identity, sms_identity, RoutingCriteria,
  or_else, channel_name,
}
use messaging_gateway.Accounts.Repository.{Repository, find_by_id, find_by_routing_rules}

pub data ContentType : Type 0 where
  as_text as_image as_audio as_video as_document as_location as_contact as_sticker as_reaction
        as_status_update as_system as_unknown :
      ContentType

pub record OutboundContent : Type 0 where
  pub kind : ContentType
  pub body : Option String
  pub media_url : Option String
  pub mime_type : Option String
  pub file_name : Option String
  pub caption : Option String
  pub latitude : Option String
  pub longitude : Option String

pub record SendCommand : Type 0 where
  pub from_account_id : Option String
  pub routing : Option RoutingCriteria
  pub to : String
  pub content : OutboundContent

pub data ResultStatus : Type 0 where
  queued sent delivered read played failed unknown : ResultStatus

pub record MessageResult : Type 0 where
  pub message_id : String
  pub status : ResultStatus
  pub timestamp : ℕ
  pub provider_message_id : Option String
  pub remote_jid : Option String
  pub provider_raw : Option String

abbrev media_of : OutboundContent → String → MediaInfo
media_of c mime = record {
  id = none;
  url = c.media_url;
  mime_type = or_else c.mime_type mime;
  size = none;
  base64 = none;
  filename = none;
  status = none;
  skip_reason = none;
}

-- `outboundContentToMessageContent`, by the content's type.
by_kind : ContentType → OutboundContent → MessageContent
by_kind as_image c = image (media_of c "image/jpeg") c.caption
by_kind as_video c = video (media_of c "video/mp4") c.caption none
by_kind as_audio c = audio (media_of c "audio/ogg") false none
by_kind as_document c =
    document (record (media_of c "application/octet-stream") { filename = c.file_name })
      (or_else c.file_name "file") c.caption
by_kind as_location c = location (or_else c.latitude "0") (or_else c.longitude "0") none none none
by_kind _ c = text (or_else c.body "")

unfoldable pub to_message_content : OutboundContent → MessageContent
unfolding by_kind
to_message_content c = by_kind c.kind c

-- `'phoneNumber' in account.identity ? account.identity.phoneNumber : account.id`
abbrev sender_id : AccountIdentity → String → String
sender_id (whatsapp_identity phone wid) id = phone
sender_id (sms_identity phone sender) id = phone
sender_id _ id = id

details : ChannelAccount → MessageResult → Option String → Option ChannelDetails
details account result none = none
details account result (some raw) =
    if truthy? result.provider_message_id
    then some (record {
      platform = channel_name account.channel;
      message_id = result.provider_message_id;
    })
    else none

-- The envelope of `emitOutbound`.
unfoldable pub outbound_envelope :
    String → ℕ → ChannelAccount → SendCommand → MessageResult → UnifiedEnvelope
unfolding details to_message_content
outbound_envelope id now account command result = record {
  id = id;
  account_id = account.id;
  channel = account.channel;
  direction = outbound;
  timestamp = result.timestamp;
  seq = none;
  account_seq = none;
  conversation_id = or_else result.remote_jid command.to;
  sender = record {
    id = sender_id account.identity account.id;
    display_name = some account.alias;
    phone = none;
    lid = none;
  };
  recipient = record { id = command.to; display_name = none; phone = none; lid = none };
  content = to_message_content command.content;
  channel_details = details account result result.provider_raw;
  gateway = record {
    received_at = now;
    adapter_id = account.provider;
    account_id = account.id;
    alias = account.alias;
    owner = account.metadata.owner;
    tags = account.metadata.tags;
  };
}

-- What `send` throws or resolves to, with the event that it emits.
pub data SendOutcome : Type 0 where
  account_not_found : String → SendOutcome
  account_unavailable : String → SendOutcome
  provider_error : SendOutcome
  answered : MessageResult → Option UnifiedEnvelope → SendOutcome

abbrev pub is_failed : ResultStatus → Bool
is_failed failed = true
is_failed _ = false

choose_by_rules : Repository → Option RoutingCriteria → Option ChannelAccount
choose_by_rules r none = none
choose_by_rules r (some criteria) = find_by_routing_rules r criteria

unfoldable pub choose_account : Repository → SendCommand → Option ChannelAccount
unfolding choose_by_rules
choose_account r command = elim command.from_account_id [
  | none ↦ choose_by_rules r command.routing
  | some id ↦ if truthy id then find_by_id r id else choose_by_rules r command.routing
]

module _ (adapter : ChannelAccount → SendCommand → Option MessageResult) (bus : Bool) (id : String)
    (now : ℕ) where
  -- The adapter's answer, without the raw payload that the caller does not see.
  unfoldable pub deliver : ChannelAccount → SendCommand → Option MessageResult → SendOutcome
  deliver account command none = provider_error
  deliver account command (some result) =
      answered (record result { provider_raw = none })
        (if bus && not (is_failed result.status)
          then some (outbound_envelope id now account command result)
          else none)

  unfoldable pub send : Repository → SendCommand → SendOutcome
  unfolding deliver
  send r command = elim (choose_account r command) [
    | none ↦ account_not_found (or_else command.from_account_id "routing")
    | some account ↦
        if is_active account.status
        then deliver account command (adapter account command)
        else account_unavailable account.id
  ]
