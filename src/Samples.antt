-- ===== src/Samples.antt =====
-- Messages and accounts that the tests share.
use messaging_gateway.Prelude.{String, none, some, [], ◌∷◌}
use messaging_gateway.Messages.{
  UnifiedEnvelope, image, ContactRef, whatsapp, inbound, MediaInfo, GatewayMetadata,
}
use messaging_gateway.Accounts.{ChannelAccount, active, suspended, whatsapp_identity, only}

abbrev pub contact_ref : String → ContactRef
contact_ref id = record { id = id; display_name = none; phone = none; lid = none }

abbrev pub photo : MediaInfo
photo = record {
  id = none;
  url = none;
  mime_type = "image/jpeg";
  size = none;
  base64 = some "/9j/4A==";
  filename = none;
  status = none;
  skip_reason = none;
}

abbrev pub metadata_of : String → GatewayMetadata
metadata_of account = record {
  received_at = 5000;
  adapter_id = "baileys";
  account_id = account;
  alias = "shop";
  owner = "ops";
  tags = [];
}

abbrev pub message_of : String → String → String → UnifiedEnvelope
message_of id account wa = record {
  id = id;
  account_id = account;
  channel = whatsapp;
  direction = inbound;
  timestamp = 5000;
  seq = none;
  account_seq = none;
  conversation_id = "34600111222@s.whatsapp.net";
  sender = contact_ref "34600111222@s.whatsapp.net";
  recipient = contact_ref account;
  content = image photo (some "hello");
  channel_details = some (record { platform = "whatsapp"; message_id = some wa });
  gateway = metadata_of account;
}

abbrev pub account_of : String → ChannelAccount
account_of id = record {
  id = id;
  alias = id;
  channel = whatsapp;
  provider = "baileys";
  status = active;
  identity = whatsapp_identity "34600999888" none;
  credentials_ref = "";
  credentials = none;
  conversations = some (only ("34600111222@s.whatsapp.net" ∷ []));
  metadata = record { owner = "ops"; environment = "production"; webhook_path = none; tags = [] };
}

abbrev pub suspended_account : String → ChannelAccount
suspended_account id = record (account_of id) { status = suspended }
