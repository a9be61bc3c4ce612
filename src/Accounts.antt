-- ===== src/Accounts.antt =====
-- core/accounts and core/routing/routing-rules.ts: the channel accounts, what the gateway records
-- of their connection and health, and the criteria by which a message picks one. `providerConfig` and `rateLimit`, which nothing here reads, are left out.
pub mod Repository
pub mod Routing
pub mod Sends
pub mod Suspended
pub mod Ids
pub mod Written
pub mod Durable
mod Tests
use messaging_gateway.Prelude.{
  ℕ, String, Option, none, some, Bool, true, false, not, ◌&&◌, ◌||◌, List, [], ◌∷◌, if◌then◌else◌,
  str_eq, str_mem, truthy, truthy?, all,
}
use messaging_gateway.Messages.{ChannelType, whatsapp, telegram, email, sms}

pub data AccountStatus : Type 0 where
  active suspended auth_expired error unchecked : AccountStatus

pub data AccountIdentity : Type 0 where
  whatsapp_identity : String → Option String → AccountIdentity
  telegram_identity : Option String → String → AccountIdentity
  email_identity : String → Option String → AccountIdentity
  sms_identity : String → Option String → AccountIdentity

pub record AccountMetadata : Type 0 where
  pub owner : String
  pub environment : String
  pub webhook_path : Option String
  pub tags : List String

-- `'*' | string[]`
pub data Conversations : Type 0 where
  everything : Conversations
  only : List String → Conversations

pub record ChannelAccount : Type 0 where
  pub id : String
  pub alias : String
  pub channel : ChannelType
  pub provider : String
  pub status : AccountStatus
  pub identity : AccountIdentity
  pub credentials_ref : String
  pub credentials : Option String
  pub conversations : Option Conversations
  pub metadata : AccountMetadata

unfoldable pub build_default_identity : ChannelType → AccountIdentity
build_default_identity whatsapp = whatsapp_identity "" none
build_default_identity telegram = telegram_identity none ""
build_default_identity email = email_identity "" none
build_default_identity sms = sms_identity "" none

-- The provider `baileys` pairs by itself; every other account must say where its credentials are.
unfoldable pub has_required_credentials : ChannelAccount → Bool
has_required_credentials account =
    str_eq account.provider "baileys"
    || truthy account.credentials_ref
    || truthy? account.credentials

abbrev pub is_active : AccountStatus → Bool
is_active active = true
is_active _ = false

abbrev pub status_eq : AccountStatus → AccountStatus → Bool
status_eq active active = true
status_eq suspended suspended = true
status_eq auth_expired auth_expired = true
status_eq error error = true
status_eq unchecked unchecked = true
status_eq _ _ = false

abbrev pub channel_name : ChannelType → String
channel_name whatsapp = "whatsapp"
channel_name telegram = "telegram"
channel_name email = "email"
channel_name sms = "sms"

-- A change of an account: the fields that it sets. `identity` is merged by the caller.
pub record Partial : Type 0 where
  pub alias : Option String
  pub status : Option AccountStatus
  pub identity : Option AccountIdentity
  pub credentials_ref : Option String
  pub credentials : Option String
  pub conversations : Option Conversations
  pub metadata : Option AccountMetadata

abbrev pub no_change : Partial
no_change = record {
  alias = none;
  status = none;
  identity = none;
  credentials_ref = none;
  credentials = none;
  conversations = none;
  metadata = none;
}

abbrev pub or_else {ℓ} : {A : Type ℓ} → Option A → A → A
or_else none d = d
or_else (some a) d = a

abbrev pub or_option {ℓ} : {A : Type ℓ} → Option A → Option A → Option A
or_option none d = d
or_option (some a) d = some a

-- The spread of the new metadata over the old: a webhook path that it leaves out stays.
abbrev pub merge_metadata : Option AccountMetadata → AccountMetadata → AccountMetadata
merge_metadata none old = old
merge_metadata (some new) old = record new {
  webhook_path = or_option new.webhook_path old.webhook_path;
}

-- `withChanges`: whatever the change says, the account keeps its id.
unfoldable pub with_changes : ChannelAccount → Partial → ChannelAccount
with_changes account change = record account {
  alias = or_else change.alias account.alias;
  status = or_else change.status account.status;
  identity = or_else change.identity account.identity;
  credentials_ref = or_else change.credentials_ref account.credentials_ref;
  credentials = or_option change.credentials account.credentials;
  conversations = or_option change.conversations account.conversations;
  metadata = merge_metadata change.metadata account.metadata;
}

pub record RoutingCriteria : Type 0 where
  pub channel : Option String
  pub owner : Option String
  pub tags : List String

abbrev pub criterion : Option String → String → Bool
criterion none actual = true
criterion (some wanted) actual = if truthy wanted then str_eq actual wanted else true

-- A criterion that is absent or empty asks for nothing.
unfoldable pub matches_routing_criteria : ChannelAccount → RoutingCriteria → Bool
matches_routing_criteria account criteria =
    if not (criterion criteria.channel (channel_name account.channel))
    then false
    else if not (criterion criteria.owner account.metadata.owner)
    then false
    else all (λ tag. str_mem tag account.metadata.tags) criteria.tags

-- What a connection says of its account.
pub data ConnectionEvent : Type 0 where
  connected disconnected connecting auth_lost : ConnectionEvent

abbrev next_status : ConnectionEvent → Option AccountStatus
next_status connected = some active
next_status auth_lost = some auth_expired
next_status _ = none

abbrev is_suspended : AccountStatus → Bool
is_suspended suspended = true
is_suspended _ = false

-- The change that `subscribeAccountStatus` makes of a connection event, if any.
unfoldable pub on_connection_update : ConnectionEvent → ChannelAccount → Option Partial
on_connection_update event account = elim (next_status event) [
  | none ↦ none
  | some next ↦
      if is_suspended account.status || status_eq account.status next
      then none
      else some (record no_change { status = some next })
]

pub record ValidationResult : Type 0 where
  pub status : AccountStatus
  pub discovered_identity : Option AccountIdentity

-- The change that `applyHealthResult` makes of a health check, if any. `merge` is the spread of
-- what was discovered over the identity of the account.
unfoldable pub apply_health_result :
    (merge : AccountIdentity → AccountIdentity → AccountIdentity)
    → ValidationResult
    → ChannelAccount
    → Option Partial
apply_health_result merge result account =
    let status = if is_suspended account.status then suspended else result.status in
    elim result.discovered_identity [
      | none ↦
          if status_eq status account.status
          then none
          else some (record no_change { status = some status })
      | some found ↦ some (record no_change {
        status = some status;
        identity = some (merge account.identity found);
      })
    ]
