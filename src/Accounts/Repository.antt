-- ===== src/Accounts/Repository.antt =====
-- infrastructure/config/in-memory-account.repository.ts: the accounts in memory and in the YAML
-- file. A change waits for the one before it, so each is a function on the whole; whether its
-- write of the file succeeds is an argument.
use messaging_gateway.Prelude.{
  String, Option, none, some, Bool, true, false, not, ◌&&◌, List, [], ◌∷◌, ◌++◌, if◌then◌else◌,
  str_eq, str_mem, all, any, map, truthy, find, filter, length, ◌==◌,
}
use messaging_gateway.Messages.{ChannelType}
use messaging_gateway.Accounts.{
  ChannelAccount, AccountStatus, AccountIdentity, AccountMetadata, Conversations, unchecked,
  everything, only, Partial, RoutingCriteria, with_changes, is_active, matches_routing_criteria,
  channel_name,
}

-- An account as the YAML file has it, with `none` for a key that is left out. Like the account's record, it is
-- without the provider's configuration and the rate limit.
pub record SavedAccount : Type 0 where
  pub id : String
  pub alias : String
  pub channel : ChannelType
  pub provider : String
  pub status : Option AccountStatus
  pub identity : AccountIdentity
  pub credentials_ref : Option String
  pub credentials : Option String
  pub conversations : Option (List String)
  pub metadata : AccountMetadata

abbrev saved_status : AccountStatus → Option AccountStatus
saved_status unchecked = none
saved_status status = some status

-- A text that is empty is left out.
abbrev if_given : Option String → Option String
if_given none = none
if_given (some s) = if truthy s then some s else none

abbrev saved_conversations : Option Conversations → Option (List String)
saved_conversations none = none
saved_conversations (some everything) = none
saved_conversations (some (only ids)) = some ids

-- `toYaml`, of one account.
unfoldable pub to_yaml : ChannelAccount → SavedAccount
to_yaml a = record {
  id = a.id;
  alias = a.alias;
  channel = a.channel;
  provider = a.provider;
  status = saved_status a.status;
  identity = a.identity;
  credentials_ref = if_given (some a.credentials_ref);
  credentials = if_given a.credentials;
  conversations = saved_conversations a.conversations;
  metadata = record a.metadata { webhook_path = if_given a.metadata.webhook_path };
}

-- `file` is what is in the file, if the gateway keeps one at all; the text that `yaml` makes of it and reads back is
-- left out.
pub record Repository : Type 0 where
  pub accounts : List ChannelAccount
  pub file : Option (List SavedAccount)

pub data Reply (A : Type 0) : Type 0 where
  returns : A → Reply A
  already_exists write_failed : Reply A

abbrev pub has_id : String → ChannelAccount → Bool
has_id id a = str_eq a.id id

unfoldable pub find_by_id : Repository → String → Option ChannelAccount
find_by_id r id = find (has_id id) r.accounts

unfoldable pub find_by_channel : Repository → ChannelType → List ChannelAccount
find_by_channel r channel =
    filter (λ a. str_eq (channel_name a.channel) (channel_name channel)) r.accounts

unfoldable pub find_by_owner : Repository → String → List ChannelAccount
find_by_owner r owner = filter (λ a. str_eq a.metadata.owner owner) r.accounts

unfoldable pub find_by_tags : Repository → List String → List ChannelAccount
find_by_tags r tags = filter (λ a. all (λ tag. str_mem tag a.metadata.tags) tags) r.accounts

unfoldable pub find_by_routing_rules : Repository → RoutingCriteria → Option ChannelAccount
find_by_routing_rules r criteria =
    find (λ a. is_active a.status && matches_routing_criteria a criteria) r.accounts

-- `commit`, of a change that is one: it stands only once it is in the file.
unfoldable pub commit :
    {A : Type 0} → Repository → Bool → List ChannelAccount → A → Repository × Reply A
commit r wrote accounts result = elim r.file [
  | none ↦ (record r { accounts = accounts }, returns result)
  | some old ↦
      if wrote
      then (record { accounts = accounts; file = some (map to_yaml accounts) }, returns result)
      else (r, write_failed)
]

unfoldable pub save : Repository → Bool → ChannelAccount → Repository × Reply ChannelAccount
save r wrote account =
    if any (has_id account.id) r.accounts
    then (r, already_exists)
    else commit r wrote (r.accounts ++ account ∷ []) account

-- The first account of that id, replaced.
unfoldable pub replace : String → ChannelAccount → List ChannelAccount → List ChannelAccount
replace id new [] = []
replace id new (a ∷ as_) = if has_id id a then new ∷ as_ else a ∷ replace id new as_

unfoldable pub update :
    Repository → Bool → String → Partial → Repository × Reply (Option ChannelAccount)
update r wrote id change = elim (find (has_id id) r.accounts) [
  | none ↦ (r, returns none)
  | some current ↦
      let updated = with_changes current change in
      commit r wrote (replace id updated r.accounts) (some updated)
]

-- A write that fails is only logged: what was observed stands in memory.
unfoldable pub observed : Repository → Bool → List ChannelAccount → Repository
observed r wrote accounts = elim r.file [
  | none ↦ record r { accounts = accounts }
  | some old ↦ record {
    accounts = accounts;
    file = some (if wrote then map to_yaml accounts else old);
  }
]

unfoldable pub observe :
    Repository
    → Bool
    → String
    → (ChannelAccount → Option Partial)
    → Repository × Option ChannelAccount
observe r wrote id change = elim (find (has_id id) r.accounts) [
  | none ↦ (r, none)
  | some current ↦ elim (change current) [
    | none ↦ (r, some current)
    | some partial ↦
        let updated = with_changes current partial in
        (observed r wrote (replace id updated r.accounts), some updated)
  ]
]

unfoldable pub remove : Repository → Bool → String → Repository × Reply Bool
remove r wrote id =
    let remaining = filter (λ a. not (has_id id a)) r.accounts in
    if length remaining == length r.accounts
    then (r, returns false)
    else commit r wrote remaining true
