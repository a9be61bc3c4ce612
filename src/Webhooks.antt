-- ===== src/Webhooks.antt =====
-- connections/webhooks/file-webhook-config.store.ts: the webhooks in memory and in their file. The id that a new
-- webhook gets, the moment, and whether the file could be written are arguments.
pub mod Apart
pub mod Lookups
mod Tests
use messaging_gateway.Prelude.{
  ℕ, String, Option, none, some, Bool, true, false, not, List, [], ◌∷◌, ◌++◌, if◌then◌else◌, str_eq,
  any, find, filter,
}
use messaging_gateway.Forwarder.{WebhookConfig}

pub record Webhook (V : Type 0) : Type 0 where
  pub id : String
  pub account_id : String
  pub config : WebhookConfig V
  pub created_at : ℕ
  pub updated_at : ℕ

-- A field that is `undefined` is none.
pub record WebhookInput (V : Type 0) : Type 0 where
  pub url : Option String
  pub secret : Option String
  pub events : Option (List String)
  pub filters : Option (V → Bool)
  pub enabled : Option Bool

pub record WebhookStore (V : Type 0) : Type 0 where
  pub configs : List (Webhook V)
  pub file : List (Webhook V)

abbrev pub all_events : List String
all_events = "*" ∷ []

abbrev pub some_events : List String → List String
some_events [] = all_events
some_events (e ∷ es) = e ∷ es

abbrev pub events_of : Option (List String) → List String
events_of none = all_events
events_of (some es) = some_events es

abbrev pub or_else : {A : Type 0} → A → Option A → A
or_else a none = a
or_else a (some b) = b

abbrev pub or_kept : {A : Type 0} → Option A → Option A → Option A
or_kept a none = a
or_kept a (some b) = some b

abbrev pub changed_events : List String → Option (List String) → List String
changed_events es none = es
changed_events es (some given) = some_events given

module _ {V : Type 0} where
  abbrev pub has_webhook_id : String → Webhook V → Bool
  has_webhook_id id w = str_eq w.id id

  abbrev pub find_by_id : String → WebhookStore V → Option (Webhook V)
  find_by_id id s = find (has_webhook_id id) s.configs

  abbrev pub find_by_account_id : String → WebhookStore V → List (Webhook V)
  find_by_account_id account s = filter (λ w. str_eq w.account_id account) s.configs

  -- `persist`: a write that fails throws, and what is in memory stays as it was changed.
  abbrev pub persist : Bool → WebhookStore V → WebhookStore V
  persist true s = record s { file = s.configs }
  persist false s = s

  abbrev pub new_webhook : String → String → String → WebhookInput V → ℕ → Webhook V
  new_webhook id account url input now = record {
    id = id;
    account_id = account;
    config = record {
      url = url;
      secret = input.secret;
      events = events_of input.events;
      filters = input.filters;
      enabled = or_else true input.enabled;
    };
    created_at = now;
    updated_at = now;
  }

  abbrev pub changed : WebhookInput V → ℕ → Webhook V → Webhook V
  changed input now w = record w {
    config = record {
      url = or_else w.config.url input.url;
      secret = or_kept w.config.secret input.secret;
      events = changed_events w.config.events input.events;
      filters = or_kept w.config.filters input.filters;
      enabled = or_else w.config.enabled input.enabled;
    };
    updated_at = now;
  }

  -- The first webhook of that id is changed in place.
  unfoldable pub change_first : String → WebhookInput V → ℕ → List (Webhook V) → List (Webhook V)
  change_first id input now [] = []
  change_first id input now (w ∷ ws) =
      if str_eq w.id id then changed input now w ∷ ws else w ∷ change_first id input now ws

  -- `splice` at the index of the first.
  unfoldable pub drop_first : String → List (Webhook V) → List (Webhook V)
  drop_first id [] = []
  drop_first id (w ∷ ws) = if str_eq w.id id then ws else w ∷ drop_first id ws

  abbrev pub add :
      String → String → String → WebhookInput V → ℕ → Bool → WebhookStore V → WebhookStore V
  add id account url input now ok s =
      persist ok (record s { configs = s.configs ++ (new_webhook id account url input now ∷ []) })

  abbrev pub in_memory : String → WebhookStore V → Bool
  in_memory id s = any (has_webhook_id id) s.configs

  unfoldable pub update : String → WebhookInput V → ℕ → Bool → WebhookStore V → WebhookStore V
  unfolding change_first
  update id input now ok s =
      if in_memory id s
      then persist ok (record s { configs = change_first id input now s.configs })
      else s

  unfoldable pub remove : String → Bool → WebhookStore V → WebhookStore V
  unfolding drop_first
  remove id ok s =
      if in_memory id s then persist ok (record s { configs = drop_first id s.configs }) else s

  unfoldable pub remove_by_account_id : String → Bool → WebhookStore V → WebhookStore V
  remove_by_account_id account ok s =
      let kept = filter (λ w. not (str_eq w.account_id account)) s.configs in
      if any (λ w. str_eq w.account_id account) s.configs
      then persist ok (record s { configs = kept })
      else record s { configs = kept }

pub data Command (V : Type 0) : Type 0 where
  adds : String → String → String → WebhookInput V → ℕ → Bool → Command V
  updates : String → WebhookInput V → ℕ → Bool → Command V
  removes : String → Bool → Command V
  removes_account : String → Bool → Command V

unfoldable pub perform : {V : Type 0} → WebhookStore V → Command V → WebhookStore V
unfolding update remove remove_by_account_id
perform s (adds id account url input now ok) = add id account url input now ok s
perform s (updates id input now ok) = update id input now ok s
perform s (removes id ok) = remove id ok s
perform s (removes_account account ok) = remove_by_account_id account ok s

unfoldable pub perform_all : {V : Type 0} → WebhookStore V → List (Command V) → WebhookStore V
unfolding perform
perform_all s [] = s
perform_all s (c ∷ cs) = perform_all (perform s c) cs
