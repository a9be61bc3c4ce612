-- ===== src/Broadcaster.antt =====
-- connections/ws/websocket-broadcaster.ts: the clients of the WebSocket, what each of them gets, and the
-- heartbeat that finds those that are gone. A set of accounts is a list that is only asked for its members.
pub mod Frames
pub mod Beats
mod Tests
use Prim.Native.String
use messaging_gateway.Prelude.{
  ℕ, ◌+◌, ◌-◌, String, Option, none, some, Bool, true, false, not, ◌&&◌, List, [], ◌∷◌, ◌++◌,
  if◌then◌else◌, ◌==◌, ltb, str_eq, str_mem, truthy, length, filter,
}
use messaging_gateway.Auth.{AuthScope, admin, read}

pub record Client : Type 0 where
  pub socket : ℕ
  pub is_open : Bool
  pub account_filter : Option (List String)
  pub scope : AuthScope
  pub is_alive : Bool

-- `timer` is whether the heartbeat is set; `gauge` is the metric of the clients that are connected.
pub record Hub : Type 0 where
  pub clients : List Client
  pub timer : Bool
  pub gauge : ℕ

abbrev pub new_hub : Hub
new_hub = record { clients = []; timer = false; gauge = 0 }

-- `accounts?.length ? new Set(accounts) : null`
abbrev pub to_filter : List String → Option (List String)
to_filter [] = none
to_filter accounts = some accounts

abbrev pub is_read : AuthScope → Bool
is_read read = true
is_read admin = false

-- `addClient`, and `startHeartbeat`
unfoldable pub add_client : Hub → ℕ → List String → AuthScope → Hub
add_client hub socket accounts scope = record {
  clients =
      hub.clients
      ++ (record {
        socket = socket;
        is_open = true;
        account_filter = to_filter accounts;
        scope = scope;
        is_alive = true;
      })
        ∷ [];
  timer = true;
  gauge = hub.gauge + 1;
}

-- The hub once `removeClient` has taken out all but `left`, and `stopHeartbeat` if none is left.
abbrev pub keep : Hub → List Client → Hub
keep hub left =
    let gone = length hub.clients - length left in
    record {
      clients = left;
      timer = if ltb 0 gone && length left == 0 then false else hub.timer;
      gauge = hub.gauge - gone;
    }

abbrev pub has_socket : ℕ → Client → Bool
has_socket socket c = c.socket == socket

unfoldable pub remove_client : Hub → ℕ → Hub
remove_client hub socket = keep hub (filter (λ c. not (has_socket socket c)) hub.clients)

-- What a client asks for.
pub data Request : Type 0 where
  subscribe unsubscribe : List String → Request
  other_request : Request

abbrev pub unsubscribed : List String → Option (List String) → Option (List String)
unsubscribed accounts none = none
unsubscribed accounts (some chosen) = to_filter (filter (λ a. not (str_mem a accounts)) chosen)

abbrev pub on_request : Request → Client → Client
on_request (subscribe accounts) c = record c {
  account_filter = to_filter accounts;
  is_alive = true;
}
on_request (unsubscribe accounts) c = record c {
  account_filter = unsubscribed accounts c.account_filter;
  is_alive = true;
}
on_request other_request c = record c { is_alive = true }

abbrev pub change : ℕ → (Client → Client) → List Client → List Client
change socket f [] = []
change socket f (c ∷ cs) = (if has_socket socket c then f c else c) ∷ change socket f cs

unfoldable pub on_message : Hub → ℕ → Request → Hub
on_message hub socket request = record hub {
  clients = change socket (on_request request) hub.clients;
}

unfoldable pub on_pong : Hub → ℕ → Hub
on_pong hub socket = record hub {
  clients = change socket (λ c. record c { is_alive = true }) hub.clients;
}

unfoldable pub wants : Client → Option String → Bool
wants c none = elim c.account_filter [ none ↦ not (is_read c.scope) | some chosen ↦ false ]
wants c (some account) =
    if truthy account
    then elim c.account_filter [ none ↦ true | some chosen ↦ str_mem account chosen ]
    else elim c.account_filter [ none ↦ not (is_read c.scope) | some chosen ↦ false ]

module _ {P : Type 0} where
  abbrev pub frame_for : Client → P → Option P → P
  frame_for c message none = message
  frame_for c message (some read_message) = if is_read c.scope then read_message else message

  -- The frames of `broadcast`, each with its client, in order.
  unfoldable pub frames : Option String → P → Option P → List Client → List (Client × P)
  frames account message read_message [] = []
  frames account message read_message (c ∷ cs) =
      let rest = frames account message read_message cs in
      if not c.is_open
      then rest
      else if not (wants c account)
      then rest
      else (c, frame_for c message read_message) ∷ rest

  -- `broadcast`. A client whose send fails is terminated.
  unfoldable pub broadcast :
      (fails : ℕ → Bool) → Hub → Option String → P → Option P → Hub × List (Client × P)
  broadcast fails hub account message read_message = (
    keep hub (filter (λ c. not (c.is_open && wants c account && fails c.socket)) hub.clients),
    frames account message read_message hub.clients,
  )

-- The payload of `connection.update`: its QR code may be absent, null or a text.
pub record ConnectionUpdate : Type 0 where
  pub status : String
  pub qr : Option (Option String)

abbrev pub read_data : ConnectionUpdate → Option ConnectionUpdate
read_data data_ = elim data_.qr [ none ↦ none | some qr ↦ some (record data_ { qr = some none }) ]

unfoldable pub on_connection_update :
    (fails : ℕ → Bool)
    → Hub
    → Option String
    → ConnectionUpdate
    → Hub × List (Client × ConnectionUpdate)
on_connection_update fails hub account data_ = broadcast fails hub account data_ (read_data data_)

-- The clients that the heartbeat leaves: those that answered the last ping, if this one goes out.
unfoldable pub beat : (ping_fails : ℕ → Bool) → List Client → List Client
beat ping_fails [] = []
beat ping_fails (c ∷ cs) =
    let rest = beat ping_fails cs in
    if not c.is_alive
    then rest
    else if ping_fails c.socket
    then rest
    else record c { is_alive = false } ∷ rest

unfoldable pub heartbeat : (ping_fails : ℕ → Bool) → Hub → Hub
heartbeat ping_fails hub = keep hub (beat ping_fails hub.clients)
