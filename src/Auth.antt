-- ===== src/Auth.antt =====
-- core/auth/api-key.guard.ts: the API key guard of the HTTP routes and the signature check of the
-- inbound webhooks. A reply that is sent is the result `denied`, and a request that goes on carries
-- its scope. `createHmac` of node is a parameter, from the secret and the body to the hex digest.
mod Request
mod Scope
mod Tests
use Prim.Native.String
use text.Mathlib.Text.{starts_with}
use messaging_gateway.Prelude.{
  ℕ, ◌-◌, String, Bool, true, false, ◌&&◌, Option, none, some, List, [], ◌∷◌, map, leb, ◌==◌,
  if◌then◌else◌, str_eq, str_mem, truthy, truthy?, codes,
}

pub data AuthScope : Type 0 where
  admin read : AuthScope

-- `string | string[]`, as node gives a header.
pub data HeaderValue : Type 0 where
  single : String → HeaderValue
  many : List String → HeaderValue

pub record AuthRequest : Type 0 where
  pub headers : String → Option HeaderValue
  pub method : Option String
  pub route_url : Option String
  pub auth_scope : Option AuthScope

pub record ApiKeys : Type 0 where
  pub admin_key : String
  pub read_key : Option String

-- The byte lengths are compared before `timingSafeEqual`, which compares the bytes.
unfoldable pub safe_compare : String → String → Bool
safe_compare a b = if String.len a == String.len b then str_eq a b else false

read_key_matches : String → Option String → Bool
unfolding safe_compare
read_key_matches provided none = false
read_key_matches provided (some key) = truthy key && safe_compare provided key

resolve_given : String → ApiKeys → Option AuthScope
unfolding safe_compare read_key_matches
resolve_given provided keys =
    if safe_compare provided keys.admin_key
    then some admin
    else if read_key_matches provided keys.read_key
    then some read
    else none

unfoldable pub resolve_auth_scope : Option String → ApiKeys → Option AuthScope
unfolding resolve_given
resolve_auth_scope none keys = none
resolve_auth_scope (some provided) keys =
    if truthy provided then resolve_given provided keys else none

abbrev pub read_scope_routes : List String
read_scope_routes =
    "/api/v1/messages" ∷ "/api/v1/messages/:id" ∷ "/api/v1/messages/stats"
    ∷ "/api/v1/messages/search" ∷ "/api/v1/messages/analytics" ∷ "/api/v1/messages/export"
    ∷ "/api/v1/media/:id" ∷ []

-- `toUpperCase` on the ASCII letters: no other character has an upper case among G, E and T.
to_upper : ℕ → ℕ
to_upper c = if leb b'a' c && leb c b'z' then c - 32 else c

same_codes : List ℕ → List ℕ → Bool
same_codes [] [] = true
same_codes (a ∷ as_) (b ∷ bs) = a == b && same_codes as_ bs
same_codes _ _ = false

unfoldable pub is_get : Option String → Bool
unfolding to_upper same_codes
is_get none = false
is_get (some method) = same_codes (map to_upper (codes method)) (codes "GET")

abbrev pub or_empty : Option String → String
or_empty none = ""
or_empty (some s) = s

unfoldable pub is_read_scope_allowed : AuthRequest → Bool
unfolding is_get
is_read_scope_allowed request =
    if is_get request.method then str_mem (or_empty request.route_url) read_scope_routes else false

abbrev api_key_header : Option HeaderValue → Option String
api_key_header none = none
api_key_header (some (single s)) = some s
api_key_header (some (many ss)) = none

bearer_or : Option HeaderValue → Option HeaderValue → Option String
bearer_or (some (single s)) other =
    if starts_with s "Bearer " then some (String.slice s 7 (String.len s)) else api_key_header other
bearer_or _ other = api_key_header other

unfoldable pub extract_api_key : AuthRequest → Option String
unfolding bearer_or
extract_api_key request = bearer_or (request.headers "authorization") (request.headers "x-api-key")

pub data GuardResult : Type 0 where
  denied : ℕ → String → GuardResult
  passed : AuthRequest → GuardResult

guard_scope : Option AuthScope → AuthRequest → GuardResult
guard_scope none request = denied 401 "INVALID_API_KEY"
guard_scope (some admin) request = passed (record request { auth_scope = some admin })
guard_scope (some read) request =
    if is_read_scope_allowed request
    then passed (record request { auth_scope = some read })
    else denied 403 "READ_ONLY_API_KEY"

unfoldable pub api_key_guard : ApiKeys → AuthRequest → GuardResult
unfolding guard_scope
api_key_guard keys request =
    let provided = extract_api_key request in
    if truthy? provided
    then guard_scope (resolve_auth_scope provided keys) request
    else denied 401 "MISSING_API_KEY"

-- `hmac secret body` is the hex digest of node's `createHmac('sha256', secret)`.
unfoldable pub validate_webhook_signature :
    (hmac : String → String → String) (body : String) (header secret : Option String) → Bool
validate_webhook_signature hmac body header none = true
validate_webhook_signature hmac body none (some secret) = if truthy secret then false else true
validate_webhook_signature hmac body (some header) (some secret) =
    if truthy secret
    then if truthy header
      then safe_compare header (String.◌++◌ "sha256=" (hmac secret body))
      else false
    else true
