-- ===== src/Auth/Tests.antt =====
-- core/auth/api-key.guard.ts at concrete requests.

use messaging_gateway.Prelude.{String, Option, none, some, ◌≡◌, refl, ◌↔◌, if◌then◌else◌, str_eq}
use messaging_gateway.Auth.{
  read, AuthRequest, ApiKeys, HeaderValue, single, passed, denied, resolve_auth_scope,
  is_read_scope_allowed, extract_api_key, api_key_guard,
}
use messaging_gateway.Auth.Scope.{Passes, api_key_guard-Passes}

abbrev keys : ApiKeys
keys = record { admin_key = "root"; read_key = some "peek" }

abbrev bearer : String → String → Option HeaderValue
bearer token name = if str_eq name "authorization" then some (single token) else none

abbrev request : String → String → String → AuthRequest
request token verb url = record {
  headers = bearer token;
  method = some verb;
  route_url = some url;
  auth_scope = none;
}

read_gets :
    api_key_guard keys (request "Bearer peek" "get" "/api/v1/messages")
    ≡ passed (record (request "Bearer peek" "get" "/api/v1/messages") { auth_scope = some read })
unfolding api_key_guard resolve_auth_scope extract_api_key is_read_scope_allowed
read_gets = refl

read_cannot_post :
    api_key_guard keys (request "Bearer peek" "POST" "/api/v1/messages")
    ≡ denied 403 "READ_ONLY_API_KEY"
unfolding api_key_guard resolve_auth_scope extract_api_key is_read_scope_allowed
read_cannot_post = refl

api_key_guard-Passes_example :
    (api_key_guard keys (request "Bearer peek" "get" "/api/v1/messages")
      ≡ passed (record (request "Bearer peek" "get" "/api/v1/messages") { auth_scope = some read }))
    ↔ Passes keys
        (request "Bearer peek" "get" "/api/v1/messages")
        (record (request "Bearer peek" "get" "/api/v1/messages") { auth_scope = some read })
api_key_guard-Passes_example =
    api_key_guard-Passes keys (request "Bearer peek" "get" "/api/v1/messages")
      (record (request "Bearer peek" "get" "/api/v1/messages") { auth_scope = some read })
