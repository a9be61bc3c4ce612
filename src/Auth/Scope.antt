-- ===== src/Auth/Scope.antt =====
-- core/auth/api-key.guard.ts: what a request that passes the guard has shown, and what the two
-- scopes and a signed webhook are good for.
use Prim.Native.String
use text.Mathlib.TextLemmas.{cons-append}
use text.Mathlib.TextPositions.{starts_with-append, slice-append_right, len-append}
use messaging_gateway.Prelude.{
  ℕ, String, true, false, Option, none, some, ◌≡◌, refl, ap, ◌≢◌, ◌↔◌, ◌⊎◌, inl, inr, arith, eq_iff,
  truthy, truthy?, Bool-cases, Option-cases,
}
use messaging_gateway.Auth.Request.{
  Carries, ReadRequest, is_read_scope_allowed_iff, extract_api_key_iff,
}
use messaging_gateway.Auth.{
  AuthScope, admin, read, AuthRequest, ApiKeys, single, passed, denied, safe_compare, resolve_given,
  read_key_matches, resolve_auth_scope, is_read_scope_allowed, extract_api_key, guard_scope,
  api_key_guard, validate_webhook_signature,
}

pub safe_compare_iff : (a b : String) → (safe_compare a b ≡ true) ↔ (a ≡ b)
unfolding safe_compare
safe_compare_iff a b = (λ h. ground (arith, eq_iff a b), λ e. rw e (ground (arith, eq_iff b b)))

truthy_iff : (s : String) → (truthy s ≡ true) ↔ (s ≢ "")
truthy_iff String.[] = (λ h. cc, λ h. absurd (h refl))
truthy_iff (String.◌∷◌ c s) = (λ h e. cc, λ h. refl)

-- The scope that a key stands for.
abbrev pub Resolves : ApiKeys → String → AuthScope → Type 0
Resolves keys provided admin = provided ≡ keys.admin_key
Resolves keys provided read = (provided ≢ keys.admin_key) × (keys.read_key ≡ some provided)

-- The routes that a scope opens.
abbrev pub Opens : AuthScope → AuthRequest → Type 0
Opens admin request = Unit {0}
Opens read request = ReadRequest request

read_key_matches_iff :
    (provided : String) (key : Option String)
    → provided ≢ ""
    → (read_key_matches provided key ≡ true) ↔ (key ≡ some provided)
unfolding read_key_matches
read_key_matches_iff provided none ne = ground arith
read_key_matches_iff provided (some key) ne =
    ground (arith, truthy_iff key, safe_compare_iff provided key, truthy_iff provided)

-- A key that is given stands for the admin scope, for the read scope or for none.
pub resolve_auth_scope_iff :
    (keys : ApiKeys) (provided : String) (scope : AuthScope)
    → provided ≢ ""
    → (resolve_auth_scope (some provided) keys ≡ some scope) ↔ Resolves keys provided scope
unfolding resolve_auth_scope resolve_given
resolve_auth_scope_iff keys provided scope ne = ground (
  arith,
  truthy_iff provided,
  safe_compare_iff provided keys.admin_key,
  read_key_matches_iff provided keys.read_key,
)

-- What a request has shown when the guard lets it go on as `next`.
pub record Passes (keys : ApiKeys) (request next : AuthRequest) : Type 0 where
  pub provided : String
  pub scope : AuthScope
  pub carried : Carries (request.headers "authorization") (request.headers "x-api-key") provided
  pub given : provided ≢ ""
  pub resolves : Resolves keys provided scope
  pub opens : Opens scope request
  pub kept : next ≡ record request { auth_scope = some scope }

guard_scope-eq-passed :
    (found : Option AuthScope) (request next : AuthRequest)
    → guard_scope found request ≡ passed next
    → (scope : AuthScope) × (found ≡ some scope)
      × Opens scope request
      × (next ≡ record request { auth_scope = some scope })
unfolding guard_scope
guard_scope-eq-passed none request next h = cc
guard_scope-eq-passed (some admin) request next h = (admin, refl, tt, ground arith)
guard_scope-eq-passed (some read) request next h =
    let allowed : is_read_scope_allowed request ≡ true = ground (arith, h) in
    (read, refl, (is_read_scope_allowed_iff request).0 allowed, ground (arith, allowed))

guard_scope-Opens :
    (scope : AuthScope) (request : AuthRequest)
    → Opens scope request
    → guard_scope (some scope) request ≡ passed (record request { auth_scope = some scope })
unfolding guard_scope
guard_scope-Opens admin request o = refl
guard_scope-Opens read request o =
    let allowed = (is_read_scope_allowed_iff request).1 o in rw (guard_scope, allowed) refl

guard_sound :
    (keys : ApiKeys) (request next : AuthRequest)
    → api_key_guard keys request ≡ passed next
    → Passes keys request next
unfolding api_key_guard
guard_sound keys request next h = elim (Option-cases (extract_api_key request)) [
  | inl missing ↦ absurd (ground (arith))
  | inr (provided, e) ↦
      let ne : provided ≢ "" = (truthy_iff provided).0 (ground arith) in
      let go : guard_scope (resolve_auth_scope (some provided) keys) request ≡ passed next =
        ground (arith) in
      let (scope, found, opens, kept) = guard_scope-eq-passed _ _ _ go in
      record {
        provided = provided;
        scope = scope;
        carried = (extract_api_key_iff request provided).0 e;
        given = ne;
        resolves = (resolve_auth_scope_iff keys provided scope ne).0 found;
        opens = opens;
        kept = kept;
      }
]

guard_complete :
    (keys : ApiKeys) (request next : AuthRequest)
    → Passes keys request next
    → api_key_guard keys request ≡ passed next
unfolding api_key_guard
guard_complete keys request next p =
    let found = (resolve_auth_scope_iff keys p.provided p.scope p.given).1 p.resolves in
    let t = (truthy_iff p.provided).1 p.given in
    let e = (extract_api_key_iff request p.provided).1 p.carried in
    let go = guard_scope-Opens p.scope request p.opens in ground (arith, e, found, t, go, p.kept)

-- A request passes the guard exactly when its key, which is that of `Authorization: Bearer` or, without a
-- bearer, of `X-API-Key`, is not empty and is the admin key, or is the read key, is not the admin key, and the
-- request's method is GET in whatever case and its route one of the read scope; it goes on unchanged but for
-- the scope.
pub api_key_guard-Passes :
    (keys : ApiKeys) (request next : AuthRequest)
    → (api_key_guard keys request ≡ passed next) ↔ Passes keys request next
api_key_guard-Passes keys request next =
    (guard_sound keys request next, guard_complete keys request next)

-- Every request that does not pass is answered: 401 where no key of the gateway was given, and
-- 403 only to the read key on a route that is closed to it.
pub api_key_guard-denied :
    (keys : ApiKeys) (request : AuthRequest) (status : ℕ) (code : String)
    → api_key_guard keys request ≡ denied status code
    → ((status ≡ 401)
        × ((scope : AuthScope) → resolve_auth_scope (extract_api_key request) keys ≢ some scope))
      ⊎ ((status ≡ 403)
          × (resolve_auth_scope (extract_api_key request) keys ≡ some read)
          × (is_read_scope_allowed request ≡ false))
unfolding api_key_guard guard_scope resolve_auth_scope
api_key_guard-denied keys request status code h = elim (Option-cases (extract_api_key request)) [
  | inl missing ↦ inl (ground arith, λ scope e. cc (ap (λ o. resolve_auth_scope o keys) missing))
  | inr (provided, e) ↦ rw e (elim (Option-cases (resolve_auth_scope (some provided) keys)) [
    | inl unknown ↦ inl (ground arith, λ scope f. cc)
    | inr (admin, found) ↦ absurd (ground arith)
    | inr (read, found) ↦ ground arith
  ])
]

-- A key in `Authorization: Bearer` is read back whole, whatever `X-API-Key` says.
pub extract_api_key-bearer :
    (request : AuthRequest) (key : String)
    → request.headers "authorization" ≡ some (single (String.◌++◌ "Bearer " key))
    → extract_api_key request ≡ some key
unfolding extract_api_key
extract_api_key-bearer request key h = rw h (
    rw (starts_with-append "Bearer " key, len-append "Bearer " key)
      (ap some (slice-append_right "Bearer " key)))

truthy-signature : (digest : String) → truthy (String.◌++◌ "sha256=" digest) ≡ true
truthy-signature digest = rw cons-append

signed_iff :
    (hmac : String → String → String) (body header secret : String)
    → (validate_webhook_signature hmac body (some header) (some secret) ≡ true) ↔ (
        (truthy secret ≡ false)
        ⊎ ((key : String) × (some secret ≡ some key)
            × (some header ≡ some (String.◌++◌ "sha256=" (hmac key body)))))
unfolding validate_webhook_signature
signed_iff hmac body header secret =
    let same = safe_compare_iff header (String.◌++◌ "sha256=" (hmac secret body)) in
    let given = truthy-signature (hmac secret body) in
    (
      λ h. elim (Bool-cases (truthy secret)) [
        | inl set ↦ inr (secret, refl, ap some (same.0 (ground arith)))
        | inr unset ↦ inl unset
      ],
      λ h. elim h [ inl unset ↦ ground arith | inr (key, e, signed) ↦ ground (arith, same, given) ],
    )

-- Once a webhook secret is set, a delivery is accepted exactly when its signature header is the
-- digest of its body; with no secret every delivery is accepted.
pub validate_webhook_signature_iff :
    (hmac : String → String → String) (body : String) (header : Option String)
    (secret : Option String)
    → (validate_webhook_signature hmac body header secret ≡ true) ↔ (
        (truthy? secret ≡ false)
        ⊎ ((key : String) × (secret ≡ some key)
            × (header ≡ some (String.◌++◌ "sha256=" (hmac key body)))))
unfolding validate_webhook_signature
validate_webhook_signature_iff hmac body header none = (λ h. inl refl, λ h. refl)
validate_webhook_signature_iff hmac body none (some secret) = (λ h. ground arith, λ h. ground arith)
validate_webhook_signature_iff hmac body (some header) (some secret) =
    signed_iff hmac body header secret
