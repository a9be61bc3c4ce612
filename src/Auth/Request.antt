-- ===== src/Auth/Request.antt =====
-- core/auth/api-key.guard.ts, extractApiKey and isReadScopeAllowed: the key that a request carries, and the requests
-- that the read scope opens.
use Prim.Native.String
use mathlib.Core.List.{Memᴰ}
use mathlib.Core.List.Memᴰ.{head, tail}
use text.Mathlib.Text.{starts_with}
use text.Mathlib.TextEquality.{starts_with_iff}
use text.Mathlib.TextPositions.{starts_with-append, slice-append_right, len-append}
use messaging_gateway.Prelude.{
  ℕ, ◌+◌, ◌==◌, String, Bool, if◌then◌else◌, true, false, Option, none, some, List, [], ◌∷◌, map,
  ◌≡◌, refl, ap, sym, ◌∙◌, ◌≢◌, ◌↔◌, ◌⊎◌, inl, inr, arith, eq_iff, Bool-cases, str_eq, str_mem,
  codes,
}
use messaging_gateway.Auth.{
  HeaderValue, single, many, AuthRequest, api_key_header, bearer_or, extract_api_key, to_upper,
  same_codes, is_get, or_empty, read_scope_routes, is_read_scope_allowed,
}

-- The header `Authorization: Bearer <key>`.
abbrev pub bearer_header : String → Option HeaderValue
bearer_header key = some (single (String.◌++◌ "Bearer " key))

-- Of the values of the two headers, the key is the bearer's, or else the other header's, if it is there once.
abbrev pub Carries : Option HeaderValue → Option HeaderValue → String → Type 0
Carries authorization other key =
    (authorization ≡ bearer_header key)
    ⊎ (((k : String) → authorization ≢ bearer_header k) × (other ≡ some (single key)))

api_key_header_iff :
    (other : Option HeaderValue) (key : String)
    → (api_key_header other ≡ some key) ↔ (other ≡ some (single key))
api_key_header_iff none key = (λ h. absurd (cc h), λ h. absurd (cc h))
api_key_header_iff (some (single s)) key = (λ h. cc h, λ h. cc h)
api_key_header_iff (some (many ss)) key = (λ h. absurd (cc h), λ h. absurd (cc h))

bearer_rest :
    (key : String)
    → String.slice (String.◌++◌ "Bearer " key) 7 (String.len (String.◌++◌ "Bearer " key)) ≡ key
bearer_rest key = rw (len-append "Bearer " key) (slice-append_right "Bearer " key)

bearer_unique : (a b : String) → String.◌++◌ "Bearer " a ≡ String.◌++◌ "Bearer " b → a ≡ b
bearer_unique a b e =
    sym (bearer_rest a) ∙ ap (λ x. String.slice x 7 (String.len x)) e ∙ bearer_rest b

-- Without a bearer, the other header decides.
other_decides :
    (authorization other : Option HeaderValue) (key : String)
    → ((k : String) → authorization ≢ bearer_header k)
    → bearer_or authorization other ≡ api_key_header other
    → (bearer_or authorization other ≡ some key) ↔ Carries authorization other key
other_decides authorization other key no_bearer e = (
  λ h. inr (no_bearer, (api_key_header_iff other key).0 (sym e ∙ h)),
  λ h. elim h [
    | inl bearer ↦ absurd (no_bearer key bearer)
    | inr (_, given) ↦ e ∙ (api_key_header_iff other key).1 given
  ],
)

bearer_or_iff :
    (authorization other : Option HeaderValue) (key : String)
    → (bearer_or authorization other ≡ some key) ↔ Carries authorization other key
unfolding bearer_or
bearer_or_iff none other key = other_decides none other key (λ k e. cc e) refl
bearer_or_iff (some (many ss)) other key =
    other_decides (some (many ss)) other key (λ k e. cc e) refl
bearer_or_iff (some (single s)) other key = elim (Bool-cases (starts_with s "Bearer ")) [
  | inr not_it ↦
      other_decides (some (single s)) other key
        (λ k e.
          let same : s ≡ String.◌++◌ "Bearer " k = cc e in
          let is : starts_with s "Bearer " ≡ true = rw same (starts_with-append "Bearer " k) in
          cc (sym not_it ∙ is))
        (rw (bearer_or, not_it) refl)
  | inl it ↦
      let (rest, same) = (starts_with_iff s "Bearer ").0 it in
      let found : bearer_or (some (single s)) other ≡ some rest =
        rw (bearer_or, it) (ap some (rw (sym same) (bearer_rest rest))) in
      (
        λ h. inl (
            ap (λ x. some (single x))
              (sym same ∙ ap (λ k. String.◌++◌ "Bearer " k) (cc (sym found ∙ h)))),
        λ h. elim h [
          | inl bearer ↦
              let both : String.◌++◌ "Bearer " rest ≡ String.◌++◌ "Bearer " key =
                same ∙ cc bearer in
              found ∙ ap some (bearer_unique rest key both)
          | inr (none_, _) ↦ absurd (none_ rest (ap (λ x. some (single x)) (sym same)))
        ],
      )
]

-- The code point is that of an upper case letter, or of its lower case.
abbrev pub IsLetter : ℕ → ℕ → Type 0
IsLetter upper c = (c ≡ upper) ⊎ (c ≡ upper + 32)

-- The three letters of GET, each in upper or lower case.
abbrev pub SpellsGet : List ℕ → Type 0
SpellsGet (a ∷ b ∷ c ∷ []) = IsLetter b'G' a × IsLetter b'E' b × IsLetter b'T' c
SpellsGet _ = ⊥

upper_g : (c : ℕ) → ((to_upper c == b'G') ≡ true) ↔ IsLetter b'G' c
unfolding to_upper
upper_g c = ground arith

upper_e : (c : ℕ) → ((to_upper c == b'E') ≡ true) ↔ IsLetter b'E' c
unfolding to_upper
upper_e c = ground arith

upper_t : (c : ℕ) → ((to_upper c == b'T') ≡ true) ↔ IsLetter b'T' c
unfolding to_upper
upper_t c = ground arith

spells_iff :
    (cs : List ℕ) → (same_codes (map to_upper cs) (b'G' ∷ b'E' ∷ b'T' ∷ []) ≡ true) ↔ SpellsGet cs
unfolding same_codes
spells_iff [] = (λ h. absurd (cc h), λ h. absurd h)
spells_iff (a ∷ []) = (λ h. absurd (ground (arith, h)), λ h. absurd h)
spells_iff (a ∷ b ∷ []) = (λ h. absurd (ground (arith, h)), λ h. absurd h)
spells_iff (a ∷ b ∷ c ∷ []) = ground (arith, upper_g a, upper_e b, upper_t c)
spells_iff (a ∷ b ∷ c ∷ d ∷ cs) = (λ h. absurd (ground (arith, h)), λ h. absurd h)

str_mem_iff : (s : String) (ts : List String) → (str_mem s ts ≡ true) ↔ Memᴰ s ts
str_mem_iff s [] = (λ h. absurd (cc h), λ m. elim m [ ])
str_mem_iff s (t ∷ ts) = (
  λ h. elim (Bool-cases (str_eq t s)) [
    | inl it ↦ head (sym ((eq_iff t s).0 it))
    | inr not_it ↦ tail ((str_mem_iff s ts).0 (ground (arith, h, not_it)))
  ],
  λ m. elim m [
    | head e ↦ ground (arith, (eq_iff t s).1 (sym e))
    | tail n ↦ ground (arith, (str_mem_iff s ts).1 n)
  ],
)

-- The request is a GET on a route of the read scope.
pub record ReadRequest (request : AuthRequest) : Type 0 where
  pub verb : String
  pub url : String
  pub method : request.method ≡ some verb
  pub gets : SpellsGet (codes verb)
  pub route : request.route_url ≡ some url
  pub listed : Memᴰ url read_scope_routes

is_get_iff : (verb : String) → (is_get (some verb) ≡ true) ↔ SpellsGet (codes verb)
unfolding is_get
is_get_iff verb = spells_iff (codes verb)

no_method : is_get none ≡ false
unfolding is_get
no_method = refl

gate : (b c : Bool) → (if b then c else false) ≡ true → (b ≡ true) × (c ≡ true)
gate true c h = (refl, h)
gate false c h = absurd (cc h)

not_listed : str_mem "" read_scope_routes ≡ false
not_listed = refl

read_allowed :
    (method route : Option String) (request : AuthRequest)
    → request.method ≡ method
    → request.route_url ≡ route
    → is_read_scope_allowed request ≡ true
    → ReadRequest request
unfolding is_read_scope_allowed
read_allowed none route request m r h =
    let (get, _) = gate (is_get request.method) _ h in absurd (cc (sym (rw m at get) ∙ no_method))
read_allowed (some verb) none request m r h =
    let (_, listed) = gate (is_get request.method) _ h in
    let at_none : str_mem "" read_scope_routes ≡ true = rw r at listed in
    absurd (cc (sym at_none ∙ not_listed))
read_allowed (some verb) (some url) request m r h =
    let (get, listed) = gate (is_get request.method) _ h in
    record {
      verb = verb;
      url = url;
      method = m;
      gets = (is_get_iff verb).0 (rw m at get);
      route = r;
      listed = (str_mem_iff url read_scope_routes).0 (rw r at listed);
    }

pub is_read_scope_allowed_iff :
    (request : AuthRequest) → (is_read_scope_allowed request ≡ true) ↔ ReadRequest request
unfolding is_read_scope_allowed
is_read_scope_allowed_iff request = (
  read_allowed request.method request.route_url request refl refl,
  λ q.
      let get : is_get request.method ≡ true = rw q.method ((is_get_iff q.verb).1 q.gets) in
      let listed : str_mem (or_empty request.route_url) read_scope_routes ≡ true =
        rw q.route ((str_mem_iff q.url read_scope_routes).1 q.listed) in
      rw (is_read_scope_allowed, get, listed) refl,
)

pub extract_api_key_iff :
    (request : AuthRequest) (key : String)
    → (extract_api_key request ≡ some key)
      ↔ Carries (request.headers "authorization") (request.headers "x-api-key") key
unfolding extract_api_key
extract_api_key_iff request key =
    bearer_or_iff (request.headers "authorization") (request.headers "x-api-key") key
