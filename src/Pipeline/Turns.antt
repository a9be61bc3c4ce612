-- ===== src/Pipeline/Turns.antt =====
-- core/inbound/inbound-pipeline.ts, handle: the chain of promises of each account. A call of handle has the number of
-- the calls before it, and its `run` waits for the tail that the account had in `queues`.
use messaging_gateway.Prelude.{
  ℕ, ◌+◌, String, Option, none, some, Bool, true, false, ◌&&◌, List, [], ◌∷◌, if◌then◌else◌, str_eq,
  ◌==◌,
}
use messaging_gateway.Messages.{UnifiedEnvelope}

-- Where the call's `run` stands; in the end `process` has succeeded, or has thrown.
pub data Stage : Type 0 where
  waiting processing : Stage
  ended : Bool → Stage

-- `tail` is `run.catch(...)`: it resolves however `process` ends.
abbrev pub tail_resolved : Stage → Bool
tail_resolved (ended ok) = true
tail_resolved _ = false

abbrev pub has_begun : Stage → Bool
has_begun waiting = false
has_begun _ = true

-- The calls by their numbers, and the map `queues`, of an account's last tail.
pub record Turns : Type 0 where
  pub count : ℕ
  pub account : ℕ → String
  pub envelope : ℕ → UnifiedEnvelope
  pub previous : ℕ → Option ℕ
  pub stage : ℕ → Stage
  pub queues : String → Option ℕ

abbrev pub at_number {ℓ} : {A : Type ℓ} → ℕ → A → (ℕ → A) → ℕ → A
at_number n value f i = if i == n then value else f i

abbrev pub at_account : String → Option ℕ → (String → Option ℕ) → String → Option ℕ
at_account account value f other = if str_eq account other then value else f other

unfoldable pub handle : String → UnifiedEnvelope → Turns → Turns
handle account envelope t = record {
  count = t.count + 1;
  account = at_number t.count account t.account;
  envelope = at_number t.count envelope t.envelope;
  previous = at_number t.count (t.queues account) t.previous;
  stage = at_number t.count waiting t.stage;
  queues = at_account account (some t.count) t.queues;
}

-- What the call waits for has resolved; without a tail in `queues` that is `Promise.resolve()`.
abbrev pub may_begin : Option ℕ → Turns → Bool
may_begin none t = true
may_begin (some p) t = tail_resolved (t.stage p)

abbrev pub begun : Stage → Bool → Stage
begun waiting true = processing
begun stage _ = stage

-- The `then` of the previous tail calls `process`.
unfoldable pub begins : ℕ → Turns → Turns
begins n t = record t {
  stage = at_number n (begun (t.stage n) (may_begin (t.previous n) t)) t.stage;
}

abbrev pub settled : Bool → Stage → Stage
settled ok processing = ended ok
settled ok stage = stage

-- `process` returns, or throws.
unfoldable pub ends : ℕ → Bool → Turns → Turns
ends n ok t = record t { stage = at_number n (settled ok (t.stage n)) t.stage }

abbrev pub is_tail : Option ℕ → ℕ → Bool
is_tail none n = false
is_tail (some q) n = q == n

-- The `then` of the call's tail: the account's entry goes if this tail is still the last.
unfoldable pub forgets : ℕ → Turns → Turns
forgets n t =
    if tail_resolved (t.stage n) && is_tail (t.queues (t.account n)) n
    then record t { queues = at_account (t.account n) none t.queues }
    else t

pub data Turn : Type 0 where
  handles : String → UnifiedEnvelope → Turn
  starts cleans : ℕ → Turn
  settles : ℕ → Bool → Turn

unfoldable pub turn : Turns → Turn → Turns
turn t (handles account envelope) = handle account envelope t
turn t (starts n) = begins n t
turn t (settles n ok) = ends n ok t
turn t (cleans n) = forgets n t

unfoldable pub run_turns : Turns → List Turn → Turns
run_turns t [] = t
run_turns t (x ∷ xs) = run_turns (turn t x) xs

abbrev pub no_turns : UnifiedEnvelope → Turns
no_turns nothing = record {
  count = 0;
  account = λ n. "";
  envelope = λ n. nothing;
  previous = λ n. none;
  stage = λ n. waiting;
  queues = λ account. none;
}
