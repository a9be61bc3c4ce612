-- ===== src/Store/Contract.antt =====
-- core/persistence/message-store.port.ts, MessageLogPort.insertInbound: what every message store promises, as
-- a log of entries without the columns that a store keeps for itself, and the interface that a store fills.
use messaging_gateway.Prelude.{
  ℕ, ◌+◌, String, Option, none, some, Bool, ◌&&◌, List, [], ◌∷◌, ◌≡◌, refl, ap, ◌∙◌, str_eq, find,
  All,
}
use messaging_gateway.Messages.{UnifiedEnvelope}
use messaging_gateway.Messages.Format.{wa_message_id_of}
use messaging_gateway.Store.{inserted, duplicate, Outcome, ok, throws, opt_eq, set_counter}
use messaging_gateway.Store.Numbers.{Attempt}
use messaging_gateway.Store.Dedupe.{Plain}

-- A message of the log: who it is, and its number in its account.
pub record Entry : Type 0 where
  pub id : String
  pub account_id : String
  pub wa_message_id : Option String
  pub number : Option ℕ

-- The newest comes first.
pub record Log : Type 0 where
  pub entries : List Entry
  pub counters : String → ℕ

-- What the caller of insertInbound learns: the number, or the message that is there already.
pub data Verdict : Type 0 where
  added : Option ℕ → Verdict
  repeated : String → Option ℕ → Verdict
  failed : Verdict

abbrev pub verdict : Outcome → Verdict
verdict (ok (inserted seq n)) = added n
verdict (ok (duplicate id seq n)) = repeated id n
verdict (throws e) = failed

abbrev pub has_id : UnifiedEnvelope → Entry → Bool
has_id envelope e = str_eq e.id envelope.id

abbrev pub has_wa_id : UnifiedEnvelope → Entry → Bool
has_wa_id envelope e =
    str_eq e.account_id envelope.account_id && opt_eq e.wa_message_id (wa_message_id_of envelope)

-- The entry of that id, or else the account's entry of that WhatsApp id.
abbrev pub entry_of_message : List Entry → UnifiedEnvelope → Option Entry
entry_of_message entries envelope = elim (find (has_id envelope) entries) [
  | some e ↦ some e
  | none ↦ find (has_wa_id envelope) entries
]

-- A message that the log holds changes nothing; another goes in, under the next number of its account.
unfoldable pub record_message : Log → UnifiedEnvelope → Log × Verdict
record_message log envelope = elim (entry_of_message log.entries envelope) [
  | some e ↦ (log, repeated e.id e.number)
  | none ↦
      let n = log.counters envelope.account_id + 1 in
      let entry : Entry = record {
        id = envelope.id;
        account_id = envelope.account_id;
        wa_message_id = wa_message_id_of envelope;
        number = some n;
      } in
      (
        record {
          entries = entry ∷ log.entries;
          counters = set_counter envelope.account_id n log.counters;
        },
        added (some n),
      )
]

unfoldable pub record_all : Log → List Attempt → Log × List Verdict
record_all log [] = (log, [])
record_all log (a ∷ attempts) =
    let (next, v) = record_message log a.envelope in
    let (end, vs) = record_all next attempts in (end, v ∷ vs)

-- A message store: how it stores a message, how its tables read as a log, and what its tables satisfy.
pub record MessageLog (S : Type 0) : Type 1 where
  pub insert : S → Attempt → S × Outcome
  pub view : S → Log
  pub Valid : S → Type 0
  pub insert-Valid : (s : S) (a : Attempt) → Plain a.envelope → Valid s → Valid (insert s a).0
  pub insert-record_message :
      (s : S) (a : Attempt)
      → Plain a.envelope
      → Valid s
      → (view (insert s a).0, verdict (insert s a).1) ≡ record_message (view s) a.envelope

abbrev pub AllPlain : List Attempt → Type 0
AllPlain attempts = All (λ a. Plain a.envelope) attempts

module _ {S : Type 0} (store : MessageLog S) where
  unfoldable pub insert_all : S → List Attempt → S × List Verdict
  insert_all s [] = (s, [])
  insert_all s (a ∷ attempts) =
      let (next, answer) = store.insert s a in
      let (end, vs) = insert_all next attempts in (end, verdict answer ∷ vs)

  -- Whatever messages a store is given, in whatever order and however often, it answers as the log does and
  -- its tables read as the log's entries and counters, so long as the store meets the interface and its tables
  -- were valid. None of the texts that identify a message holds a U+0000.
  pub insert_all-record_all :
      (s : S) (attempts : List Attempt)
      → AllPlain attempts
      → store.Valid s
      → (store.view (insert_all s attempts).0, (insert_all s attempts).1)
        ≡ record_all (store.view s) attempts
  unfolding insert_all record_all
  insert_all-record_all s [] p v = refl
  insert_all-record_all s (a ∷ attempts) (p, ps) v =
      let next = (store.insert s a).0 in
      let ih = insert_all-record_all next attempts ps (store.insert-Valid s a p v) in
      let here = store.insert-record_message s a p v in
      let after : Log × Verdict → Log × List Verdict =
        λ x. ((record_all x.0 attempts).0, x.1 ∷ (record_all x.0 attempts).1) in
      ap (λ (x : Log × List Verdict). (x.0, verdict (store.insert s a).1 ∷ x.1)) ih ∙ ap after here
