-- ===== src/Store.antt =====
-- persistence/sqlite-message-store.ts and the tables of
-- persistence/migrations/scripts/sqlite/003_message_log.sql: the message log. A statement is a
-- function on the tables; a transaction that throws gives back the tables as they were. What
-- SQLite itself may refuse (a busy or full disk) is not here: the store guard takes it as an answer.
pub mod Rows
pub mod Numbers
pub mod Retention
pub mod Dedupe
pub mod Pages
pub mod Feed
pub mod Contract
pub mod View
mod Tests
use Prim.Native.Nat.{max}
use messaging_gateway.Prelude.{
  ℕ, zero, suc, ◌+◌, String, Option, none, some, Bool, true, false, ◌&&◌, ◌||◌, List, [], ◌∷◌,
  if◌then◌else◌, ◌==◌, str_eq, any, find, filter, ltb, map, is_some,
}
use messaging_gateway.Messages.{UnifiedEnvelope, Direction, inbound, MessageContent}
use messaging_gateway.Messages.Format.{clean_text, wa_message_id_of}

-- A row of `messages`: the columns that the statements read, and the envelope for the others.
pub record Row : Type 0 where
  pub id : String
  pub account_id : String
  pub wa_message_id : Option String
  pub account_seq : Option ℕ
  pub seq : ℕ
  pub created_at : ℕ
  pub raw_json : Option String
  pub envelope : UnifiedEnvelope

-- The newest row comes first. A counter that has no row is 0.
pub record Db : Type 0 where
  pub messages : List Row
  pub counters : String → ℕ
  pub seq_counter : ℕ

pub data InsertResult : Type 0 where
  inserted : ℕ → Option ℕ → InsertResult
  duplicate : String → ℕ → Option ℕ → InsertResult

pub data InsertError : Type 0 where
  permanent_store_error type_error : InsertError

pub data Outcome : Type 0 where
  ok : InsertResult → Outcome
  throws : InsertError → Outcome

abbrev pub opt_eq : Option String → Option String → Bool
opt_eq (some a) (some b) = str_eq a b
opt_eq _ _ = false

abbrev pub num_eq : Option ℕ → Option ℕ → Bool
num_eq (some a) (some b) = a == b
num_eq _ _ = false

-- The primary key and the unique indexes on (account_id, wa_message_id) and
-- (account_id, account_seq); a NULL equals nothing.
abbrev pub same_message : String → String → Option String → Row → Bool
same_message id account wa r =
    str_eq r.id id || (str_eq r.account_id account && opt_eq r.wa_message_id wa)

abbrev pub conflicts : Row → Row → Bool
conflicts new r =
    same_message new.id new.account_id new.wa_message_id r
    || (str_eq r.account_id new.account_id && num_eq r.account_seq new.account_seq)

abbrev pub clean? : Option String → Option String
clean? none = none
clean? (some s) = some (clean_text s)

-- `messageRowValues`, with the number that the account counter gave.
unfoldable pub row_of : UnifiedEnvelope → Option String → ℕ → Option ℕ → ℕ → Row
row_of envelope raw now number next = record {
  id = clean_text envelope.id;
  account_id = clean_text envelope.account_id;
  wa_message_id = clean? (wa_message_id_of envelope);
  account_seq = number;
  seq = next;
  created_at = now;
  raw_json = raw;
  envelope = envelope;
}

abbrev pub set_counter : String → ℕ → (String → ℕ) → String → ℕ
set_counter account n counters a = if str_eq account a then n else counters a

-- `INSERT INTO account_counters ... ON CONFLICT DO UPDATE SET n = n + 1`
unfoldable pub bump : Db → String → Db
bump db account = record db { counters = set_counter account (db.counters account + 1) db.counters }

abbrev pub or_zero : Option ℕ → ℕ
or_zero none = 0
or_zero (some n) = n

-- `COALESCE(MAX(account_seq), 0)`
unfoldable pub max_seq : String → List Row → ℕ
max_seq account [] = 0
max_seq account (r ∷ rs) =
    let rest = max_seq account rs in
    if str_eq r.account_id account then max (or_zero r.account_seq) rest else rest

-- `resyncCounter`: one past the highest number in the table.
unfoldable pub resync_counter : Db → String → Db
resync_counter db account = record db {
  counters = set_counter account (max_seq account db.messages + 1) db.counters;
}

-- `INSERT ... ON CONFLICT DO NOTHING` with the trigger `messages_seq_ai`: `none` is no change.
unfoldable pub insert_row : Db → UnifiedEnvelope → Option String → ℕ → ℕ → Option Db
unfolding row_of
insert_row db envelope raw now n =
    let next = db.seq_counter + 1 in
    let row = row_of envelope raw now (some n) next in
    if any (conflicts row) db.messages
    then none
    else some (record db { messages = row ∷ db.messages; seq_counter = next })

-- `readStored`: the row of that id, or else the account's row of that WhatsApp id.
unfoldable pub read_stored : List Row → UnifiedEnvelope → Option Row
read_stored rows envelope = elim (find (λ r. str_eq r.id envelope.id) rows) [
  | some r ↦ some r
  | none ↦
      find
        (λ r.
          str_eq r.account_id envelope.account_id
          && opt_eq r.wa_message_id (wa_message_id_of envelope))
        rows
]

-- `readSeq`, whose missing row the destructuring does not survive.
finish_insert : Db → Db → UnifiedEnvelope → Db × Outcome
finish_insert before after envelope = elim (find (λ r. str_eq r.id envelope.id) after.messages) [
  | none ↦ (before, throws type_error)
  | some r ↦ (after, ok (inserted r.seq (some (after.counters envelope.account_id))))
]

-- The insert found a unique index taken: a duplicate, or a counter that is behind its rows.
collided : Db → Db → UnifiedEnvelope → Option String → ℕ → Db × Outcome
unfolding resync_counter insert_row read_stored finish_insert
collided before bumped envelope raw now = elim (read_stored bumped.messages envelope) [
  | some r ↦ (before, ok (duplicate r.id r.seq r.account_seq))
  | none ↦
      let resynced = resync_counter bumped envelope.account_id in
      elim (insert_row resynced envelope raw now (resynced.counters envelope.account_id)) [
        | none ↦ (before, throws permanent_store_error)
        | some after ↦ finish_insert before after envelope
      ]
]

unfoldable pub insert_inbound : Db → UnifiedEnvelope → Option String → ℕ → Db × Outcome
unfolding bump insert_row finish_insert collided
insert_inbound db envelope raw now =
    let bumped = bump db envelope.account_id in
    elim (insert_row bumped envelope raw now (bumped.counters envelope.account_id)) [
      | none ↦ collided db bumped envelope raw now
      | some after ↦ finish_insert db after envelope
    ]

abbrev pub retention_delete_batch : ℕ
retention_delete_batch = 1000

-- One `DELETE ... LIMIT`: the rows that stay, and how many went.
unfoldable pub delete_batch : ℕ → ℕ → List Row → List Row × ℕ
delete_batch cutoff zero rows = (rows, 0)
delete_batch cutoff (suc limit) [] = ([], 0)
delete_batch cutoff (suc limit) (r ∷ rs) =
    let (fewer, n) = delete_batch cutoff limit rs in
    let (same, m) = delete_batch cutoff (suc limit) rs in
    if ltb r.created_at cutoff then (fewer, n + 1) else (r ∷ same, m)

-- The loop of `deleteOlderThan` on the rows, with fuel; `none` means that the fuel ran out.
unfoldable pub delete_loop : ℕ → ℕ → List Row → ℕ → Option (List Row × ℕ)
delete_loop zero cutoff rows deleted = none
delete_loop (suc fuel) cutoff rows deleted =
    let (left, changes) = delete_batch cutoff retention_delete_batch rows in
    let rest = delete_loop fuel cutoff left (deleted + changes) in
    if ltb changes retention_delete_batch then some (left, deleted + changes) else rest

unfoldable pub delete_older_than : ℕ → Db → ℕ → Option (Db × ℕ)
delete_older_than fuel db cutoff = elim (delete_loop fuel cutoff db.messages 0) [
  | none ↦ none
  | some (left, deleted) ↦ some (record db { messages = left }, deleted)
]

unfoldable pub max_account_seq : Db → String → ℕ
max_account_seq db account = db.counters account
