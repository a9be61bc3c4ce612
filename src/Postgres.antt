-- ===== src/Postgres.antt =====
-- persistence/postgres-message-store.ts: the message log on PostgreSQL, with the tables of
-- persistence/migrations/scripts/postgres/003_message_log.sql. A transaction is one step: the row lock on
-- the account's counter holds the account's other transactions back until it ends.
pub mod Contract
pub mod Purge
mod Tests
use messaging_gateway.Prelude.{
  ℕ, ◌+◌, String, Option, none, some, Bool, true, false, ◌||◌, ◌∷◌, if◌then◌else◌, any, filter, ltb,
  not, length, ◌-◌,
}
use messaging_gateway.Messages.{UnifiedEnvelope}
use messaging_gateway.Messages.Format.{wa_message_id_of}
use messaging_gateway.Messages.Clean.{has_null}
use messaging_gateway.Store.{
  Db, inserted, duplicate, Outcome, ok, throws, permanent_store_error, conflicts, row_of, bump,
  resync_counter, read_stored, or_zero,
}

-- The statement with `ON CONFLICT DO NOTHING RETURNING seq`, and whether it gave a row. The BIGSERIAL gives
-- out its number before the conflict is found, and never takes it back.
unfoldable pub insert_with : Db → UnifiedEnvelope → Option String → ℕ → ℕ → Db × Bool
unfolding row_of
insert_with db envelope raw now number =
    let next = db.seq_counter + 1 in
    let row = row_of envelope raw now (some number) next in
    if any (conflicts row) db.messages
    then (record db { seq_counter = next }, false)
    else (record db { messages = row ∷ db.messages; seq_counter = next }, true)

-- A transaction that does not commit: of its effects only the sequence's stays.
abbrev pub rolled_back : Db → Db → Db
rolled_back before after = record before { seq_counter = after.seq_counter }

abbrev pub has_null? : Option String → Bool
has_null? none = false
has_null? (some s) = has_null s

-- The second statement, once the counter has caught up with the rows.
unfoldable pub insert_resynced : Db → Db → UnifiedEnvelope → Option String → ℕ → Db × Outcome
unfolding insert_with resync_counter
insert_resynced before tried envelope raw now =
    let resynced = resync_counter tried envelope.account_id in
    let number = resynced.counters envelope.account_id in
    let (after, given) = insert_with resynced envelope raw now number in
    if given
    then (after, ok (inserted after.seq_counter (some number)))
    else (rolled_back before after, throws permanent_store_error)

-- The statement gave no row: the message is there already, or its number is. PostgreSQL refuses a text
-- parameter with a U+0000 (SQLSTATE 22021), and `Number(null)` is 0.
unfoldable pub insert_collided : Db → Db → UnifiedEnvelope → Option String → ℕ → Db × Outcome
unfolding insert_resynced read_stored
insert_collided before tried envelope raw now =
    if has_null envelope.id || has_null? (wa_message_id_of envelope)
    then (rolled_back before tried, throws permanent_store_error)
    else elim (read_stored tried.messages envelope) [
      | some r ↦
          (rolled_back before tried, ok (duplicate r.id r.seq (some (or_zero r.account_seq))))
      | none ↦ insert_resynced before tried envelope raw now
    ]

unfoldable pub insert_inbound : Db → UnifiedEnvelope → Option String → ℕ → Db × Outcome
unfolding bump insert_with insert_collided
insert_inbound db envelope raw now =
    let bumped = bump db envelope.account_id in
    let number = bumped.counters envelope.account_id in
    let (tried, given) = insert_with bumped envelope raw now number in
    if has_null envelope.account_id
    then (db, throws permanent_store_error)
    else if given
    then (tried, ok (inserted tried.seq_counter (some number)))
    else insert_collided db tried envelope raw now

-- `DELETE FROM messages WHERE created_at < $1`, with the number of rows that went.
unfoldable pub delete_older_than : Db → ℕ → Db × ℕ
delete_older_than db cutoff =
    let kept = filter (λ r. not (ltb r.created_at cutoff)) db.messages in
    (record db { messages = kept }, length db.messages - length kept)
