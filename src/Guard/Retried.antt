-- ===== src/Guard/Retried.antt =====
-- core/inbound/store-guard.ts, settleRetried, over the message log of persistence/sqlite-message-store.ts.
use messaging_gateway.Prelude.{
  ℕ, ◌+◌, String, Option, some, true, false, List, ◌∷◌, ◌≡◌, arith, ◌∙◌, any, str_eq, str_eq_refl,
}
use messaging_gateway.Messages.{UnifiedEnvelope}
use messaging_gateway.Messages.Format.{clean_text}
use messaging_gateway.Store.{Row, Db, Outcome, ok, throws, row_of, read_stored, insert_inbound}
use messaging_gateway.Store.Rows.{WellFormed, added, refusal, refused}
use messaging_gateway.Store.Dedupe.{
  Plain, is_message, insert_inbound-added, added-holds, stored_already-eq,
}
use messaging_gateway.Guard.{settle_retried}

abbrev pub settle : String → Outcome → Outcome
settle id (ok r) = ok (settle_retried id r)
settle id (throws e) = throws e

read_stored-head :
    (row : Row) (rows : List Row) (envelope : UnifiedEnvelope)
    → str_eq row.id envelope.id ≡ true
    → read_stored (row ∷ rows) envelope ≡ some row
unfolding read_stored
read_stored-head row rows envelope h = rw (h, read_stored)

-- An attempt that stored a message new to well-formed tables, with its answer lost: the retry
-- finds the message stored, and is settled as that first attempt, with the very numbers that it
-- got. None of the texts that identify the message holds a U+0000.
pub settle_retried-insert_inbound :
    (db : Db) (envelope : UnifiedEnvelope) (raw : Option String) (now later : ℕ)
    → Plain envelope
    → WellFormed db
    → any (is_message envelope) db.messages ≡ false
    → let (after, first) = insert_inbound db envelope raw now in
      settle envelope.id (insert_inbound after envelope raw later).1 ≡ first
unfolding settle_retried row_of
settle_retried-insert_inbound db envelope raw now later plain w new =
    let same : str_eq (clean_text envelope.id) envelope.id ≡ true =
      rw plain.0.1 (str_eq_refl envelope.id) in
    let again = refused envelope raw later plain.0.0 (added db envelope raw now) (
      stored_already-eq envelope raw now plain (added db envelope raw now)
      ∙ added-holds envelope raw now plain db) in
    let row =
      row_of envelope raw now (some (db.counters envelope.account_id + 1)) (db.seq_counter + 1) in
    rw (insert_inbound-added envelope raw now plain db w new) (
      rw again
        (rw (read_stored-head row db.messages envelope same, refusal) (ground (arith, same))))
