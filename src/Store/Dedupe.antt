-- ===== src/Store/Dedupe.antt =====
-- persistence/sqlite-message-store.ts, insertInbound: a message is stored once.
use messaging_gateway.Prelude.{
  ℕ, ◌+◌, String, Option, some, Bool, true, false, List, ◌≡◌, inl, inr, str_eq, any, find, any-or,
  any-find, find-none, find-true, or-true, arith, Bool-cases, Option-cases, ap, ◌∙◌, str_eq_refl,
  ◌&&◌,
}
use messaging_gateway.Messages.{UnifiedEnvelope}
use messaging_gateway.Messages.Format.{clean_text, wa_message_id_of}
use messaging_gateway.Store.{
  Row, Db, inserted, duplicate, Outcome, ok, row_of, same_message, clean?, insert_inbound,
  read_stored, opt_eq,
}
use messaging_gateway.Store.Rows.{
  WellFormed, Clean, added, stored_already, refusal, refused, accepted,
}

-- All three texts that identify a message are stored as they are.
abbrev pub Plain : UnifiedEnvelope → Type 0
Plain envelope = Clean envelope × (clean? (wa_message_id_of envelope) ≡ wa_message_id_of envelope)

abbrev pub is_message : UnifiedEnvelope → Row → Bool
is_message envelope r = same_message envelope.id envelope.account_id (wa_message_id_of envelope) r

pub read_stored-found :
    (rows : List Row) (envelope : UnifiedEnvelope)
    → any (is_message envelope) rows ≡ true
    → (r : Row) × (read_stored rows envelope ≡ some r) × (is_message envelope r ≡ true)
unfolding read_stored
read_stored-found rows envelope h = elim (Option-cases (find (λ r. str_eq r.id envelope.id) rows)) [
  | inr (r, found) ↦ (
    r,
    rw (found, read_stored),
    or-true _ _ (find-true (λ r. str_eq r.id envelope.id) rows found),
  )
  | inl missing ↦
      let by_wa = λ (r : Row).
        str_eq r.account_id envelope.account_id
        && opt_eq r.wa_message_id (wa_message_id_of envelope) in
      let other = any-or (λ (r : Row). str_eq r.id envelope.id) by_wa rows in
      let (r, found, holds) =
        any-find by_wa rows
          (ground (arith, other, find-none (λ (r : Row). str_eq r.id envelope.id) rows missing)) in
      (r, rw (missing, read_stored) found, ground (arith, holds))
]

-- `stored` holds the message, and the answer names it.
pub record Repeats (db after : Db) (envelope : UnifiedEnvelope) (answer : Outcome) : Type 0 where
  pub stored : Row
  pub holds : is_message envelope stored ≡ true
  pub unchanged : after ≡ db
  pub named : answer ≡ ok (duplicate stored.id stored.seq stored.account_seq)

module _ (envelope : UnifiedEnvelope) (raw : Option String) (now : ℕ) (plain : Plain envelope) where
  pub stored_already-eq :
      (db : Db) → stored_already db envelope ≡ any (is_message envelope) db.messages
  stored_already-eq db = rw (plain.0.1, plain.1)

  -- A message that the log already holds, by its id or by its account and WhatsApp id, changes
  -- nothing and takes no number: the answer is `inserted: false` with the row that holds it. None
  -- of the texts that identify the message holds a U+0000.
  pub insert_inbound-Repeats :
      (db : Db)
      → any (is_message envelope) db.messages ≡ true
      → Repeats db
          (insert_inbound db envelope raw now).0
          envelope
          (insert_inbound db envelope raw now).1
  insert_inbound-Repeats db h =
      let (r, found, holds) = read_stored-found db.messages envelope h in
      let there = refused envelope raw now plain.0.0 db (stored_already-eq db ∙ h) in
      record {
        stored = r;
        holds = holds;
        unchanged = ap (λ x. x.0) there;
        named = ap (λ x. x.1) there ∙ rw (found, refusal);
      }

  -- In well-formed tables, a message that the log does not hold goes in, under the next number of
  -- its account and the next sequence of the log, and no other counter moves. None of the texts
  -- that identify the message holds a U+0000.
  pub insert_inbound-added :
      (db : Db)
      → WellFormed db
      → any (is_message envelope) db.messages ≡ false
      → insert_inbound db envelope raw now ≡ (
        added db envelope raw now,
        ok (inserted (db.seq_counter + 1) (some (db.counters envelope.account_id + 1))),
      )
  insert_inbound-added db w h =
      accepted envelope raw now plain.0.0 db w plain.0.1 (stored_already-eq db ∙ h)

  pub added-holds :
      (db : Db) → any (is_message envelope) (added db envelope raw now).messages ≡ true
  unfolding row_of
  added-holds db =
      let same : str_eq (clean_text envelope.id) envelope.id ≡ true =
        rw plain.0.1 (str_eq_refl envelope.id) in
      ground (arith, same)

  -- In well-formed tables, storing the same message again, whatever became of it the first time,
  -- leaves the log as it is. None of the texts that identify the message holds a U+0000.
  pub insert_inbound_idempotent :
      (db : Db) (raw' : Option String) (now' : ℕ)
      → WellFormed db
      → (insert_inbound (insert_inbound db envelope raw now).0 envelope raw' now').0
        ≡ (insert_inbound db envelope raw now).0
  insert_inbound_idempotent db raw' now' w =
      let clean = plain.0.0 in
      elim (Bool-cases (any (is_message envelope) db.messages)) [
        | inl there ↦
            rw
              (ap (λ (x : Db × Outcome). x.0)
                (refused envelope raw now clean db (stored_already-eq db ∙ there)))
              (ap (λ (x : Db × Outcome). x.0)
                (refused envelope raw' now' clean db (stored_already-eq db ∙ there)))
        | inr new ↦ rw (insert_inbound-added db w new) (
            ap (λ (x : Db × Outcome). x.0)
              (refused envelope raw' now' clean (added db envelope raw now)
                (stored_already-eq (added db envelope raw now) ∙ added-holds db)))
      ]
