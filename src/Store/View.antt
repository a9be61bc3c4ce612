-- ===== src/Store/View.antt =====
-- persistence/sqlite-message-store.ts: the tables read as a log, and the SQLite store as a store of messages.
use messaging_gateway.Prelude.{
  ℕ, ◌+◌, String, Option, none, some, Bool, false, ◌&&◌, List, [], ◌∷◌, ◌≡◌, refl, ◌∙◌, sym, map,
  str_eq, any, find, Bool-cases, Option-cases, inl, inr, any-none-find, any-or, or-false_left,
  or-false_right,
}
use messaging_gateway.Messages.{UnifiedEnvelope}
use messaging_gateway.Messages.Format.{wa_message_id_of}
use messaging_gateway.Store.{Row, Db, row_of, read_stored, opt_eq}
use messaging_gateway.Store.Rows
use messaging_gateway.Store.Rows.{WellFormed, refused}
use messaging_gateway.Store.Numbers.{Attempt, try_insert, insert_inbound-WellFormed}
use messaging_gateway.Store.Dedupe.{
  Plain, is_message, read_stored-found, stored_already-eq, insert_inbound-added,
}
use messaging_gateway.Store.Contract.{
  Entry, Log, added, repeated, verdict, has_id, has_wa_id, entry_of_message, record_message,
  record_all, MessageLog, AllPlain, insert_all, insert_all-record_all,
}

abbrev pub entry_of : Row → Entry
entry_of r = record {
  id = r.id;
  account_id = r.account_id;
  wa_message_id = r.wa_message_id;
  number = r.account_seq;
}

unfoldable pub view_of : Db → Log
view_of db = record { entries = map entry_of db.messages; counters = db.counters }

abbrev entry? : Option Row → Option Entry
entry? none = none
entry? (some r) = some (entry_of r)

find-map :
    (p : Entry → Bool) (rows : List Row)
    → find p (map entry_of rows) ≡ entry? (find (λ r. p (entry_of r)) rows)
find-map p [] = refl
find-map p (r ∷ rows) = elim (Bool-cases (p (entry_of r))) [
  | inl found ↦ rw found refl
  | inr not_it ↦ rw not_it (find-map p rows)
]

read_stored-map :
    (rows : List Row) (envelope : UnifiedEnvelope)
    → entry_of_message (map entry_of rows) envelope ≡ entry? (read_stored rows envelope)
unfolding read_stored
read_stored-map rows envelope = elim (Option-cases (find (λ r. str_eq r.id envelope.id) rows)) [
  | inl missing ↦
      rw (entry_of_message, read_stored, find-map (has_id envelope) rows, missing)
        (find-map (has_wa_id envelope) rows)
  | inr (r, found) ↦ rw (entry_of_message, read_stored, find-map (has_id envelope) rows, found) refl
]

read_stored-none :
    (rows : List Row) (envelope : UnifiedEnvelope)
    → any (is_message envelope) rows ≡ false
    → read_stored rows envelope ≡ none
unfolding read_stored
read_stored-none rows envelope h =
    let by_id = λ (r : Row). str_eq r.id envelope.id in
    let by_wa = λ (r : Row).
      str_eq r.account_id envelope.account_id
      && opt_eq r.wa_message_id (wa_message_id_of envelope) in
    let both = sym (any-or by_id by_wa rows) ∙ h in
    rw
      (
        read_stored,
        any-none-find by_id rows (or-false_left _ _ both),
        any-none-find by_wa rows (or-false_right (any by_id rows) _ both),
      )
      refl

-- What the log does with a message that the tables hold, and with one that they do not.
pub record_message-there :
    (db : Db) (envelope : UnifiedEnvelope) (r : Row)
    → read_stored db.messages envelope ≡ some r
    → record_message (view_of db) envelope ≡ (view_of db, repeated r.id r.account_seq)
unfolding record_message view_of
record_message-there db envelope r h =
    rw (record_message, read_stored-map db.messages envelope, h) refl

pub record_message-new :
    (db : Db) (envelope : UnifiedEnvelope) (raw : Option String) (now : ℕ)
    → Plain envelope
    → any (is_message envelope) db.messages ≡ false
    → record_message (view_of db) envelope ≡ (
      view_of (Rows.added db envelope raw now),
      added (some (db.counters envelope.account_id + 1)),
    )
unfolding record_message view_of row_of
record_message-new db envelope raw now plain h =
    rw
      (
        record_message,
        read_stored-map db.messages envelope,
        read_stored-none db.messages envelope h,
      )
      (rw (plain.0.0, plain.0.1, plain.1) refl)

pub insert_inbound-record_message :
    (db : Db) (a : Attempt)
    → Plain a.envelope
    → WellFormed db
    → (view_of (try_insert db a).0, verdict (try_insert db a).1)
      ≡ record_message (view_of db) a.envelope
insert_inbound-record_message db a plain w =
    elim (Bool-cases (any (is_message a.envelope) db.messages)) [
      | inl there ↦
          let (r, found, _) = read_stored-found db.messages a.envelope there in
          rw
            (
              refused a.envelope a.raw a.now plain.0.0 db
                  (stored_already-eq a.envelope a.raw a.now plain db ∙ there),
              Rows.refusal,
              found,
            )
            (sym (record_message-there db a.envelope r found))
      | inr new ↦
          rw (insert_inbound-added a.envelope a.raw a.now plain db w new)
            (sym (record_message-new db a.envelope a.raw a.now plain new))
    ]

-- The SQLite store: its tables are well formed.
abbrev pub sqlite_log : MessageLog Db
sqlite_log = record {
  insert = try_insert;
  view = view_of;
  Valid = WellFormed;
  insert-Valid = λ db a plain w. insert_inbound-WellFormed a.envelope a.raw a.now db (plain.0) w;
  insert-record_message = insert_inbound-record_message;
}

-- Whatever messages are stored in SQLite, in whatever order and however often, the answers are the log's,
-- and the tables read as the log's entries and counters: a message that is there, by its id or its account's
-- WhatsApp id, is answered with the one stored, and another gets the next number of its account. The tables
-- are well formed at first, and none of the texts that identify a message holds a U+0000.
pub insert_all-sqlite_log :
    (db : Db) (attempts : List Attempt)
    → AllPlain attempts
    → WellFormed db
    → (view_of (insert_all sqlite_log db attempts).0, (insert_all sqlite_log db attempts).1)
      ≡ record_all (view_of db) attempts
insert_all-sqlite_log = insert_all-record_all sqlite_log
