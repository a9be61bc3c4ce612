-- ===== src/Postgres/Contract.antt =====
-- persistence/postgres-message-store.ts, insertInbound: the PostgreSQL store keeps what a message store promises,
-- and answers as the SQLite store does.
use messaging_gateway.Prelude.{
  ℕ, ◌+◌, String, Option, Bool, find, Option-cases, str_eq, none, some, false, true, List, [], ◌∷◌,
  ◌≡◌, refl, ap, ◌∙◌, sym, any, All, Bool-cases, inl, inr, arith, str_eq_refl,
}
use messaging_gateway.Messages.{UnifiedEnvelope}
use messaging_gateway.Messages.Format.{wa_message_id_of}
use messaging_gateway.Messages.Clean.{clean_text_iff}
use messaging_gateway.Store.{
  Row, Db, conflicts, row_of, bump, read_stored, inserted, duplicate, Outcome, ok, or_zero, clean?,
}
use messaging_gateway.Store.Rows.{Fits, WellFormed, added, fresh_number}
use messaging_gateway.Store.Numbers.{Attempt, added-WellFormed}
use messaging_gateway.Store.Dedupe.{Plain, is_message, read_stored-found, stored_already-eq}
use messaging_gateway.Store.Contract.{
  record_message, record_all, verdict, MessageLog, AllPlain, insert_all, insert_all-record_all,
}
use messaging_gateway.Store.View.{view_of, record_message-there, record_message-new, sqlite_log}
use messaging_gateway.Postgres.{insert_with, insert_collided, insert_inbound, has_null?}

-- The tables with a sequence number spent.
abbrev spent : Db → Db
spent db = record db { seq_counter = db.seq_counter + 1 }

later-All :
    (counters : String → ℕ) (last : ℕ) (rows : List Row)
    → All (Fits counters last) rows
    → All (Fits counters (last + 1)) rows
later-All counters last [] h = tt
later-All counters last (r ∷ rows) ((n, s), h) = ((n, omega arith), later-All counters last rows h)

spent-WellFormed : (db : Db) → WellFormed db → WellFormed (spent db)
spent-WellFormed db w = record {
  fits = later-All db.counters db.seq_counter db.messages w.fits;
  distinct = w.distinct;
}

clean?-has_null : (s : Option String) → clean? s ≡ s → has_null? s ≡ false
clean?-has_null none h = refl
clean?-has_null (some s) h = (clean_text_iff s).0 (cc h)

module _ (envelope : UnifiedEnvelope) (raw : Option String) (now : ℕ) (plain : Plain envelope)
    (db : Db) (w : WellFormed db) where
  collides :
      any
        (conflicts (
          row_of envelope raw now
            (some (db.counters envelope.account_id + 1))
            (db.seq_counter + 1)))
        db.messages
      ≡ any (is_message envelope) db.messages
  collides =
      fresh_number envelope raw now plain.0.0 db.counters db.seq_counter (db.seq_counter + 1)
        (db.counters envelope.account_id + 1) db.messages (omega arith) w.fits
      ∙ stored_already-eq envelope raw now plain db

  insert_inbound-there :
      (r : Row)
      → any (is_message envelope) db.messages ≡ true
      → read_stored db.messages envelope ≡ some r
      → insert_inbound db envelope raw now
        ≡ (spent db, ok (duplicate r.id r.seq (some (or_zero r.account_seq))))
  unfolding insert_inbound insert_with bump insert_collided
  insert_inbound-there r there found = ground (
    arith,
    (clean_text_iff envelope.account_id).0 plain.0.0,
    (clean_text_iff envelope.id).0 plain.0.1,
    clean?-has_null (wa_message_id_of envelope) plain.1,
    collides ∙ there,
    found,
    str_eq_refl envelope.account_id,
  )

  insert_inbound-new :
      any (is_message envelope) db.messages ≡ false
      → insert_inbound db envelope raw now ≡ (
        added db envelope raw now,
        ok (inserted (db.seq_counter + 1) (some (db.counters envelope.account_id + 1))),
      )
  unfolding insert_inbound insert_with bump
  insert_inbound-new new = ground (
    arith,
    (clean_text_iff envelope.account_id).0 plain.0.0,
    collides ∙ new,
    str_eq_refl envelope.account_id,
  )

-- A row that has a number. `insertInbound` gives every row one; `save` may store one without.
abbrev pub IsNumbered : Row → Type 0
IsNumbered r = some (or_zero r.account_seq) ≡ r.account_seq

find-IsNumbered :
    (p : Row → Bool) (rows : List Row) (r : Row)
    → All IsNumbered rows
    → find p rows ≡ some r
    → IsNumbered r
find-IsNumbered p [] r h e = absurd (cc e)
find-IsNumbered p (x ∷ xs) r (h, hs) e = elim (Bool-cases (p x)) [
  | inl it ↦ let same : x ≡ r = cc (rw it at e) in rw same at h
  | inr not_it ↦ find-IsNumbered p xs r hs (rw not_it at e)
]

read_stored-IsNumbered :
    (rows : List Row) (envelope : UnifiedEnvelope) (r : Row)
    → All IsNumbered rows
    → read_stored rows envelope ≡ some r
    → IsNumbered r
unfolding read_stored
read_stored-IsNumbered rows envelope r h e =
    elim (Option-cases (find (λ s. str_eq s.id envelope.id) rows)) [
      | inl missing ↦ find-IsNumbered _ rows r h (rw (read_stored, missing) at e)
      | inr (s, found) ↦
          let same : s ≡ r = cc (rw (read_stored, found) at e) in
          find-IsNumbered (λ s. str_eq s.id envelope.id) rows r h (rw same at found)
    ]

-- The tables are well formed and every row has a number.
pub record Numbered (db : Db) : Type 0 where
  pub formed : WellFormed db
  pub numbered : All IsNumbered db.messages

abbrev pub try_insert : Db → Attempt → Db × Outcome
try_insert db a = insert_inbound db a.envelope a.raw a.now

row_of-IsNumbered :
    (envelope : UnifiedEnvelope) (raw : Option String) (now n next : ℕ)
    → IsNumbered (row_of envelope raw now (some n) next)
unfolding row_of
row_of-IsNumbered envelope raw now n next = refl

pub insert_inbound-Numbered :
    (db : Db) (a : Attempt) → Plain a.envelope → Numbered db → Numbered (try_insert db a).0
insert_inbound-Numbered db a plain v =
    let w = v.formed in
    elim (Bool-cases (any (is_message a.envelope) db.messages)) [
      | inl there ↦
          let (r, found, _) = read_stored-found db.messages a.envelope there in
          rw (insert_inbound-there a.envelope a.raw a.now plain db w r there found)
            (record { formed = spent-WellFormed db w; numbered = v.numbered })
      | inr new ↦ rw (insert_inbound-new a.envelope a.raw a.now plain db w new) (record {
        formed =
            added-WellFormed a.envelope a.raw a.now db plain.0.0
              (stored_already-eq a.envelope a.raw a.now plain db ∙ new) w;
        numbered = (row_of-IsNumbered a.envelope a.raw a.now _ _, v.numbered);
      })
    ]

pub insert_inbound-record_message :
    (db : Db) (a : Attempt)
    → Plain a.envelope
    → Numbered db
    → (view_of (try_insert db a).0, verdict (try_insert db a).1)
      ≡ record_message (view_of db) a.envelope
unfolding view_of
insert_inbound-record_message db a plain v =
    let w = v.formed in
    elim (Bool-cases (any (is_message a.envelope) db.messages)) [
      | inl there ↦
          let (r, found, _) = read_stored-found db.messages a.envelope there in
          rw (insert_inbound-there a.envelope a.raw a.now plain db w r there found) (
            rw (read_stored-IsNumbered db.messages a.envelope r v.numbered found)
              (sym (record_message-there db a.envelope r found)))
      | inr new ↦
          rw (insert_inbound-new a.envelope a.raw a.now plain db w new)
            (sym (record_message-new db a.envelope a.raw a.now plain new))
    ]

-- The PostgreSQL store.
unfoldable pub postgres_log : MessageLog Db
postgres_log = record {
  insert = try_insert;
  view = view_of;
  Valid = Numbered;
  insert-Valid = insert_inbound-Numbered;
  insert-record_message = insert_inbound-record_message;
}

-- The two stores are interchangeable: whatever messages they are given, in whatever order and however often,
-- PostgreSQL answers as SQLite does, the numbers and the duplicates' ids included, and their tables read as
-- the same entries and counters, so long as they did at first. The tables are well formed at first and every
-- row has a number, and none of the texts that identify a message holds a U+0000. The sequences are not compared: PostgreSQL spends
-- one on a duplicate.
pub stores_agree :
    (pg sqlite : Db) (attempts : List Attempt)
    → AllPlain attempts
    → Numbered pg
    → WellFormed sqlite
    → view_of pg ≡ view_of sqlite
    → ((insert_all postgres_log pg attempts).1 ≡ (insert_all sqlite_log sqlite attempts).1)
      × (view_of (insert_all postgres_log pg attempts).0
          ≡ view_of (insert_all sqlite_log sqlite attempts).0)
unfolding postgres_log
stores_agree pg sqlite attempts plain wp ws same =
    let left = insert_all-record_all postgres_log pg attempts plain wp in
    let right = insert_all-record_all sqlite_log sqlite attempts plain ws in
    let both = left ∙ ap (λ l. record_all l attempts) same ∙ sym right in
    (ap (λ x. x.1) both, ap (λ x. x.0) both)
