-- ===== src/Store/Rows.antt =====
-- persistence/sqlite-message-store.ts: what the tables of the message log always satisfy, and the
-- two things that an insert can do to them.
use messaging_gateway.Prelude.{
  ℕ, ◌+◌, ◌≤◌, ◌<◌, String, Option, none, some, Bool, true, false, ◌&&◌, List, [], ◌∷◌, ◌≡◌, refl,
  inl, inr, str_eq, any, arith, eq_iff, All, Bool-cases, Option-cases, ◌∙◌, str_eq_refl, or-false,
  or-true, any-eq, any-imp,
}
use messaging_gateway.Messages.{UnifiedEnvelope}
use messaging_gateway.Messages.Format.{clean_text, wa_message_id_of}
use messaging_gateway.Store.{
  Row, Db, inserted, duplicate, Outcome, ok, throws, permanent_store_error, same_message, conflicts,
  row_of, set_counter, bump, insert_row, read_stored, finish_insert, insert_inbound, or_zero,
  clean?, num_eq, resync_counter,
}

-- A row's numbers are ones that the counters have given out.
abbrev pub Fits : (String → ℕ) → ℕ → Row → Type 0
Fits counters last r = (or_zero r.account_seq ≤ counters r.account_id) × (r.seq ≤ last)

-- No two rows share an id, an account's WhatsApp id, an account's number or a sequence.
abbrev pub Distinct : List Row → Type 0
Distinct [] = Unit
Distinct (r ∷ rs) = (any (conflicts r) rs ≡ false) × All (λ s. s.seq < r.seq) rs × Distinct rs

pub record WellFormed (db : Db) : Type 0 where
  pub fits : All (Fits db.counters db.seq_counter) db.messages
  pub distinct : Distinct db.messages

-- The account's id is stored as it is: it holds no U+0000.
abbrev pub CleanAccount : UnifiedEnvelope → Type 0
CleanAccount envelope = clean_text envelope.account_id ≡ envelope.account_id

-- The envelope's id, a `msg_` and a UUID, holds no U+0000 either.
abbrev pub Clean : UnifiedEnvelope → Type 0
Clean envelope = CleanAccount envelope × (clean_text envelope.id ≡ envelope.id)

-- The answer for a message that is not added.
abbrev pub refusal : Db → UnifiedEnvelope → Outcome
refusal db envelope = elim (read_stored db.messages envelope) [
  | some r ↦ ok (duplicate r.id r.seq r.account_seq)
  | none ↦ throws permanent_store_error
]

-- The tables after the message has gone in under the next number of its account.
abbrev pub added : Db → UnifiedEnvelope → Option String → ℕ → Db
added db envelope raw now =
    let n = db.counters envelope.account_id + 1 in
    record db {
      messages = row_of envelope raw now (some n) (db.seq_counter + 1) ∷ db.messages;
      counters = set_counter envelope.account_id n db.counters;
      seq_counter = db.seq_counter + 1;
    }

-- The message is in the table, by its id or its account's WhatsApp id.
abbrev pub stored_already : Db → UnifiedEnvelope → Bool
stored_already db envelope =
    any
      (same_message (clean_text envelope.id) envelope.account_id
        (clean? (wa_message_id_of envelope)))
      db.messages

num_eq-above : (n : ℕ) (number : Option ℕ) → or_zero number < n → num_eq number (some n) ≡ false
num_eq-above n none h = refl
num_eq-above n (some k) h = ground arith

other_account :
    (counters : String → ℕ) (last n : ℕ) (r : Row) (account : String)
    → Fits counters last r
    → counters account < n
    → (str_eq r.account_id account && num_eq r.account_seq (some n)) ≡ false
other_account counters last n r account fit above =
    elim (Bool-cases (str_eq r.account_id account)) [
      | inl same ↦
          let e : r.account_id ≡ account = (eq_iff r.account_id account).0 same in
          let at_most : or_zero r.account_seq ≤ counters account = rw e at (fit.0) in
          rw same (num_eq-above n r.account_seq (omega arith))
      | inr differs ↦ rw differs
    ]

module _ (envelope : UnifiedEnvelope) (raw : Option String) (now : ℕ)
    (clean : CleanAccount envelope) where
  -- A number above the account's counter is no row's, so only the message itself can collide.
  pub fresh_number :
      (counters : String → ℕ) (last next n : ℕ) (rows : List Row)
      → counters envelope.account_id < n
      → All (Fits counters last) rows
      → any (conflicts (row_of envelope raw now (some n) next)) rows
        ≡ any
            (same_message
              (clean_text envelope.id)
              envelope.account_id
              (clean? (wa_message_id_of envelope)))
            rows
  unfolding row_of
  fresh_number counters last next n rows above h = rw clean (
      any-eq _ _ (Fits counters last) rows
        (λ r fit. or-false _ _ (other_account counters last n r envelope.account_id fit above)) h)

  pub same_message-conflicts :
      (next n : ℕ) (rows : List Row)
      → any
          (same_message
            (clean_text envelope.id)
            envelope.account_id
            (clean? (wa_message_id_of envelope)))
          rows
        ≡ true
      → any (conflicts (row_of envelope raw now (some n) next)) rows ≡ true
  unfolding row_of
  same_message-conflicts next n rows h = rw clean (any-imp _ _ rows (λ r same. or-true _ _ same) h)

  pub refused :
      (db : Db)
      → stored_already db envelope ≡ true
      → insert_inbound db envelope raw now ≡ (db, refusal db envelope)
  unfolding insert_inbound
  refused db h = elim (Option-cases (read_stored db.messages envelope)) [
    | inl missing ↦ ground (
      arith,
      missing,
      same_message-conflicts (db.seq_counter + 1)
          ((bump db envelope.account_id).counters envelope.account_id) db.messages h,
      same_message-conflicts (db.seq_counter + 1)
          ((resync_counter (bump db envelope.account_id) envelope.account_id).counters
            envelope.account_id)
          db.messages h,
    )
    | inr (r, found) ↦ ground (
      arith,
      found,
      same_message-conflicts (db.seq_counter + 1)
          ((bump db envelope.account_id).counters envelope.account_id) db.messages h,
    )
  ]

  bump_self :
      (db : Db)
      → (bump db envelope.account_id).counters envelope.account_id
        ≡ db.counters envelope.account_id + 1
  unfolding bump
  bump_self db = rw (str_eq_refl envelope.account_id)

  insert_row-fresh :
      (db : Db)
      → WellFormed db
      → stored_already db envelope ≡ false
      → insert_row
          (bump db envelope.account_id)
          envelope
          raw
          now
          (db.counters envelope.account_id + 1)
        ≡ some (added db envelope raw now)
  unfolding insert_row bump
  insert_row-fresh db w h =
      let n = db.counters envelope.account_id + 1 in
      rw (
        fresh_number db.counters db.seq_counter (db.seq_counter + 1) n db.messages (omega arith)
          w.fits
        ∙ h)

  finish_insert-added :
      (db : Db)
      → clean_text envelope.id ≡ envelope.id
      → finish_insert db (added db envelope raw now) envelope ≡ (
        added db envelope raw now,
        ok (inserted (db.seq_counter + 1) (some (db.counters envelope.account_id + 1))),
      )
  unfolding finish_insert row_of
  finish_insert-added db id =
      let self = str_eq_refl envelope.account_id in
      let same : str_eq (clean_text envelope.id) envelope.id ≡ true =
        rw id (str_eq_refl envelope.id) in
      ground (arith, self, same)

  pub accepted :
      (db : Db)
      → WellFormed db
      → clean_text envelope.id ≡ envelope.id
      → stored_already db envelope ≡ false
      → insert_inbound db envelope raw now ≡ (
        added db envelope raw now,
        ok (inserted (db.seq_counter + 1) (some (db.counters envelope.account_id + 1))),
      )
  unfolding insert_inbound
  accepted db w id h =
      let found : insert_row (bump db envelope.account_id) envelope raw now
            ((bump db envelope.account_id).counters envelope.account_id)
          ≡ some (added db envelope raw now) =
        rw (bump_self db) (insert_row-fresh db w h) in
      rw (found, insert_inbound) (finish_insert-added db id)
