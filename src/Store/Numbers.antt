-- ===== src/Store/Numbers.antt =====
-- persistence/sqlite-message-store.ts, insertInbound: the numbers that an account's messages get.
use messaging_gateway.Prelude.{
  ℕ, zero, suc, ◌+◌, ◌≤◌, ◌<◌, String, Option, some, false, List, [], ◌∷◌, if◌then◌else◌, ◌≡◌, refl,
  ◌⊎◌, inl, inr, sym, str_eq, arith, eq_iff, All, Bool-cases, ap, ◌∙◌, str_eq_refl, length,
}
use messaging_gateway.Messages.{UnifiedEnvelope}
use messaging_gateway.Store.{
  Row, Db, inserted, Outcome, ok, row_of, set_counter, insert_inbound, or_zero,
}
use messaging_gateway.Store.Rows.{
  Fits, WellFormed, CleanAccount, Clean, added, stored_already, refusal, fresh_number, refused,
  accepted,
}

Fits-mono :
    (account : String) (counters : String → ℕ) (n last next : ℕ) (rows : List Row)
    → counters account ≤ n
    → last ≤ next
    → All (Fits counters last) rows
    → All (Fits (set_counter account n counters) next) rows
Fits-mono account counters n last next [] up on h = h
Fits-mono account counters n last next (r ∷ rs) up on ((k, s), h) = (
  (
    elim (Bool-cases (str_eq account r.account_id)) [
      | inl same ↦
          let at_most : or_zero r.account_seq ≤ counters account =
            rw (sym ((eq_iff account r.account_id).0 same)) at k in
          rw same (omega arith)
      | inr differs ↦ rw differs k
    ],
    omega arith,
  ),
  Fits-mono account counters n last next rs up on h,
)

seq-below :
    (counters : String → ℕ) (last : ℕ) (rows : List Row)
    → All (Fits counters last) rows
    → All (λ s. s.seq < last + 1) rows
seq-below counters last [] h = tt
seq-below counters last (r ∷ rs) ((_, s), h) = (omega arith, seq-below counters last rs h)

module _ (envelope : UnifiedEnvelope) (raw : Option String) (now : ℕ) where
  pub added-WellFormed :
      (db : Db)
      → CleanAccount envelope
      → stored_already db envelope ≡ false
      → WellFormed db
      → WellFormed (added db envelope raw now)
  unfolding row_of
  added-WellFormed db clean new w =
      let n = db.counters envelope.account_id + 1 in
      record {
        fits = (
          rw (clean, str_eq_refl envelope.account_id) (omega arith, omega arith),
          Fits-mono envelope.account_id db.counters n db.seq_counter (db.seq_counter + 1)
              db.messages (omega arith) (omega arith) w.fits,
        );
        distinct = (
          fresh_number envelope raw now clean db.counters db.seq_counter (db.seq_counter + 1) n
                db.messages (omega arith) w.fits
              ∙ new,
          seq-below db.counters db.seq_counter db.messages w.fits,
          w.distinct,
        );
      }

  -- Storing a message whose id and account hold no U+0000 keeps the tables well formed, whether
  -- it goes in, is a duplicate or is refused.
  pub insert_inbound-WellFormed :
      (db : Db) → Clean envelope → WellFormed db → WellFormed (insert_inbound db envelope raw now).0
  insert_inbound-WellFormed db (clean, id) w = elim (Bool-cases (stored_already db envelope)) [
    | inl there ↦ rw (refused envelope raw now clean db there) w
    | inr new ↦ rw (accepted envelope raw now clean db w id new) (added-WellFormed db clean new w)
  ]

-- An attempt to store a message: the envelope, its raw payload and the moment.
pub record Attempt : Type 0 where
  pub envelope : UnifiedEnvelope
  pub raw : Option String
  pub now : ℕ

abbrev pub try_insert : Db → Attempt → Db × Outcome
try_insert db a = insert_inbound db a.envelope a.raw a.now

-- The numbers that a run of attempts gives out to one account, in order.
abbrev number_for : String → Attempt → Outcome → List ℕ → List ℕ
number_for account a (ok (inserted seq (some n))) rest =
    if str_eq a.envelope.account_id account then n ∷ rest else rest
number_for account a _ rest = rest

unfoldable pub store_all : Db → List Attempt → Db
store_all db [] = db
store_all db (a ∷ attempts) = store_all (try_insert db a).0 attempts

unfoldable pub numbers : String → Db → List Attempt → List ℕ
numbers account db [] = []
numbers account db (a ∷ attempts) =
    number_for account a (try_insert db a).1 (numbers account (try_insert db a).0 attempts)

abbrev pub count_from : ℕ → ℕ → List ℕ
count_from n zero = []
count_from n (suc k) = n ∷ count_from (n + 1) k

abbrev pub AllClean : List Attempt → Type 0
AllClean attempts = All (λ a. Clean a.envelope) attempts

-- Whatever messages are stored, in whatever order and however often, tables that are well formed
-- stay so: no two rows share an id, an account's WhatsApp id, an account's number or a sequence,
-- and no number is above its counter. No id of an envelope or of an account holds a U+0000.
pub store_all-WellFormed :
    (db : Db) (attempts : List Attempt)
    → AllClean attempts
    → WellFormed db
    → WellFormed (store_all db attempts)
unfolding store_all
store_all-WellFormed db [] c w = w
store_all-WellFormed db (a ∷ attempts) (c, cs) w =
    store_all-WellFormed (try_insert db a).0 attempts cs
      (insert_inbound-WellFormed a.envelope a.raw a.now db c w)

not_inserted :
    (account : String) (db : Db) (a : Attempt) (rest : List ℕ)
    → number_for account a (refusal db a.envelope) rest ≡ rest
not_inserted account db a rest = ground arith

-- What one attempt does to an account's counter and to the list of numbers given out.
attempt_cases :
    (account : String) (db : Db) (a : Attempt) (rest : List ℕ)
    → Clean a.envelope
    → WellFormed db
    → (((try_insert db a).0.counters account ≡ db.counters account)
        × (number_for account a (try_insert db a).1 rest ≡ rest))
      ⊎ (((try_insert db a).0.counters account ≡ db.counters account + 1)
          × (number_for account a (try_insert db a).1 rest ≡ (db.counters account + 1) ∷ rest))
attempt_cases account db a rest (clean, id) w = elim (Bool-cases (stored_already db a.envelope)) [
  | inl there ↦
      rw (refused a.envelope a.raw a.now clean db there)
        (inl (refl, not_inserted account db a rest))
  | inr new ↦
      rw (accepted a.envelope a.raw a.now clean db w id new)
        (elim (Bool-cases (str_eq a.envelope.account_id account)) [
          | inl mine ↦
              let e = (eq_iff a.envelope.account_id account).0 mine in
              inr (
                rw mine (ap (λ x. db.counters x + 1) e),
                rw mine (ap (λ x. (db.counters x + 1) ∷ rest) e),
              )
          | inr other ↦ inl (rw other, rw other)
        ])
]

-- The numbers that an account's messages get are contiguous and free of gaps, starting one above
-- its counter, whatever is stored for the other accounts and however many attempts are duplicates
-- or are refused; the counter ends at the last number given out. The tables are well formed at
-- first, and no id holds a U+0000.
pub numbers_contiguous :
    (account : String) (db : Db) (attempts : List Attempt)
    → AllClean attempts
    → WellFormed db
    → (numbers account db attempts
        ≡ count_from (db.counters account + 1) (length (numbers account db attempts)))
      × ((store_all db attempts).counters account
          ≡ db.counters account + length (numbers account db attempts))
unfolding store_all numbers
numbers_contiguous account db [] c w = (refl, omega arith)
numbers_contiguous account db (a ∷ attempts) (c, cs) w =
    let later = numbers account (try_insert db a).0 attempts in
    let (ih, end) =
      numbers_contiguous account (try_insert db a).0 attempts cs
        (insert_inbound-WellFormed a.envelope a.raw a.now db c w) in
    elim (attempt_cases account db a later c w) [
      | inl (same, none_given) ↦ rw none_given (rw same at ih, rw same at end)
      | inr (next, given) ↦
          rw given (ap (◌∷◌ (db.counters account + 1)) (rw next at ih), omega arith)
    ]
