-- ===== src/Store/Feed.antt =====
-- persistence/sqlite-message-store.ts, insertInbound and queryAfter together: what a consumer of an account's
-- messages is given.
use messaging_gateway.Prelude.{
  ℕ, zero, suc, ◌+◌, ◌≤◌, ◌<◌, String, Option, some, true, List, [], ◌∷◌, ◌++◌, map, ◌≡◌, refl, ◌∙◌,
  ap, sym, arith, str_eq, eq_iff, filter, length, All, Bool-cases, inl, inr, str_eq_refl,
  sort_by-last, sort_by_nil,
}
use messaging_gateway.Messages.{UnifiedEnvelope}
use messaging_gateway.Messages.Format.{PageLimit}
use messaging_gateway.Store.{Row, Db, row_of}
use messaging_gateway.Store.Rows.{
  Fits, WellFormed, Clean, CleanAccount, added, stored_already, refused, accepted,
}
use messaging_gateway.Store.Numbers.{
  Attempt, AllClean, store_all, count_from, try_insert, insert_inbound-WellFormed,
  store_all-WellFormed,
}
use messaging_gateway.Store.Pages.{number_of, is_after, all_after, follow, follow_lem}

abbrev pub no_messages : Db
no_messages = record { messages = []; counters = λ account. 0; seq_counter = 0 }

-- The account's numbers in the table are all those that its counter has given out.
abbrev Dense : String → Db → Type 0
Dense account db = map number_of (all_after db account 0) ≡ count_from 1 (db.counters account)

count_from-next : (n k : ℕ) → count_from n k ++ ((n + k) ∷ []) ≡ count_from n (suc k)
count_from-next n zero = let e : n + 0 ≡ n = omega arith in ap (λ x. x ∷ []) e
count_from-next n (suc k) =
    let e : n + suc k ≡ n + 1 + k = omega arith in rw e (ap (◌∷◌ n) (count_from-next (n + 1) k))

count_from-end : (c : ℕ) → count_from 1 c ++ ((c + 1) ∷ []) ≡ count_from 1 (c + 1)
count_from-end c =
    let e : c + 1 ≡ suc c = omega arith in
    let k : 1 + c ≡ suc c = omega arith in rw e (rw k at (count_from-next 1 c))

map-end :
    (rows : List Row) (r : Row)
    → map number_of (rows ++ (r ∷ [])) ≡ map number_of rows ++ (number_of r ∷ [])
map-end [] r = refl
map-end (s ∷ rows) r = ap (◌∷◌ (number_of s)) (map-end rows r)

below_counter :
    (account : String) (db : Db) (rows : List Row)
    → All (Fits db.counters db.seq_counter) rows
    → All (λ r. number_of r < db.counters account + 1) (filter (is_after account 0) rows)
below_counter account db [] h = tt
below_counter account db (r ∷ rows) ((fit, _), h) = elim (Bool-cases (is_after account 0 r)) [
  | inr other ↦ rw other (below_counter account db rows h)
  | inl its ↦
      let same : str_eq r.account_id account ≡ true = ground (arith, its) in
      let e : r.account_id ≡ account = (eq_iff r.account_id account).0 same in
      let le : number_of r ≤ db.counters account = rw e at fit in
      rw its (omega (arith, le), below_counter account db rows h)
]

module _ (account : String) (envelope : UnifiedEnvelope) (raw : Option String) (now : ℕ)
    (clean : CleanAccount envelope) (db : Db) (w : WellFormed db) where
  all_after-added :
      envelope.account_id ≡ account
      → all_after (added db envelope raw now) account 0
        ≡ all_after db account 0
          ++ (row_of envelope raw now
                (some (db.counters envelope.account_id + 1))
                (db.seq_counter + 1)
              ∷ [])
  unfolding all_after row_of
  all_after-added mine =
      let its : is_after account 0 (
            row_of envelope raw now (some (db.counters envelope.account_id + 1))
              (db.seq_counter + 1))
          ≡ true =
        rw (clean, mine, str_eq_refl account) (ground arith) in
      rw its (sort_by-last number_of _ _ (rw mine (below_counter account db db.messages w.fits)))

  added-Dense : Dense account db → Dense account (added db envelope raw now)
  unfolding all_after row_of
  added-Dense d = elim (Bool-cases (str_eq envelope.account_id account)) [
    | inl same ↦
        let e = (eq_iff envelope.account_id account).0 same in
        ap (map number_of) (all_after-added e)
        ∙ map-end (all_after db account 0) _
        ∙ rw (d, same, e) (count_from-end (db.counters account))
    | inr other ↦ rw (clean, other) d
  ]

try_insert-Dense :
    (account : String) (db : Db) (a : Attempt)
    → Clean a.envelope
    → WellFormed db
    → Dense account db
    → Dense account (try_insert db a).0
try_insert-Dense account db a (clean, id) w d = elim (Bool-cases (stored_already db a.envelope)) [
  | inl there ↦ rw (refused a.envelope a.raw a.now clean db there) d
  | inr new ↦
      rw (accepted a.envelope a.raw a.now clean db w id new)
        (added-Dense account a.envelope a.raw a.now clean db w d)
]

store_all-Dense :
    (account : String) (db : Db) (attempts : List Attempt)
    → AllClean attempts
    → WellFormed db
    → Dense account db
    → Dense account (store_all db attempts)
unfolding store_all
store_all-Dense account db [] c w d = d
store_all-Dense account db (a ∷ attempts) (c, cs) w d =
    store_all-Dense account (try_insert db a).0 attempts cs
      (insert_inbound-WellFormed a.envelope a.raw a.now db c w)
      (try_insert-Dense account db a c w d)

length-count_from : (n k : ℕ) → length (count_from n k) ≡ k
length-count_from n zero = refl
length-count_from n (suc k) = ap suc (length-count_from (n + 1) k)

length-map_number : (rows : List Row) → length (map number_of rows) ≡ length rows
length-map_number [] = refl
length-map_number (r ∷ rows) = ap suc (length-map_number rows)

-- Whatever messages are stored in empty tables, in whatever order and however often, a consumer that
-- starts after number 0 and follows the pages, of whatever size, comes to an end with messages of the
-- account that are numbered 1, 2, 3 and so on up to the account's counter: none is missing and none comes
-- twice. It needs at most one page more than the counter says. No id of an envelope or of an account holds
-- a U+0000.
pub store_all-follow :
    (fuel : ℕ) (account : String) (attempts : List Attempt) (limit : PageLimit)
    → AllClean attempts
    → (store_all no_messages attempts).counters account < fuel
    → (rows : List Row) × (follow fuel (store_all no_messages attempts) account 0 limit ≡ some rows)
      × (map number_of rows ≡ count_from 1 ((store_all no_messages attempts).counters account))
unfolding all_after
store_all-follow fuel account attempts limit c h =
    let db = store_all no_messages attempts in
    let empty : WellFormed no_messages = record { fits = tt; distinct = tt } in
    let none_yet : Dense account no_messages = ap (map number_of) (sort_by_nil number_of) in
    let w = store_all-WellFormed no_messages attempts c empty in
    let d = store_all-Dense account no_messages attempts c empty none_yet in
    let same =
      sym (length-map_number (all_after db account 0))
      ∙ ap length d
      ∙ length-count_from 1 (db.counters account) in
    (all_after db account 0, follow_lem fuel db account 0 limit w (omega (arith, same, h)), d)
