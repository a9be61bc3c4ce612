-- ===== src/Store/Retention.antt =====
-- persistence/sqlite-message-store.ts, deleteOlderThan: the batches together delete every row older
-- than the cutoff and no other.
use messaging_gateway.Prelude.{
  ℕ, zero, suc, ◌+◌, ◌≤◌, ◌<◌, some, Bool, true, false, List, [], ◌∷◌, if◌then◌else◌, ◌≡◌, refl,
  inl, inr, any, or-both, or-false_left, or-false_right, filter, ltb, ltb→lt, arith, Bool-cases,
  length, ap, ◌∙◌, All-filter,
}
use messaging_gateway.Store.{
  Row, Db, conflicts, retention_delete_batch, delete_batch, delete_loop, delete_older_than,
}
use messaging_gateway.Store.Rows.{Fits, Distinct, WellFormed}

abbrev pub recent : ℕ → Row → Bool
recent cutoff r = if ltb r.created_at cutoff then false else true

record BatchLaw (cutoff limit : ℕ) (rows left : List Row) (changes : ℕ) : Type 0 where
  bounded : changes ≤ limit
  keeps : filter (recent cutoff) left ≡ filter (recent cutoff) rows
  done : changes < limit → left ≡ filter (recent cutoff) rows
  counts : length left + changes ≡ length rows

delete_batch_lem :
    (cutoff limit : ℕ) (rows : List Row)
    → BatchLaw cutoff limit rows
        (delete_batch cutoff limit rows).0
        (delete_batch cutoff limit rows).1
unfolding delete_batch
delete_batch_lem cutoff zero rows = record {
  bounded = omega arith;
  keeps = refl;
  done = λ h. absurd (omega arith);
  counts = omega arith;
}
delete_batch_lem cutoff (suc limit) [] = record {
  bounded = omega arith;
  keeps = refl;
  done = λ h. refl;
  counts = omega arith;
}
delete_batch_lem cutoff (suc limit) (r ∷ rs) =
    let fewer = delete_batch_lem cutoff limit rs in
    let same = delete_batch_lem cutoff (suc limit) rs in
    elim (Bool-cases (ltb r.created_at cutoff)) [
      | inl old ↦ record {
        bounded = ground (arith);
        keeps = ground (arith);
        done = λ h. ground (arith);
        counts = ground arith;
      }
      | inr new ↦ record {
        bounded = ground (arith);
        keeps = ground (arith);
        done = λ h. ground (arith);
        counts = ground arith;
      }
    ]

-- With more fuel than rows the loop ends, and leaves exactly the rows that are not older than the
-- cutoff, in their order; it reports how many went.
delete_loop_lem :
    (cutoff deleted : ℕ) (fuel : ℕ) (rows : List Row)
    → length rows < fuel
    → (total : ℕ) × (delete_loop fuel cutoff rows deleted
        ≡ some (filter (recent cutoff) rows, total))
      × (total + length (filter (recent cutoff) rows) ≡ deleted + length rows)
unfolding delete_loop
delete_loop_lem cutoff deleted zero rows h = absurd (omega arith)
delete_loop_lem cutoff deleted (suc fuel) rows h =
    let law = delete_batch_lem cutoff retention_delete_batch rows in
    let (left, changes) = delete_batch cutoff retention_delete_batch rows in
    elim (Bool-cases (ltb changes retention_delete_batch)) [
      | inl last ↦
          let e = law.done (ltb→lt changes retention_delete_batch last) in
          (
            deleted + changes,
            rw last (ap (λ l. some (l, deleted + changes)) e),
            omega (arith, law.counts, ap length e),
          )
      | inr more ↦
          let shorter : length left < fuel = ground (arith, law.counts) in
          let (total, run, count) = delete_loop_lem cutoff (deleted + changes) fuel left shorter in
          (
            total,
            rw more (run ∙ ap (λ l. some (l, total)) law.keeps),
            omega (arith, law.counts, count, ap length law.keeps),
          )
    ]

conflicts-filter :
    (p : Row → Bool) (r : Row) (rows : List Row)
    → any (conflicts r) rows ≡ false
    → any (conflicts r) (filter p rows) ≡ false
conflicts-filter p r [] h = h
conflicts-filter p r (s ∷ rows) h = elim (Bool-cases (p s)) [
  | inl kept ↦ rw kept (
      or-both (conflicts r s) _ (or-false_left (conflicts r s) _ h)
        (conflicts-filter p r rows (or-false_right (conflicts r s) _ h)))
  | inr gone ↦ rw gone (conflicts-filter p r rows (or-false_right (conflicts r s) _ h))
]

Distinct-filter : (p : Row → Bool) (rows : List Row) → Distinct rows → Distinct (filter p rows)
Distinct-filter p [] d = d
Distinct-filter p (r ∷ rows) (apart, below, d) = elim (Bool-cases (p r)) [
  | inl kept ↦ rw kept (
    conflicts-filter p r rows apart,
    All-filter (λ s. s.seq < r.seq) p rows below,
    Distinct-filter p rows d,
  )
  | inr gone ↦ rw gone (Distinct-filter p rows d)
]

-- What a retention pass leaves: the rows that are not older than the cutoff, the counters as they
-- were, so that no number is given out twice, and well-formed tables.
pub record Purged (db after : Db) (cutoff deleted : ℕ) : Type 0 where
  pub left : after.messages ≡ filter (recent cutoff) db.messages
  pub counted : deleted + length after.messages ≡ length db.messages
  pub counters : after.counters ≡ db.counters
  pub sequence : after.seq_counter ≡ db.seq_counter
  pub well_formed : WellFormed after

-- In well-formed tables and with more fuel than rows, `deleteOlderThan` ends and has deleted
-- exactly the rows older than the cutoff; it reports how many, leaves every counter alone and
-- keeps the tables well formed.
pub delete_older_than-Purged :
    (fuel : ℕ) (db : Db) (cutoff : ℕ)
    → length db.messages < fuel
    → WellFormed db
    → (after : Db) × (deleted : ℕ) × (delete_older_than fuel db cutoff ≡ some (after, deleted))
      × Purged db after cutoff deleted
unfolding delete_older_than
delete_older_than-Purged fuel db cutoff enough w =
    let (total, run, count) = delete_loop_lem cutoff 0 fuel db.messages enough in
    (
      record db { messages = filter (recent cutoff) db.messages },
      total,
      rw (run, delete_older_than),
      record {
        left = refl;
        counted = omega (arith, count);
        counters = refl;
        sequence = refl;
        well_formed = record {
          fits = All-filter (Fits db.counters db.seq_counter) (recent cutoff) db.messages w.fits;
          distinct = Distinct-filter (recent cutoff) db.messages w.distinct;
        };
      },
    )
