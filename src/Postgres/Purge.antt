-- ===== src/Postgres/Purge.antt =====
-- persistence/postgres-message-store.ts, deleteOlderThan, beside the batches of the SQLite store.
use messaging_gateway.Prelude.{
  ℕ, ◌<◌, some, List, [], ◌∷◌, ◌≡◌, refl, ap, sym, ◌∙◌, ◌-◌, arith, filter, length, not, ltb,
}
use messaging_gateway.Store.{Db, Row}
use messaging_gateway.Store
use messaging_gateway.Store.Rows.{WellFormed}
use messaging_gateway.Store.Retention.{recent, delete_older_than-Purged}
use messaging_gateway.Postgres.{delete_older_than}

recent-filter :
    (cutoff : ℕ) (rows : List Row)
    → filter (λ r. not (ltb r.created_at cutoff)) rows ≡ filter (recent cutoff) rows
recent-filter cutoff [] = refl
recent-filter cutoff (r ∷ rows) = ground (arith, recent-filter cutoff rows)

same_tables :
    (rows : List Row) (db after : Db)
    → after.messages ≡ rows
    → after.counters ≡ db.counters
    → after.seq_counter ≡ db.seq_counter
    → after ≡ record db { messages = rows }
same_tables rows db after e c s = cc (e, c, s)

-- The batches of the SQLite store and the single statement of the PostgreSQL store delete the same rows and
-- report the same number, on well-formed tables and with more fuel than rows for the batches.
pub delete_older_than-same :
    (fuel : ℕ) (db : Db) (cutoff : ℕ)
    → length db.messages < fuel
    → WellFormed db
    → Store.delete_older_than fuel db cutoff ≡ some (delete_older_than db cutoff)
unfolding delete_older_than
delete_older_than-same fuel db cutoff enough w =
    let (after, deleted, run, law) = delete_older_than-Purged fuel db cutoff enough w in
    let gone = recent-filter cutoff db.messages in
    let tables = same_tables _ db after (law.left ∙ sym gone) law.counters law.sequence in
    let count : deleted
        ≡ length db.messages - length (filter (λ r. not (ltb r.created_at cutoff)) db.messages) =
      omega (arith, law.counted, ap length (law.left ∙ sym gone)) in
    rw (run, tables, count) refl
