-- ===== src/Migrations/History.antt =====
-- persistence/migrations/migration-runner.ts: each script is applied once.
use messaging_gateway.Prelude.{
  ℕ, String, Option, none, some, false, List, [], ◌∷◌, ◌++◌, ◌≡◌, refl, ap, ◌∙◌, sym, map, str_eq,
  any, take, arith, All, All-append, All-filter, take-All, eq_iff, Bool-cases, Option-cases, inl,
  inr,
}
use mathlib.Core.List.{Memᴰ}
use mathlib.Core.List.Memᴰ.{head, tail}
use messaging_gateway.Migrations.{
  MigrationScript, Database, has_name, name_of, pending_of, apply_migration, apply_all, run,
  interrupted,
}

abbrev pub Once : List String → Type 0
Once [] = Unit
Once (x ∷ xs) = (any (str_eq x) xs ≡ false) × Once xs

absent-join :
    (x y : String) (xs : List String)
    → any (str_eq x) xs ≡ false
    → str_eq x y ≡ false
    → any (str_eq x) (xs ++ (y ∷ [])) ≡ false
absent-join x y [] h k = ground arith
absent-join x y (z ∷ xs) h k = ground (arith, absent-join x y xs)

join-Once :
    (x : String) (xs : List String) → any (str_eq x) xs ≡ false → Once xs → Once (xs ++ (x ∷ []))
join-Once x [] h u = (refl, tt)
join-Once x (y ∷ xs) h (k, u) = (
  absent-join y x xs k (ground (arith, h, eq_iff x y, eq_iff y x)),
  join-Once x xs (ground (arith, h)) u,
)

map-join :
    (xs : List MigrationScript) (x : MigrationScript)
    → map name_of (xs ++ (x ∷ [])) ≡ map name_of xs ++ (x.name ∷ [])
map-join [] x = refl
map-join (y ∷ xs) x = ap (◌∷◌ y.name) (map-join xs x)

-- Starts of the process, each with the scripts of its version: one that gets through, or that a script stops,
-- and one that does not survive the migrations.
pub data Start : Type 0 where
  runs : List MigrationScript → Start
  dies : ℕ → List MigrationScript → Start

abbrev scripts_of : Start → List MigrationScript
scripts_of (runs available) = available
scripts_of (dies n available) = available

-- The scripts of all the versions that were started.
abbrev pub given_by : List Start → List MigrationScript
given_by [] = []
given_by (s ∷ starts) = scripts_of s ++ given_by starts

more_members :
    (x : MigrationScript) (xs ys : List MigrationScript)
    → All (λ s. Memᴰ s xs) ys
    → All (λ s. Memᴰ s (x ∷ xs)) ys
more_members x xs [] h = tt
more_members x xs (y ∷ ys) (m, h) = (tail m, more_members x xs ys h)

own_members : (xs : List MigrationScript) → All (λ s. Memᴰ s xs) xs
own_members [] = tt
own_members (x ∷ xs) = (head refl, more_members x xs xs (own_members xs))

All-split :
    (P : MigrationScript → Type 0) (xs ys : List MigrationScript)
    → All P (xs ++ ys)
    → All P xs × All P ys
All-split P [] ys h = (tt, h)
All-split P (x ∷ xs) ys (p, h) = let (a, b) = All-split P xs ys h in ((p, a), b)

module _ {S : Type 0} (exec : String → S → Option S) where
  -- The scripts run one after the other.
  unfoldable pub replay : List MigrationScript → S → Option S
  replay [] schema = some schema
  replay (script ∷ rest) schema = elim (exec script.sql schema) [
    | none ↦ none
    | some next ↦ replay rest next
  ]

  replay-join :
      (xs : List MigrationScript) (x : MigrationScript) (schema mid : S)
      → replay xs schema ≡ some mid
      → replay (xs ++ (x ∷ [])) schema ≡ exec x.sql mid
  unfolding replay
  replay-join [] x schema mid h =
      let same : schema ≡ mid = cc h in
      rw same (elim (Option-cases (exec x.sql mid)) [
        | inl none_ ↦ rw (replay, none_) refl
        | inr (next, e) ↦ rw (replay, e) refl
      ])
  replay-join (y ∷ xs) x schema mid h = elim (Option-cases (exec y.sql schema)) [
    | inl none_ ↦ absurd (cc (rw (replay, none_) at h))
    | inr (next, e) ↦ rw (replay, e) (replay-join xs x next mid (rw (replay, e) at h))
  ]

  -- The schema is what the recorded scripts make of the first one, each run once, in the order of their records;
  -- each of them is, with its SQL, one of those given.
  pub record Replays (given : List MigrationScript) (first : S) (db : Database S) : Type 0 where
    pub scripts : List MigrationScript
    pub among : All (λ s. Memᴰ s given) scripts
    pub recorded : map name_of scripts ≡ db.recorded
    pub schema : replay scripts first ≡ some db.schema
    pub once : Once db.recorded

  apply_migration-Replays :
      (given : List MigrationScript) (first : S) (script : MigrationScript) (db after : Database S)
      → Memᴰ script given
      → apply_migration exec script db ≡ some after
      → Replays given first db
      → Replays given first after
  unfolding apply_migration
  apply_migration-Replays given first script db after m e r =
      elim (Option-cases (exec script.sql db.schema)) [
        | inl none_ ↦ absurd (cc (rw (apply_migration, none_) at e))
        | inr (next, run_) ↦ elim (Bool-cases (has_name script.name db.recorded)) [
          | inl there ↦ absurd (cc (rw (apply_migration, run_, there) at e))
          | inr new ↦
              let now : Database S = record {
                schema = next;
                recorded = db.recorded ++ (script.name ∷ []);
              } in
              let is : now ≡ after = cc (rw (apply_migration, run_, new) at e) in
              rw (sym is) (record {
                scripts = r.scripts ++ (script ∷ []);
                among = All-append (λ s. Memᴰ s given) r.scripts (script ∷ []) r.among (m, tt);
                recorded =
                    map-join r.scripts script
                    ∙ ap (λ names. names ++ (script.name ∷ [])) r.recorded;
                schema = replay-join r.scripts script first db.schema r.schema ∙ run_;
                once = join-Once script.name db.recorded new r.once;
              })
        ]
      ]

  pub apply_all-Replays :
      (given : List MigrationScript) (first : S) (scripts : List MigrationScript) (db : Database S)
      → All (λ s. Memᴰ s given) scripts
      → Replays given first db
      → Replays given first (apply_all exec scripts db).0
  unfolding apply_all
  apply_all-Replays given first [] db m r = r
  apply_all-Replays given first (script ∷ rest) db (m, ms) r =
      elim (Option-cases (apply_migration exec script db)) [
        | inl stops ↦ rw (apply_all, stops) r
        | inr (next, e) ↦
            rw (apply_all, e)
              (apply_all-Replays given first rest next ms
                (apply_migration-Replays given first script db next m e r))
      ]

  unfoldable pub start : Start → Database S → Database S
  start (runs available) db = (run exec available db).0
  start (dies n available) db = interrupted exec n available db

  unfoldable pub start_all : List Start → Database S → Database S
  unfolding start
  start_all [] db = db
  start_all (s ∷ starts) db = start_all starts (start s db)

  start-Replays :
      (given : List MigrationScript) (first : S) (s : Start) (db : Database S)
      → All (λ x. Memᴰ x given) (scripts_of s)
      → Replays given first db
      → Replays given first (start s db)
  unfolding start run interrupted
  start-Replays given first (runs available) db m r =
      apply_all-Replays given first (pending_of available db.recorded) db
        (All-filter (λ s. Memᴰ s given) _ available m) r
  start-Replays given first (dies n available) db m r =
      apply_all-Replays given first (take n (pending_of available db.recorded)) db
        (take-All (λ s. Memᴰ s given) n _ (All-filter (λ s. Memᴰ s given) _ available m)) r

  from-Replays :
      (given : List MigrationScript) (first : S) (starts : List Start) (db : Database S)
      → All (λ x. Memᴰ x given) (given_by starts)
      → Replays given first db
      → Replays given first (start_all starts db)
  unfolding start_all
  from-Replays given first [] db m r = r
  from-Replays given first (s ∷ starts) db m r =
      let (mine, later) = All-split (λ x. Memᴰ x given) (scripts_of s) (given_by starts) m in
      from-Replays given first starts (start s db) later (start-Replays given first s db mine r)

  -- After any starts, with whatever scripts, whether they get through, stop at a script that fails or die between
  -- two transactions, the schema is what running the SQL of the recorded scripts, each once and in the order of
  -- their records, makes of the first one; each of them is a script of one of the starts, and no name is recorded
  -- twice. Nothing is recorded at first.
  pub start_all-Replays :
      (first : S) (starts : List Start)
      → Replays
          (given_by starts)
          first
          (start_all starts (record { schema = first; recorded = [] }))
  unfolding replay
  start_all-Replays first starts =
      from-Replays (given_by starts) first starts (record { schema = first; recorded = [] })
        (own_members (given_by starts))
        (record { scripts = []; among = tt; recorded = refl; schema = refl; once = tt })
