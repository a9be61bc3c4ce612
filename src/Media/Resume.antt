-- ===== src/Media/Resume.antt =====
-- core/inbound/media-service.ts, resumePendingMedia, and persistence/sqlite-message-store.ts, findPendingMedia:
-- the media that an earlier run left pending, page by page.
use messaging_gateway.Prelude.{
  ℕ, zero, suc, ◌+◌, ◌≤◌, ◌<◌, String, Option, none, some, Bool, true, List, [], ◌∷◌, ◌++◌, ◌==◌,
  ◌≡◌, refl, inl, inr, ltb, any, filter, take, drop, All, arith, Bool-cases, Option-cases, ap, ◌∙◌,
  sym, last_of, sort_by, NoTies, Strict, sort_by-Strict, ◌≢◌, All-lt, All-sort_by, rest_of_page,
  take-drop, last_of-take-All, join-Strict, take-Strict, page_below, any-sort_by, any-join,
  take-All, join-All,
}

-- A row whose media is pending and whose raw payload is kept.
pub record PendingRow : Type 0 where
  pub seq : ℕ
  pub id : String
  pub account_id : String
  pub raw_json : String

unfoldable pub find_pending_media : List PendingRow → ℕ → ℕ → List PendingRow
find_pending_media rows limit after =
    take limit (sort_by (λ (r : PendingRow). r.seq) (filter (λ r. ltb after r.seq) rows))

-- The rows as they are at each page: between two pages messages come in and media are stored. `none` is out of
-- fuel; the rows picked are given, whose number the source returns.
unfoldable pub resume_pending_media :
    ℕ → (ℕ → List PendingRow) → ℕ → ℕ → ℕ → Option (List PendingRow)
unfolding find_pending_media
resume_pending_media zero tables page size after = none
resume_pending_media (suc fuel) tables page size after =
    let batch = find_pending_media (tables page) size after in
    elim (last_of batch) [
      | none ↦ some []
      | some l ↦ elim (resume_pending_media fuel tables (page + 1) size l.seq) [
        | none ↦ none
        | some rest ↦ some (batch ++ rest)
      ]
    ]

abbrev pub seq_of : PendingRow → ℕ
seq_of r = r.seq

abbrev pub is_seq : ℕ → PendingRow → Bool
is_seq n r = r.seq == n

-- All the rows after a sequence, in order: the pages are cut from them.
abbrev ordered : List PendingRow → ℕ → List PendingRow
ordered rows after = sort_by seq_of (filter (λ r. ltb after r.seq) rows)

keep-All :
    (P : PendingRow → Type 0) (q : PendingRow → Bool) (rows : List PendingRow)
    → All P rows
    → All P (filter q rows)
keep-All P q [] h = tt
keep-All P q (r ∷ rows) (p, h) = elim (Bool-cases (q r)) [
  | inl kept ↦ rw kept (p, keep-All P q rows h)
  | inr gone ↦ rw gone (keep-All P q rows h)
]

keep-NoTies :
    (q : PendingRow → Bool) (rows : List PendingRow)
    → NoTies seq_of rows
    → NoTies seq_of (filter q rows)
keep-NoTies q [] h = tt
keep-NoTies q (r ∷ rows) (p, h) = elim (Bool-cases (q r)) [
  | inl kept ↦ rw kept (keep-All (λ s. r.seq ≢ s.seq) q rows p, keep-NoTies q rows h)
  | inr gone ↦ rw gone (keep-NoTies q rows h)
]

later-All :
    (after : ℕ) (rows : List PendingRow)
    → All (λ r. after < r.seq) (filter (λ r. ltb after r.seq) rows)
later-All after [] = tt
later-All after (r ∷ rows) = elim (Bool-cases (ltb after r.seq)) [
  | inl kept ↦ rw kept (ground (arith, kept), later-All after rows)
  | inr gone ↦ rw gone (later-All after rows)
]

module _ (tables : ℕ → List PendingRow) (size bound : ℕ)
    (bounded : (page : ℕ) → All (λ r. r.seq ≤ bound) (tables page))
    (apart : (page : ℕ) → NoTies seq_of (tables page)) where
  ordered-Strict : (page after : ℕ) → Strict seq_of (ordered (tables page) after)
  ordered-Strict page after =
      sort_by-Strict seq_of (filter (λ r. ltb after r.seq) (tables page))
        (keep-NoTies (λ r. ltb after r.seq) (tables page) (apart page))

  ordered-later : (page after : ℕ) → All (λ r. after < r.seq) (ordered (tables page) after)
  ordered-later page after =
      All-sort_by seq_of (λ r. after < r.seq) (filter (λ r. ltb after r.seq) (tables page))
        (later-All after (tables page))

  ordered-bounded : (page after : ℕ) → All (λ r. r.seq ≤ bound) (ordered (tables page) after)
  ordered-bounded page after =
      All-sort_by seq_of (λ r. r.seq ≤ bound) (filter (λ r. ltb after r.seq) (tables page))
        (keep-All (λ r. r.seq ≤ bound) (λ r. ltb after r.seq) (tables page) (bounded page))

  -- The rows picked: each once, in order, and after the cursor.
  abbrev Picked : ℕ → ℕ → ℕ → Type 0
  Picked fuel page after =
      (picked : List PendingRow) × (resume_pending_media fuel tables page size after ≡ some picked)
      × Strict seq_of picked
      × All (λ r. after < r.seq) picked

  resume-ends :
      (fuel page after : ℕ) → bound < after + fuel → after ≤ bound → Picked fuel page after
  unfolding resume_pending_media find_pending_media
  resume-ends zero page after h k = absurd (omega arith)
  resume-ends (suc fuel) page after h k =
      let rows = ordered (tables page) after in
      elim (Option-cases (last_of (take size rows))) [
        | inl none_ ↦ ([], rw (resume_pending_media, none_) refl, tt, tt)
        | inr (l, e) ↦
            let later =
              last_of-take-All (λ r. after < r.seq) size rows l (ordered-later page after) e in
            let below =
              last_of-take-All (λ r. r.seq ≤ bound) size rows l (ordered-bounded page after) e in
            let (rest, run, strict, above) =
              resume-ends fuel (page + 1) l.seq (omega (arith, later)) below in
            (
              take size rows ++ rest,
              rw (resume_pending_media, e, run) refl,
              join-Strict seq_of l.seq (take size rows) rest
                  (take-Strict seq_of size rows (ordered-Strict page after)) strict
                  (page_below seq_of size l rows (ordered-Strict page after) e) above,
              join-All (λ r. after < r.seq) (take size rows) rest
                  (take-All (λ r. after < r.seq) size rows (ordered-later page after))
                  (All-lt seq_of after l.seq rest (omega (arith, later)) above),
            )
      ]

is_seq-later :
    (n after : ℕ) (rows : List PendingRow)
    → after < n
    → any (is_seq n) (filter (λ r. ltb after r.seq) rows) ≡ any (is_seq n) rows
is_seq-later n after [] h = refl
is_seq-later n after (r ∷ rows) h = ground (arith, is_seq-later n after rows h)

later-is_seq :
    (n after : ℕ) (rows : List PendingRow)
    → any (is_seq n) (filter (λ r. ltb after r.seq) rows) ≡ true
    → after < n
later-is_seq n after [] h = absurd (cc h)
later-is_seq n after (r ∷ rows) h = ground (arith, later-is_seq n after rows)

none_left : (m : ℕ) (rows : List PendingRow) → last_of (take (suc m) rows) ≡ none → rows ≡ []
none_left m [] h = refl
none_left zero (r ∷ rows) h = absurd (cc h)
none_left (suc m) (r ∷ []) h = absurd (cc h)
none_left (suc m) (r ∷ s ∷ rows) h = absurd (cc (none_left m (s ∷ rows) h))

module _ (tables : ℕ → List PendingRow) (m : ℕ) (apart : (page : ℕ) → NoTies seq_of (tables page))
    (n : ℕ) (stays : (page : ℕ) → any (is_seq n) (tables page) ≡ true) where
  in_order : (page after : ℕ) → after < n → any (is_seq n) (ordered (tables page) after) ≡ true
  in_order page after h =
      any-sort_by seq_of (is_seq n) (filter (λ r. ltb after r.seq) (tables page))
      ∙ is_seq-later n after (tables page) h
      ∙ stays page

  resume-finds :
      (fuel page after : ℕ) (picked : List PendingRow)
      → after < n
      → resume_pending_media fuel tables page (suc m) after ≡ some picked
      → any (is_seq n) picked ≡ true
  unfolding resume_pending_media find_pending_media
  resume-finds zero page after picked h e = absurd (cc e)
  resume-finds (suc fuel) page after picked h e =
      let rows = ordered (tables page) after in
      elim (Option-cases (last_of (take (suc m) rows))) [
        | inl none_ ↦ absurd (cc (rw (none_left m rows none_) at (in_order page after h)))
        | inr (l, last) ↦
            let page_ = take (suc m) rows in
            elim (Option-cases (resume_pending_media fuel tables (page + 1) (suc m) l.seq)) [
              | inl out ↦ absurd (cc (rw (resume_pending_media, last, out) at e))
              | inr (rest, run) ↦
                  let all_ : page_ ++ rest ≡ picked =
                    cc (rw (resume_pending_media, last, run) at e) in
                  let split = any-join (is_seq n) page_ (drop (suc m) rows) in
                  let whole_ = ap (any (is_seq n)) (take-drop (suc m) rows) in
                  let behind = ap (any (is_seq n)) (
                    rest_of_page seq_of m l rows
                      (sort_by-Strict seq_of _
                        (keep-NoTies (λ r. ltb after r.seq) (tables page) (apart page)))
                      last) in
                  rw (sym all_) (
                    any-join (is_seq n) page_ rest ∙ elim (Bool-cases (any (is_seq n) page_)) [
                      | inl here ↦ rw here refl
                      | inr not_here ↦
                          let there : any (is_seq n) (drop (suc m) rows) ≡ true =
                            ground (arith, split, whole_, not_here, in_order page after h) in
                          let further = later-is_seq n l.seq rows (behind ∙ there) in
                          let found = resume-finds fuel (page + 1) l.seq rest further run in
                          rw (not_here, found) refl
                    ])
            ]
      ]

-- The row of that sequence is pending at every page, as it is when no outcome can be recorded for it.
abbrev pub StaysPending : (ℕ → List PendingRow) → ℕ → Type 0
StaysPending tables n = (0 < n) × ((page : ℕ) → any (is_seq n) (tables page) ≡ true)

stay_picked :
    (fuel : ℕ) (tables : ℕ → List PendingRow) (m : ℕ) (picked : List PendingRow)
    → ((page : ℕ) → NoTies seq_of (tables page))
    → resume_pending_media fuel tables 0 (suc m) 0 ≡ some picked
    → (staying : List ℕ) → All (StaysPending tables) staying
    → All (λ n. any (is_seq n) picked ≡ true) staying
stay_picked fuel tables m picked t e [] h = tt
stay_picked fuel tables m picked t e (n ∷ staying) ((p, stays), h) = (
  resume-finds tables m t n stays fuel 0 0 picked p e,
  stay_picked fuel tables m picked t e staying h,
)

-- The resume ends, picks no media twice and picks them in the order of their sequences, whatever comes in and
-- is stored between two pages, and every row that stays pending throughout, however many there are or if there
-- is none, is picked. A page holds at least one row, no two rows share a sequence, the sequences, of the rows
-- that stay from one on, are bounded, and the fuel is above the bound.
pub resume_pending_media_lem :
    (fuel : ℕ) (tables : ℕ → List PendingRow) (size bound : ℕ) (staying : List ℕ)
    → bound < fuel
    → 1 ≤ size
    → ((page : ℕ) → All (λ r. r.seq ≤ bound) (tables page))
    → ((page : ℕ) → NoTies seq_of (tables page))
    → All (StaysPending tables) staying
    → (picked : List PendingRow) × (resume_pending_media fuel tables 0 size 0 ≡ some picked)
      × Strict seq_of picked
      × All (λ n. any (is_seq n) picked ≡ true) staying
resume_pending_media_lem fuel tables zero bound staying f h b t stay = absurd (omega arith)
resume_pending_media_lem fuel tables (suc m) bound staying f h b t stay =
    let (picked, run, strict, _) =
      resume-ends tables (suc m) bound b t fuel 0 0 (omega (arith, f)) (omega arith) in
    (picked, run, strict, stay_picked fuel tables m picked t run staying stay)
