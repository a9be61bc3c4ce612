-- ===== src/Store/Pages.antt =====
-- persistence/sqlite-message-store.ts, queryAfter: a page of an account's messages in the order of their
-- numbers, and a consumer that follows the pages to the end.
use messaging_gateway.Prelude.{
  ℕ, zero, suc, ◌+◌, ◌≤◌, ◌<◌, String, Option, none, some, Bool, true, false, ◌&&◌, List, [], ◌∷◌,
  ◌++◌, if◌then◌else◌, ◌≡◌, ◌≢◌, refl, ◌∙◌, ap, sym, arith, ltb, str_eq, eq_iff, any, filter, take,
  drop, length, last_of, sort_by, NoTies, Strict, sort_by-Strict, filter-sort_by, rest_of_page,
  All-sort_by, last_of-take-All, length-drop-lt, take-take, take_all, length-take_le, take-drop,
  last_of-take, All, Bool-cases, Option-cases, inl, inr,
}
use messaging_gateway.Messages.Format.{PageLimit, clamp_page_limit, max_page_limit}
use messaging_gateway.Messages.Clean.{clamp_page_limit_lem}
use messaging_gateway.Store.{Row, Db, or_zero, conflicts}
use messaging_gateway.Store.Rows.{Distinct, WellFormed}

abbrev pub number_of : Row → ℕ
number_of r = or_zero r.account_seq

-- `WHERE account_id = ? AND account_seq > ?`, which no row without a number meets.
abbrev pub is_after : String → ℕ → Row → Bool
is_after account after r = str_eq r.account_id account && ltb after (number_of r)

-- `ORDER BY account_seq ASC`, with no limit.
unfoldable pub all_after : Db → String → ℕ → List Row
all_after db account after = sort_by number_of (filter (is_after account after) db.messages)

pub record Page : Type 0 where
  pub messages : List Row
  pub next_after_account_seq : Option ℕ

abbrev number_of_last : Option Row → Option ℕ
number_of_last none = none
number_of_last (some r) = r.account_seq

-- The page of the rows that the statement gave, one more than the page holds if there are more.
unfoldable pub page_of : ℕ → List Row → Page
page_of limit rows = record {
  messages = take limit rows;
  next_after_account_seq =
      if ltb limit (length rows) then number_of_last (last_of (take limit rows)) else none;
}

unfoldable pub query_after : Db → String → ℕ → PageLimit → Page
unfolding page_of
query_after db account after limit =
    let n = clamp_page_limit limit max_page_limit in
    page_of n (take (n + 1) (all_after db account after))

-- A consumer that asks again with `nextAfterAccountSeq` until there is none; `none` is out of fuel.
unfoldable pub follow : ℕ → Db → String → ℕ → PageLimit → Option (List Row)
follow zero db account after limit = none
follow (suc fuel) db account after limit =
    let page = query_after db account after limit in
    elim page.next_after_account_seq [
      | none ↦ some page.messages
      | some next ↦ elim (follow fuel db account next limit) [
        | none ↦ none
        | some rest ↦ some (page.messages ++ rest)
      ]
    ]

is_after-numbered :
    (account : String) (after : ℕ) (r : Row) → is_after account after r ≡ true → after < number_of r
is_after-numbered account after r h = ground arith

number_of-some : (r : Row) → 0 < number_of r → r.account_seq ≡ some (number_of r)
number_of-some r h = elim (Option-cases r.account_seq) [
  | inl none_ ↦ absurd (omega (arith, ap or_zero none_))
  | inr (n, e) ↦ rw e refl
]

apart :
    (account : String) (after : ℕ) (r s : Row)
    → is_after account after r ≡ true
    → is_after account after s ≡ true
    → conflicts r s ≡ false
    → number_of r ≢ number_of s
apart account after r s h k c =
    let r_some = number_of-some r (omega (arith, is_after-numbered account after r h)) in
    let s_some = number_of-some s (omega (arith, is_after-numbered account after s k)) in
    λ same. ground (
      arith,
      rw r_some at c,
      rw s_some at c,
      same,
      eq_iff r.account_id account,
      eq_iff s.account_id account,
      eq_iff s.account_id r.account_id,
    )

apart-All :
    (account : String) (after : ℕ) (r : Row) (rs : List Row)
    → is_after account after r ≡ true
    → any (conflicts r) rs ≡ false
    → All (λ s. number_of r ≢ number_of s) (filter (is_after account after) rs)
apart-All account after r [] h c = tt
apart-All account after r (s ∷ rs) h c = elim (Bool-cases (is_after account after s)) [
  | inl there ↦ rw there (
    apart account after r s h there (ground (arith, c)),
    apart-All account after r rs h (ground (arith, c)),
  )
  | inr elsewhere ↦ rw elsewhere (apart-All account after r rs h (ground (arith, c)))
]

filter-NoTies :
    (account : String) (after : ℕ) (rs : List Row)
    → Distinct rs
    → NoTies number_of (filter (is_after account after) rs)
filter-NoTies account after [] d = tt
filter-NoTies account after (r ∷ rs) (c, s, d) = elim (Bool-cases (is_after account after r)) [
  | inl there ↦ rw there (apart-All account after r rs there c, filter-NoTies account after rs d)
  | inr elsewhere ↦ rw elsewhere (filter-NoTies account after rs d)
]

filter_numbered :
    (account : String) (after : ℕ) (rs : List Row)
    → All (λ r. after < number_of r) (filter (is_after account after) rs)
filter_numbered account after [] = tt
filter_numbered account after (r ∷ rs) = elim (Bool-cases (is_after account after r)) [
  | inl there ↦ rw there (is_after-numbered account after r there, filter_numbered account after rs)
  | inr elsewhere ↦ rw elsewhere (filter_numbered account after rs)
]

filter_later :
    (account : String) (after later : ℕ) (rs : List Row)
    → after ≤ later
    → filter (is_after account later) rs
      ≡ filter (λ r. ltb later (number_of r)) (filter (is_after account after) rs)
filter_later account after later [] h = refl
filter_later account after later (r ∷ rs) h = ground (arith, filter_later account after later rs h)

-- The account's messages after a number are strictly in order, and behind the last of a page come
-- exactly those that the page left out.
all_after-Strict :
    (db : Db) (account : String) (after : ℕ)
    → WellFormed db
    → Strict number_of (all_after db account after)
unfolding all_after
all_after-Strict db account after w =
    sort_by-Strict number_of (filter (is_after account after) db.messages)
      (filter-NoTies account after db.messages w.distinct)

all_after_numbered :
    (db : Db) (account : String) (after : ℕ)
    → All (λ r. after < number_of r) (all_after db account after)
unfolding all_after
all_after_numbered db account after =
    All-sort_by number_of (λ r. after < number_of r) _ (filter_numbered account after db.messages)

all_after-drop :
    (db : Db) (account : String) (after m : ℕ) (l : Row)
    → WellFormed db
    → last_of (take (suc m) (all_after db account after)) ≡ some l
    → all_after db account (number_of l) ≡ drop (suc m) (all_after db account after)
unfolding all_after
all_after-drop db account after m l w e =
    let later =
      last_of-take-All (λ r. after < number_of r) (suc m) (all_after db account after) l
        (all_after_numbered db account after) e in
    ap (sort_by number_of)
      (filter_later account after (number_of l) db.messages (omega (arith, later)))
    ∙ sym (
        filter-sort_by number_of (λ r. ltb (number_of l) (number_of r))
          (filter (is_after account after) db.messages))
    ∙ rest_of_page number_of m l (all_after db account after) (all_after-Strict db account after w)
        e

-- A page is all that is left, or ends with the number to go on from.
data PageCase (db : Db) (account : String) (after : ℕ) (limit : PageLimit) : Type 0 where
  final :
      query_after db account after limit
        ≡ (record { messages = all_after db account after; next_after_account_seq = none })
      → PageCase db account after limit
  partial :
      (m : ℕ) (l : Row)
      → m < length (all_after db account after)
      → query_after db account after limit ≡ (record {
        messages = take (suc m) (all_after db account after);
        next_after_account_seq = some (number_of l);
      })
      → all_after db account (number_of l) ≡ drop (suc m) (all_after db account after)
      → PageCase db account after limit

page_all :
    (m : ℕ) (xs : List Row)
    → ltb (suc m) (length xs) ≡ false
    → page_of (suc m) (take (suc (suc m)) xs)
      ≡ (record { messages = xs; next_after_account_seq = none })
unfolding page_of
page_all m xs h =
    rw (length-take_le (suc m) xs, h, take-take (suc m) xs, take_all (suc m) xs (ground (arith, h)))
      refl

page_full :
    (m : ℕ) (xs : List Row) (l : Row)
    → ltb (suc m) (length xs) ≡ true
    → last_of (take (suc m) xs) ≡ some l
    → l.account_seq ≡ some (number_of l)
    → page_of (suc m) (take (suc (suc m)) xs)
      ≡ (record { messages = take (suc m) xs; next_after_account_seq = some (number_of l) })
unfolding page_of
page_full m xs l h e numbered =
    rw (length-take_le (suc m) xs, h, take-take (suc m) xs, e, numbered) refl

positive : (n : ℕ) → 1 ≤ n → (m : ℕ) × (n ≡ suc m)
positive zero h = absurd (omega arith)
positive (suc m) h = (m, refl)

cut :
    (db : Db) (account : String) (after : ℕ) (limit : PageLimit)
    → (m : ℕ) × (query_after db account after limit
        ≡ page_of (suc m) (take (suc (suc m)) (all_after db account after)))
unfolding query_after
cut db account after limit =
    let n = clamp_page_limit limit max_page_limit in
    let (m, e) = positive n ((clamp_page_limit_lem limit max_page_limit (omega arith)).0) in
    let next : n + 1 ≡ suc (suc m) = omega (arith, e) in (m, rw (next, e) refl)

page_cases :
    (db : Db) (account : String) (after : ℕ) (limit : PageLimit)
    → WellFormed db
    → PageCase db account after limit
page_cases db account after limit w =
    let xs = all_after db account after in
    let (m, e) = cut db account after limit in
    elim (Bool-cases (ltb (suc m) (length xs))) [
      | inl more ↦
          let (l, last) = last_of-take m xs (ground (arith, more)) in
          let later =
            last_of-take-All (λ r. after < number_of r) (suc m) xs l
              (all_after_numbered db account after) last in
          partial m l (ground (arith, more))
            (e ∙ page_full m xs l more last (number_of-some l (omega (arith, later))))
            (all_after-drop db account after m l w last)
      | inr less ↦ final (e ∙ page_all m xs less)
    ]

-- A consumer that starts after any number and follows the pages, of whatever size, gets every message of
-- the account with a higher number, each once and in the order of the numbers, and stops; it needs at most
-- one page more than there are messages. The tables are well formed.
pub follow_lem :
    (fuel : ℕ) (db : Db) (account : String) (after : ℕ) (limit : PageLimit)
    → WellFormed db
    → length (all_after db account after) < fuel
    → follow fuel db account after limit ≡ some (all_after db account after)
unfolding follow
follow_lem zero db account after limit w h = absurd (omega arith)
follow_lem (suc fuel) db account after limit w h = elim (page_cases db account after limit w) [
  | final e ↦ rw (follow, e, e) refl
  | partial m l more e rest ↦
      let shorter = length-drop-lt m (all_after db account after) more in
      let ih =
        follow_lem fuel db account (number_of l) limit w
          (omega (arith, ap length rest, shorter, h)) in
      rw (follow, e, ih, e, rest) (ap some (take-drop (suc m) (all_after db account after)))
]
