-- ===== src/Pipeline/Chain.antt =====
-- core/inbound/inbound-pipeline.ts, handle: what the chain of an account's promises keeps while its messages are
-- processed.
use messaging_gateway.Prelude.{
  ℕ, ◌≤◌, ◌<◌, String, Option, none, some, Bool, true, false, ◌&&◌, ◌≡◌, refl, ◌∙◌, sym, str_eq,
  eq_iff, ◌==◌, ◌⊎◌, inl, inr, arith, Bool-cases,
}
use messaging_gateway.Pipeline.Turns.{
  Stage, waiting, processing, ended, tail_resolved, has_begun, Turns, at_number, at_account,
  may_begin, begun, begins, settled, ends, is_tail, forgets,
}

-- The calls of the account before this number have ended, well or not.
abbrev pub Over : Turns → String → ℕ → Type 0
Over t account n = (i : ℕ) → i < n → t.account i ≡ account → tail_resolved (t.stage i) ≡ true

-- What a call waits for is the account's last call before it; without one, all of them are over.
abbrev pub Behind : Turns → String → ℕ → Option ℕ → Type 0
Behind t account n none = Over t account n
Behind t account n (some p) =
    (p < n) × (t.account p ≡ account) × ((i : ℕ) → i < n → t.account i ≡ account → i ≤ p)

pub record InTurn (t : Turns) : Type 0 where
  pub order : (j : ℕ) → j < t.count → has_begun (t.stage j) ≡ true → Over t (t.account j) j
  pub links : (j : ℕ) → j < t.count → Behind t (t.account j) j (t.previous j)
  pub last : (account : String) → Behind t account t.count (t.queues account)

resolved-begun : (s : Stage) → tail_resolved s ≡ true → has_begun s ≡ true
resolved-begun waiting h = absurd (cc h)
resolved-begun processing h = refl
resolved-begun (ended ok) h = refl

-- If what a call waits for has resolved, all of its account before it are over.
Behind-Over :
    (t : Turns) (account : String) (n : ℕ) (previous : Option ℕ)
    → InTurn t
    → n ≤ t.count
    → Behind t account n previous
    → may_begin previous t ≡ true
    → Over t account n
Behind-Over t account n none w c b h i lt same = b i lt same
Behind-Over t account n (some p) w c (below, mine, le) h i lt same = elim (Bool-cases (i == p)) [
  | inl it ↦ let e : i ≡ p = ground (arith, it) in rw e h
  | inr not_it ↦
      let at_most = le i lt same in
      let before : i < p = ground (arith, not_it, at_most) in
      w.order p (omega (arith, below, c)) (resolved-begun (t.stage p) h) i before (same ∙ sym mine)
]

pub Over-may_begin :
    (t : Turns) (account : String) (n : ℕ) (previous : Option ℕ)
    → Behind t account n previous
    → Over t account n
    → may_begin previous t ≡ true
Over-may_begin t account n none b h = refl
Over-may_begin t account n (some p) (below, mine, le) h = h p below mine

-- A step that begins or ends a call and leaves the rest.
abbrev with_stage : ℕ → Stage → Turns → Turns
with_stage n s t = record t { stage = at_number n s t.stage }

module _ (t : Turns) (w : InTurn t) (n : ℕ) (s : Stage)
    (stays : tail_resolved (t.stage n) ≡ true → tail_resolved s ≡ true) where
  still :
      (i : ℕ) → tail_resolved (t.stage i) ≡ true → tail_resolved (at_number n s t.stage i) ≡ true
  still i h = elim (Bool-cases (i == n)) [
    | inl it ↦ let e : i ≡ n = ground (arith, it) in rw it (stays (rw e at h))
    | inr not_it ↦ rw not_it h
  ]

  Over-still : (account : String) (m : ℕ) → Over t account m → Over (with_stage n s t) account m
  Over-still account m h i lt same = still i (h i lt same)

  Behind-still :
      (account : String) (m : ℕ) (previous : Option ℕ)
      → Behind t account m previous
      → Behind (with_stage n s t) account m previous
  Behind-still account m none h = Over-still account m h
  Behind-still account m (some p) h = h

  with_stage-InTurn :
      (has_begun s ≡ true → n < t.count → Over t (t.account n) n) → InTurn (with_stage n s t)
  with_stage-InTurn first = record {
    order = λ j lt b. elim (Bool-cases (j == n)) [
      | inl it ↦
          let e : j ≡ n = ground (arith, it) in
          let mine : Over t (t.account j) j = rw e (first (rw it at b) (omega (arith, e, lt))) in
          Over-still (t.account j) j mine
      | inr not_it ↦ Over-still (t.account j) j (w.order j lt (rw not_it at b))
    ];
    links = λ j lt. Behind-still (t.account j) j (t.previous j) (w.links j lt);
    last = λ account. Behind-still account t.count (t.queues account) (w.last account);
  }

begun_stays : (s : Stage) (b : Bool) → tail_resolved s ≡ true → tail_resolved (begun s b) ≡ true
begun_stays waiting b h = absurd (cc h)
begun_stays processing b h = absurd (cc h)
begun_stays (ended ok) true h = refl
begun_stays (ended ok) false h = refl

begun_cases :
    (s : Stage) (b : Bool) → has_begun (begun s b) ≡ true → (has_begun s ≡ true) ⊎ (b ≡ true)
begun_cases waiting true h = inr refl
begun_cases waiting false h = absurd (cc h)
begun_cases processing b h = inl refl
begun_cases (ended ok) b h = inl refl

settled_stays :
    (ok : Bool) (s : Stage) → tail_resolved s ≡ true → tail_resolved (settled ok s) ≡ true
settled_stays ok waiting h = absurd (cc h)
settled_stays ok processing h = refl
settled_stays ok (ended was) h = refl

settled_begun : (ok : Bool) (s : Stage) → has_begun (settled ok s) ≡ true → has_begun s ≡ true
settled_begun ok waiting h = absurd (cc h)
settled_begun ok processing h = refl
settled_begun ok (ended was) h = refl

pub begins-InTurn : (n : ℕ) (t : Turns) → InTurn t → InTurn (begins n t)
unfolding begins
begins-InTurn n t w =
    let go = may_begin (t.previous n) t in
    with_stage-InTurn t w n (begun (t.stage n) go) (begun_stays (t.stage n) go) (λ b lt.
      elim (begun_cases (t.stage n) go b) [
        | inl before ↦ w.order n lt before
        | inr free ↦
            Behind-Over t (t.account n) n (t.previous n) w (omega (arith, lt)) (w.links n lt) free
      ])

pub ends-InTurn : (n : ℕ) (ok : Bool) (t : Turns) → InTurn t → InTurn (ends n ok t)
unfolding ends
ends-InTurn n ok t w =
    with_stage-InTurn t w n (settled ok (t.stage n)) (settled_stays ok (t.stage n))
      (λ b lt. w.order n lt (settled_begun ok (t.stage n) b))

tail-may_begin :
    (t : Turns) (n : ℕ) (tail : Option ℕ)
    → tail_resolved (t.stage n) ≡ true
    → is_tail tail n ≡ true
    → may_begin tail t ≡ true
tail-may_begin t n none h it = refl
tail-may_begin t n (some q) h it = let e : q ≡ n = ground (arith, it) in rw e h

both : (b c : Bool) → (b && c) ≡ true → (b ≡ true) × (c ≡ true)
both true c h = (refl, h)
both false c h = absurd (cc h)

pub forgets-InTurn : (n : ℕ) (t : Turns) → InTurn t → InTurn (forgets n t)
unfolding forgets
forgets-InTurn n t w =
    elim (Bool-cases (tail_resolved (t.stage n) && is_tail (t.queues (t.account n)) n)) [
      | inr kept ↦ rw (forgets, kept) w
      | inl gone ↦
          let (over, it) = both (tail_resolved (t.stage n)) _ gone in
          let mine = t.account n in
          let all_over =
            Behind-Over t mine t.count (t.queues mine) w (omega arith) (w.last mine)
              (tail-may_begin t n (t.queues mine) over it) in
          rw (forgets, gone)
            (record {
              order = w.order;
              links = λ j lt. unlinked t mine (t.account j) j (t.previous j) (w.links j lt);
              last = λ account. elim (Bool-cases (str_eq mine account)) [
                | inl same ↦
                    let e : mine ≡ account = (eq_iff mine account).0 same in
                    rw same (rw e at all_over)
                | inr other ↦
                    rw other (unlinked t mine account t.count (t.queues account) (w.last account))
              ];
            })
    ]
  where
    unlinked :
        (t : Turns) (mine account : String) (m : ℕ) (previous : Option ℕ)
        → Behind t account m previous
        → Behind (record t { queues = at_account mine none t.queues }) account m previous
    unlinked t mine account m none h = h
    unlinked t mine account m (some p) h = h
