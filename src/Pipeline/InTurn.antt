-- ===== src/Pipeline/InTurn.antt =====
-- core/inbound/inbound-pipeline.ts, handle: the messages of an account are processed one at a time, in their order.
use messaging_gateway.Prelude.{
  ℕ, ◌+◌, ◌≤◌, ◌<◌, String, Option, none, some, true, false, List, [], ◌∷◌, ◌≡◌, refl, ◌∙◌, sym,
  str_eq, eq_iff, ◌==◌, inl, inr, arith, Bool-cases,
}
use messaging_gateway.Messages.{UnifiedEnvelope}
use messaging_gateway.Pipeline.Turns.{
  waiting, processing, tail_resolved, has_begun, Turns, at_number, handle, begins, Turn, handles,
  starts, cleans, settles, turn, run_turns, no_turns,
}
use messaging_gateway.Pipeline.Chain.{
  Over, Behind, InTurn, Over-may_begin, begins-InTurn, ends-InTurn, forgets-InTurn,
}

module _ (mine : String) (e : UnifiedEnvelope) (t : Turns) (w : InTurn t) where
  older : (i : ℕ) → i < t.count → (i == t.count) ≡ false
  older i h = ground (arith, h)

  Over-handle :
      (account : String) (m : ℕ) → m ≤ t.count → Over t account m → Over (handle mine e t) account m
  unfolding handle
  Over-handle account m le h i lt same =
      let o = older i (omega (arith, lt, le)) in rw o (h i lt (rw o at same))

  Behind-handle :
      (account : String) (m : ℕ) (previous : Option ℕ)
      → m ≤ t.count
      → Behind t account m previous
      → Behind (handle mine e t) account m previous
  unfolding handle
  Behind-handle account m none le h = Over-handle account m le h
  Behind-handle account m (some p) le (below, is, most) = (
    below,
    rw (older p (omega (arith, below, le))) is,
    λ i lt same. most i lt (rw (older i (omega (arith, lt, le))) at same),
  )

  earlier :
      (account : String) (i : ℕ)
      → str_eq mine account ≡ false
      → i < t.count + 1
      → at_number t.count mine t.account i ≡ account
      → i < t.count
  earlier account i other lt same = elim (Bool-cases (i == t.count)) [
    | inl it ↦
        let e : mine ≡ account = rw it at same in
        absurd (cc (sym other ∙ (eq_iff mine account).1 e))
    | inr not_it ↦ ground (arith, not_it, lt)
  ]

  -- Another account's last call stays its last.
  Behind-next :
      (account : String) (previous : Option ℕ)
      → str_eq mine account ≡ false
      → Behind t account t.count previous
      → Behind (handle mine e t) account (t.count + 1) previous
  unfolding handle
  Behind-next account none other h = λ i lt same.
      let below = earlier account i other lt same in
      rw (older i below) (h i below (rw (older i below) at same))
  Behind-next account (some p) other (below, is, most) = (
    omega (arith, below),
    rw (older p below) is,
    λ i lt same. let now = earlier account i other lt same in most i now (rw (older i now) at same),
  )

  handle-InTurn : InTurn (handle mine e t)
  unfolding handle
  handle-InTurn = record {
    order = λ j lt b. elim (Bool-cases (j == t.count)) [
      | inl new ↦ absurd (cc (rw new at b))
      | inr old ↦
          let below : j < t.count = ground (arith, old, lt) in
          rw old
            (Over-handle (t.account j) j (omega (arith, below)) (w.order j below (rw old at b)))
    ];
    links = λ j lt. elim (Bool-cases (j == t.count)) [
      | inl new ↦
          let e : j ≡ t.count = ground (arith, new) in
          rw (new, e) (Behind-handle mine t.count (t.queues mine) (omega arith) (w.last mine))
      | inr old ↦
          let below : j < t.count = ground (arith, old, lt) in
          rw old
            (Behind-handle (t.account j) j (t.previous j) (omega (arith, below)) (w.links j below))
    ];
    last = λ account. elim (Bool-cases (str_eq mine account)) [
      | inl same ↦
          let here : (t.count == t.count) ≡ true = ground arith in
          rw same
            (omega arith, rw here ((eq_iff mine account).0 same), λ i lt is. omega (arith, lt))
      | inr other ↦ rw other (Behind-next account (t.queues account) other (w.last account))
    ];
  }

turn-InTurn : (t : Turns) (x : Turn) → InTurn t → InTurn (turn t x)
unfolding turn
turn-InTurn t (handles account e) w = handle-InTurn account e t w
turn-InTurn t (starts n) w = begins-InTurn n t w
turn-InTurn t (settles n ok) w = ends-InTurn n ok t w
turn-InTurn t (cleans n) w = forgets-InTurn n t w

run-from : (xs : List Turn) (t : Turns) → InTurn t → InTurn (run_turns t xs)
unfolding run_turns
run-from [] t w = w
run-from (x ∷ xs) t w = run-from xs (turn t x) (turn-InTurn t x w)

run-InTurn : (nothing : UnifiedEnvelope) (xs : List Turn) → InTurn (run_turns (no_turns nothing) xs)
run-InTurn nothing xs = run-from xs (no_turns nothing) (record {
  order = λ j lt b. absurd (omega (arith, lt));
  links = λ j lt. absurd (omega (arith, lt));
  last = λ account i lt same. absurd (omega (arith, lt));
})

-- Messages of an account are processed one at a time and in the order of the calls of handle: once the processing
-- of one has begun, that of every message of its account that was handed over before it has ended, well or not,
-- whatever calls come for this account and for the others, and whenever the entries of the queues go.
pub run_turns-in_order :
    (nothing : UnifiedEnvelope) (xs : List Turn) (i j : ℕ)
    → i < j
    → j < (run_turns (no_turns nothing) xs).count
    → (run_turns (no_turns nothing) xs).account i ≡ (run_turns (no_turns nothing) xs).account j
    → has_begun ((run_turns (no_turns nothing) xs).stage j) ≡ true
    → tail_resolved ((run_turns (no_turns nothing) xs).stage i) ≡ true
run_turns-in_order nothing xs i j lt le same b = (run-InTurn nothing xs).order j le b i lt same

-- Nothing but the earlier messages of its account holds a message back: if it waits, and the processing of all
-- those of its account that were handed over before it has ended, well or not, then its own can begin.
pub starts_lem :
    (nothing : UnifiedEnvelope) (xs : List Turn) (j : ℕ)
    → j < (run_turns (no_turns nothing) xs).count
    → (run_turns (no_turns nothing) xs).stage j ≡ waiting
    → Over (run_turns (no_turns nothing) xs) ((run_turns (no_turns nothing) xs).account j) j
    → (turn (run_turns (no_turns nothing) xs) (starts j)).stage j ≡ processing
unfolding turn begins
starts_lem nothing xs j lt is over =
    let t = run_turns (no_turns nothing) xs in
    let free =
      Over-may_begin t (t.account j) j (t.previous j) ((run-InTurn nothing xs).links j lt) over in
    let here : (j == j) ≡ true = ground arith in rw (here, is, free) refl
