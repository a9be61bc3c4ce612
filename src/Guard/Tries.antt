-- ===== src/Guard/Tries.antt =====
-- core/inbound/store-guard.ts, insert: how often the store is asked to take a message, counted over every run.
use messaging_gateway.Prelude.{
  ℕ, zero, suc, ◌+◌, ◌-◌, ◌≤◌, String, Option, none, some, Bool, true, false, List, [], ◌∷◌, ◌++◌,
  ◌≡◌, refl, inl, inr, arith, get_elem?, set, Option-cases, Bool-cases, if-elim, length, All,
  All-get_elem?, ◌==◌, if◌then◌else◌, sym,
}
use messaging_gateway.Guard.{
  permanent, range, other, Guard, Stage, calling, waiting, calling_once, confirming, stored,
  rejected, Flight, Answer, resolves, rejects, System, end_attempt, end_once, begin_attempt, Event,
  submit, submit_once, answer, wake, confirmed, probe_timer, probe_answer, recovered, shut_down,
  on_answer, on_wake, on_confirmed, step, start, at,
}
use messaging_gateway.Guard.Attempts.{
  Allowed, AllAllowed, NotLive, step-Allowed, get_elem?-below, end_once-NotLive,
}

abbrev pub is_live_call : Stage → Bool
is_live_call (calling n) = true
is_live_call _ = false

-- The live call of the store that the message makes at this moment, if it makes one.
abbrev pub calls_now : Option Flight → ℕ
calls_now none = 0
calls_now (some f) = if is_live_call f.stage then 1 else 0

-- The calls of the store for the message that this event answers.
abbrev pub answered : System → Event → ℕ → ℕ
answered s (answer j a) i = if j == i then calls_now (get_elem? s.flights j) else 0
answered s _ i = 0

-- The calls of the store for a live message: those that were answered, and the one that is not yet.
unfoldable pub attempts_of : List ℕ → System → List Event → ℕ → ℕ
attempts_of delays s [] i = calls_now (get_elem? s.flights i)
attempts_of delays s (e ∷ es) i = answered s e i + attempts_of delays (step delays s e) es i

set-same :
    (fs : List Flight) (j : ℕ) (f v : Flight)
    → get_elem? fs j ≡ some f
    → get_elem? (set fs j v) j ≡ some v
set-same [] j f v e = cc
set-same (g ∷ fs) zero f v e = refl
set-same (g ∷ fs) (suc j) f v e = set-same fs j f v e

set_other :
    (fs : List Flight) (i j : ℕ) (v : Flight)
    → (j == i) ≡ false
    → get_elem? (set fs j v) i ≡ get_elem? fs i
set_other [] i j v h = refl
set_other (g ∷ fs) zero zero v h = absurd (ground (arith, h))
set_other (g ∷ fs) zero (suc j) v h = refl
set_other (g ∷ fs) (suc i) zero v h = refl
set_other (g ∷ fs) (suc i) (suc j) v h = set_other fs i j v (ground (arith, h))

append-there :
    (fs gs : List Flight) (i : ℕ) (f : Flight)
    → get_elem? fs i ≡ some f
    → get_elem? (fs ++ gs) i ≡ some f
append-there [] gs i f e = cc
append-there (g ∷ fs) gs zero f e = e
append-there (g ∷ fs) gs (suc i) f e = append-there fs gs i f e

unmoved : (b : Bool) (m n : ℕ) → (if b then 0 else 0) + m ≤ n → m ≤ n
unmoved true m n h = omega (arith, h)
unmoved false m n h = omega (arith, h)

no_more : (m n : ℕ) → m ≤ n → 0 + m ≤ n
no_more m n h = omega (arith, h)

abbrev listed : Option Flight → List Flight
listed none = []
listed (some f) = f ∷ []

same_left : (b : Bool) (n : ℕ) → (if b then 0 else 0) + n ≤ n
same_left true n = omega arith
same_left false n = omega arith

module _ (delays : List ℕ) where
  -- The calls that a message in this stage may still make.
  abbrev left_of : Stage → ℕ
  left_of (calling n) = length delays + 1 - n
  left_of (waiting n) = length delays + 1 - n
  left_of _ = 0

  abbrev left : Option Flight → ℕ
  left none = length delays + 1
  left (some f) = left_of f.stage

  left_le : (f : Option Flight) → left f ≤ length delays + 1
  left_le none = omega arith
  left_le (some f) = go f.stage
    where
      go : (t : Stage) → left_of t ≤ length delays + 1
      go (calling n) = omega arith
      go (waiting n) = omega arith
      go calling_once = omega arith
      go (confirming e) = omega arith
      go (stored r) = omega arith
      go (rejected e) = omega arith

  left-NotLive : (t : Stage) → NotLive t → left_of t ≡ 0
  left-NotLive (calling n) h = absurd h
  left-NotLive (waiting n) h = absurd h
  left-NotLive calling_once h = refl
  left-NotLive (confirming e) h = refl
  left-NotLive (stored r) h = refl
  left-NotLive (rejected e) h = refl

  end_attempt-left :
      (g : Guard) (id : String) (n : ℕ) (a : Answer)
      → n ≤ length delays
      → 1 + left_of (end_attempt delays g id n a).1 ≤ length delays + 1 - n
  unfolding end_attempt
  end_attempt-left g id n (resolves r) h = omega (arith, h)
  end_attempt-left g id n (rejects (permanent m)) h = omega (arith, h)
  end_attempt-left g id n (rejects (range m)) h = omega (arith, h)
  end_attempt-left g id n (rejects (other m)) h = elim (Option-cases (get_elem? delays n)) [
    | inl last ↦ rw last (omega (arith, h))
    | inr (d, more) ↦ rw more (
        if-elim (λ (r : Guard × Stage). 1 + left_of r.1 ≤ length delays + 1 - n) g.stopped
          (omega (arith, h)) (omega (arith, h, get_elem?-below delays n more)))
  ]

  begin_attempt-left : (g : Guard) (n : ℕ) → left_of (begin_attempt g n) ≤ length delays + 1 - n
  unfolding begin_attempt
  begin_attempt-left g n = elim (Option-cases g.diversion) [
    | inl none_ ↦ rw (begin_attempt, none_) (omega arith)
    | inr (d, e) ↦ rw (begin_attempt, e) (omega arith)
  ]

  -- A flight that lands in another stage.
  lands :
      (fs : List Flight) (i j c : ℕ) (f v : Flight)
      → get_elem? fs j ≡ some f
      → c + left_of v.stage ≤ left_of f.stage
      → (if j == i then c else 0) + left (get_elem? (set fs j v) i) ≤ left (get_elem? fs i)
  lands fs i j c f v e h = elim (Bool-cases (j == i)) [
    | inl same ↦
        let it : j ≡ i = ground (arith, same) in
        let after : get_elem? (set fs j v) i ≡ some v = rw (sym it) (set-same fs j f v e) in
        let before : get_elem? fs i ≡ some f = rw (sym it) e in rw (same, after, before) h
    | inr differs ↦ rw (differs, set_other fs i j v differs) (omega arith)
  ]

  lands_quietly :
      (fs : List Flight) (i j : ℕ) (f v : Flight)
      → get_elem? fs j ≡ some f
      → left_of v.stage ≤ left_of f.stage
      → left (get_elem? (set fs j v) i) ≤ left (get_elem? fs i)
  lands_quietly fs i j f v e h =
      unmoved (j == i) _ _ (lands fs i j 0 f v e (no_more (left_of v.stage) (left_of f.stage) h))

  answer_lands :
      (s : System) (i j : ℕ) (a : Answer) (f : Flight) (t : Stage)
      → get_elem? s.flights j ≡ some f
      → f.stage ≡ t
      → Allowed delays t
      → (if j == i then (if is_live_call t then 1 else 0) else 0)
          + left (get_elem? (on_answer delays s j a f.envelope_id t).flights i)
        ≤ left (get_elem? s.flights i)
  unfolding on_answer
  answer_lands s i j a f (calling n) e is h =
      lands s.flights i j 1 f _ e (rw is (end_attempt-left s.guard f.envelope_id n a h))
  answer_lands s i j a f calling_once e is h =
      lands s.flights i j 0 f _ e
        (rw (is, left-NotLive (end_once a) (end_once-NotLive a)) (omega arith))
  answer_lands s i j a f (waiting n) e is h = same_left (j == i) _
  answer_lands s i j a f (confirming x) e is h = same_left (j == i) _
  answer_lands s i j a f (stored r) e is h = same_left (j == i) _
  answer_lands s i j a f (rejected x) e is h = same_left (j == i) _

  wake_lands :
      (s : System) (i j : ℕ) (f : Flight) (t : Stage)
      → get_elem? s.flights j ≡ some f
      → f.stage ≡ t
      → left (get_elem? (on_wake s j f.envelope_id t).flights i) ≤ left (get_elem? s.flights i)
  unfolding on_wake
  wake_lands s i j f (waiting n) e is =
      lands_quietly s.flights i j f _ e (rw is (begin_attempt-left s.guard n))
  wake_lands s i j f (calling n) e is = omega arith
  wake_lands s i j f calling_once e is = omega arith
  wake_lands s i j f (confirming x) e is = omega arith
  wake_lands s i j f (stored r) e is = omega arith
  wake_lands s i j f (rejected x) e is = omega arith

  confirmed_lands :
      (s : System) (i j : ℕ) (wrote : Bool) (f : Flight) (t : Stage)
      → get_elem? s.flights j ≡ some f
      → f.stage ≡ t
      → left (get_elem? (on_confirmed s j wrote f.envelope_id t).flights i)
        ≤ left (get_elem? s.flights i)
  unfolding on_confirmed
  confirmed_lands s i j wrote f (confirming x) e is =
      let h = lands s.flights i j 0 f _ e (rw is (omega arith)) in unmoved (j == i) _ _ h
  confirmed_lands s i j wrote f (calling n) e is = omega arith
  confirmed_lands s i j wrote f (waiting n) e is = omega arith
  confirmed_lands s i j wrote f calling_once e is = omega arith
  confirmed_lands s i j wrote f (stored r) e is = omega arith
  confirmed_lands s i j wrote f (rejected x) e is = omega arith

  append-left :
      (fs gs : List Flight) (i : ℕ) → left (get_elem? (fs ++ gs) i) ≤ left (get_elem? fs i)
  append-left fs gs i = elim (Option-cases (get_elem? fs i)) [
    | inl none_ ↦ rw none_ (left_le (get_elem? (fs ++ gs) i))
    | inr (f, e) ↦ rw (e, append-there fs gs i f e) (omega arith)
  ]

  -- An answered call is one that the message may make no more.
  step-left :
      (s : System) (e : Event) (i : ℕ)
      → AllAllowed delays s
      → answered s e i + left (get_elem? (step delays s e).flights i) ≤ left (get_elem? s.flights i)
  unfolding step
  step-left s (submit id) i h = no_more _ _ (append-left s.flights _ i)
  step-left s (submit_once id) i h = no_more _ _ (append-left s.flights _ i)
  step-left s (answer j a) i h = elim (Option-cases (get_elem? s.flights j)) [
    | inl none_ ↦ rw (at, none_) (same_left (j == i) _)
    | inr (f, e) ↦
        rw (at, e)
          (answer_lands s i j a f f.stage e refl
            (All-get_elem? (λ f. Allowed delays f.stage) s.flights j h e))
  ]
  step-left s (wake j) i h = elim (Option-cases (get_elem? s.flights j)) [
    | inl none_ ↦ rw (at, none_) (omega arith)
    | inr (f, e) ↦ rw (at, e) (no_more _ _ (wake_lands s i j f f.stage e refl))
  ]
  step-left s (confirmed j wrote) i h = elim (Option-cases (get_elem? s.flights j)) [
    | inl none_ ↦ rw (at, none_) (omega arith)
    | inr (f, e) ↦ rw (at, e) (no_more _ _ (confirmed_lands s i j wrote f f.stage e refl))
  ]
  step-left s probe_timer i h = omega arith
  step-left s (probe_answer wrote) i h = omega arith
  step-left s recovered i h = omega arith
  step-left s shut_down i h = omega arith

  calls_now_le :
      (f : Option Flight) → All (λ g. Allowed delays g.stage) (listed f) → calls_now f ≤ left f
  calls_now_le none h = omega arith
  calls_now_le (some f) (h, _) = go f.stage h
    where
      go : (t : Stage) → Allowed delays t → (if is_live_call t then 1 else 0) ≤ left_of t
      go (calling n) h = omega (arith, h)
      go (waiting n) h = omega arith
      go calling_once h = omega arith
      go (confirming e) h = omega arith
      go (stored r) h = omega arith
      go (rejected e) h = omega arith

  from-left :
      (es : List Event) (s : System) (i : ℕ)
      → AllAllowed delays s
      → attempts_of delays s es i ≤ left (get_elem? s.flights i)
  unfolding attempts_of
  from-left [] s i h = elim (Option-cases (get_elem? s.flights i)) [
    | inl none_ ↦ rw none_ (omega arith)
    | inr (f, e) ↦
        rw e
          (calls_now_le (some f) (All-get_elem? (λ f. Allowed delays f.stage) s.flights i h e, tt))
  ]
  from-left (e ∷ es) s i h =
      let ih = from-left es (step delays s e) i (step-Allowed delays s e h) in
      omega (arith, ih, step-left s e i h)

  -- In every run the store is asked at most once more than there are delays to take a live message, whatever it
  -- answers, whenever the timers fire and however often the circuit opens and closes meanwhile.
  pub attempts_of_le : (es : List Event) (i : ℕ) → attempts_of delays start es i ≤ length delays + 1
  attempts_of_le es i = from-left es start i tt
