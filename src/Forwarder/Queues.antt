-- ===== src/Forwarder/Queues.antt =====
-- connections/webhooks/webhook-forwarder.ts, enqueue and deliverAll: no delivery is forgotten.
use messaging_gateway.Prelude.{
  ℕ, ◌+◌, ◌≤◌, Bool, List, [], ◌∷◌, ◌++◌, ◌≡◌, refl, leb, length, filter, arith, if-case, ◌∙◌, ap,
  length-append, filter-append,
}
use messaging_gateway.Forwarder.{
  Delivery, Destination, idle, posting, Queue, new_queue, webhook_queue_capacity, drop_oldest, add,
  enqueue, next_of, settle, end_post, Event, enqueued, post_ended, step, run,
}

abbrev pub waiting : Destination → List Delivery
waiting idle = []
waiting (posting now pending) = pending

abbrev pub in_flight : Destination → List Delivery
in_flight idle = []
in_flight (posting now pending) = now ∷ pending

abbrev pub Bounded : Queue → Type 0
Bounded q = length (waiting q.destination) ≤ webhook_queue_capacity

drop_oldest-Bounded :
    (q : Queue) (now : Delivery) (pending : List Delivery) (d : Delivery)
    → length pending ≤ webhook_queue_capacity
    → Bounded (drop_oldest q now pending d)
drop_oldest-Bounded q now [] d h = ground arith
drop_oldest-Bounded q now (oldest ∷ rest) d h = omega (arith, length-append rest (d ∷ []))

add-Bounded :
    (q : Queue) (t : Destination) (d : Delivery)
    → length (waiting t) ≤ webhook_queue_capacity
    → Bounded (add q t d)
add-Bounded q idle d h = ground arith
add-Bounded q (posting now pending) d h =
    if-case Bounded (leb webhook_queue_capacity (length pending))
      (λ full. drop_oldest-Bounded q now pending d h)
      (λ free. ground (arith, length-append pending (d ∷ [])))

next_of-waiting : (pending : List Delivery) → length (waiting (next_of pending)) ≤ length pending
next_of-waiting [] = omega arith
next_of-waiting (d ∷ pending) = omega arith

settle-Bounded :
    (q : Queue) (t : Destination) (ok : Bool)
    → q.destination ≡ t
    → Bounded q
    → Bounded (settle q t ok)
settle-Bounded q idle ok e h = h
settle-Bounded q (posting now pending) ok e h = omega (arith, next_of-waiting pending, rw e at h)

step-Bounded : (q : Queue) (e : Event) → Bounded q → Bounded (step q e)
unfolding step enqueue end_post
step-Bounded q (enqueued d) h = add-Bounded q q.destination d h
step-Bounded q (post_ended ok) h = settle-Bounded q q.destination ok refl h

run-from-Bounded : (es : List Event) (q : Queue) → Bounded q → Bounded (run q es)
unfolding run
run-from-Bounded [] q h = h
run-from-Bounded (e ∷ es) q h = run-from-Bounded es (step q e) (step-Bounded q e h)

-- However slow a destination is and whatever is sent to it, no more deliveries wait for it than the capacity.
pub run-Bounded : (es : List Event) → Bounded (run new_queue es)
run-Bounded es = run-from-Bounded es new_queue (ground arith)

abbrev pub count : (Delivery → Bool) → List Delivery → ℕ
count p ds = length (filter p ds)

count-append :
    (p : Delivery → Bool) (a b : List Delivery) → count p (a ++ b) ≡ count p a + count p b
count-append p a b = ap length (filter-append p a b) ∙ length-append (filter p a) (filter p b)

abbrev pub delivery_of : Delivery × Bool → Delivery
delivery_of (d, delivered) = d

abbrev posted_of : List (Delivery × Bool) → List Delivery
posted_of [] = []
posted_of ((d, delivered) ∷ posted) = d ∷ posted_of posted

posted_of-append : (a b : List (Delivery × Bool)) → posted_of (a ++ b) ≡ posted_of a ++ posted_of b
posted_of-append [] b = refl
posted_of-append ((d, delivered) ∷ a) b = ap (◌∷◌ d) (posted_of-append a b)

-- The deliveries that the queue has taken: posted, dropped, being posted or waiting.
abbrev pub accounted : (Delivery → Bool) → Queue → ℕ
accounted p q = count p (posted_of q.posted) + count p q.dropped + count p (in_flight q.destination)

abbrev pub sent : List Event → List Delivery
sent [] = []
sent (enqueued d ∷ es) = d ∷ sent es
sent (post_ended delivered ∷ es) = sent es

count_cons :
    (p : Delivery → Bool) (d : Delivery) (ds : List Delivery)
    → count p (d ∷ ds) ≡ count p (d ∷ []) + count p ds
count_cons p d ds = count-append p (d ∷ []) ds

module _ (p : Delivery → Bool) where
  drop_oldest-accounted :
      (q : Queue) (now : Delivery) (pending : List Delivery) (d : Delivery)
      → accounted p (drop_oldest q now pending d)
        ≡ count p (posted_of q.posted)
          + count p q.dropped
          + count p (now ∷ pending)
          + count p (d ∷ [])
  drop_oldest-accounted q now [] d = omega (arith, count_cons p now (d ∷ []))
  drop_oldest-accounted q now (oldest ∷ rest) d = omega (
    arith,
    count-append p q.dropped (oldest ∷ []),
    count_cons p now (rest ++ d ∷ []),
    count-append p rest (d ∷ []),
    count_cons p now (oldest ∷ rest),
    count_cons p oldest rest,
  )

  add-accounted :
      (q : Queue) (t : Destination) (d : Delivery)
      → accounted p (add q t d)
        ≡ count p (posted_of q.posted)
          + count p q.dropped
          + count p (in_flight t)
          + count p (d ∷ [])
  add-accounted q idle d = omega arith
  add-accounted q (posting now pending) d =
      if-case
        (λ (r : Queue).
          accounted p r
          ≡ count p (posted_of q.posted)
            + count p q.dropped
            + count p (now ∷ pending)
            + count p (d ∷ []))
        (leb webhook_queue_capacity (length pending))
        (λ full. drop_oldest-accounted q now pending d)
        (λ free. omega (
          arith,
          count_cons p now (pending ++ d ∷ []),
          count-append p pending (d ∷ []),
          count_cons p now pending,
        ))

  next_of-accounted :
      (pending : List Delivery) → count p (in_flight (next_of pending)) ≡ count p pending
  next_of-accounted [] = refl
  next_of-accounted (d ∷ pending) = refl

  settle-accounted :
      (q : Queue) (t : Destination) (ok : Bool)
      → q.destination ≡ t
      → accounted p (settle q t ok)
        ≡ count p (posted_of q.posted) + count p q.dropped + count p (in_flight t)
  settle-accounted q idle ok e = rw e refl
  settle-accounted q (posting now pending) ok e = omega (
    arith,
    ap (count p) (posted_of-append q.posted ((now, ok) ∷ [])),
    count-append p (posted_of q.posted) (now ∷ []),
    next_of-accounted pending,
    count_cons p now pending,
  )

  step-accounted :
      (q : Queue) (e : Event) → accounted p (step q e) ≡ accounted p q + count p (sent (e ∷ []))
  unfolding step enqueue end_post
  step-accounted q (enqueued d) = add-accounted q q.destination d
  step-accounted q (post_ended ok) = omega (arith, settle-accounted q q.destination ok refl)

  run-from-accounted :
      (es : List Event) (q : Queue) → accounted p (run q es) ≡ accounted p q + count p (sent es)
  unfolding run
  run-from-accounted [] q = omega arith
  run-from-accounted (enqueued d ∷ es) q = omega (
    arith,
    run-from-accounted es (step q (enqueued d)),
    step-accounted q (enqueued d),
    count_cons p d (sent es),
  )
  run-from-accounted (post_ended ok ∷ es) q =
      omega
        (arith, run-from-accounted es (step q (post_ended ok)), step-accounted q (post_ended ok))

  -- In every run each delivery sent to a destination is accounted for exactly once: it was posted, or
  -- dropped from a full queue, or is being posted or waiting. This holds of the deliveries of any kind `p`.
  pub accounted-run : (es : List Event) → accounted p (run new_queue es) ≡ count p (sent es)
  accounted-run es = omega (arith, run-from-accounted es new_queue)
