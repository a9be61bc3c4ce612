-- ===== src/Media/Handover.antt =====
-- core/inbound/media-service.ts, acquire and release: how a slot is taken, passed on and given back.
use messaging_gateway.Prelude.{
  ℕ, ◌+◌, ◌≤◌, ◌<◌, String, Option, some, List, [], ◌∷◌, ◌≡◌, refl, ltb, arith, if-case, ap, length,
  length-append,
}
use messaging_gateway.Media.{
  Stage, queued, downloading, Service, Limits, stage_of, put, at_stage, acquire, resolve, hand_over,
  end_run,
}
use messaging_gateway.Media.Jobs.{stage_of-put}
use messaging_gateway.Media.Counts.{
  holds, waits, weight, count, count-put, count-without, Queue, NoRepeat, not_waiting, put-Queue,
  without-Queue, join-NoRepeat, join-Queue,
}

-- The slots that are taken, `spare` of them by no job: at most `concurrency`, and all of them while a job waits.
-- The waiters are the queued jobs, each once.
pub record Sound (limits : Limits) (spare : ℕ) (s : Service) : Type 0 where
  pub slots : count holds s.jobs + spare ≡ s.active
  pub bounded : s.active ≤ limits.concurrency
  pub queue : Queue s.jobs s.waiting
  pub once : NoRepeat s.waiting
  pub counted : count waits s.jobs ≡ length s.waiting
  pub busy : 0 < length s.waiting → s.active ≡ limits.concurrency

-- A job goes on to another stage, in which it does not wait.
pub Sound-put :
    (limits : Limits) (a b : ℕ) (id : String) (stage : Stage) (s : Service)
    → weight waits (stage_of id s.jobs) ≡ 0
    → waits stage ≡ 0
    → holds stage + b ≡ weight holds (stage_of id s.jobs) + a
    → Sound limits a s
    → Sound limits b (at_stage id stage s)
Sound-put limits a b id stage s h k e w =
    let absent = not_waiting id s.jobs s.waiting h w.queue in
    record {
      slots = omega (arith, count-put holds id stage s.jobs, w.slots, e);
      bounded = w.bounded;
      queue = put-Queue id stage s.jobs s.waiting absent w.queue;
      once = w.once;
      counted = omega (arith, count-put waits id stage s.jobs, w.counted, h, k);
      busy = w.busy;
    }

pub Sound-end_run :
    (limits : Limits) (a b : ℕ) (id : String) (s : Service)
    → weight waits (stage_of id s.jobs) ≡ 0
    → b ≡ weight holds (stage_of id s.jobs) + a
    → Sound limits a s
    → Sound limits b (end_run id s)
Sound-end_run limits a b id s h e w =
    let absent = not_waiting id s.jobs s.waiting h w.queue in
    record {
      slots = omega (arith, count-without holds id s.jobs, w.slots, e);
      bounded = w.bounded;
      queue = without-Queue id s.jobs s.waiting absent w.queue;
      once = w.once;
      counted = omega (arith, count-without waits id s.jobs, w.counted, h);
      busy = w.busy;
    }

-- The slot goes to the waiter that has waited longest.
Sound-resolve :
    (limits : Limits) (next : String) (rest : List String) (stage : Option Stage) (s : Service)
    → s.waiting ≡ next ∷ rest
    → stage_of next s.jobs ≡ stage
    → weight waits stage ≡ 1
    → Sound limits 1 s
    → Sound limits 0 (record s { waiting = rest; jobs = resolve next stage s.jobs })
Sound-resolve limits next rest (some (queued n)) s e at one w =
    let (absent, once) = rw e at w.once in
    let (_, queue) = rw e at w.queue in
    let more : 0 < length s.waiting = omega (arith, ap length e) in
    record {
      slots =
          omega (arith, count-put holds next (downloading n) s.jobs, w.slots, ap (weight holds) at);
      bounded = w.bounded;
      queue = put-Queue next (downloading n) s.jobs rest absent queue;
      once = once;
      counted = omega (
        arith,
        count-put waits next (downloading n) s.jobs,
        w.counted,
        ap length e,
        ap (weight waits) at,
      );
      busy = λ h. w.busy more;
    }
Sound-resolve limits next rest _ s e at one w = absurd (omega (arith, one))

pub Sound-release :
    (limits : Limits) (waiting : List String) (s : Service)
    → s.waiting ≡ waiting
    → Sound limits 1 s
    → Sound limits 0 (hand_over waiting s)
Sound-release limits [] s e w = record {
  slots = omega (arith, w.slots);
  bounded = omega (arith, w.bounded);
  queue = w.queue;
  once = w.once;
  counted = w.counted;
  busy = λ h. absurd (omega (arith, h, ap length e));
}
Sound-release limits (next ∷ rest) s e w =
    let (one, _) = rw e at w.queue in
    Sound-resolve limits next rest (stage_of next s.jobs) s e refl one w

pub Sound-acquire :
    (limits : Limits) (id : String) (n : ℕ) (s : Service)
    → weight waits (stage_of id s.jobs) ≡ 0
    → weight holds (stage_of id s.jobs) ≡ 0
    → Sound limits 0 s
    → Sound limits 0 (acquire limits id n s)
unfolding acquire
Sound-acquire limits id n s h k w =
    let absent = not_waiting id s.jobs s.waiting h w.queue in
    if-case (Sound limits 0) (ltb s.active limits.concurrency)
      (λ free.
        let lt : s.active < limits.concurrency = ground (arith, free) in
        record {
          slots = omega (arith, count-put holds id (downloading n) s.jobs, w.slots, k);
          bounded = omega (arith, lt);
          queue = put-Queue id (downloading n) s.jobs s.waiting absent w.queue;
          once = w.once;
          counted = omega (arith, count-put waits id (downloading n) s.jobs, w.counted, h);
          busy = λ some_. absurd (omega (arith, w.busy some_, lt));
        })
      (λ full.
        let all_ : s.active ≡ limits.concurrency = ground (arith, full, w.bounded) in
        record {
          slots = omega (arith, count-put holds id (queued n) s.jobs, w.slots, k);
          bounded = w.bounded;
          queue =
              join-Queue (put id (queued n) s.jobs) id s.waiting
                (put-Queue id (queued n) s.jobs s.waiting absent w.queue)
                (ap (weight waits) (stage_of-put id (queued n) s.jobs));
          once = join-NoRepeat id s.waiting absent w.once;
          counted = omega (
            arith,
            count-put waits id (queued n) s.jobs,
            w.counted,
            h,
            length-append s.waiting (id ∷ []),
          );
          busy = λ some_. all_;
        })
