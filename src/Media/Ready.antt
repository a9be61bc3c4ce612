-- ===== src/Media/Ready.antt =====
-- core/inbound/media-service.ts, markSkipped and run: a stored media is never turned into a skipped one.
use messaging_gateway.Prelude.{
  ℕ, ◌+◌, String, some, true, false, List, [], ◌∷◌, ◌≡◌, refl, inl, inr, str_eq, is_some, ltb, leb,
  eq_iff, Bool-cases, Option-cases, if-case, ap,
}
use messaging_gateway.Messages.{ready, skipped}
use messaging_gateway.Media.{
  Caller, within, last, unrestored, Stage, queued, downloading, writing, recording, pausing,
  looking, skipping, Service, Stored, missing, present, Limits, stage_of, at_stage, update_media,
  acquire, hand_over, end_run, attempt_failed, marked, mark_failed, is_ready, Answer, given,
  nothing, over_size, fails, lost, answer_to, woken, begin_run, Event, begins, answers, wakes, step,
  run, idle,
}
use messaging_gateway.Media.Skips.{skips, Good, step-Good}

-- The steps that leave the messages alone.
hand_over-statuses :
    (waiting : List String) (s : Service) → (hand_over waiting s).statuses ≡ s.statuses
hand_over-statuses [] s = refl
hand_over-statuses (next ∷ rest) s = refl

acquire-statuses :
    (limits : Limits) (id : String) (n : ℕ) (s : Service)
    → (acquire limits id n s).statuses ≡ s.statuses
unfolding acquire
acquire-statuses limits id n s =
    if-case (λ (t : Service). t.statuses ≡ s.statuses) (ltb s.active limits.concurrency)
      (λ free. refl) (λ full. refl)

failed-statuses :
    (limits : Limits) (id : String) (n : ℕ) (s : Service)
    → (attempt_failed limits id n s).statuses ≡ s.statuses
unfolding attempt_failed
failed-statuses limits id n s =
    if-case (λ (t : Service). t.statuses ≡ s.statuses) (leb limits.retries n) (λ over. refl)
      (λ again. hand_over-statuses s.waiting (at_stage id (pausing n) s))

marked-statuses :
    (caller : Caller) (id : String) (s : Service) → (marked caller id s).statuses ≡ s.statuses
marked-statuses within id s = hand_over-statuses s.waiting (end_run id s)
marked-statuses last id s = hand_over-statuses s.waiting (end_run id s)
marked-statuses unrestored id s = refl

mark_failed-statuses :
    (limits : Limits) (caller : Caller) (id : String) (n : ℕ) (s : Service)
    → (mark_failed limits caller id n s).statuses ≡ s.statuses
mark_failed-statuses limits within id n s = failed-statuses limits id n s
mark_failed-statuses limits last id n s = marked-statuses last id s
mark_failed-statuses limits unrestored id n s = marked-statuses unrestored id s

-- A stored media stays ready from one state to the next.
abbrev StaysReady : String → Service → Service → Type 0
StaysReady x s t = is_ready (s.statuses x) ≡ true → is_ready (t.statuses x) ≡ true

same-StaysReady : (x : String) (s t : Service) → t.statuses ≡ s.statuses → StaysReady x s t
same-StaysReady x s t e r = rw e r

ready_after :
    (stored : Stored)
    → is_ready stored ≡ true
    → is_ready (elim stored [ missing ↦ missing | present old ↦ present (some ready) ]) ≡ true
ready_after missing r = r
ready_after (present old) r = refl

ready-stays : (x id : String) (s : Service) → StaysReady x s (update_media id ready s)
ready-stays x id s r = elim (Bool-cases (str_eq id x)) [
  | inl same ↦ rw same (ready_after (s.statuses x) r)
  | inr differs ↦ rw differs r
]

skipped-stays :
    (x id : String) (s : Service)
    → is_ready (s.statuses id) ≡ false
    → StaysReady x s (update_media id skipped s)
skipped-stays x id s h r = elim (Bool-cases (str_eq id x)) [
  | inl same ↦ absurd (cc (r, rw ((eq_iff id x).0 same) at h))
  | inr differs ↦ rw differs r
]

answer-stays :
    (x : String) (limits : Limits) (id : String) (stage : Stage) (a : Answer) (s : Service)
    → stage_of id s.jobs ≡ some stage
    → Good s
    → StaysReady x s (answer_to limits id stage a s)
answer-stays x limits id (downloading n) given s e g = λ r. r
answer-stays x limits id (downloading n) nothing s e g = λ r. r
answer-stays x limits id (downloading n) over_size s e g = λ r. r
answer-stays x limits id (downloading n) fails s e g =
    same-StaysReady x s (attempt_failed limits id n s) (failed-statuses limits id n s)
answer-stays x limits id (downloading n) lost s e g =
    same-StaysReady x s (attempt_failed limits id n s) (failed-statuses limits id n s)
answer-stays x limits id (writing n) given s e g = λ r. r
answer-stays x limits id (writing n) nothing s e g =
    same-StaysReady x s (attempt_failed limits id n s) (failed-statuses limits id n s)
answer-stays x limits id (writing n) over_size s e g =
    same-StaysReady x s (attempt_failed limits id n s) (failed-statuses limits id n s)
answer-stays x limits id (writing n) fails s e g =
    same-StaysReady x s (attempt_failed limits id n s) (failed-statuses limits id n s)
answer-stays x limits id (writing n) lost s e g =
    same-StaysReady x s (attempt_failed limits id n s) (failed-statuses limits id n s)
answer-stays x limits id (recording n) given s e g = λ r.
    rw (hand_over-statuses s.waiting (end_run id (update_media id ready s))) (ready-stays x id s r)
answer-stays x limits id (recording n) lost s e g =
    λ r. rw (failed-statuses limits id n (update_media id ready s)) (ready-stays x id s r)
answer-stays x limits id (recording n) nothing s e g =
    same-StaysReady x s (attempt_failed limits id n s) (failed-statuses limits id n s)
answer-stays x limits id (recording n) over_size s e g =
    same-StaysReady x s (attempt_failed limits id n s) (failed-statuses limits id n s)
answer-stays x limits id (recording n) fails s e g =
    same-StaysReady x s (attempt_failed limits id n s) (failed-statuses limits id n s)
answer-stays x limits id (looking reason caller n) given s e g =
    if-case (StaysReady x s) (is_ready (s.statuses id))
      (λ there. same-StaysReady x s (marked caller id s) (marked-statuses caller id s))
      (λ not_there. λ r. r)
answer-stays x limits id (looking reason caller n) nothing s e g =
    same-StaysReady x s (mark_failed limits caller id n s)
      (mark_failed-statuses limits caller id n s)
answer-stays x limits id (looking reason caller n) over_size s e g =
    same-StaysReady x s (mark_failed limits caller id n s)
      (mark_failed-statuses limits caller id n s)
answer-stays x limits id (looking reason caller n) fails s e g =
    same-StaysReady x s (mark_failed limits caller id n s)
      (mark_failed-statuses limits caller id n s)
answer-stays x limits id (looking reason caller n) lost s e g =
    same-StaysReady x s (mark_failed limits caller id n s)
      (mark_failed-statuses limits caller id n s)
answer-stays x limits id (skipping reason caller n) given s e g = λ r.
    rw (marked-statuses caller id (update_media id skipped s))
      (skipped-stays x id s (g.safe id (ap skips e)) r)
answer-stays x limits id (skipping reason caller n) lost s e g = λ r.
    rw (mark_failed-statuses limits caller id n (update_media id skipped s))
      (skipped-stays x id s (g.safe id (ap skips e)) r)
answer-stays x limits id (skipping reason caller n) nothing s e g =
    same-StaysReady x s (mark_failed limits caller id n s)
      (mark_failed-statuses limits caller id n s)
answer-stays x limits id (skipping reason caller n) over_size s e g =
    same-StaysReady x s (mark_failed limits caller id n s)
      (mark_failed-statuses limits caller id n s)
answer-stays x limits id (skipping reason caller n) fails s e g =
    same-StaysReady x s (mark_failed limits caller id n s)
      (mark_failed-statuses limits caller id n s)
answer-stays x limits id (queued n) a s e g = λ r. r
answer-stays x limits id (pausing n) a s e g = λ r. r

woken-stays :
    (x : String) (limits : Limits) (id : String) (stage : Stage) (s : Service)
    → StaysReady x s (woken limits id stage s)
woken-stays x limits id (pausing n) s =
    same-StaysReady x s (acquire limits id (n + 1) s) (acquire-statuses limits id (n + 1) s)
woken-stays x limits id _ s = λ r. r

step-stays :
    (x : String) (limits : Limits) (s : Service) (e : Event)
    → Good s
    → StaysReady x s (step limits s e)
unfolding step begin_run
step-stays x limits s (begins id restored) g =
    if-case (StaysReady x s) (is_some (stage_of id s.jobs)) (λ there. λ r. r)
      (λ new.
        if-case (StaysReady x s) restored
          (λ raw. same-StaysReady x s (acquire limits id 0 s) (acquire-statuses limits id 0 s))
          (λ broken. λ r. r))
step-stays x limits s (answers id a) g = elim (Option-cases (stage_of id s.jobs)) [
  | inl idle_ ↦ rw idle_ (λ r. r)
  | inr (stage, e) ↦ rw e (answer-stays x limits id stage a s e g)
]
step-stays x limits s (wakes id) g = elim (Option-cases (stage_of id s.jobs)) [
  | inl idle_ ↦ rw idle_ (λ r. r)
  | inr (stage, e) ↦ rw e (woken-stays x limits id stage s)
]

run-stays :
    (x : String) (limits : Limits) (es : List Event) (s : Service)
    → Good s
    → StaysReady x s (run limits s es)
unfolding run
run-stays x limits [] s g = λ r. r
run-stays x limits (e ∷ es) s g = λ r.
    run-stays x limits es (step limits s e) (step-Good limits s e g) (step-stays x limits s e g r)

run-Good : (limits : Limits) (es : List Event) (s : Service) → Good s → Good (run limits s es)
unfolding run
run-Good limits [] s g = g
run-Good limits (e ∷ es) s g = run-Good limits es (step limits s e) (step-Good limits s e g)

idle-Good : (statuses : String → Stored) → Good (idle statuses)
unfolding stage_of
idle-Good statuses = record { safe = λ id e. absurd (cc e); unique = tt }

-- Once the media of a message is ready it stays so, whatever happens to the downloads that run at the same
-- time: downloads, writes and answers of the message log that fail in any order, even a write that was done
-- and whose answer was lost, retries, raws that are not restored and the same media given twice. The service
-- starts idle.
pub ready_kept :
    (limits : Limits) (statuses : String → Stored) (before more : List Event) (id : String)
    → is_ready ((run limits (idle statuses) before).statuses id) ≡ true
    → is_ready ((run limits (run limits (idle statuses) before) more).statuses id) ≡ true
ready_kept limits statuses before more id r =
    run-stays id limits more (run limits (idle statuses) before)
      (run-Good limits before (idle statuses) (idle-Good statuses)) r
