-- ===== src/Media/Slots.antt =====
-- core/inbound/media-service.ts, acquire and release: the download slots.
use messaging_gateway.Prelude.{
  ℕ, ◌+◌, String, some, List, [], ◌∷◌, ◌≡◌, refl, inl, inr, leb, arith, Option-cases, if-case, ap,
  ◌∙◌, sym,
}
use messaging_gateway.Messages.{MediaStatus, ready, skipped, download_failed}
use messaging_gateway.Media.{
  Caller, within, last, unrestored, Stage, queued, downloading, writing, recording, pausing,
  looking, skipping, Service, Stored, Limits, stage_of, at_stage, update_media, end_run,
  end_attempt, attempt_failed, marked, mark_failed, is_ready, Answer, given, nothing, over_size,
  fails, lost, answer_to, woken, begin_run, Event, begins, answers, wakes, step, run, idle,
}
use messaging_gateway.Media.Counts.{marks, holds, waits, weight}
use messaging_gateway.Media.Handover.{Sound, Sound-put, Sound-end_run, Sound-release, Sound-acquire}

-- One step of the job of a media, which is at a stage that does not wait.
module _ (limits : Limits) (id : String) (stage : Stage) (still : waits stage ≡ 0) where
  Sound-moved :
      (next : Stage) (s : Service)
      → stage_of id s.jobs ≡ some stage
      → waits next ≡ 0
      → holds next ≡ holds stage
      → Sound limits 0 s
      → Sound limits 0 (at_stage id next s)
  Sound-moved next s e k same w =
      Sound-put limits 0 0 id next s (ap (weight waits) e ∙ still) k
        (omega (arith, same, ap (weight holds) e)) w

  Sound-end_attempt :
      (s : Service)
      → stage_of id s.jobs ≡ some stage
      → holds stage ≡ 1
      → Sound limits 0 s
      → Sound limits 0 (end_attempt id s)
  Sound-end_attempt s e one w = Sound-release limits s.waiting (end_run id s) refl (
      Sound-end_run limits 0 1 id s (ap (weight waits) e ∙ still)
        (omega (arith, one, ap (weight holds) e)) w)

  Sound-failed :
      (n : ℕ) (s : Service)
      → stage_of id s.jobs ≡ some stage
      → holds stage ≡ 1
      → Sound limits 0 s
      → Sound limits 0 (attempt_failed limits id n s)
  unfolding attempt_failed
  Sound-failed n s e one w =
      if-case (Sound limits 0) (leb limits.retries n)
        (λ over. Sound-moved (looking download_failed last n) s e refl (sym one) w)
        (λ again. Sound-release limits s.waiting (at_stage id (pausing n) s) refl (
          Sound-put limits 0 1 id (pausing n) s (ap (weight waits) e ∙ still) refl
            (omega (arith, one, ap (weight holds) e)) w))

  Sound-marked :
      (caller : Caller) (s : Service)
      → stage_of id s.jobs ≡ some stage
      → holds stage ≡ marks caller
      → Sound limits 0 s
      → Sound limits 0 (marked caller id s)
  Sound-marked within s e one w = Sound-end_attempt s e one w
  Sound-marked last s e one w = Sound-end_attempt s e one w
  Sound-marked unrestored s e none_ w =
      Sound-end_run limits 0 0 id s (ap (weight waits) e ∙ still)
        (omega (arith, none_, ap (weight holds) e)) w

  Sound-mark_failed :
      (caller : Caller) (n : ℕ) (s : Service)
      → stage_of id s.jobs ≡ some stage
      → holds stage ≡ marks caller
      → Sound limits 0 s
      → Sound limits 0 (mark_failed limits caller id n s)
  Sound-mark_failed within n s e one w = Sound-failed n s e one w
  Sound-mark_failed last n s e one w = Sound-marked last s e one w
  Sound-mark_failed unrestored n s e one w = Sound-marked unrestored s e one w

Sound-update :
    (limits : Limits) (id : String) (status : MediaStatus) (s : Service)
    → Sound limits 0 s
    → Sound limits 0 (update_media id status s)
Sound-update limits id status s w = record {
  slots = w.slots;
  bounded = w.bounded;
  queue = w.queue;
  once = w.once;
  counted = w.counted;
  busy = w.busy;
}

answer-Sound :
    (limits : Limits) (id : String) (stage : Stage) (a : Answer) (s : Service)
    → stage_of id s.jobs ≡ some stage
    → Sound limits 0 s
    → Sound limits 0 (answer_to limits id stage a s)
answer-Sound limits id (downloading n) given s e w =
    Sound-moved limits id (downloading n) refl (writing n) s e refl refl w
answer-Sound limits id (downloading n) nothing s e w =
    Sound-moved limits id (downloading n) refl (looking download_failed within n) s e refl refl w
answer-Sound limits id (downloading n) over_size s e w =
    Sound-moved limits id (downloading n) refl (looking _ within n) s e refl refl w
answer-Sound limits id (downloading n) fails s e w =
    Sound-failed limits id (downloading n) refl n s e refl w
answer-Sound limits id (downloading n) lost s e w =
    Sound-failed limits id (downloading n) refl n s e refl w
answer-Sound limits id (writing n) given s e w =
    Sound-moved limits id (writing n) refl (recording n) s e refl refl w
answer-Sound limits id (writing n) nothing s e w =
    Sound-failed limits id (writing n) refl n s e refl w
answer-Sound limits id (writing n) over_size s e w =
    Sound-failed limits id (writing n) refl n s e refl w
answer-Sound limits id (writing n) fails s e w =
    Sound-failed limits id (writing n) refl n s e refl w
answer-Sound limits id (writing n) lost s e w = Sound-failed limits id (writing n) refl n s e refl w
answer-Sound limits id (recording n) given s e w =
    Sound-end_attempt limits id (recording n) refl (update_media id ready s) e refl
      (Sound-update limits id ready s w)
answer-Sound limits id (recording n) lost s e w =
    Sound-failed limits id (recording n) refl n (update_media id ready s) e refl
      (Sound-update limits id ready s w)
answer-Sound limits id (recording n) nothing s e w =
    Sound-failed limits id (recording n) refl n s e refl w
answer-Sound limits id (recording n) over_size s e w =
    Sound-failed limits id (recording n) refl n s e refl w
answer-Sound limits id (recording n) fails s e w =
    Sound-failed limits id (recording n) refl n s e refl w
answer-Sound limits id (looking reason caller n) given s e w =
    if-case (Sound limits 0) (is_ready (s.statuses id))
      (λ there. Sound-marked limits id (looking reason caller n) refl caller s e refl w)
      (λ not_there.
        Sound-moved limits id (looking reason caller n) refl (skipping reason caller n) s e refl
          refl w)
answer-Sound limits id (looking reason caller n) nothing s e w =
    Sound-mark_failed limits id (looking reason caller n) refl caller n s e refl w
answer-Sound limits id (looking reason caller n) over_size s e w =
    Sound-mark_failed limits id (looking reason caller n) refl caller n s e refl w
answer-Sound limits id (looking reason caller n) fails s e w =
    Sound-mark_failed limits id (looking reason caller n) refl caller n s e refl w
answer-Sound limits id (looking reason caller n) lost s e w =
    Sound-mark_failed limits id (looking reason caller n) refl caller n s e refl w
answer-Sound limits id (skipping reason caller n) given s e w =
    Sound-marked limits id (skipping reason caller n) refl caller (update_media id skipped s) e refl
      (Sound-update limits id skipped s w)
answer-Sound limits id (skipping reason caller n) lost s e w =
    Sound-mark_failed limits id (skipping reason caller n) refl caller n (update_media id skipped s)
      e refl (Sound-update limits id skipped s w)
answer-Sound limits id (skipping reason caller n) nothing s e w =
    Sound-mark_failed limits id (skipping reason caller n) refl caller n s e refl w
answer-Sound limits id (skipping reason caller n) over_size s e w =
    Sound-mark_failed limits id (skipping reason caller n) refl caller n s e refl w
answer-Sound limits id (skipping reason caller n) fails s e w =
    Sound-mark_failed limits id (skipping reason caller n) refl caller n s e refl w
answer-Sound limits id (queued n) a s e w = w
answer-Sound limits id (pausing n) a s e w = w

woken-Sound :
    (limits : Limits) (id : String) (stage : Stage) (s : Service)
    → stage_of id s.jobs ≡ some stage
    → Sound limits 0 s
    → Sound limits 0 (woken limits id stage s)
woken-Sound limits id (pausing n) s e w =
    Sound-acquire limits id (n + 1) s (ap (weight waits) e) (ap (weight holds) e) w
woken-Sound limits id _ s e w = w

step-Sound :
    (limits : Limits) (s : Service) (e : Event)
    → Sound limits 0 s
    → Sound limits 0 (step limits s e)
unfolding step begin_run
step-Sound limits s (begins id restored) w = elim (Option-cases (stage_of id s.jobs)) [
  | inr (stage, there) ↦ rw there w
  | inl new ↦ rw new (
      if-case (Sound limits 0) restored
        (λ raw. Sound-acquire limits id 0 s (ap (weight waits) new) (ap (weight holds) new) w)
        (λ broken.
          Sound-put limits 0 0 id (looking download_failed unrestored 0) s (ap (weight waits) new)
            refl (omega (arith, ap (weight holds) new)) w))
]
step-Sound limits s (answers id a) w = elim (Option-cases (stage_of id s.jobs)) [
  | inl idle_ ↦ rw idle_ w
  | inr (stage, e) ↦ rw e (answer-Sound limits id stage a s e w)
]
step-Sound limits s (wakes id) w = elim (Option-cases (stage_of id s.jobs)) [
  | inl idle_ ↦ rw idle_ w
  | inr (stage, e) ↦ rw e (woken-Sound limits id stage s e w)
]

run-from-Sound :
    (limits : Limits) (es : List Event) (s : Service)
    → Sound limits 0 s
    → Sound limits 0 (run limits s es)
unfolding run
run-from-Sound limits [] s w = w
run-from-Sound limits (e ∷ es) s w =
    run-from-Sound limits es (step limits s e) (step-Sound limits s e w)

-- Whatever media are given and whatever the downloads, the writes and the message log answer, in any order,
-- never more than `concurrency` jobs hold a download slot, a slot is taken exactly if a job holds it, every
-- job that waits for one is in the queue, once, and none waits while a slot is free. The service starts idle.
pub run-Sound :
    (limits : Limits) (statuses : String → Stored) (es : List Event)
    → Sound limits 0 (run limits (idle statuses) es)
run-Sound limits statuses es = run-from-Sound limits es (idle statuses) (record {
  slots = refl;
  bounded = omega arith;
  queue = tt;
  once = tt;
  counted = refl;
  busy = λ h. absurd (omega (arith, h));
})
