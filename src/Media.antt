-- ===== src/Media.antt =====
-- core/inbound/media-service.ts, DiskMediaService: the media that are being stored, the download slots
-- and the media's state as the message log keeps it. Each step runs up to the next `await`; what the
-- awaited call answers (the provider's download, the disk, the message log) is the event.
mod Jobs
mod Counts
pub mod Handover
pub mod Slots
mod Skips
pub mod Ready
pub mod Resume
mod Tests
use messaging_gateway.Prelude.{
  ℕ, ◌+◌, ◌-◌, String, Option, none, some, Bool, true, false, List, [], ◌∷◌, ◌++◌, if◌then◌else◌,
  str_eq, ltb, leb, is_some,
}
use messaging_gateway.Messages.{
  MediaStatus, pending, ready, skipped, expired, SkipReason, too_large, download_failed,
}

-- Where `markSkipped` was called: in `store`, after the last attempt, or on a raw that is not restored.
pub data Caller : Type 0 where
  within last unrestored : Caller

-- What the job of a media awaits; the number is its attempt.
pub data Stage : Type 0 where
  queued downloading writing recording pausing : ℕ → Stage
  looking skipping : SkipReason → Caller → ℕ → Stage

pub record Job : Type 0 where
  pub id : String
  pub stage : Stage

-- A message of the log, and the state of its media where it has one.
pub data Stored : Type 0 where
  missing : Stored
  present : Option MediaStatus → Stored

-- `inFlight` is the jobs' ids.
pub record Service : Type 0 where
  pub active : ℕ
  pub waiting : List String
  pub jobs : List Job
  pub statuses : String → Stored

-- `concurrency`, and how many `retryDelaysMs` there are.
pub record Limits : Type 0 where
  pub concurrency : ℕ
  pub retries : ℕ

unfoldable pub stage_of : String → List Job → Option Stage
stage_of id [] = none
stage_of id (j ∷ js) = if str_eq j.id id then some j.stage else stage_of id js

unfoldable pub put : String → Stage → List Job → List Job
put id stage [] = record { id = id; stage = stage } ∷ []
put id stage (j ∷ js) =
    if str_eq j.id id then record j { stage = stage } ∷ js else j ∷ put id stage js

-- `inFlight.delete`
unfoldable pub without : String → List Job → List Job
without id [] = []
without id (j ∷ js) = if str_eq j.id id then js else j ∷ without id js

abbrev pub at_stage : String → Stage → Service → Service
at_stage id stage s = record s { jobs = put id stage s.jobs }

-- `UPDATE messages ... WHERE id = ?`
abbrev pub update_media : String → MediaStatus → Service → Service
update_media id status s = record s {
  statuses = λ other.
      if str_eq id other
      then elim (s.statuses other) [ missing ↦ missing | present old ↦ present (some status) ]
      else s.statuses other;
}

-- `storeWithRetries` from the top of the loop.
unfoldable pub acquire : Limits → String → ℕ → Service → Service
unfolding put
acquire limits id attempt s =
    if ltb s.active limits.concurrency
    then record s { active = s.active + 1; jobs = put id (downloading attempt) s.jobs }
    else record s { waiting = s.waiting ++ (id ∷ []); jobs = put id (queued attempt) s.jobs }

-- The waiter's `resolve`.
abbrev pub resolve : String → Option Stage → List Job → List Job
resolve id (some (queued attempt)) jobs = put id (downloading attempt) jobs
resolve id _ jobs = jobs

-- The slot passes straight to the next waiter.
abbrev pub hand_over : List String → Service → Service
hand_over [] s = record s { active = s.active - 1 }
hand_over (next ∷ rest) s = record s {
  waiting = rest;
  jobs = resolve next (stage_of next s.jobs) s.jobs;
}

abbrev pub release : Service → Service
release s = hand_over s.waiting s

abbrev pub end_run : String → Service → Service
end_run id s = record s { jobs = without id s.jobs }

-- The attempt is over and so is the job: `finally` gives the slot back.
abbrev pub end_attempt : String → Service → Service
end_attempt id s = release (end_run id s)

-- The catch of `storeWithRetries`; its `finally` gives the slot back before the wait.
unfoldable pub attempt_failed : Limits → String → ℕ → Service → Service
unfolding put stage_of
attempt_failed limits id attempt s =
    if leb limits.retries attempt
    then at_stage id (looking download_failed last attempt) s
    else release (at_stage id (pausing attempt) s)

-- `markSkipped` returns.
abbrev pub marked : Caller → String → Service → Service
marked unrestored id s = end_run id s
marked within id s = end_attempt id s
marked last id s = end_attempt id s

-- The message log fails in `markSkipped`: with `propagate` it is the attempt's failure.
abbrev pub mark_failed : Limits → Caller → String → ℕ → Service → Service
mark_failed limits within id attempt s = attempt_failed limits id attempt s
mark_failed limits caller id attempt s = marked caller id s

abbrev pub is_ready : Stored → Bool
is_ready (present (some ready)) = true
is_ready _ = false

-- What an awaited call comes to: `lost` is a write that was done and whose answer failed.
pub data Answer : Type 0 where
  given nothing over_size fails lost : Answer

abbrev pub answer_to : Limits → String → Stage → Answer → Service → Service
answer_to limits id (downloading n) given s = at_stage id (writing n) s
answer_to limits id (downloading n) nothing s = at_stage id (looking download_failed within n) s
answer_to limits id (downloading n) over_size s = at_stage id (looking too_large within n) s
answer_to limits id (downloading n) _ s = attempt_failed limits id n s
answer_to limits id (writing n) given s = at_stage id (recording n) s
answer_to limits id (writing n) _ s = attempt_failed limits id n s
answer_to limits id (recording n) given s = end_attempt id (update_media id ready s)
answer_to limits id (recording n) lost s = attempt_failed limits id n (update_media id ready s)
answer_to limits id (recording n) _ s = attempt_failed limits id n s
answer_to limits id (looking reason caller n) given s =
    if is_ready (s.statuses id)
    then marked caller id s
    else at_stage id (skipping reason caller n) s
answer_to limits id (looking reason caller n) _ s = mark_failed limits caller id n s
answer_to limits id (skipping reason caller n) given s =
    marked caller id (update_media id skipped s)
answer_to limits id (skipping reason caller n) lost s =
    mark_failed limits caller id n (update_media id skipped s)
answer_to limits id (skipping reason caller n) _ s = mark_failed limits caller id n s
answer_to limits id (queued n) _ s = s
answer_to limits id (pausing n) _ s = s

-- The timer between two attempts.
abbrev pub woken : Limits → String → Stage → Service → Service
woken limits id (pausing n) s = acquire limits id (n + 1) s
woken limits id _ s = s

-- `run`: a media that is in flight is left to the job that has it.
unfoldable pub begin_run : Limits → String → Bool → Service → Service
unfolding acquire stage_of put
begin_run limits id restored s =
    if is_some (stage_of id s.jobs)
    then s
    else if restored
    then acquire limits id 0 s
    else at_stage id (looking download_failed unrestored 0) s

pub data Event : Type 0 where
  begins : String → Bool → Event
  answers : String → Answer → Event
  wakes : String → Event

abbrev pub for_job : (Stage → Service → Service) → Option Stage → Service → Service
for_job act none s = s
for_job act (some stage) s = act stage s

unfoldable pub step : Limits → Service → Event → Service
unfolding begin_run attempt_failed acquire stage_of
step limits s (begins id restored) = begin_run limits id restored s
step limits s (answers id a) = for_job (λ stage. answer_to limits id stage a) (stage_of id s.jobs) s
step limits s (wakes id) = for_job (woken limits id) (stage_of id s.jobs) s

unfoldable pub run : Limits → Service → List Event → Service
unfolding step
run limits s [] = s
run limits s (e ∷ es) = run limits (step limits s e) es

abbrev pub idle : (String → Stored) → Service
idle statuses = record { active = 0; waiting = []; jobs = []; statuses = statuses }
