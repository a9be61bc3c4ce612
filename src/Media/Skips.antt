-- ===== src/Media/Skips.antt =====
-- core/inbound/media-service.ts: a job that records `skipped` has a media that is not ready.
use messaging_gateway.Prelude.{
  ℕ, ◌+◌, String, Option, some, Bool, true, false, List, [], ◌∷◌, ◌≡◌, refl, inl, inr, str_eq,
  is_some, ltb, leb, eq_iff, Bool-cases, Option-cases, if-case, ap, ◌∙◌, sym,
}
use messaging_gateway.Messages.{ready, skipped, download_failed}
use messaging_gateway.Media.{
  Caller, within, last, unrestored, Stage, queued, downloading, writing, recording, pausing,
  looking, skipping, Service, Stored, missing, present, Limits, stage_of, at_stage, update_media,
  acquire, resolve, hand_over, end_run, end_attempt, attempt_failed, marked, mark_failed, is_ready,
  Answer, given, nothing, over_size, fails, lost, answer_to, woken, begin_run, Event, begins,
  answers, wakes, step,
}
use messaging_gateway.Media.Jobs.{
  stage_of-put, stage_of-put_other, stage_of-without, stage_of-without_other, Unique, put-Unique,
  without-Unique,
}

abbrev pub skips : Option Stage → Bool
skips (some (skipping reason caller n)) = true
skips _ = false

-- A job that is about to record `skipped` has a media that is not ready, and no media has two jobs.
pub record Good (s : Service) : Type 0 where
  pub safe : (id : String) → skips (stage_of id s.jobs) ≡ true → is_ready (s.statuses id) ≡ false
  pub unique : Unique s.jobs

Good-put :
    (id : String) (stage : Stage) (s : Service)
    → (skips (some stage) ≡ true → is_ready (s.statuses id) ≡ false)
    → Good s
    → Good (at_stage id stage s)
Good-put id stage s h g = record {
  safe = λ other e. elim (Bool-cases (str_eq id other)) [
    | inl same ↦
        let it = (eq_iff id other).0 same in
        rw (sym it) (h (sym (ap skips (stage_of-put id stage s.jobs)) ∙ (rw (sym it) at e)))
    | inr differs ↦ g.safe other (rw (stage_of-put_other id other stage s.jobs differs) at e)
  ];
  unique = put-Unique id stage s.jobs g.unique;
}

Good-end_run : (id : String) (s : Service) → Good s → Good (end_run id s)
Good-end_run id s g = record {
  safe = λ other e. elim (Bool-cases (str_eq id other)) [
    | inl same ↦
        let it = (eq_iff id other).0 same in
        absurd (cc (rw (sym it, stage_of-without id s.jobs g.unique) at e))
    | inr differs ↦ g.safe other (rw (stage_of-without_other id other s.jobs differs) at e)
  ];
  unique = without-Unique id s.jobs g.unique;
}

Good-resolve :
    (next : String) (rest : List String) (stage : Option Stage) (s : Service)
    → Good s
    → Good (record s { waiting = rest; jobs = resolve next stage s.jobs })
Good-resolve next rest (some (queued n)) s g =
    let h = Good-put next (downloading n) s (λ e. absurd (cc e)) g in
    record { safe = h.safe; unique = h.unique }
Good-resolve next rest _ s g = record { safe = g.safe; unique = g.unique }

Good-hand_over : (waiting : List String) (s : Service) → Good s → Good (hand_over waiting s)
Good-hand_over [] s g = record { safe = g.safe; unique = g.unique }
Good-hand_over (next ∷ rest) s g = Good-resolve next rest (stage_of next s.jobs) s g

Good-end_attempt : (id : String) (s : Service) → Good s → Good (end_attempt id s)
Good-end_attempt id s g = Good-hand_over s.waiting (end_run id s) (Good-end_run id s g)

Good-acquire :
    (limits : Limits) (id : String) (n : ℕ) (s : Service) → Good s → Good (acquire limits id n s)
unfolding acquire
Good-acquire limits id n s g =
    let now = Good-put id (downloading n) s (λ e. absurd (cc e)) g in
    let later = Good-put id (queued n) s (λ e. absurd (cc e)) g in
    if-case Good (ltb s.active limits.concurrency)
      (λ free. record { safe = now.safe; unique = now.unique })
      (λ full. record { safe = later.safe; unique = later.unique })

Good-failed :
    (limits : Limits) (id : String) (n : ℕ) (s : Service)
    → Good s
    → Good (attempt_failed limits id n s)
unfolding attempt_failed
Good-failed limits id n s g =
    if-case Good (leb limits.retries n)
      (λ over. Good-put id (looking download_failed last n) s (λ e. absurd (cc e)) g)
      (λ again.
        Good-hand_over s.waiting (at_stage id (pausing n) s)
          (Good-put id (pausing n) s (λ e. absurd (cc e)) g))

Good-marked : (caller : Caller) (id : String) (s : Service) → Good s → Good (marked caller id s)
Good-marked within id s g = Good-end_attempt id s g
Good-marked last id s g = Good-end_attempt id s g
Good-marked unrestored id s g = Good-end_run id s g

Good-mark_failed :
    (limits : Limits) (caller : Caller) (id : String) (n : ℕ) (s : Service)
    → Good s
    → Good (mark_failed limits caller id n s)
Good-mark_failed limits within id n s g = Good-failed limits id n s g
Good-mark_failed limits last id n s g = Good-marked last id s g
Good-mark_failed limits unrestored id n s g = Good-marked unrestored id s g

Good-ready :
    (id : String) (s : Service)
    → skips (stage_of id s.jobs) ≡ false
    → Good s
    → Good (update_media id ready s)
Good-ready id s h g = record {
  safe = λ other e. elim (Bool-cases (str_eq id other)) [
    | inl same ↦ absurd (cc (h, rw (sym ((eq_iff id other).0 same)) at e))
    | inr differs ↦ rw differs (g.safe other e)
  ];
  unique = g.unique;
}

not_ready :
    (stored : Stored)
    → is_ready (elim stored [ missing ↦ missing | present old ↦ present (some skipped) ]) ≡ false
not_ready missing = refl
not_ready (present old) = refl

Good-skipped : (id : String) (s : Service) → Good s → Good (update_media id skipped s)
Good-skipped id s g = record {
  safe = λ other e. elim (Bool-cases (str_eq id other)) [
    | inl same ↦ rw same (not_ready (s.statuses other))
    | inr differs ↦ rw differs (g.safe other e)
  ];
  unique = g.unique;
}

answer-Good :
    (limits : Limits) (id : String) (stage : Stage) (a : Answer) (s : Service)
    → stage_of id s.jobs ≡ some stage
    → Good s
    → Good (answer_to limits id stage a s)
answer-Good limits id (downloading n) given s e g = Good-put id (writing n) s (λ h. absurd (cc h)) g
answer-Good limits id (downloading n) nothing s e g = Good-put id _ s (λ h. absurd (cc h)) g
answer-Good limits id (downloading n) over_size s e g = Good-put id _ s (λ h. absurd (cc h)) g
answer-Good limits id (downloading n) fails s e g = Good-failed limits id n s g
answer-Good limits id (downloading n) lost s e g = Good-failed limits id n s g
answer-Good limits id (writing n) given s e g = Good-put id (recording n) s (λ h. absurd (cc h)) g
answer-Good limits id (writing n) nothing s e g = Good-failed limits id n s g
answer-Good limits id (writing n) over_size s e g = Good-failed limits id n s g
answer-Good limits id (writing n) fails s e g = Good-failed limits id n s g
answer-Good limits id (writing n) lost s e g = Good-failed limits id n s g
answer-Good limits id (recording n) given s e g =
    Good-end_attempt id (update_media id ready s) (Good-ready id s (ap skips e) g)
answer-Good limits id (recording n) lost s e g =
    Good-failed limits id n (update_media id ready s) (Good-ready id s (ap skips e) g)
answer-Good limits id (recording n) nothing s e g = Good-failed limits id n s g
answer-Good limits id (recording n) over_size s e g = Good-failed limits id n s g
answer-Good limits id (recording n) fails s e g = Good-failed limits id n s g
answer-Good limits id (looking reason caller n) given s e g =
    if-case Good (is_ready (s.statuses id)) (λ there. Good-marked caller id s g)
      (λ not_there. Good-put id (skipping reason caller n) s (λ h. not_there) g)
answer-Good limits id (looking reason caller n) nothing s e g =
    Good-mark_failed limits caller id n s g
answer-Good limits id (looking reason caller n) over_size s e g =
    Good-mark_failed limits caller id n s g
answer-Good limits id (looking reason caller n) fails s e g =
    Good-mark_failed limits caller id n s g
answer-Good limits id (looking reason caller n) lost s e g = Good-mark_failed limits caller id n s g
answer-Good limits id (skipping reason caller n) given s e g =
    Good-marked caller id (update_media id skipped s) (Good-skipped id s g)
answer-Good limits id (skipping reason caller n) lost s e g =
    Good-mark_failed limits caller id n (update_media id skipped s) (Good-skipped id s g)
answer-Good limits id (skipping reason caller n) nothing s e g =
    Good-mark_failed limits caller id n s g
answer-Good limits id (skipping reason caller n) over_size s e g =
    Good-mark_failed limits caller id n s g
answer-Good limits id (skipping reason caller n) fails s e g =
    Good-mark_failed limits caller id n s g
answer-Good limits id (queued n) a s e g = g
answer-Good limits id (pausing n) a s e g = g

woken-Good :
    (limits : Limits) (id : String) (stage : Stage) (s : Service)
    → Good s
    → Good (woken limits id stage s)
woken-Good limits id (pausing n) s g = Good-acquire limits id (n + 1) s g
woken-Good limits id _ s g = g

pub step-Good : (limits : Limits) (s : Service) (e : Event) → Good s → Good (step limits s e)
unfolding step begin_run
step-Good limits s (begins id restored) g =
    if-case Good (is_some (stage_of id s.jobs)) (λ there. g)
      (λ new.
        if-case Good restored (λ raw. Good-acquire limits id 0 s g)
          (λ broken. Good-put id (looking download_failed unrestored 0) s (λ h. absurd (cc h)) g))
step-Good limits s (answers id a) g = elim (Option-cases (stage_of id s.jobs)) [
  | inl idle_ ↦ rw idle_ g
  | inr (stage, e) ↦ rw e (answer-Good limits id stage a s e g)
]
step-Good limits s (wakes id) g = elim (Option-cases (stage_of id s.jobs)) [
  | inl idle_ ↦ rw idle_ g
  | inr (stage, e) ↦ rw e (woken-Good limits id stage s g)
]
