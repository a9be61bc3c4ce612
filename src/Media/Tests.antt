-- ===== src/Media/Tests.antt =====
-- The media service at concrete media.
use messaging_gateway.Prelude.{
  All, ℕ, String, some, true, List, [], ◌∷◌, ◌≡◌, refl, map, any, Strict, arith,
}
use messaging_gateway.Messages.{pending}
use messaging_gateway.Media.{
  Stored, present, Limits, Job, Event, begins, answers, wakes, given, fails, over_size, lost, run,
  idle, is_ready,
}
use messaging_gateway.Media.Handover.{Sound}
use messaging_gateway.Media.Slots.{run-Sound}
use messaging_gateway.Media.Ready.{ready_kept}
use messaging_gateway.Media.Resume.{
  PendingRow, resume_pending_media, seq_of, is_seq, resume_pending_media_lem,
}

abbrev one_slot : Limits
one_slot = record { concurrency = 1; retries = 1 }

abbrev all_pending : String → Stored
all_pending id = present (some pending)

-- A download that fails gives its slot to the next media, and waits.
abbrev first_fails : List Event
first_fails = begins "m1" true ∷ begins "m2" true ∷ answers "m1" fails ∷ answers "m2" given ∷ []

second_goes_on :
    map (λ (j : Job). j.id) (run one_slot (idle all_pending) first_fails).jobs ≡ "m1" ∷ "m2" ∷ []
unfolding run
second_goes_on = refl

run-Sound_example : Sound one_slot 0 (run one_slot (idle all_pending) first_fails)
run-Sound_example = run-Sound one_slot all_pending first_fails

-- The media is written and recorded, and the answer is lost: the second attempt finds it over the cap.
abbrev recorded : List Event
recorded = begins "m1" true ∷ answers "m1" given ∷ answers "m1" given ∷ answers "m1" lost ∷ []

abbrev second_attempt : List Event
second_attempt = wakes "m1" ∷ answers "m1" over_size ∷ answers "m1" given ∷ []

recorded-ready : is_ready ((run one_slot (idle all_pending) recorded).statuses "m1") ≡ true
unfolding run
recorded-ready = refl

ready_kept_example :
    is_ready
      ((run one_slot (run one_slot (idle all_pending) recorded) second_attempt).statuses "m1")
    ≡ true
ready_kept_example = ready_kept one_slot all_pending recorded second_attempt "m1" recorded-ready

abbrev row : ℕ → String → PendingRow
row seq id = record { seq = seq; id = id; account_id = "shop"; raw_json = "{}" }

-- Neither media can be recorded: both stay pending, and a page holds one.
abbrev stuck : ℕ → List PendingRow
stuck page = row 2 "m2" ∷ row 1 "m1" ∷ []

resume_pending_media_lem_example :
    (picked : List PendingRow) × (resume_pending_media 3 stuck 0 1 0 ≡ some picked)
    × Strict seq_of picked
    × All (λ n. any (is_seq n) picked ≡ true) (1 ∷ 2 ∷ [])
resume_pending_media_lem_example =
    resume_pending_media_lem 3 stuck 1 2 (1 ∷ 2 ∷ []) (omega arith) (omega arith)
      (λ page. (omega arith, (omega arith, tt)))
      (λ page. ((λ e. absurd (omega (arith, e)), tt), (tt, tt)))
      ((omega arith, λ page. refl), ((omega arith, λ page. refl), tt))
