-- ===== src/Pipeline/Order.antt =====
-- core/inbound/inbound-pipeline.ts, replayFailed: what stays in the failed log keeps its place.
use messaging_gateway.Prelude.{
  String, Option, none, some, true, List, [], ◌∷◌, ◌≡◌, refl, inl, inr, arith, All, if-case,
  Option-cases, str_mem, str_eq_refl,
}
use messaging_gateway.Guard.{Failure, permanent, range, other, Answer, resolves, rejects}
use messaging_gateway.Failed.{Line, SaveOutcome, failed}
use messaging_gateway.Failed.Replay.{verdicts}
use messaging_gateway.Pipeline.Replay.{
  Entry, save_entry, on_judgement, on_insert, on_failure, Judgement, discard, keep, throws,
  replay_rejection,
}

-- An entry that stays holds its account back, and an account held back stays so.
abbrev pub Holds : List String → String → List String × SaveOutcome → Type 0
Holds held account r =
    ((other : String) → str_mem other held ≡ true → str_mem other r.0 ≡ true)
    × (r.1 ≡ failed → str_mem account r.0 ≡ true)

on_failure-Holds :
    (held : List String) (account : String) (e : Failure)
    → Holds held account (on_failure held account e)
unfolding on_failure
on_failure-Holds held account (permanent m) = (λ o h. h, λ h. absurd (cc))
on_failure-Holds held account (range m) =
    (λ o h. ground (arith, h), λ h. rw (str_eq_refl account) refl)
on_failure-Holds held account (other m) =
    (λ o h. ground (arith, h), λ h. rw (str_eq_refl account) refl)

on_insert-Holds :
    (held : List String) (account : String) (a : Answer)
    → Holds held account (on_insert held account a)
unfolding on_insert
on_insert-Holds held account (resolves result) = (λ o h. h, λ h. absurd (cc))
on_insert-Holds held account (rejects e) = on_failure-Holds held account e

on_judgement-Holds :
    (held : List String) (account : String) (a : Answer) (j : Judgement)
    → Holds held account (on_judgement held account a j)
unfolding on_judgement
on_judgement-Holds held account a (discard reason) = (λ o h. h, λ h. absurd (cc))
on_judgement-Holds held account a (keep envelope) = on_insert-Holds held account a
on_judgement-Holds held account a (throws e) = on_failure-Holds held account e

save_entry-Holds :
    (held : List String) (entry : Entry)
    → Holds held entry.envelope.account_id (save_entry held entry)
unfolding save_entry
save_entry-Holds held entry =
    if-case (Holds held entry.envelope.account_id) (str_mem entry.envelope.account_id held)
      (λ there. (λ o h. h, λ h. there))
      (λ missing.
        on_judgement-Holds held entry.envelope.account_id entry.look.answer
          (replay_rejection entry.envelope entry.look))

save_entry-held :
    (held : List String) (entry : Entry)
    → str_mem entry.envelope.account_id held ≡ true
    → (save_entry held entry).1 ≡ failed
unfolding save_entry
save_entry-held held entry h = rw h refl

module _ (parse : Line → Option Entry) where
  -- The line is an entry of the account.
  abbrev pub IsOf : String → Line → Type 0
  IsOf account line = (e : Entry) × (parse line ≡ some e) × (e.envelope.account_id ≡ account)

  abbrev pub Waits : String → Line × SaveOutcome → Type 0
  Waits account (line, outcome) = IsOf account line → outcome ≡ failed

  -- Behind an entry that stays, every entry of its account stays.
  abbrev pub NoneOvertakes : List (Line × SaveOutcome) → Type 0
  NoneOvertakes [] = Unit
  NoneOvertakes ((line, outcome) ∷ v) =
      ((account : String) → IsOf account line → outcome ≡ failed → All (Waits account) v)
      × NoneOvertakes v

  entry_of :
      (account : String) (line : Line) (entry : Entry)
      → parse line ≡ some entry
      → IsOf account line
      → entry.envelope.account_id ≡ account
  entry_of account line entry e (e', p, q) = cc (e, p, q)

  unread-IsOf : (account : String) (line : Line) → parse line ≡ none → ¬ IsOf account line
  unread-IsOf account line e (e', p, q) = absurd (cc (e, p))

  held-Waits :
      (account : String) (held : List String) (lines : List Line)
      → str_mem account held ≡ true
      → All (Waits account) (verdicts parse save_entry held lines)
  unfolding verdicts
  held-Waits account held [] h = tt
  held-Waits account held (line ∷ lines) h = elim (Option-cases (parse line)) [
    | inl e ↦
        rw (e, verdicts)
          ((λ of. absurd (unread-IsOf account line e of)), held-Waits account held lines h)
    | inr (entry, e) ↦
        rw (e, verdicts)
          (
            (λ of. save_entry-held held entry (rw (entry_of account line entry e of) h)),
            held-Waits account (save_entry held entry).0 lines
                ((save_entry-Holds held entry).0 account h),
          )
  ]

  -- A replay never lets an entry of the failed log reach the message log ahead of an earlier one of
  -- the same account that stays behind: once an entry of an account is kept, so are all that follow.
  pub replay-NoneOvertakes :
      (held : List String) (lines : List Line)
      → NoneOvertakes (verdicts parse save_entry held lines)
  unfolding verdicts
  replay-NoneOvertakes held [] = tt
  replay-NoneOvertakes held (line ∷ lines) = elim (Option-cases (parse line)) [
    | inl e ↦
        rw (e, verdicts)
          (
            (λ account of f. absurd (unread-IsOf account line e of)),
            replay-NoneOvertakes held lines,
          )
    | inr (entry, e) ↦
        rw (e, verdicts)
          (
            (λ account of f.
                held-Waits account (save_entry held entry).0 lines
                  (rw⁻¹ (entry_of account line entry e of) ((save_entry-Holds held entry).1 f))),
            replay-NoneOvertakes (save_entry held entry).0 lines,
          )
  ]
