-- ===== src/Pipeline/Emission.antt =====
-- core/inbound/inbound-pipeline.ts, process: what is delivered live and what is kept for later.
use messaging_gateway.Prelude.{
  ℕ, String, Option, none, some, Bool, true, false, not, ◌||◌, List, [], ◌∷◌, ◌++◌, if◌then◌else◌,
  ◌≡◌, refl, ap, ◌⊎◌, inl, inr, All, All-append, if-elim, if-case, truthy?,
}
use messaging_gateway.Messages.{UnifiedEnvelope}
use messaging_gateway.Store.{inserted, duplicate}
use messaging_gateway.Guard.{Failure, Answer, resolves, rejects}
use messaging_gateway.Accounts.{ChannelAccount}
use messaging_gateway.Pipeline.{
  accepts, set_phone, resolve_sender_phone, phone_digits, mark_media, mark_media_pending, Effect,
  filtered, inserting, persist_failure, kept, lost, recovering_log, last_inbound, emitted,
  media_scheduled, Moments, Deps, write_off, Persisted, persist_answer, persist, finish, process,
  stored,
}

-- The store is there and took the message under these numbers.
abbrev pub Numbered : Deps → Moments → UnifiedEnvelope → Type 0
Numbered deps m e =
    (seq : ℕ) × (number : Option ℕ) × (deps.has_store ≡ true)
    × (m.answer ≡ resolves (inserted seq number))
    × (e.seq ≡ some seq)
    × (e.account_seq ≡ number)

abbrev pub Refused : Deps → Moments → Type 0
Refused deps m = (cause : Failure) × (deps.has_store ≡ true) × (m.answer ≡ rejects cause)

abbrev pub Unnumbered : Moments → UnifiedEnvelope → Type 0
Unnumbered m e = (e.seq ≡ m.enriched.seq) × (e.account_seq ≡ m.enriched.account_seq)

-- What the code must have seen before it takes an action on the outside.
abbrev pub Justified : Deps → Moments → Effect → Type 0
Justified deps m (emitted e) =
    Numbered deps m e ⊎ (Unnumbered m e × (Refused deps m ⊎ (deps.has_store ≡ false)))
Justified deps m (media_scheduled e) = Numbered deps m e ⊎ (deps.has_store ≡ false)
Justified deps m (kept e) = Refused deps m × Unnumbered m e × (m.unsaved_at_failure ≡ true)
Justified deps m (lost e) =
    Refused deps m × Unnumbered m e × (m.append_succeeds ≡ false) × (m.unsaved_at_failure ≡ true)
Justified deps m effect = Unit

set_phone-seq :
    (digits : Option String) (e : UnifiedEnvelope)
    → ((set_phone digits e).seq ≡ e.seq) × ((set_phone digits e).account_seq ≡ e.account_seq)
unfolding set_phone
set_phone-seq none e = (refl, refl)
set_phone-seq (some d) e = (refl, refl)

resolve_sender_phone-seq :
    (has : Bool) (resolved : Option String) (e : UnifiedEnvelope)
    → ((resolve_sender_phone has resolved e).seq ≡ e.seq)
      × ((resolve_sender_phone has resolved e).account_seq ≡ e.account_seq)
unfolding resolve_sender_phone
resolve_sender_phone-seq has resolved e =
    if-elim (λ (x : UnifiedEnvelope). (x.seq ≡ e.seq) × (x.account_seq ≡ e.account_seq))
      (truthy? e.sender.phone || not (truthy? e.sender.lid) || not has) {x = e}
      {y = set_phone (phone_digits resolved) e} (refl, refl)
      (set_phone-seq (phone_digits resolved) e)

write_off-Justified :
    (deps : Deps) (m : Moments) (e : UnifiedEnvelope)
    → Refused deps m
    → Unnumbered m e
    → m.unsaved_at_failure ≡ true
    → All (Justified deps m) (write_off deps m.append_succeeds e)
unfolding write_off
write_off-Justified deps m e r u h = (
  tt,
  if-elim (All (Justified deps m)) deps.has_failed_log
      (if-case (All (Justified deps m)) m.append_succeeds (λ held. ((r, u, h), tt))
        (λ gone. ((r, u, gone, h), tt)))
      tt,
)

persist_answer-Justified :
    (deps : Deps) (m : Moments) (e : UnifiedEnvelope) (has_media : Bool) (answer : Answer)
    → m.answer ≡ answer
    → deps.has_store ≡ true
    → Unnumbered m e
    → All (Justified deps m) (
        (persist_answer deps m e answer).effects
        ++ finish has_media (persist_answer deps m e answer))
unfolding persist_answer finish
persist_answer-Justified deps m e has_media (resolves (inserted seq number)) a s u =
    let n : Numbered deps m (record e { seq = some seq; account_seq = number }) =
      (seq, number, s, a, refl, refl) in
    (tt, (tt, (inl n, if-elim (All (Justified deps m)) has_media (inl n, tt) tt)))
persist_answer-Justified deps m e has_media (resolves (duplicate id seq number)) a s u = (tt, tt)
persist_answer-Justified deps m e has_media (rejects cause) a s u =
    let r : Refused deps m = (cause, s, a) in
    (
      tt,
      All-append (Justified deps m) _ (last_inbound ∷ emitted e ∷ [])
          (All-append (Justified deps m) _ (if m.taking_directly then recovering_log ∷ [] else [])
            (if-case (All (Justified deps m)) m.unsaved_at_failure
              (write_off-Justified deps m e r u) (λ over. tt))
            (if-elim (All (Justified deps m)) m.taking_directly (tt, tt) tt))
          (tt, (inr (u, inl r), tt)),
    )

persist-Justified :
    (deps : Deps) (m : Moments) (e : UnifiedEnvelope) (has_media : Bool)
    → Unnumbered m e
    → All (Justified deps m) ((persist deps m e).effects ++ finish has_media (persist deps m e))
unfolding persist finish
persist-Justified deps m e has_media u =
    if-case (λ (p : Persisted). All (Justified deps m) (p.effects ++ finish has_media p))
      deps.has_store {x = persist_answer deps m e m.answer}
      {y = record { effects = []; outcome = stored; envelope = e }}
      (λ there. persist_answer-Justified deps m e has_media m.answer refl there u)
      (λ missing. (
        tt,
        (inr (u, inr missing), if-elim (All (Justified deps m)) has_media (inr missing, tt) tt),
      ))

-- A message is delivered live with the very sequence and account number under which the store took
-- it, or with the ones it came with, and then the store rejected it or there is none; never when the
-- store answered with a duplicate. Media is downloaded only for a message the store took (or with no
-- store at all). A message is kept in the failed log only if the store rejected it and the shutdown had
-- not taken it over, and it is given up as lost only if that log could not be written either.
pub process-Justified :
    (deps : Deps) (account : ChannelAccount) (m : Moments)
    → All (Justified deps m) (process deps account m)
unfolding process
process-Justified deps account m =
    let resolved = resolve_sender_phone deps.has_resolver m.resolved m.enriched in
    if-elim (All (Justified deps m)) (not m.unsaved_at_start) tt (
      if-elim (All (Justified deps m)) (not m.unsaved_after_enrich) tt (
        if-elim (All (Justified deps m)) (not (accepts account m.enriched)) (tt, tt)
          (persist-Justified deps m (mark_media_pending resolved) (mark_media resolved.content).1
            (resolve_sender_phone-seq deps.has_resolver m.resolved m.enriched))))

-- What was appended to the failed log, or should have been.
abbrev pub kept_of : List Effect → List UnifiedEnvelope
kept_of [] = []
kept_of (kept e ∷ effects) = e ∷ kept_of effects
kept_of (_ ∷ effects) = kept_of effects

pub kept_of-append : (a b : List Effect) → kept_of (a ++ b) ≡ kept_of a ++ kept_of b
kept_of-append [] b = refl
kept_of-append (kept e ∷ a) b = ap (◌∷◌ e) (kept_of-append a b)
kept_of-append (filtered r ∷ a) b = kept_of-append a b
kept_of-append (inserting e ∷ a) b = kept_of-append a b
kept_of-append (persist_failure ∷ a) b = kept_of-append a b
kept_of-append (lost e ∷ a) b = kept_of-append a b
kept_of-append (recovering_log ∷ a) b = kept_of-append a b
kept_of-append (last_inbound ∷ a) b = kept_of-append a b
kept_of-append (emitted e ∷ a) b = kept_of-append a b
kept_of-append (media_scheduled e ∷ a) b = kept_of-append a b
