-- ===== src/Pipeline/Replay.antt =====
-- core/inbound/inbound-pipeline.ts, replayFailed: the callback that saves one entry of the failed log, and
-- replayRejection, which judges it again. What the waits of an entry bring comes with the entry.
use messaging_gateway.Prelude.{
  ℕ, ◌-◌, ◌*◌, String, Option, none, some, Bool, true, false, ◌&&◌, List, ◌∷◌, if◌then◌else◌, ltb,
  str_mem,
}
use Prim.Native.String
use messaging_gateway.Messages.{UnifiedEnvelope}
use messaging_gateway.Guard.{Failure, permanent, range, other, Answer, resolves, rejects}
use messaging_gateway.Accounts.{ChannelAccount, everything, only, is_active}
use messaging_gateway.Failed.{SaveOutcome, accepted, refused, failed}
use messaging_gateway.Pipeline.{accepts, ends_with_lid, phone_digits}

abbrev pub lid_max_wait_ms : ℕ
lid_max_wait_ms = 7 * 24 * 60 * 60 * 1000

-- What the waits of one entry bring: its account, what the resolver gives for its conversation (`none` if
-- it throws), the time, whether the account's socket is connected, and the answer of the guard.
pub record Look : Type 0 where
  pub account : Option ChannelAccount
  pub resolved : Option String
  pub now : ℕ
  pub connected : Bool
  pub answer : Answer

pub record Entry : Type 0 where
  pub envelope : UnifiedEnvelope
  pub look : Look

unfoldable pub judges_conversations : ChannelAccount → Bool
judges_conversations account = elim account.conversations [
  | none ↦ false
  | some everything ↦ false
  | some (only allowed) ↦ true
]

unfoldable pub can_resolve_lids : ChannelAccount → Bool → Bool
can_resolve_lids account connected = is_active account.status && connected

abbrev pub to_jid : Option String → Option String
to_jid none = none
to_jid (some digits) = some (String.◌++◌ digits "@s.whatsapp.net")

-- `resolveLidToPhoneJid`
unfoldable pub resolve_lid_to_phone_jid : Option String → Option String
resolve_lid_to_phone_jid resolved = to_jid (phone_digits resolved)

-- How `replayRejection` ends: with a reason to discard the entry, with the envelope to store, or thrown.
pub data Judgement : Type 0 where
  discard : String → Judgement
  keep : UnifiedEnvelope → Judgement
  throws : Failure → Judgement

unfoldable pub judge : ChannelAccount → UnifiedEnvelope → Judgement
judge account envelope =
    if accepts account envelope
    then keep envelope
    else discard "the account excludes its conversation"

unfoldable pub judge_lid : ChannelAccount → UnifiedEnvelope → Look → Option String → Judgement
judge_lid account envelope look (some phone_jid) = judge account (record envelope {
  conversation_id = phone_jid;
  sender = record envelope.sender { id = phone_jid };
})
judge_lid account envelope look none =
    if ltb lid_max_wait_ms (look.now - envelope.gateway.received_at)
      && can_resolve_lids account look.connected
    then throws (permanent "its conversation is a LID still unresolved after 7 days")
    else throws
        (other "its conversation is a LID that cannot be resolved yet, so it cannot be judged")

unfoldable pub replay_rejection : UnifiedEnvelope → Look → Judgement
replay_rejection envelope look = elim look.account [
  | none ↦ discard "the account no longer exists"
  | some account ↦
      if judges_conversations account && ends_with_lid envelope.conversation_id
      then judge_lid account envelope look (resolve_lid_to_phone_jid look.resolved)
      else judge account envelope
]

-- The `catch` of the callback: only a permanent failure lets the next entries of the account go on.
unfoldable pub on_failure : List String → String → Failure → List String × SaveOutcome
on_failure held account_id (permanent m) = (held, refused m)
on_failure held account_id (range m) = (account_id ∷ held, failed)
on_failure held account_id (other m) = (account_id ∷ held, failed)

unfoldable pub on_insert : List String → String → Answer → List String × SaveOutcome
on_insert held account_id (resolves result) = (held, accepted)
on_insert held account_id (rejects e) = on_failure held account_id e

unfoldable pub on_judgement : List String → String → Answer → Judgement → List String × SaveOutcome
on_judgement held account_id answer (discard reason) = (held, accepted)
on_judgement held account_id answer (keep envelope) = on_insert held account_id answer
on_judgement held account_id answer (throws e) = on_failure held account_id e

-- The callback. `held` is `heldBack`, the accounts with an entry that stays.
unfoldable pub save_entry : List String → Entry → List String × SaveOutcome
save_entry held entry =
    if str_mem entry.envelope.account_id held
    then (held, failed)
    else on_judgement held entry.envelope.account_id entry.look.answer
        (replay_rejection entry.envelope entry.look)
