-- ===== src/Pipeline.antt =====
-- core/inbound/inbound-pipeline.ts: the way of an inbound message, filter, then log, then event, then
-- media. What happens at each `await` (the enrichment, the store guard's answer, a shutdown that gives
-- up on the message meanwhile) is an argument; the actions on the outside are a list, in their order.
pub mod Emission
pub mod Drained
pub mod Replay
pub mod Order
pub mod Turns
pub mod Chain
pub mod InTurn
pub mod Judged
mod Tests
use Prim.Native.Char.{code}
use Prim.Native.String
use messaging_gateway.Prelude.{
  ℕ, zero, suc, String, Option, none, some, Bool, true, false, not, ◌&&◌, ◌||◌, List, [], ◌∷◌, ◌++◌,
  if◌then◌else◌, ◌==◌, leb, str_eq, str_mem, truthy, truthy?, is_some, codes,
}
use messaging_gateway.Messages.{
  UnifiedEnvelope, ContactRef, MessageContent, text, image, audio, video, document, sticker,
  location, contact, reaction, poll, interactive_response, system, unknown, MediaInfo, pending,
}
use messaging_gateway.Store.{InsertResult, inserted, duplicate}
use messaging_gateway.Guard.{Failure, Answer, resolves, rejects}
use messaging_gateway.Accounts.{ChannelAccount, Conversations, everything, only}

abbrev kept_by : Option Conversations → String → Bool
kept_by none id = true
kept_by (some everything) id = true
kept_by (some (only allowed)) id = str_mem id allowed

unfoldable pub accepts : ChannelAccount → UnifiedEnvelope → Bool
accepts account envelope = kept_by account.conversations envelope.conversation_id

-- `endsWith('@lid')`
unfoldable pub ends_with_lid : String → Bool
ends_with_lid String.[] = false
ends_with_lid (String.◌∷◌ c s) = str_eq (String.◌∷◌ c s) "@lid" || ends_with_lid s

pub data FilterReason : Type 0 where
  lid_unresolved conversation_excluded : FilterReason

unfoldable pub filter_reason : UnifiedEnvelope → FilterReason
filter_reason envelope =
    if ends_with_lid envelope.conversation_id then lid_unresolved else conversation_excluded

-- `split(sep)[0]`
unfoldable pub before : ℕ → String → String
before sep String.[] = ""
before sep (String.◌∷◌ c s) = if code c == sep then "" else String.◌∷◌ c (before sep s)

-- `replace(/\D/g, '')`
unfoldable pub digits_of : String → String
digits_of String.[] = ""
digits_of (String.◌∷◌ c s) =
    if leb b'0' (code c) && leb (code c) b'9' then String.◌∷◌ c (digits_of s) else digits_of s

unfoldable pub phone_digits : Option String → Option String
unfolding before digits_of
phone_digits none = none
phone_digits (some resolved) =
    let digits = digits_of (before b':' (before b'@' resolved)) in
    if truthy digits then some digits else none

unfoldable pub set_phone : Option String → UnifiedEnvelope → UnifiedEnvelope
set_phone none envelope = envelope
set_phone (some digits) envelope = record envelope {
  sender = record envelope.sender { phone = some (String.◌++◌ "+" digits) };
}

-- `resolveSenderPhone`. `resolved` is what the resolver gives for the LID; one that throws is `none`.
unfoldable pub resolve_sender_phone : Bool → Option String → UnifiedEnvelope → UnifiedEnvelope
resolve_sender_phone has_resolver resolved envelope =
    if truthy? envelope.sender.phone || not (truthy? envelope.sender.lid) || not has_resolver
    then envelope
    else set_phone (phone_digits resolved) envelope

abbrev pub to_pending : MediaInfo → MediaInfo
to_pending media = record media { base64 = none; status = some pending }

-- `markMediaPending`, on the content and as to whether it has media.
unfoldable pub mark_media : MessageContent → MessageContent × Bool
mark_media (image media caption) = (image (to_pending media) caption, true)
mark_media (audio media voice duration) = (audio (to_pending media) voice duration, true)
mark_media (video media caption duration) = (video (to_pending media) caption duration, true)
mark_media (document media name caption) = (document (to_pending media) name caption, true)
mark_media (sticker media animated) = (sticker (to_pending media) animated, true)
mark_media content = (content, false)

abbrev pub mark_media_pending : UnifiedEnvelope → UnifiedEnvelope
mark_media_pending envelope = record envelope { content = (mark_media envelope.content).0 }

-- What the pipeline does on the outside, in the order of the code.
pub data Effect : Type 0 where
  filtered : FilterReason → Effect
  inserting : UnifiedEnvelope → Effect
  persist_failure : Effect
  kept : UnifiedEnvelope → Effect
  lost : UnifiedEnvelope → Effect
  recovering_log : Effect
  last_inbound : Effect
  emitted : UnifiedEnvelope → Effect
  media_scheduled : UnifiedEnvelope → Effect

-- What the waits of one message bring.
pub record Moments : Type 0 where
  pub unsaved_at_start : Bool
  pub enriched : UnifiedEnvelope
  pub unsaved_after_enrich : Bool
  pub resolved : Option String
  pub answer : Answer
  pub unsaved_at_failure : Bool
  pub append_succeeds : Bool
  pub taking_directly : Bool

pub record Deps : Type 0 where
  pub has_store : Bool
  pub has_failed_log : Bool
  pub has_resolver : Bool

-- `writeOff`. With no failed log there is nothing to append to.
unfoldable pub write_off : Deps → Bool → UnifiedEnvelope → List Effect
write_off deps succeeds envelope =
    persist_failure
    ∷ (if deps.has_failed_log
        then if succeeds then kept envelope ∷ [] else lost envelope ∷ []
        else [])

pub data PersistOutcome : Type 0 where
  stored is_duplicate written_off : PersistOutcome

pub record Persisted : Type 0 where
  pub effects : List Effect
  pub outcome : PersistOutcome
  pub envelope : UnifiedEnvelope

unfoldable pub persist_answer : Deps → Moments → UnifiedEnvelope → Answer → Persisted
persist_answer deps m envelope (resolves (inserted seq number)) = record {
  effects = inserting envelope ∷ [];
  outcome = stored;
  envelope = record envelope { seq = some seq; account_seq = number };
}
persist_answer deps m envelope (resolves (duplicate id seq number)) = record {
  effects = inserting envelope ∷ [];
  outcome = is_duplicate;
  envelope = envelope;
}
persist_answer deps m envelope (rejects e) = record {
  effects =
      inserting envelope
      ∷ ((if m.unsaved_at_failure then write_off deps m.append_succeeds envelope else [])
          ++ (if m.taking_directly then recovering_log ∷ [] else []));
  outcome = written_off;
  envelope = envelope;
}

unfoldable pub persist : Deps → Moments → UnifiedEnvelope → Persisted
unfolding persist_answer
persist deps m envelope =
    if deps.has_store
    then persist_answer deps m envelope m.answer
    else record { effects = []; outcome = stored; envelope = envelope }

-- What follows the log: nothing for a duplicate, and media only where a row can record it.
unfoldable pub finish : Bool → Persisted → List Effect
finish has_media p = elim p.outcome [
  | is_duplicate ↦ []
  | written_off ↦ last_inbound ∷ emitted p.envelope ∷ []
  | stored ↦
      last_inbound
      ∷ emitted p.envelope
      ∷ (if has_media then media_scheduled p.envelope ∷ [] else [])
]

unfoldable pub process : Deps → ChannelAccount → Moments → List Effect
unfolding finish
process deps account m =
    if not m.unsaved_at_start
    then []
    else if not m.unsaved_after_enrich
    then []
    else if not (accepts account m.enriched)
    then filtered (filter_reason m.enriched) ∷ []
    else let resolved = resolve_sender_phone deps.has_resolver m.resolved m.enriched in
      let p = persist deps m (mark_media_pending resolved) in
      p.effects ++ finish (mark_media resolved.content).1 p

-- A message that is neither stored nor written off when the shutdown's wait is over.
pub record Left : Type 0 where
  pub account : ChannelAccount
  pub envelope : UnifiedEnvelope
  pub to_enrich : Bool
  pub append_succeeds : Bool

-- One round of the loop of `drain`.
unfoldable pub drain_one : Deps → Left → List Effect
unfolding write_off
drain_one deps l =
    let unjudgeable = l.to_enrich && ends_with_lid l.envelope.conversation_id in
    if not unjudgeable && not (accepts l.account l.envelope)
    then []
    else write_off deps l.append_succeeds (mark_media_pending l.envelope)

unfoldable pub drain : Deps → List Left → List Effect
unfolding drain_one
drain deps [] = []
drain deps (l ∷ left) = drain_one deps l ++ drain deps left
