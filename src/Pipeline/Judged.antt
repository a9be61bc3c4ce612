-- ===== src/Pipeline/Judged.antt =====
-- core/inbound/inbound-pipeline.ts, replayRejection: the conversation filter applies to a replay too.
use messaging_gateway.Prelude.{
  String, Option, none, some, true, ◌&&◌, ◌≡◌, ap, ◌∙◌, sym, if-case, ltb, ◌-◌, Option-cases, inl,
  inr,
}
use messaging_gateway.Messages.{UnifiedEnvelope}
use messaging_gateway.Guard.{permanent, other}
use messaging_gateway.Accounts.{ChannelAccount}
use messaging_gateway.Pipeline.{accepts, ends_with_lid}
use messaging_gateway.Pipeline.Replay.{
  Look, lid_max_wait_ms, can_resolve_lids, keep, throws, judge, judge_lid, replay_rejection,
  resolve_lid_to_phone_jid, judges_conversations,
}

judge-keep :
    (account : ChannelAccount) (e e' : UnifiedEnvelope)
    → judge account e ≡ keep e'
    → accepts account e' ≡ true
unfolding judge
judge-keep account e e' =
    if-case (λ j. j ≡ keep e' → accepts account e' ≡ true) (accepts account e)
      (λ h k. ap (accepts account) (sym (cc k)) ∙ h) (λ h k. absurd (cc k))

judge_lid-keep :
    (account : ChannelAccount) (e e' : UnifiedEnvelope) (look : Look) (jid : Option String)
    → judge_lid account e look jid ≡ keep e'
    → accepts account e' ≡ true
unfolding judge_lid
judge_lid-keep account e e' look (some jid) h = judge-keep account _ e' h
judge_lid-keep account e e' look none h =
    if-case (λ j. j ≡ keep e' → accepts account e' ≡ true)
      (ltb lid_max_wait_ms (look.now - e.gateway.received_at)
        && can_resolve_lids account look.connected)
      {x = throws (permanent "its conversation is a LID still unresolved after 7 days")}
      {y = throws
        (other "its conversation is a LID that cannot be resolved yet, so it cannot be judged")}
      (λ c k. absurd (cc k)) (λ c k. absurd (cc k)) h

-- An entry of the failed log reaches the message log only if its account still exists and, once its LID
-- has been resolved where that account chooses among conversations, accepts the conversation.
pub replay_rejection-keep :
    (e e' : UnifiedEnvelope) (look : Look)
    → replay_rejection e look ≡ keep e'
    → (account : ChannelAccount) × (look.account ≡ some account) × (accepts account e' ≡ true)
unfolding replay_rejection judge_lid
replay_rejection-keep e e' look h = elim (Option-cases look.account) [
  | inl gone ↦ absurd (cc (rw gone at h))
  | inr (account, found) ↦ (
    account,
    found,
    if-case (λ j. j ≡ keep e' → accepts account e' ≡ true)
        (judges_conversations account && ends_with_lid e.conversation_id)
        {x = judge_lid account e look (resolve_lid_to_phone_jid look.resolved)}
        {y = judge account e}
        (λ c. judge_lid-keep account e e' look (resolve_lid_to_phone_jid look.resolved))
        (λ c. judge-keep account e e') (rw found at h),
  )
]
