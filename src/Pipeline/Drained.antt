-- ===== src/Pipeline/Drained.antt =====
-- core/inbound/inbound-pipeline.ts, drain: what a shutdown keeps for later.
use messaging_gateway.Prelude.{
  Bool, true, false, not, ◌&&◌, ◌||◌, List, [], ◌∷◌, ◌++◌, if◌then◌else◌, ◌≡◌, refl, ◌∙◌, All,
  filter,
}
use mathlib.Core.List.{map}
use messaging_gateway.Messages.{UnifiedEnvelope}
use messaging_gateway.Pipeline.{
  accepts, ends_with_lid, mark_media_pending, Effect, Deps, write_off, Left, drain_one, drain,
}
use messaging_gateway.Pipeline.Emission.{kept_of, kept_of-append}

abbrev pub must_keep : Left → Bool
must_keep l =
    (l.to_enrich && ends_with_lid l.envelope.conversation_id) || accepts l.account l.envelope

abbrev pub pending_left : Left → UnifiedEnvelope
pending_left l = mark_media_pending l.envelope

abbrev pub Writable : Left → Type 0
Writable l = l.append_succeeds ≡ true

write_off-kept :
    (deps : Deps) (ok : Bool) (e : UnifiedEnvelope)
    → deps.has_failed_log ≡ true
    → ok ≡ true
    → kept_of (write_off deps ok e) ≡ e ∷ []
unfolding write_off
write_off-kept deps ok e f w = simp (f, w)

either-kept :
    (u judged : Bool) (effects : List Effect) (e : UnifiedEnvelope)
    → kept_of effects ≡ e ∷ []
    → kept_of (if not u && not judged then [] else effects) ≡ (if u || judged then e ∷ [] else [])
either-kept true judged effects e h = h
either-kept false true effects e h = h
either-kept false false effects e h = refl

drain_one-kept :
    (deps : Deps) (l : Left)
    → deps.has_failed_log ≡ true
    → Writable l
    → kept_of (drain_one deps l) ≡ (if must_keep l then pending_left l ∷ [] else [])
unfolding drain_one
drain_one-kept deps l f w =
    either-kept (l.to_enrich && ends_with_lid l.envelope.conversation_id)
      (accepts l.account l.envelope) (write_off deps l.append_succeeds (pending_left l))
      (pending_left l) (write_off-kept deps l.append_succeeds (pending_left l) f w)

map-if :
    (b : Bool) (l : Left) (rest : List Left)
    → (if b then pending_left l ∷ [] else []) ++ map pending_left rest
      ≡ map pending_left (if b then l ∷ rest else rest)
map-if true l rest = refl
map-if false l rest = refl

-- A shutdown that runs out of its wait, with a failed log whose appends succeed, keeps every
-- message not stored by then, in their order, but for those of the conversations that their
-- accounts leave out; one whose LID was still to be resolved, which cannot be judged yet, is kept
-- as well.
pub drain-kept :
    (deps : Deps) (left : List Left)
    → deps.has_failed_log ≡ true
    → All Writable left
    → kept_of (drain deps left) ≡ map pending_left (filter must_keep left)
unfolding drain
drain-kept deps [] f w = refl
drain-kept deps (l ∷ left) f (w, ws) =
    kept_of-append (drain_one deps l) (drain deps left)
    ∙ rw (drain_one-kept deps l f w, drain-kept deps left f ws)
        (map-if (must_keep l) l (filter must_keep left))
