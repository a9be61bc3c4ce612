-- ===== src/Failed/Outcome.antt =====
-- persistence/failed-inbound-file.ts, replayOnce: no entry is lost by a replay and none comes back.
use messaging_gateway.Prelude.{
  ℕ, ◌+◌, ◌-◌, Option, List, [], ◌∷◌, ◌++◌, ◌==◌, ◌≡◌, refl, sym, ◌∙◌, ap, arith, length, All,
  Bool-cases, Option-cases, inl, inr, ==_iff,
}
use mathlib.Core.List.{append_assoc, append-nil}
use messaging_gateway.Failed.{
  Line, append, read, SaveOutcome, accepted, refused, failed, replay_lines, replay_once,
}
use messaging_gateway.Failed.Lines.{IsEntry, read-IsEntry, read-keep_only, read-append}
use messaging_gateway.Failed.Replay.{
  append_all, append_all-arrived, verdicts, kept_of, refused_of, accepted_of, replay_lines-verdicts,
  verdicts_total,
}

kept_cons-All :
    (P : Line → Type 0) (line : Line) (o : SaveOutcome) (v : List (Line × SaveOutcome))
    → P line
    → All P (kept_of v)
    → All P (kept_of ((line, o) ∷ v))
kept_cons-All P line accepted v p h = h
kept_cons-All P line (refused x) v p h = h
kept_cons-All P line failed v p h = (p, h)

kept_cons-all :
    (line : Line) (o : SaveOutcome) (v : List (Line × SaveOutcome)) (lines : List Line)
    → (length (accepted_of v) + length (refused_of v) ≡ 0 → kept_of v ≡ lines)
    → length (accepted_of ((line, o) ∷ v)) + length (refused_of ((line, o) ∷ v)) ≡ 0
    → kept_of ((line, o) ∷ v) ≡ line ∷ lines
kept_cons-all line accepted v lines ih h = absurd (omega arith)
kept_cons-all line (refused x) v lines ih h = absurd (omega arith)
kept_cons-all line failed v lines ih h = ap (◌∷◌ line) (ih h)

read-append_all :
    (content : List ℕ) (lines : List Line)
    → All IsEntry lines
    → read (append_all content lines) ≡ read content ++ lines
unfolding append_all
read-append_all content [] h = sym (append-nil (read content))
read-append_all content (line ∷ lines) (e, h) =
    read-append_all (append content line) lines h
    ∙ rw (read-append content line e) (append_assoc (read content) (line ∷ []) lines)

module _ {S Entry : Type 0} (parse : Line → Option Entry) (save : S → Entry → S × SaveOutcome) where
  kept_of-All :
      (P : Line → Type 0) (s : S) (lines : List Line)
      → All P lines
      → All P (kept_of (verdicts parse save s lines))
  unfolding verdicts
  kept_of-All P s [] h = h
  kept_of-All P s (line ∷ lines) (p, h) = elim (Option-cases (parse line)) [
    | inl e ↦ rw (e, verdicts) (kept_of-All P s lines h)
    | inr (entry, e) ↦
        rw (e, verdicts)
          (kept_cons-All P line (save s entry).1 _ p (kept_of-All P (save s entry).0 lines h))
  ]

  kept_of-all :
      (s : S) (lines : List Line)
      → length (accepted_of (verdicts parse save s lines))
          + length (refused_of (verdicts parse save s lines))
        ≡ 0
      → kept_of (verdicts parse save s lines) ≡ lines
  unfolding verdicts
  kept_of-all s [] h = refl
  kept_of-all s (line ∷ lines) h = elim (Option-cases (parse line)) [
    | inl e ↦ absurd (omega (arith, rw (e, verdicts) at h))
    | inr (entry, e) ↦
        rw (e, verdicts)
          (kept_cons-all line (save s entry).1 (verdicts parse save (save s entry).0 lines) lines
            (kept_of-all (save s entry).0 lines) (rw (e, verdicts) at h))
  ]

  content_lem :
      (s : S) (before : List ℕ) (new : List Line)
      → All IsEntry new
      → read (replay_once parse save s before (append_all before new)).content
        ≡ kept_of (verdicts parse save s (read before)) ++ new
  unfolding replay_once
  content_lem s before new h =
      let (kept, rejected) = replay_lines-verdicts parse save s (read before) in
      let total = verdicts_total parse save s (read before) in
      let r = (replay_lines parse save s (read before)).1 in
      let saved = length (read before) - length r.kept - length r.rejected in
      let (arrived, eq, back) = append_all-arrived before new h in
      elim (Bool-cases (saved + length r.rejected == 0)) [
        | inl idle ↦
            let none_gone = (==_iff (saved + length r.rejected) 0).0 idle in
            rw idle (
              read-append_all before new h
              ∙ ap (λ l. l ++ new)
                  (sym (
                    kept_of-all s (read before)
                      (omega (arith, none_gone, total, ap length kept, ap length rejected)))))
        | inr some_gone ↦
            rw (some_gone, eq)
              (read-keep_only r.kept before arrived
                  (rw kept (kept_of-All IsEntry s (read before) (read-IsEntry before)))
                ∙ rw (kept, back))
      ]

  -- After a replay, while which only whole entries are appended, the file holds, in their order,
  -- exactly the entries whose save failed for now and then those that were appended; the log of
  -- rejects gets exactly the lines that were refused for good or cannot be read; and the counts
  -- reported are those of the verdicts.
  pub replay_once-verdicts :
      (s : S) (before : List ℕ) (new : List Line)
      → All IsEntry new
      → let r = replay_once parse save s before (append_all before new) in
        let v = verdicts parse save s (read before) in
        (read r.content ≡ kept_of v ++ new)
        × (r.rejects ≡ refused_of v)
        × (r.saved ≡ length (accepted_of v))
        × (r.kept ≡ length (kept_of v))
  unfolding replay_once
  replay_once-verdicts s before new h =
      let (kept, rejected) = replay_lines-verdicts parse save s (read before) in
      let total = verdicts_total parse save s (read before) in
      (
        content_lem s before new h,
        rejected,
        omega (arith, total, ap length kept, ap length rejected),
        ap length kept,
      )
