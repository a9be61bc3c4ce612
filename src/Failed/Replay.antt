-- ===== src/Failed/Replay.antt =====
-- persistence/failed-inbound-file.ts, replayOnce: what a replay does to the file, with entries
-- appended while it runs.
use messaging_gateway.Prelude.{
  ℕ, suc, ◌+◌, String, Option, none, some, List, [], ◌∷◌, ◌++◌, if◌then◌else◌, ◌≡◌, refl, sym, ◌∙◌,
  ap, arith, length, All, Bool-cases, Option-cases, inl, inr,
}
use mathlib.Core.List.{append_assoc, append-nil}
use messaging_gateway.Failed.{
  Line, newline, ends_cut_short, append, read, SaveOutcome, accepted, refused, failed, Sorted,
  replay_lines, sort_entry,
}
use messaging_gateway.Failed.Lines.{IsEntry, texts-line, texts-break, texts-nil, read-eq}

unfoldable pub append_all : List ℕ → List Line → List ℕ
append_all content [] = content
append_all content (line ∷ lines) = append_all (append content line) lines

-- What an append adds to the file.
added : List ℕ → Line → List ℕ → List ℕ
added content line rest =
    if ends_cut_short content then newline ∷ line ++ newline ∷ rest else line ++ newline ∷ rest

append-eq :
    (content : List ℕ) (line : Line) (rest : List ℕ)
    → append content line ++ rest ≡ content ++ added content line rest
unfolding append added
append-eq content line rest = elim (Bool-cases (ends_cut_short content)) [
  | inl cut ↦ rw (cut, append) (simp append_assoc)
  | inr whole ↦ rw (whole, append) (simp append_assoc)
]

read-added :
    (content : List ℕ) (line : Line) (rest : List ℕ)
    → IsEntry line
    → read (added content line rest) ≡ line ∷ read rest
unfolding added
read-added content line rest e = elim (Bool-cases (ends_cut_short content)) [
  | inl cut ↦ rw cut (
      read-eq _
      ∙ texts-break [] [] (line ++ newline ∷ rest)
      ∙ rw (texts-nil, texts-line line rest e, read-eq))
  | inr whole ↦ rw whole (read-eq _ ∙ texts-line line rest e ∙ rw read-eq)
]

pub append_all-arrived :
    (before : List ℕ) (lines : List Line)
    → All IsEntry lines
    → (arrived : List ℕ) × (append_all before lines ≡ before ++ arrived) × (read arrived ≡ lines)
unfolding append_all
append_all-arrived before [] h = ([], sym (append-nil before), read-eq [] ∙ texts-nil)
append_all-arrived before (line ∷ lines) (e, h) =
    let (arrived, eq, back) = append_all-arrived (append before line) lines h in
    (
      added before line arrived,
      eq ∙ append-eq before line arrived,
      read-added before line arrived e ∙ ap (◌∷◌ line) back,
    )

abbrev pub kept_of : List (Line × SaveOutcome) → List Line
kept_of [] = []
kept_of ((line, failed) ∷ v) = line ∷ kept_of v
kept_of (_ ∷ v) = kept_of v

abbrev pub refused_of : List (Line × SaveOutcome) → List (Line × String)
refused_of [] = []
refused_of ((line, refused reason) ∷ v) = (line, reason) ∷ refused_of v
refused_of (_ ∷ v) = refused_of v

abbrev pub accepted_of : List (Line × SaveOutcome) → List Line
accepted_of [] = []
accepted_of ((line, accepted) ∷ v) = line ∷ accepted_of v
accepted_of (_ ∷ v) = accepted_of v

one_more :
    (line : Line) (o : SaveOutcome) (v : List (Line × SaveOutcome)) (n : ℕ)
    → length (kept_of v) + length (refused_of v) + length (accepted_of v) ≡ n
    → length (kept_of ((line, o) ∷ v))
        + length (refused_of ((line, o) ∷ v))
        + length (accepted_of ((line, o) ∷ v))
      ≡ suc n
one_more line accepted v n h = omega arith
one_more line (refused x) v n h = omega arith
one_more line failed v n h = omega arith

module _ {S Entry : Type 0} (parse : Line → Option Entry) (save : S → Entry → S × SaveOutcome) where
  -- The verdict on each line, in order: a line that cannot be read is refused.
  unfoldable pub verdicts : S → List Line → List (Line × SaveOutcome)
  verdicts s [] = []
  verdicts s (line ∷ lines) = elim (parse line) [
    | none ↦ (line, refused "it cannot be read") ∷ verdicts s lines
    | some entry ↦ (line, (save s entry).1) ∷ verdicts (save s entry).0 lines
  ]

  sort_entry-kept :
      (line : Line) (o : SaveOutcome) (r : Sorted) (v : List (Line × SaveOutcome))
      → r.kept ≡ kept_of v
      → r.rejected ≡ refused_of v
      → ((sort_entry parse save line o r).kept ≡ kept_of ((line, o) ∷ v))
        × ((sort_entry parse save line o r).rejected ≡ refused_of ((line, o) ∷ v))
  unfolding sort_entry
  sort_entry-kept line accepted r v h k = (h, k)
  sort_entry-kept line (refused x) r v h k = (h, ap (◌∷◌ (line, x)) k)
  sort_entry-kept line failed r v h k = (ap (◌∷◌ line) h, k)

  pub replay_lines-verdicts :
      (s : S) (lines : List Line)
      → ((replay_lines parse save s lines).1.kept ≡ kept_of (verdicts s lines))
        × ((replay_lines parse save s lines).1.rejected ≡ refused_of (verdicts s lines))
  unfolding replay_lines verdicts
  replay_lines-verdicts s [] = (refl, refl)
  replay_lines-verdicts s (line ∷ lines) = elim (Option-cases (parse line)) [
    | inl none_ ↦
        let (kept, rejected) = replay_lines-verdicts s lines in
        (
          rw (none_, replay_lines, verdicts) kept,
          rw (none_, replay_lines, verdicts) (ap (◌∷◌ (line, "it cannot be read")) rejected),
        )
    | inr (entry, e) ↦
        let (kept, rejected) = replay_lines-verdicts (save s entry).0 lines in
        let both =
          sort_entry-kept line (save s entry).1 (replay_lines parse save (save s entry).0 lines).1
            (verdicts (save s entry).0 lines) kept rejected in
        (rw (e, replay_lines, verdicts) both.0, rw (e, replay_lines, verdicts) both.1)
  ]

  -- Every line has one verdict, so the three lists add up to the lines.
  pub verdicts_total :
      (s : S) (lines : List Line)
      → length (kept_of (verdicts s lines))
          + length (refused_of (verdicts s lines))
          + length (accepted_of (verdicts s lines))
        ≡ length lines
  unfolding verdicts
  verdicts_total s [] = omega arith
  verdicts_total s (line ∷ lines) = elim (Option-cases (parse line)) [
    | inl none_ ↦ rw (none_, verdicts) (omega (arith, verdicts_total s lines))
    | inr (entry, e) ↦
        rw (e, verdicts)
          (one_more line (save s entry).1 (verdicts (save s entry).0 lines) (length lines)
            (verdicts_total (save s entry).0 lines))
  ]
