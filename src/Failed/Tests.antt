-- ===== src/Failed/Tests.antt =====
-- The failed log at concrete files: `1` and `2` are the lines that hold these code points.

use messaging_gateway.Prelude.{
  ℕ, Option, none, some, List, [], ◌∷◌, ◌++◌, ◌≡◌, refl, length, ◌==◌, if◌then◌else◌,
}
use messaging_gateway.Failed.{
  Line, append, read, keep_only, SaveOutcome, accepted, refused, failed, replay_once,
}
use messaging_gateway.Failed.Lines.{IsEntry, read-append}
use messaging_gateway.Failed.Replay.{append_all, verdicts, kept_of, refused_of, accepted_of}
use messaging_gateway.Failed.Outcome.{replay_once-verdicts}

abbrev line_a : Line
line_a = 123 ∷ 65 ∷ 125 ∷ []

abbrev line_b : Line
line_b = 123 ∷ 66 ∷ 125 ∷ []

-- The last line was cut short.
abbrev file : List ℕ
file = line_a ++ 10 ∷ 123 ∷ []

line_b-IsEntry : IsEntry line_b
unfolding messaging_gateway.Failed.is_space
line_b-IsEntry = ((refl, (refl, (refl, tt))), refl)

read_cut : read file ≡ line_a ∷ (123 ∷ []) ∷ []
unfolding read messaging_gateway.Failed.split_from messaging_gateway.Failed.is_space
read_cut = refl

read-append_example : read (append file line_b) ≡ read file ++ line_b ∷ []
read-append_example = read-append file line_b line_b-IsEntry

-- Every line but a whole entry is unreadable, and the store is failing.
abbrev parse : Line → Option Line
parse line = if length line == 3 then some line else none

abbrev save : ℕ → Line → ℕ × SaveOutcome
save n line = (n, failed)

replay_once-verdicts_example :
    let r = replay_once parse save 0 file (append_all file (line_b ∷ [])) in
    let v = verdicts parse save 0 (read file) in
    (read r.content ≡ kept_of v ++ line_b ∷ [])
    × (r.rejects ≡ refused_of v)
    × (r.saved ≡ length (accepted_of v))
    × (r.kept ≡ length (kept_of v))
replay_once-verdicts_example =
    replay_once-verdicts parse save 0 file (line_b ∷ []) (line_b-IsEntry, tt)
