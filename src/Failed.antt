-- ===== src/Failed.antt =====
-- persistence/failed-inbound-file.ts: the file that keeps the inbound messages which the message
-- log would not take, one JSON entry to a line. Its content is a list of code points, so that a
-- line cut short by a crash is one too. Parsing a line and saving an entry are parameters: `parse`
-- is the file's `parseEntry` (`none` where it throws), and `save` is the callback of `replay`.
pub mod Lines
pub mod Replay
pub mod Outcome
mod Tests
use messaging_gateway.Prelude.{
  ℕ, zero, suc, ◌+◌, ◌-◌, String, Option, none, some, Bool, true, false, not, ◌&&◌, ◌||◌, List, [],
  ◌∷◌, ◌++◌, if◌then◌else◌, ◌==◌, leb, all, filter, length, drop,
}

abbrev pub Line : Type 0
Line = List ℕ

abbrev pub newline : ℕ
newline = 10

-- `endsCutShort`: a file that does not end in a line break.
unfoldable pub ends_cut_short : List ℕ → Bool
ends_cut_short [] = false
ends_cut_short (c ∷ []) = not (c == newline)
ends_cut_short (c ∷ d ∷ cs) = ends_cut_short (d ∷ cs)

-- `append`, of an entry that is serialised already.
unfoldable pub append : List ℕ → Line → List ℕ
append content line =
    if ends_cut_short content
    then content ++ (newline ∷ line ++ newline ∷ [])
    else content ++ (line ++ newline ∷ [])

-- `content.split('\n')`
unfoldable pub split_from : Line → List ℕ → List Line
split_from cur [] = cur ∷ []
split_from cur (c ∷ cs) =
    let next = split_from [] cs in
    let longer = split_from (cur ++ c ∷ []) cs in if c == newline then cur ∷ next else longer

-- What `trim` takes for white space.
unfoldable pub is_space : ℕ → Bool
is_space c =
    (leb 9 c && leb c 13)
    || c == 32
    || c == 160
    || c == 5760
    || (leb 8192 c && leb c 8202)
    || c == 8232
    || c == 8233
    || c == 8239
    || c == 8287
    || c == 12288
    || c == 65279

abbrev pub has_text : Line → Bool
has_text line = not (all is_space line)

-- `read`: the lines that are not blank. A file that is not there is empty.
unfoldable pub read : List ℕ → List Line
read content = filter has_text (split_from [] content)

-- `lines.map((line) => `${line}\n`).join('')`
unfoldable pub join_lines : List Line → List ℕ
join_lines [] = []
join_lines (l ∷ ls) = l ++ (newline ∷ join_lines ls)

-- `keepOnly`, given the file as it is by then; an empty file is one that was removed.
unfoldable pub keep_only : List Line → ℕ → List ℕ → List ℕ
keep_only lines replayed_size content = join_lines lines ++ drop replayed_size content

pub data SaveOutcome : Type 0 where
  accepted : SaveOutcome
  refused : String → SaveOutcome
  failed : SaveOutcome

pub record Sorted : Type 0 where
  pub kept : List Line
  pub rejected : List (Line × String)

module _ {S Entry : Type 0} (parse : Line → Option Entry) (save : S → Entry → S × SaveOutcome) where
  sort_entry : Line → SaveOutcome → Sorted → Sorted
  sort_entry line accepted r = r
  sort_entry line (refused reason) r = record r { rejected = (line, reason) ∷ r.rejected }
  sort_entry line failed r = record r { kept = line ∷ r.kept }

  -- The loop of `replayOnce`: what becomes of each line, and the state that the saves leave.
  unfoldable pub replay_lines : S → List Line → S × Sorted
  unfolding sort_entry
  replay_lines s [] = (s, record { kept = []; rejected = [] })
  replay_lines s (line ∷ lines) = elim (parse line) [
    | none ↦
        let (s', r) = replay_lines s lines in
        (s', record r { rejected = (line, "it cannot be read") ∷ r.rejected })
    | some entry ↦
        let (s', outcome) = save s entry in
        let (s'', r) = replay_lines s' lines in (s'', sort_entry line outcome r)
  ]

  -- `replayOnce` on a file that is `before` when it is read and `after` once the saves are done:
  -- the file it leaves, what it adds to the log of rejects, and the counts that it reports.
  pub record Replayed : Type 0 where
    pub state : S
    pub content : List ℕ
    pub rejects : List (Line × String)
    pub saved : ℕ
    pub kept : ℕ

  unfoldable pub replay_once : S → List ℕ → List ℕ → Replayed
  replay_once s before after =
      let (s', r) = replay_lines s (read before) in
      let saved = length (read before) - length r.kept - length r.rejected in
      record {
        state = s';
        content =
            if saved + length r.rejected == 0
            then after
            else keep_only r.kept (length before) after;
        rejects = r.rejected;
        saved = saved;
        kept = length r.kept;
      }
