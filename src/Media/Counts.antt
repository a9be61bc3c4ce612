-- ===== src/Media/Counts.antt =====
-- core/inbound/media-service.ts: how many jobs hold a download slot and how many wait for one.
use messaging_gateway.Prelude.{
  ℕ, ◌+◌, String, Option, none, some, false, List, [], ◌∷◌, ◌++◌, ◌≡◌, refl, inl, inr, str_eq, any,
  All, eq_iff, arith, Bool-cases,
}
use messaging_gateway.Media.{
  Caller, within, last, unrestored, Stage, queued, downloading, writing, recording, pausing,
  looking, skipping, Job, stage_of, put, without,
}
use messaging_gateway.Media.Jobs.{stage_of-put_other, stage_of-without_other}

abbrev pub marks : Caller → ℕ
marks unrestored = 0
marks within = 1
marks last = 1

-- Whether a job at that stage has a download slot, and whether it waits for one.
abbrev pub holds : Stage → ℕ
holds (queued n) = 0
holds (pausing n) = 0
holds (looking reason caller n) = marks caller
holds (skipping reason caller n) = marks caller
holds (downloading n) = 1
holds (writing n) = 1
holds (recording n) = 1

abbrev pub waits : Stage → ℕ
waits (queued n) = 1
waits _ = 0

abbrev pub weight : (Stage → ℕ) → Option Stage → ℕ
weight f none = 0
weight f (some stage) = f stage

abbrev pub count : (Stage → ℕ) → List Job → ℕ
count f [] = 0
count f (j ∷ js) = f j.stage + count f js

pub count-put :
    (f : Stage → ℕ) (id : String) (stage : Stage) (js : List Job)
    → count f (put id stage js) + weight f (stage_of id js) ≡ count f js + f stage
unfolding stage_of put
count-put f id stage [] = omega arith
count-put f id stage (j ∷ js) = elim (Bool-cases (str_eq j.id id)) [
  | inl same ↦ rw same (omega arith)
  | inr other ↦ rw other (omega (arith, count-put f id stage js))
]

pub count-without :
    (f : Stage → ℕ) (id : String) (js : List Job)
    → count f (without id js) + weight f (stage_of id js) ≡ count f js
unfolding stage_of without
count-without f id [] = omega arith
count-without f id (j ∷ js) = elim (Bool-cases (str_eq j.id id)) [
  | inl same ↦ rw same (omega arith)
  | inr other ↦ rw other (omega (arith, count-without f id js))
]

-- The waiters: each is queued, and none waits twice.
abbrev pub Queue : List Job → List String → Type 0
Queue js waiting = All (λ x. weight waits (stage_of x js) ≡ 1) waiting

abbrev pub NoRepeat : List String → Type 0
NoRepeat [] = Unit
NoRepeat (x ∷ xs) = (any (str_eq x) xs ≡ false) × NoRepeat xs

apart :
    (id x : String) (js : List Job)
    → weight waits (stage_of id js) ≡ 0
    → weight waits (stage_of x js) ≡ 1
    → str_eq id x ≡ false
apart id x js h k = elim (Bool-cases (str_eq id x)) [
  | inl same ↦ absurd (omega (arith, rw ((eq_iff id x).0 same) at h, k))
  | inr differs ↦ differs
]

pub not_waiting :
    (id : String) (js : List Job) (xs : List String)
    → weight waits (stage_of id js) ≡ 0
    → Queue js xs
    → any (str_eq id) xs ≡ false
not_waiting id js [] h q = refl
not_waiting id js (x ∷ xs) h (k, q) = ground (arith, apart id x js h k, not_waiting id js xs h q)

pub put-Queue :
    (id : String) (stage : Stage) (js : List Job) (xs : List String)
    → any (str_eq id) xs ≡ false
    → Queue js xs
    → Queue (put id stage js) xs
put-Queue id stage js [] a q = tt
put-Queue id stage js (x ∷ xs) a (k, q) =
    let differs : str_eq id x ≡ false = ground arith in
    (rw (stage_of-put_other id x stage js differs) k, put-Queue id stage js xs (ground arith) q)

pub without-Queue :
    (id : String) (js : List Job) (xs : List String)
    → any (str_eq id) xs ≡ false
    → Queue js xs
    → Queue (without id js) xs
without-Queue id js [] a q = tt
without-Queue id js (x ∷ xs) a (k, q) =
    let differs : str_eq id x ≡ false = ground arith in
    (rw (stage_of-without_other id x js differs) k, without-Queue id js xs (ground arith) q)

differs_back : (x id : String) → str_eq id x ≡ false → str_eq x id ≡ false
differs_back x id h = ground (arith, eq_iff id x, eq_iff x id)

any-join :
    (id x : String) (xs : List String)
    → any (str_eq x) xs ≡ false
    → str_eq x id ≡ false
    → any (str_eq x) (xs ++ (id ∷ [])) ≡ false
any-join id x [] a b = ground arith
any-join id x (y ∷ xs) a b = ground (arith, any-join id x xs)

pub join-NoRepeat :
    (id : String) (xs : List String)
    → any (str_eq id) xs ≡ false
    → NoRepeat xs
    → NoRepeat (xs ++ (id ∷ []))
join-NoRepeat id [] a u = (refl, tt)
join-NoRepeat id (x ∷ xs) a (b, u) =
    (any-join id x xs b (differs_back x id (ground arith)), join-NoRepeat id xs (ground arith) u)

pub join-Queue :
    (js : List Job) (id : String) (xs : List String)
    → Queue js xs
    → weight waits (stage_of id js) ≡ 1
    → Queue js (xs ++ (id ∷ []))
join-Queue js id [] q k = (k, tt)
join-Queue js id (x ∷ xs) (h, q) k = (h, join-Queue js id xs q k)
