-- ===== src/Media/Jobs.antt =====
-- core/inbound/media-service.ts: looking up, putting and dropping the job of a media.
use messaging_gateway.Prelude.{
  String, none, some, false, List, [], ◌∷◌, ◌≡◌, refl, inl, inr, str_eq, eq_iff, arith, Bool-cases,
  str_eq_refl, ◌∙◌,
}
use messaging_gateway.Media.{Stage, Job, stage_of, put, without}

pub stage_of-put :
    (id : String) (stage : Stage) (js : List Job) → stage_of id (put id stage js) ≡ some stage
unfolding stage_of put
stage_of-put id stage [] = ground (arith, str_eq_refl id)
stage_of-put id stage (j ∷ js) = ground (arith, stage_of-put id stage js)

pub stage_of-put_other :
    (id other : String) (stage : Stage) (js : List Job)
    → str_eq id other ≡ false
    → stage_of other (put id stage js) ≡ stage_of other js
unfolding stage_of put
stage_of-put_other id other stage [] h = ground (arith)
stage_of-put_other id other stage (j ∷ js) h = ground (
  arith,
  stage_of-put_other id other stage js h,
  eq_iff j.id id,
  eq_iff j.id other,
  eq_iff id other,
)

pub stage_of-without_other :
    (id other : String) (js : List Job)
    → str_eq id other ≡ false
    → stage_of other (without id js) ≡ stage_of other js
unfolding stage_of without
stage_of-without_other id other [] h = refl
stage_of-without_other id other (j ∷ js) h = ground (
  arith,
  stage_of-without_other id other js h,
  eq_iff j.id id,
  eq_iff j.id other,
  eq_iff id other,
)

-- No media has two jobs.
abbrev pub Unique : List Job → Type 0
Unique [] = Unit
Unique (j ∷ js) = (stage_of j.id js ≡ none) × Unique js

pub stage_of-without :
    (id : String) (js : List Job) → Unique js → stage_of id (without id js) ≡ none
unfolding stage_of without
stage_of-without id [] u = refl
stage_of-without id (j ∷ js) (apart, u) = elim (Bool-cases (str_eq j.id id)) [
  | inl same ↦ rw same (rw ((eq_iff j.id id).0 same) at apart)
  | inr other ↦ rw (other, other) (stage_of-without id js u)
]

without-absent :
    (id other : String) (js : List Job)
    → stage_of other js ≡ none
    → stage_of other (without id js) ≡ none
unfolding stage_of without
without-absent id other [] h = refl
without-absent id other (j ∷ js) h = ground (arith, without-absent id other js)

pub put-Unique :
    (id : String) (stage : Stage) (js : List Job) → Unique js → Unique (put id stage js)
unfolding stage_of put
put-Unique id stage [] u = (refl, tt)
put-Unique id stage (j ∷ js) (apart, u) = elim (Bool-cases (str_eq j.id id)) [
  | inl same ↦ rw same (apart, u)
  | inr other ↦ rw other (
    stage_of-put_other id j.id stage js (ground (arith, eq_iff j.id id, eq_iff id j.id)) ∙ apart,
    put-Unique id stage js u,
  )
]

pub without-Unique : (id : String) (js : List Job) → Unique js → Unique (without id js)
unfolding without
without-Unique id [] u = tt
without-Unique id (j ∷ js) (apart, u) = elim (Bool-cases (str_eq j.id id)) [
  | inl same ↦ rw same u
  | inr other ↦ rw other (without-absent id j.id js apart, without-Unique id js u)
]
