-- ===== src/Accounts/Written.antt =====
-- infrastructure/config/in-memory-account.repository.ts: the file and the accounts in memory, and what a write of
-- the file does to them.
use messaging_gateway.Prelude.{
  map, str_mem, str_eq, if◌then◌else◌, sym, ◌∙◌, ◌||◌, String, Option, none, some, Bool, true,
  false, List, [], ◌∷◌, ◌≡◌, refl, Bool-cases, inl, inr, ◌⊎◌, eq_iff,
}
use messaging_gateway.Accounts.{ChannelAccount}
use messaging_gateway.Accounts.Repository.{
  Repository, SavedAccount, to_yaml, observed, has_id, commit, replace,
}
use messaging_gateway.Accounts.Ids.{UniqueIds, replace-UniqueIds}

-- The file lists the accounts in memory, in their order, and each is there as it is in memory, but for those marked.
abbrev pub Alike : List String → List SavedAccount → List ChannelAccount → Type 0
Alike marked [] [] = Unit
Alike marked (o ∷ old) (a ∷ as_) =
    (o.id ≡ a.id) × ((o ≡ to_yaml a) ⊎ (str_mem a.id marked ≡ true)) × Alike marked old as_
Alike marked _ _ = ⊥

-- There is no file, or it holds the accounts in memory.
abbrev pub Synced : List String → Repository → Type 0
Synced marked r =
    (r.file ≡ none)
    ⊎ ((old : List SavedAccount) × (r.file ≡ some old) × Alike marked old r.accounts)

pub record Sound (marked : List String) (r : Repository) : Type 0 where
  pub synced : Synced marked r
  pub unique : UniqueIds r.accounts

to_yaml-id : (a : ChannelAccount) → (to_yaml a).id ≡ a.id
unfolding to_yaml
to_yaml-id a = refl

Alike-map : (accounts : List ChannelAccount) → Alike [] (map to_yaml accounts) accounts
Alike-map [] = tt
Alike-map (a ∷ accounts) = (to_yaml-id a, inl refl, Alike-map accounts)

abbrev pub repository : List ChannelAccount → Option (List SavedAccount) → Repository
repository accounts file = record { accounts = accounts; file = file }

-- What a write leaves marked.
abbrev pub marks_after : Bool → List String → List String
marks_after wrote marked = if wrote then [] else marked

pub commit-Sound :
    {A : Type 0} (marked : List String) (old : List ChannelAccount)
    (file : Option (List SavedAccount)) (wrote : Bool) (accounts : List ChannelAccount) (result : A)
    → Sound marked (repository old file)
    → UniqueIds accounts
    → Sound (marks_after wrote marked) (commit (repository old file) wrote accounts result).0
unfolding commit
commit-Sound marked old none wrote accounts result s u = record { synced = inl refl; unique = u }
commit-Sound marked old (some f) true accounts result s u = record {
  synced = inr (map to_yaml accounts, refl, Alike-map accounts);
  unique = u;
}
commit-Sound marked old (some f) false accounts result s u = s

or_right : (b c : Bool) → c ≡ true → (b || c) ≡ true
or_right true c h = refl
or_right false c h = h

Alike-more :
    (id : String) (marked : List String) (old : List SavedAccount) (accounts : List ChannelAccount)
    → Alike marked old accounts
    → Alike (id ∷ marked) old accounts
Alike-more id marked [] [] h = tt
Alike-more id marked [] (a ∷ as_) h = absurd h
Alike-more id marked (o ∷ old) [] h = absurd h
Alike-more id marked (o ∷ old) (a ∷ as_) (e, k, h) = (
  e,
  elim k [ inl same ↦ inl same | inr m ↦ inr (or_right (str_eq id a.id) _ m) ],
  Alike-more id marked old as_ h,
)

Alike-replace :
    (id : String) (new : ChannelAccount) (marked : List String) (old : List SavedAccount)
    (accounts : List ChannelAccount)
    → new.id ≡ id
    → Alike marked old accounts
    → Alike (id ∷ marked) old (replace id new accounts)
unfolding replace
Alike-replace id new marked [] [] n h = tt
Alike-replace id new marked [] (a ∷ as_) n h = absurd h
Alike-replace id new marked (o ∷ old) [] n h = absurd h
Alike-replace id new marked (o ∷ old) (a ∷ as_) n (e, k, h) = elim (Bool-cases (has_id id a)) [
  | inl there ↦
      let same : a.id ≡ id = (eq_iff a.id id).0 there in
      let mine : str_eq id new.id ≡ true = (eq_iff id new.id).1 (sym n) in
      rw (there, replace) (e ∙ same ∙ sym n, inr (rw mine refl), Alike-more id marked old as_ h)
  | inr other ↦
      rw (other, replace)
        (
          e,
          elim k [ inl same ↦ inl same | inr m ↦ inr (or_right (str_eq id a.id) _ m) ],
          Alike-replace id new marked old as_ n h,
        )
]

pub observed-Sound :
    (id : String) (new : ChannelAccount) (marked : List String) (old : List ChannelAccount)
    (file : Option (List SavedAccount)) (wrote : Bool)
    → new.id ≡ id
    → Sound marked (repository old file)
    → Sound
        (marks_after wrote (id ∷ marked))
        (observed (repository old file) wrote (replace id new old))
unfolding observed
observed-Sound id new marked old none wrote n s = record {
  synced = inl refl;
  unique = replace-UniqueIds id new old ((eq_iff new.id id).1 n) s.unique;
}
observed-Sound id new marked old (some f) true n s = record {
  synced = inr (map to_yaml (replace id new old), refl, Alike-map (replace id new old));
  unique = replace-UniqueIds id new old ((eq_iff new.id id).1 n) s.unique;
}
observed-Sound id new marked old (some f) false n s = record {
  synced = elim s.synced [
    | inl missing ↦ absurd (cc missing)
    | inr (g, is, alike) ↦
        let same : g ≡ f = cc is in
        inr (f, refl, Alike-replace id new marked f old n (rw same at alike))
  ];
  unique = replace-UniqueIds id new old ((eq_iff new.id id).1 n) s.unique;
}
