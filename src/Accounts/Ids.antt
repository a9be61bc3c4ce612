-- ===== src/Accounts/Ids.antt =====
-- infrastructure/config/in-memory-account.repository.ts: no two accounts share an id.
use messaging_gateway.Prelude.{
  String, Bool, true, false, List, [], ◌∷◌, ◌++◌, ◌≡◌, refl, arith, any, filter, Bool-cases, inl,
  inr, eq_iff, or-both, or-false_left, or-false_right,
}
use messaging_gateway.Accounts.{ChannelAccount}
use messaging_gateway.Accounts.Repository.{has_id, replace}

abbrev pub UniqueIds : List ChannelAccount → Type 0
UniqueIds [] = Unit
UniqueIds (a ∷ rest) = (any (has_id a.id) rest ≡ false) × UniqueIds rest

has_id_symm : (a b : ChannelAccount) → has_id a.id b ≡ false → has_id b.id a ≡ false
has_id_symm a b h = ground (arith, eq_iff a.id b.id, eq_iff b.id a.id)

pub append-UniqueIds :
    (accounts : List ChannelAccount) (a : ChannelAccount)
    → UniqueIds accounts
    → any (has_id a.id) accounts ≡ false
    → UniqueIds (accounts ++ a ∷ [])
append-UniqueIds [] a u h = (refl, tt)
append-UniqueIds (b ∷ rest) a (apart, u) h = (
  any-append (has_id b.id) rest a apart (has_id_symm a b (or-false_left _ _ h)),
  append-UniqueIds rest a u (or-false_right _ _ h),
)
  where
    any-append :
        (p : ChannelAccount → Bool) (xs : List ChannelAccount) (x : ChannelAccount)
        → any p xs ≡ false
        → p x ≡ false
        → any p (xs ++ x ∷ []) ≡ false
    any-append p [] x h k = or-both _ _ k refl
    any-append p (y ∷ ys) x h k =
        or-both _ _ (or-false_left _ _ h) (any-append p ys x (or-false_right _ _ h) k)

any-replace :
    (other id : String) (new : ChannelAccount) (accounts : List ChannelAccount)
    → has_id id new ≡ true
    → any (has_id other) accounts ≡ false
    → any (has_id other) (replace id new accounts) ≡ false
unfolding replace
any-replace other id new [] n h = h
any-replace other id new (a ∷ rest) n h = elim (Bool-cases (has_id id a)) [
  | inl here ↦
      rw (here, replace)
        (or-both (has_id other new) (any (has_id other) rest)
          (ground (arith, eq_iff new.id id, eq_iff a.id id, eq_iff a.id other, eq_iff new.id other))
          (or-false_right _ _ h))
  | inr there ↦
      rw (there, replace)
        (or-both _ _ (or-false_left _ _ h) (any-replace other id new rest n (or-false_right _ _ h)))
]

pub replace-UniqueIds :
    (id : String) (new : ChannelAccount) (accounts : List ChannelAccount)
    → has_id id new ≡ true
    → UniqueIds accounts
    → UniqueIds (replace id new accounts)
unfolding replace
replace-UniqueIds id new [] n u = u
replace-UniqueIds id new (a ∷ rest) n (apart, u) = elim (Bool-cases (has_id id a)) [
  | inl here ↦ rw (here, replace) (rw (same_id here) apart, u)
  | inr there ↦
      rw (there, replace) (any-replace a.id id new rest n apart, replace-UniqueIds id new rest n u)
]
  where
    same_id : has_id id a ≡ true → new.id ≡ a.id
    same_id h = ground (arith, eq_iff new.id id, eq_iff a.id id)

any-filter :
    (p q : ChannelAccount → Bool) (xs : List ChannelAccount)
    → any p xs ≡ false
    → any p (filter q xs) ≡ false
any-filter p q [] h = h
any-filter p q (x ∷ xs) h = ground (arith, any-filter p q xs)

pub filter-UniqueIds :
    (q : ChannelAccount → Bool) (accounts : List ChannelAccount)
    → UniqueIds accounts
    → UniqueIds (filter q accounts)
filter-UniqueIds q [] u = u
filter-UniqueIds q (a ∷ rest) (apart, u) = elim (Bool-cases (q a)) [
  | inl kept ↦ rw kept (any-filter (has_id a.id) q rest apart, filter-UniqueIds q rest u)
  | inr gone ↦ rw gone (filter-UniqueIds q rest u)
]
