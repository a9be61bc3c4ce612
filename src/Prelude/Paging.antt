-- ===== src/Prelude/Paging.antt =====
-- The pages cut from a list, and from a list in strict order.
use Prim.Native.Nat.{ℕ, zero, suc, ◌≤◌, ◌<◌}
use mathlib.Core.Path.{◌≡◌, refl, ap, ◌∙◌, subst}
use mathlib.Core.Bool.{Bool, ◌||◌}
use mathlib.Core.Option.{Option, none, some}
use mathlib.Core.List.{List, [], ◌∷◌, ◌++◌}
use native.Mathlib.Omega.{arith}
use messaging_gateway.Prelude.Tests.{ltb}
use messaging_gateway.Prelude.Lists.{filter, take, drop, length, All, any}
use messaging_gateway.Prelude.Order.{Strict, All-lt}

module _ {ℓ} {A : Type ℓ} where
  abbrev pub last_of : List A → Option A
  last_of [] = none
  last_of (x ∷ []) = some x
  last_of (x ∷ y ∷ xs) = last_of (y ∷ xs)

  pub take-drop : (n : ℕ) (xs : List A) → take n xs ++ drop n xs ≡ xs
  take-drop zero xs = refl
  take-drop (suc n) [] = refl
  take-drop (suc n) (x ∷ xs) = ap (◌∷◌ x) (take-drop n xs)

  pub length-drop-lt : (n : ℕ) (xs : List A) → n < length xs → length (drop (suc n) xs) < length xs
  length-drop-lt n [] h = absurd (omega arith)
  length-drop-lt zero (x ∷ xs) h = omega arith
  length-drop-lt (suc n) (x ∷ xs) h = omega (arith, length-drop-lt n xs (omega arith))

  pub last_of-take-All :
      (P : A → Type 0) (n : ℕ) (xs : List A) (l : A) → All P xs → last_of (take n xs) ≡ some l → P l
  last_of-take-All P zero xs l h e = absurd (cc e)
  last_of-take-All P (suc n) [] l h e = absurd (cc e)
  last_of-take-All P (suc zero) (x ∷ xs) l (p, h) e = subst P (let q : x ≡ l = cc e in q) p
  last_of-take-All P (suc (suc n)) (x ∷ []) l (p, h) e = subst P (let q : x ≡ l = cc e in q) p
  last_of-take-All P (suc (suc n)) (x ∷ y ∷ xs) l (p, h) e =
      last_of-take-All P (suc n) (y ∷ xs) l h e

  pub take-take : (n : ℕ) (xs : List A) → take n (take (suc n) xs) ≡ take n xs
  take-take zero xs = refl
  take-take (suc n) [] = refl
  take-take (suc n) (x ∷ xs) = ap (◌∷◌ x) (take-take n xs)

  pub take_all : (n : ℕ) (xs : List A) → length xs ≤ n → take n xs ≡ xs
  take_all zero [] h = refl
  take_all (suc n) [] h = refl
  take_all zero (x ∷ xs) h = absurd (omega arith)
  take_all (suc n) (x ∷ xs) h = ap (◌∷◌ x) (take_all n xs (omega arith))

  pub length-take_le : (n : ℕ) (xs : List A) → ltb n (length (take (suc n) xs)) ≡ ltb n (length xs)
  length-take_le zero [] = refl
  length-take_le zero (x ∷ xs) = ground arith
  length-take_le (suc n) [] = refl
  length-take_le (suc n) (x ∷ xs) = ground (arith, length-take_le n xs)

  pub last_of-take :
      (n : ℕ) (xs : List A) → n < length xs → (x : A) × (last_of (take (suc n) xs) ≡ some x)
  last_of-take n [] h = absurd (omega arith)
  last_of-take zero (x ∷ xs) h = (x, refl)
  last_of-take (suc n) (x ∷ []) h = (x, refl)
  last_of-take (suc n) (x ∷ y ∷ xs) h = last_of-take n (y ∷ xs) (omega arith)

  pub join-All : (P : A → Type 0) (xs ys : List A) → All P xs → All P ys → All P (xs ++ ys)
  join-All P [] ys h k = k
  join-All P (x ∷ xs) ys (p, h) k = (p, join-All P xs ys h k)

  pub take-All : (P : A → Type 0) (n : ℕ) (xs : List A) → All P xs → All P (take n xs)
  take-All P zero xs h = tt
  take-All P (suc n) [] h = tt
  take-All P (suc n) (x ∷ xs) (p, h) = (p, take-All P n xs h)

  pub any-join : (q : A → Bool) (xs ys : List A) → any q (xs ++ ys) ≡ (any q xs || any q ys)
  any-join q [] ys = refl
  any-join q (x ∷ xs) ys = ground (arith, any-join q xs ys)

module _ {ℓ} {A : Type ℓ} (key : A → ℕ) where
  filter_above :
      (n : ℕ) (xs : List A) → All (λ y. n < key y) xs → filter (λ y. ltb n (key y)) xs ≡ xs
  filter_above n [] h = refl
  filter_above n (x ∷ xs) (p, h) = ground (arith, filter_above n xs h)

  below_last :
      (n : ℕ) (x l : A) (xs : List A)
      → All (λ y. key x < key y) xs
      → last_of (take (suc n) xs) ≡ some l
      → key x < key l
  below_last n x l [] h e = absurd (cc e)
  below_last zero x l (y ∷ ys) (p, h) e = let same : y ≡ l = cc e in omega (arith, p, ap key same)
  below_last (suc n) x l (y ∷ []) (p, h) e =
      let same : y ≡ l = cc e in omega (arith, p, ap key same)
  below_last (suc n) x l (y ∷ z ∷ ys) (p, h) e = below_last n x l (z ∷ ys) h e

  skipped :
      (n : ℕ) (x : A) (xs : List A)
      → key x ≤ n
      → filter (λ y. ltb n (key y)) (x ∷ xs) ≡ filter (λ y. ltb n (key y)) xs
  skipped n x xs h = ground arith

  -- What lies above the last element of a first page is the rest of the list.
  pub rest_of_page :
      (n : ℕ) (l : A) (xs : List A)
      → Strict key xs
      → last_of (take (suc n) xs) ≡ some l
      → filter (λ y. ltb (key l) (key y)) xs ≡ drop (suc n) xs
  rest_of_page n l [] s e = refl
  rest_of_page zero l (x ∷ xs) (p, s) e =
      let same : key x ≡ key l = ap key (let q : x ≡ l = cc e in q) in
      skipped (key l) x xs (omega (arith, same))
      ∙ filter_above (key l) xs (All-lt key (key l) (key x) xs (omega (arith, same)) p)
  rest_of_page (suc n) l (x ∷ []) (p, s) e =
      let same : key x ≡ key l = ap key (let q : x ≡ l = cc e in q) in
      skipped (key l) x [] (omega (arith, same))
  rest_of_page (suc n) l (x ∷ y ∷ xs) (p, s) e =
      let lt = below_last n x l (y ∷ xs) p e in
      let ih = rest_of_page n l (y ∷ xs) s e in skipped (key l) x (y ∷ xs) (omega (arith, lt)) ∙ ih

  -- Joining two lists in strict order, the second above a key that the first does not pass.
  pub join-Strict :
      (bound : ℕ) (xs ys : List A)
      → Strict key xs
      → Strict key ys
      → All (λ x. key x ≤ bound) xs
      → All (λ y. bound < key y) ys
      → Strict key (xs ++ ys)
  join-Strict bound [] ys s t h k = t
  join-Strict bound (x ∷ xs) ys (p, s) t (q, h) k = (
    join-All (λ y. key x < key y) xs ys p (All-lt key (key x) bound ys q k),
    join-Strict bound xs ys s t h k,
  )

  pub take-Strict : (n : ℕ) (xs : List A) → Strict key xs → Strict key (take n xs)
  take-Strict zero xs s = tt
  take-Strict (suc n) [] s = tt
  take-Strict (suc n) (x ∷ xs) (p, s) = (take-All (λ y. key x < key y) n xs p, take-Strict n xs s)

  pub page_below :
      (n : ℕ) (l : A) (xs : List A)
      → Strict key xs
      → last_of (take n xs) ≡ some l
      → All (λ x. key x ≤ key l) (take n xs)
  page_below zero l xs s e = tt
  page_below (suc n) l [] s e = tt
  page_below (suc zero) l (x ∷ xs) (p, s) e =
      let same : x ≡ l = cc e in (omega (arith, ap key same), tt)
  page_below (suc (suc n)) l (x ∷ []) (p, s) e =
      let same : x ≡ l = cc e in (omega (arith, ap key same), tt)
  page_below (suc (suc n)) l (x ∷ y ∷ xs) (p, s) e =
      let lt = below_last n x l (y ∷ xs) p e in
      (omega (arith, lt), page_below (suc n) l (y ∷ xs) s e)
