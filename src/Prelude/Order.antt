-- ===== src/Prelude/Order.antt =====
-- Lists in the order of a number of their elements: `ORDER BY key ASC`.
use Prim.Native.Nat.{ℕ, suc, ◌≤◌, ◌<◌}
use mathlib.Core.Path.{◌≡◌, refl, ap, ◌∙◌}
use mathlib.Core.Logic.{◌≢◌, inl, inr}
use mathlib.Core.Bool.{Bool, ◌||◌}
use mathlib.Core.List.{List, [], ◌∷◌, ◌++◌}
use native.Mathlib.Omega.{arith}
use messaging_gateway.Prelude.Tests.{if◌then◌else◌, leb, if-case, Bool-cases}
use messaging_gateway.Prelude.Lists.{filter, length, All, any}

module _ {ℓ} {A : Type ℓ} (key : A → ℕ) where
  unfoldable pub insert_by : A → List A → List A
  insert_by r [] = r ∷ []
  insert_by r (x ∷ xs) =
      let rest = insert_by r xs in if leb (key r) (key x) then r ∷ x ∷ xs else x ∷ rest

  unfoldable pub sort_by : List A → List A
  sort_by [] = []
  sort_by (x ∷ xs) = insert_by x (sort_by xs)

  pub sort_by_nil : sort_by [] ≡ []
  unfolding sort_by
  sort_by_nil = refl

  abbrev pub Ascending : List A → Type 0
  Ascending [] = Unit
  Ascending (x ∷ xs) = All (λ y. key x ≤ key y) xs × Ascending xs

  abbrev pub Strict : List A → Type 0
  Strict [] = Unit
  Strict (x ∷ xs) = All (λ y. key x < key y) xs × Strict xs

  abbrev pub NoTies : List A → Type 0
  NoTies [] = Unit
  NoTies (x ∷ xs) = All (λ y. key x ≢ key y) xs × NoTies xs

  All-insert_by : (P : A → Type 0) (r : A) (xs : List A) → P r → All P xs → All P (insert_by r xs)
  unfolding insert_by
  All-insert_by P r [] p h = (p, tt)
  All-insert_by P r (x ∷ xs) p (q, h) =
      if-case (All P) (leb (key r) (key x)) (λ c. (p, (q, h))) (λ c. (q, All-insert_by P r xs p h))

  pub All-sort_by : (P : A → Type 0) (xs : List A) → All P xs → All P (sort_by xs)
  unfolding sort_by
  All-sort_by P [] h = tt
  All-sort_by P (x ∷ xs) (p, h) = All-insert_by P x (sort_by xs) p (All-sort_by P xs h)

  All-le : (a b : ℕ) (xs : List A) → a ≤ b → All (λ y. b ≤ key y) xs → All (λ y. a ≤ key y) xs
  All-le a b [] h k = tt
  All-le a b (x ∷ xs) h (p, k) = (omega (arith, h, p), All-le a b xs h k)

  pub All-lt : (a b : ℕ) (xs : List A) → a ≤ b → All (λ y. b < key y) xs → All (λ y. a < key y) xs
  All-lt a b [] h k = tt
  All-lt a b (x ∷ xs) h (p, k) = (omega (arith, h, p), All-lt a b xs h k)

  insert_by-Ascending : (r : A) (xs : List A) → Ascending xs → Ascending (insert_by r xs)
  unfolding insert_by
  insert_by-Ascending r [] h = (tt, tt)
  insert_by-Ascending r (x ∷ xs) (p, h) =
      if-case Ascending (leb (key r) (key x))
        (λ c.
          let le : key r ≤ key x = ground (arith, c) in
          ((le, All-le (key r) (key x) xs le p), (p, h)))
        (λ c.
          let le : key x ≤ key r = ground (arith, c) in
          (All-insert_by (λ y. key x ≤ key y) r xs le p, insert_by-Ascending r xs h))

  sort_by-Ascending : (xs : List A) → Ascending (sort_by xs)
  unfolding sort_by
  sort_by-Ascending [] = tt
  sort_by-Ascending (x ∷ xs) = insert_by-Ascending x (sort_by xs) (sort_by-Ascending xs)

  insert_by-Strict :
      (r : A) (xs : List A) → All (λ y. key r ≢ key y) xs → Strict xs → Strict (insert_by r xs)
  unfolding insert_by
  insert_by-Strict r [] n h = (tt, tt)
  insert_by-Strict r (x ∷ xs) (n, ns) (p, h) =
      if-case Strict (leb (key r) (key x))
        (λ c.
          let lt : key r < key x = ground (arith, c, n) in
          ((lt, All-lt (key r) (key x) xs (omega (arith, lt)) p), (p, h)))
        (λ c.
          let lt : key x < key r = ground (arith, c) in
          (All-insert_by (λ y. key x < key y) r xs lt p, insert_by-Strict r xs ns h))

  -- Where no two elements have the same key, the order is strict.
  pub sort_by-Strict : (xs : List A) → NoTies xs → Strict (sort_by xs)
  unfolding sort_by
  sort_by-Strict [] h = tt
  sort_by-Strict (x ∷ xs) (n, h) =
      insert_by-Strict x (sort_by xs) (All-sort_by (λ y. key x ≢ key y) xs n) (sort_by-Strict xs h)

  -- An element above all others goes to the end.
  insert_by-last :
      (r : A) (xs : List A) → All (λ y. key y < key r) xs → insert_by r xs ≡ xs ++ (r ∷ [])
  unfolding insert_by
  insert_by-last r [] h = refl
  insert_by-last r (x ∷ xs) (p, h) = ground (arith, p, insert_by-last r xs h)

  -- The greatest element is sorted to the end.
  pub sort_by-last :
      (r : A) (xs : List A)
      → All (λ y. key y < key r) xs
      → sort_by (r ∷ xs) ≡ sort_by xs ++ (r ∷ [])
  unfolding sort_by
  sort_by-last r xs h = insert_by-last r (sort_by xs) (All-sort_by (λ y. key y < key r) xs h)

  insert_by-first : (r : A) (xs : List A) → All (λ y. key r ≤ key y) xs → insert_by r xs ≡ r ∷ xs
  unfolding insert_by
  insert_by-first r [] h = refl
  insert_by-first r (x ∷ xs) (p, h) = ground (arith, p)

  All-keep : (P : A → Type 0) (q : A → Bool) (xs : List A) → All P xs → All P (filter q xs)
  All-keep P q [] h = tt
  All-keep P q (x ∷ xs) (p, h) =
      if-case (All P) (q x) (λ c. (p, All-keep P q xs h)) (λ c. All-keep P q xs h)

  -- A test lets an insertion through where it lets the element through.
  filter-insert_by :
      (q : A → Bool) (r : A) (xs : List A)
      → Ascending xs
      → filter q (insert_by r xs) ≡ (if q r then insert_by r (filter q xs) else filter q xs)
  unfolding insert_by
  filter-insert_by q r [] h = refl
  filter-insert_by q r (x ∷ xs) (p, h) = elim (Bool-cases (leb (key r) (key x))) [
    | inl c ↦
        let le : key r ≤ key x = ground (arith, c) in
        let first =
          insert_by-first r (filter q (x ∷ xs))
            (All-keep (λ y. key r ≤ key y) q (x ∷ xs) (le, All-le (key r) (key x) xs le p)) in
        rw (c, first) refl
    | inr c ↦
        let ih = filter-insert_by q r xs h in
        elim (Bool-cases (q r)) [
          | inl keep ↦ elim (Bool-cases (q x)) [
            | inl too ↦ simp (c, keep, too, ih)
            | inr not_x ↦ simp (c, keep, not_x, ih)
          ]
          | inr lose ↦ simp (c, lose, ih)
        ]
  ]

  pub filter-sort_by : (q : A → Bool) (xs : List A) → filter q (sort_by xs) ≡ sort_by (filter q xs)
  unfolding sort_by
  filter-sort_by q [] = refl
  filter-sort_by q (x ∷ xs) =
      let ih = filter-sort_by q xs in
      filter-insert_by q x (sort_by xs) (sort_by-Ascending xs)
      ∙ elim (Bool-cases (q x)) [ inl keep ↦ simp (keep, ih) | inr lose ↦ simp (lose, ih) ]

  length-insert_by : (r : A) (xs : List A) → length (insert_by r xs) ≡ suc (length xs)
  unfolding insert_by
  length-insert_by r [] = refl
  length-insert_by r (x ∷ xs) = ground (arith, length-insert_by r xs)

  pub length-sort_by : (xs : List A) → length (sort_by xs) ≡ length xs
  unfolding sort_by
  length-sort_by [] = refl
  length-sort_by (x ∷ xs) = omega (arith, length-insert_by x (sort_by xs), length-sort_by xs)

  any-insert_by : (q : A → Bool) (r : A) (xs : List A) → any q (insert_by r xs) ≡ (q r || any q xs)
  unfolding insert_by
  any-insert_by q r [] = refl
  any-insert_by q r (x ∷ xs) = ground (arith, any-insert_by q r xs)

  pub any-sort_by : (q : A → Bool) (xs : List A) → any q (sort_by xs) ≡ any q xs
  unfolding sort_by
  any-sort_by q [] = refl
  any-sort_by q (x ∷ xs) = any-insert_by q x (sort_by xs) ∙ ap (λ b. q x || b) (any-sort_by q xs)
