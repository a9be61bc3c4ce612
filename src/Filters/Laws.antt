-- ===== src/Filters/Laws.antt =====
-- core/filters/envelope-filter.ts: what a filter lets through.
use mathlib.Core.List.{Memᴰ}
use mathlib.Core.List.Memᴰ.{head, tail}
use messaging_gateway.Prelude.{
  ap, Option, none, ◌⊎◌, inl, inr, any, Bool-cases, eq_iff, arith, sym, ◌∙◌, String, some, Bool,
  true, false, not, List, [], ◌∷◌, if◌then◌else◌, ◌≡◌, refl, ◌↔◌, All,
}
use messaging_gateway.Filters.{
  View, FilterValue, EnvelopeFilter, matches_filter, field_matches, all_included, none_excluded,
  direction_fits, Primitive, text, number, boolean, primitive, array, object, nullish,
  same_primitive, bool_eq, expected_array, primitive_equals, matches_value, get_nested_value,
  is_from_me,
}

both_iff :
    {P Q : Type 0}
    → (b c : Bool) → ((b ≡ true) ↔ P)
    → ((c ≡ true) ↔ Q)
    → ((if not b then false else c) ≡ true) ↔ (P × Q)
both_iff true c p q = (λ h. (p.0 refl, q.0 h), λ x. q.1 x.1)
both_iff false c p q = (λ h. absurd (cc h), λ x. p.1 x.0)

any_iff :
    {A : Type 0}
    → (p : A → Bool) (xs : List A) → (any p xs ≡ true) ↔ ((x : A) × Memᴰ x xs × (p x ≡ true))
any_iff {A = A} p xs = (found xs, λ (x, m, h). holds xs x m h)
  where
    found : (ys : List A) → any p ys ≡ true → (x : A) × Memᴰ x ys × (p x ≡ true)
    found [] h = absurd (cc h)
    found (y ∷ ys) h = elim (Bool-cases (p y)) [
      | inl it ↦ (y, head refl, it)
      | inr not_it ↦ let (x, m, k) = found ys (ground (arith, h, not_it)) in (x, tail m, k)
    ]

    holds : (ys : List A) (x : A) → Memᴰ x ys → p x ≡ true → any p ys ≡ true
    holds [] x m h = elim m [ ]
    holds (y ∷ ys) x (head e) h = ground (arith, rw e at h)
    holds (y ∷ ys) x (tail m) h = ground (arith, holds ys x m h)

bool_eq_iff : (a b : Bool) → (bool_eq a b ≡ true) ↔ (a ≡ b)
bool_eq_iff true b = (λ h. sym h, λ h. sym h)
bool_eq_iff false true = (λ h. absurd (cc h), λ h. absurd (cc h))
bool_eq_iff false false = (λ h. refl, λ h. refl)

same_primitive_iff : (a b : Primitive) → (same_primitive a b ≡ true) ↔ (a ≡ b)
same_primitive_iff (text a) (text b) = (λ h. ap text ((eq_iff a b).0 h), λ h. (eq_iff a b).1 (cc h))
same_primitive_iff (number a) (number b) =
    (λ h. ap number ((eq_iff a b).0 h), λ h. (eq_iff a b).1 (cc h))
same_primitive_iff (boolean a) (boolean b) =
    (λ h. ap boolean ((bool_eq_iff a b).0 h), λ h. (bool_eq_iff a b).1 (cc h))
same_primitive_iff (text a) (number b) = (λ h. absurd (cc h), λ h. absurd (cc h))
same_primitive_iff (text a) (boolean b) = (λ h. absurd (cc h), λ h. absurd (cc h))
same_primitive_iff (number a) (text b) = (λ h. absurd (cc h), λ h. absurd (cc h))
same_primitive_iff (number a) (boolean b) = (λ h. absurd (cc h), λ h. absurd (cc h))
same_primitive_iff (boolean a) (text b) = (λ h. absurd (cc h), λ h. absurd (cc h))
same_primitive_iff (boolean a) (number b) = (λ h. absurd (cc h), λ h. absurd (cc h))

-- The value is one of the texts, numbers and booleans that are expected.
abbrev pub Expected : {V : Type 0} → (V → View V) → List Primitive → V → Type 0
Expected look ps v = (p : Primitive) × Memᴰ p ps × (look v ≡ primitive p)

-- The value is one of those expected, or an array of which an item is.
abbrev pub Matches : {V : Type 0} → (V → View V) → List Primitive → V → Type 0
Matches {V} look ps v =
    Expected look ps v
    ⊎ ((items : List V) × (look v ≡ array items)
        × (item : V) × Memᴰ item items
        × Expected look ps item)

module _ {V : Type 0} (look : V → View V) (get : V → String → V) (undefined : V) where
  expected-look :
      (v : V) (p : Primitive) (w : View V)
      → look v ≡ w
      → (primitive_equals look get undefined v p ≡ true) ↔ (w ≡ primitive p)
  unfolding primitive_equals
  expected-look v p nullish e = rw (primitive_equals, e) (λ h. absurd (cc h), λ h. absurd (cc h))
  expected-look v p (array items) e =
      rw (primitive_equals, e) (λ h. absurd (cc h), λ h. absurd (cc h))
  expected-look v p object e = rw (primitive_equals, e) (λ h. absurd (cc h), λ h. absurd (cc h))
  expected-look v p (primitive q) e =
      rw (primitive_equals, e)
        (λ h. ap primitive ((same_primitive_iff q p).0 h), λ h. (same_primitive_iff q p).1 (cc h))

  any-Expected :
      (v : V) (ps : List Primitive)
      → (any (primitive_equals look get undefined v) ps ≡ true) ↔ Expected look ps v
  any-Expected v ps =
      let both = any_iff (primitive_equals look get undefined v) ps in
      (
        λ h. let (p, m, k) = both.0 h in (p, m, (expected-look v p (look v) refl).0 k),
        λ (p, m, k). both.1 (p, m, (expected-look v p (look v) refl).1 k),
      )

  -- A value that is no array.
  lone_iff :
      (v : V) (f : FilterValue)
      → matches_value look get undefined v f
        ≡ any (primitive_equals look get undefined v) (expected_array f)
      → ((items : List V) → ¬ (look v ≡ array items))
      → (matches_value look get undefined v f ≡ true) ↔ Matches look (expected_array f) v
  lone_iff v f e lone =
      let both = any-Expected v (expected_array f) in
      (
        λ h. inl (both.0 (sym e ∙ h)),
        λ h. elim h [
          | inl expected ↦ e ∙ both.1 expected
          | inr (items, is, item, m, k) ↦ absurd (lone items is)
        ],
      )

  matches_value_iff :
      (v : V) (f : FilterValue) (w : View V)
      → look v ≡ w
      → (matches_value look get undefined v f ≡ true) ↔ Matches look (expected_array f) v
  unfolding matches_value
  matches_value_iff v f nullish e =
      lone_iff v f (rw (matches_value, e) refl) (λ items is. absurd (cc (sym e ∙ is)))
  matches_value_iff v f (primitive q) e =
      lone_iff v f (rw (matches_value, e) refl) (λ items is. absurd (cc (sym e ∙ is)))
  matches_value_iff v f object e =
      lone_iff v f (rw (matches_value, e) refl) (λ items is. absurd (cc (sym e ∙ is)))
  matches_value_iff v f (array items) e =
      let ps = expected_array f in
      let both = any_iff (λ a. any (primitive_equals look get undefined a) ps) items in
      rw (matches_value, e)
        (
          λ h.
              let (item, m, k) = both.0 h in inr (items, refl, item, m, (any-Expected item ps).0 k),
          λ h. elim h [
            | inl (p, m, k) ↦ absurd (cc k)
            | inr (others, is, item, m, k) ↦
                let same : others ≡ items = cc is in
                both.1 (item, rw same at m, (any-Expected item ps).1 k)
          ],
        )

not_iff : {P : Type 0} → (b : Bool) → ((b ≡ true) ↔ P) → (not b ≡ true) ↔ (¬ P)
not_iff true h = (λ e. absurd (cc e), λ n. absurd (n (h.0 refl)))
not_iff false h = (λ e p. absurd (cc (h.1 p)), λ n. refl)

if_not : (b c : Bool) → (if not (not b) then false else c) ≡ (if b then false else c)
if_not true c = refl
if_not false c = refl

module _ {V : Type 0} (look : V → View V) (get : V → String → V) (undefined : V) (data_ : V) where
  -- The value at the field's path is one of those given for it.
  abbrev pub FieldMatches : String × FilterValue → Type 0
  FieldMatches (path, f) =
      Matches look (expected_array f) (get_nested_value look get undefined data_ path)

  -- The event's `direction` is "outbound" exactly if own messages are asked for.
  abbrev pub DirectionFits : Option Bool → Type 0
  DirectionFits none = Unit {0}
  DirectionFits (some from_me) =
      (from_me ≡ true)
      ↔ (look (get_nested_value look get undefined data_ "direction") ≡ primitive (text "outbound"))

  field_matches_iff :
      (f : String × FilterValue)
      → (field_matches look get undefined data_ f ≡ true) ↔ FieldMatches f
  unfolding field_matches
  field_matches_iff (path, f) =
      matches_value_iff look get undefined (get_nested_value look get undefined data_ path) f _ refl

  direction_fits_iff :
      (from_me : Option Bool)
      → (direction_fits look get undefined data_ from_me ≡ true) ↔ DirectionFits from_me
  unfolding direction_fits is_from_me
  direction_fits_iff none = (λ h. tt, λ h. refl)
  direction_fits_iff (some from_me) =
      let own =
        expected-look look get undefined (get_nested_value look get undefined data_ "direction")
          (text "outbound") _ refl in
      asked from_me (is_from_me look get undefined data_) own
    where
      asked :
          {P : Type 0} → (b c : Bool) → ((c ≡ true) ↔ P) → (bool_eq b c ≡ true) ↔ ((b ≡ true) ↔ P)
      asked true c own = (λ h. (λ e. own.0 h, λ p. refl), λ h. own.1 (h.0 refl))
      asked false true own = (λ h. absurd (cc h), λ h. absurd (cc (h.1 (own.0 refl))))
      asked false false own = (λ h. (λ e. absurd (cc e), λ p. absurd (cc (own.1 p))), λ h. refl)

  all_included_iff :
      (fields : List (String × FilterValue))
      → (all_included look get undefined data_ fields ≡ true) ↔ All FieldMatches fields
  unfolding all_included
  all_included_iff [] = (λ h. tt, λ h. refl)
  all_included_iff (f ∷ fields) =
      both_iff (field_matches look get undefined data_ f)
        (all_included look get undefined data_ fields) (field_matches_iff f)
        (all_included_iff fields)

  none_excluded_iff :
      (fields : List (String × FilterValue))
      → (none_excluded look get undefined data_ fields ≡ true) ↔ All (λ f. ¬ FieldMatches f) fields
  unfolding none_excluded
  none_excluded_iff [] = (λ h. tt, λ h. refl)
  none_excluded_iff (f ∷ fields) =
      let matched = field_matches look get undefined data_ f in
      let rest = none_excluded look get undefined data_ fields in
      rw⁻¹ (if_not matched rest) (
        both_iff (not matched) rest (not_iff matched (field_matches_iff f))
          (none_excluded_iff fields))

  -- An event passes a filter exactly if its direction is the one asked for, if any is, the value at the path of
  -- every field of `include` is one of the texts, numbers and booleans given for the field, or an array with an
  -- item that is, and the value at the path of no field of `exclude` is such a one. The value at a path is the
  -- one that getNestedValue gives.
  pub matches_filter_iff :
      (filter : EnvelopeFilter)
      → (matches_filter look get undefined data_ (some filter) ≡ true) ↔ (
          DirectionFits filter.from_me
          × (All FieldMatches filter.include × All (λ f. ¬ FieldMatches f) filter.exclude))
  unfolding matches_filter
  matches_filter_iff filter =
      both_iff (direction_fits look get undefined data_ filter.from_me) _
        (direction_fits_iff filter.from_me)
        (both_iff (all_included look get undefined data_ filter.include)
          (none_excluded look get undefined data_ filter.exclude) (all_included_iff filter.include)
          (none_excluded_iff filter.exclude))
