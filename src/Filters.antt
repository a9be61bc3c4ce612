-- ===== src/Filters.antt =====
-- core/filters/envelope-filter.ts: which events a webhook wants. The values are those of JavaScript: what
-- a value is (`look`) and what its property holds (`get`) are parameters.
pub mod Laws
mod Tests
use Prim.Native.String
use messaging_gateway.Prelude.{
  ℕ, String, Option, none, some, Bool, true, false, not, ◌&&◌, List, [], ◌∷◌, if◌then◌else◌, str_eq,
  any, all, leb, length, ◌==◌, ltb,
}

-- A number is the text that it prints as.
pub data Primitive : Type 0 where
  text number : String → Primitive
  boolean : Bool → Primitive

pub data View (V : Type 0) : Type 0 where
  nullish : View V
  primitive : Primitive → View V
  array : List V → View V
  object : View V

pub data FilterValue : Type 0 where
  one : Primitive → FilterValue
  many : List Primitive → FilterValue

pub record EnvelopeFilter : Type 0 where
  pub include : List (String × FilterValue)
  pub exclude : List (String × FilterValue)
  pub from_me : Option Bool

abbrev pub bool_eq : Bool → Bool → Bool
bool_eq true b = b
bool_eq false b = not b

-- `===` on two primitives
abbrev pub same_primitive : Primitive → Primitive → Bool
same_primitive (text a) (text b) = str_eq a b
same_primitive (number a) (number b) = str_eq a b
same_primitive (boolean a) (boolean b) = bool_eq a b
same_primitive _ _ = false

abbrev pub expected_array : FilterValue → List Primitive
expected_array (one p) = p ∷ []
expected_array (many ps) = ps

abbrev pub max_filter_depth : ℕ
max_filter_depth = 5

abbrev pub dot : ℕ
dot = 46

-- `path.split('.')`, of the part that is read already.
unfoldable pub split_path : String → String → List String
split_path part String.[] = part ∷ []
split_path part (String.◌∷◌ c rest) =
    let next = split_path "" rest in
    let longer = split_path (String.◌++◌ part (String.◌∷◌ c String.[])) rest in
    if Prim.Native.Char.code c == dot then part ∷ next else longer

module _ {V : Type 0} (look : V → View V) (get : V → String → V) (undefined : V) where
  unfoldable pub primitive_equals : V → Primitive → Bool
  primitive_equals actual expected = elim (look actual) [
    | primitive p ↦ same_primitive p expected
    | _ ↦ false
  ]

  unfoldable pub matches_value : V → FilterValue → Bool
  matches_value actual expected = elim (look actual) [
    | array items ↦ any (λ a. any (primitive_equals a) (expected_array expected)) items
    | _ ↦ any (primitive_equals actual) (expected_array expected)
  ]

  -- The loop of `getNestedValue`.
  unfoldable pub follow : V → List String → V
  follow current [] = current
  follow current (part ∷ parts) = elim (look current) [
    | array items ↦ follow (get current part) parts
    | object ↦ follow (get current part) parts
    | _ ↦ undefined
  ]

  unfoldable pub get_nested_value : V → String → V
  get_nested_value obj path =
      let parts = split_path "" path in
      if ltb max_filter_depth (length parts) then undefined else follow obj parts

  unfoldable pub field_matches : V → String × FilterValue → Bool
  field_matches data_ (path, expected) = matches_value (get_nested_value data_ path) expected

  -- The loops over `include` and `exclude`, which end the function at the first field that decides.
  unfoldable pub all_included : V → List (String × FilterValue) → Bool
  all_included data_ [] = true
  all_included data_ (f ∷ fields) =
      let rest = all_included data_ fields in if not (field_matches data_ f) then false else rest

  unfoldable pub none_excluded : V → List (String × FilterValue) → Bool
  none_excluded data_ [] = true
  none_excluded data_ (f ∷ fields) =
      let rest = none_excluded data_ fields in if field_matches data_ f then false else rest

  unfoldable pub is_from_me : V → Bool
  is_from_me data_ = primitive_equals (get_nested_value data_ "direction") (text "outbound")

  unfoldable pub direction_fits : V → Option Bool → Bool
  direction_fits data_ none = true
  direction_fits data_ (some from_me) = bool_eq from_me (is_from_me data_)

  unfoldable pub matches_filter : V → Option EnvelopeFilter → Bool
  matches_filter data_ none = true
  matches_filter data_ (some filter) =
      if not (direction_fits data_ filter.from_me)
      then false
      else if not (all_included data_ filter.include)
      then false
      else none_excluded data_ filter.exclude
