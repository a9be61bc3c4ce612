-- ===== src/Cache.antt =====
-- core/util/ttl-cache.ts: the cache with a time to live and a size cap. A Map keeps its entries in the order of insertion, so it is a list, oldest first.
pub mod Bounds
pub mod Lookups
mod Tests
use messaging_gateway.Prelude.{
  ℕ, ◌+◌, ◌*◌, ◌^◌, ◌/◌, min, String, Option, none, some, Bool, true, false, not, List, [], ◌∷◌,
  ◌++◌, if◌then◌else◌, str_eq, leb, ltb, length, find, filter, drop, ◌-◌,
}

pub record Entry (V : Type 0) : Type 0 where
  pub key : String
  pub value : V
  pub expires_at : ℕ

module _ {V : Type 0} where
  abbrev pub has_key : String → Entry V → Bool
  has_key key e = str_eq e.key key

  -- `Map.delete`
  unfoldable pub del : List (Entry V) → String → List (Entry V)
  del entries key = filter (λ e. not (has_key key e)) entries

  -- `get`: what is found, and the entries after an expired one has been dropped.
  unfoldable pub get : List (Entry V) → ℕ → String → List (Entry V) × Option V
  get entries now key = elim (find (has_key key) entries) [
    | none ↦ (entries, none)
    | some e ↦ if leb e.expires_at now then (del entries key, none) else (entries, some e.value)
  ]

  -- The loop of `set`, which deletes the first key while there are too many; no cap is `none`.
  unfoldable pub evict : Option ℕ → List (Entry V) → List (Entry V)
  evict none entries = entries
  evict (some max_) [] = []
  evict (some max_) (e ∷ entries) =
      let rest = evict (some max_) entries in
      if ltb max_ (length (e ∷ entries)) then rest else e ∷ entries

  -- `set`
  unfoldable pub put :
      (ttl_ms : ℕ) (max_ : Option ℕ) → List (Entry V) → ℕ → String → V → List (Entry V)
  put ttl_ms max_ entries now key value =
      evict max_
        (del entries key ++ (record { key = key; value = value; expires_at = now + ttl_ms }) ∷ [])
