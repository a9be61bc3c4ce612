-- ===== src/Cache/Lookups.antt =====
-- core/util/ttl-cache.ts: what a lookup finds.
use messaging_gateway.Prelude.{
  ℕ, ◌+◌, ◌≤◌, String, Option, none, some, Bool, true, false, List, [], ◌∷◌, ◌++◌, if◌then◌else◌,
  ◌≡◌, refl, leb, ltb, length, find, any, arith, if-case, str_eq_refl,
}
use messaging_gateway.Cache.{Entry, has_key, del, get, evict, put}
use messaging_gateway.Cache.Bounds.{any-del}

-- There is no cap, or it has room for one entry.
abbrev pub HasRoom : Option ℕ → Type 0
HasRoom none = Unit
HasRoom (some max_) = 1 ≤ max_

module _ {V : Type 0} where
  find-last :
      (p : Entry V → Bool) (entries : List (Entry V)) (new : Entry V)
      → any p entries ≡ false
      → p new ≡ true
      → find p (entries ++ new ∷ []) ≡ some new
  find-last p [] new h k = rw k refl
  find-last p (e ∷ entries) new h k = ground (arith, h, k, find-last p entries new)

  find-evict :
      (bound : Option ℕ) (p : Entry V → Bool) (entries : List (Entry V)) (new : Entry V)
      → HasRoom bound
      → any p entries ≡ false
      → p new ≡ true
      → find p (evict bound (entries ++ new ∷ [])) ≡ some new
  unfolding evict
  find-evict none p entries new r h k = find-last p entries new h k
  find-evict (some max_) p [] new r h k =
      if-case (λ es. find p es ≡ some new) (ltb max_ 1) (λ over. absurd (ground (arith, over, r)))
        (λ fits. rw k refl)
  find-evict (some max_) p (e ∷ entries) new r h k =
      if-case (λ es. find p es ≡ some new) (ltb max_ (length (e ∷ entries ++ new ∷ [])))
        (λ over. find-evict (some max_) p entries new r (ground (arith, h)) k)
        (λ fits. find-last p (e ∷ entries) new h k)

  pick :
      (b : Bool) (before after : List (Entry V)) (value : V)
      → (if◌then◌else◌ {A = List (Entry V) × Option V} b (before, none) (after, some value)).1
        ≡ (if b then none else some value)
  pick true before after value = refl
  pick false before after value = refl

  -- What was put under a key is found until its time is over, and not after, whatever the cap
  -- evicts, if there is no cap or it has room for one entry.
  pub get-put :
      (ttl now later : ℕ) (bound : Option ℕ) (entries : List (Entry V)) (key : String) (value : V)
      → HasRoom bound
      → (get (put ttl bound entries now key value) later key).1
        ≡ (if leb (now + ttl) later then none else some value)
  unfolding get put
  get-put ttl now later bound entries key value room =
      let new : Entry V = record { key = key; value = value; expires_at = now + ttl } in
      let found =
        find-evict bound (has_key key) (del entries key) new room (any-del entries key)
          (str_eq_refl key) in
      rw (found, get)
        (pick (leb (now + ttl) later) (del (put ttl bound entries now key value) key)
          (put ttl bound entries now key value) value)
