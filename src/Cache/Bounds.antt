-- ===== src/Cache/Bounds.antt =====
-- core/util/ttl-cache.ts: the cap on the size, and one entry for a key.
use messaging_gateway.Prelude.{
  ℕ, ◌+◌, ◌≤◌, String, Option, none, some, Bool, false, List, [], ◌∷◌, ◌++◌, ◌≡◌, refl, leb, ltb,
  length, filter, any, arith, if-case, length-filter-le, eq_iff, Option-cases, find, inl, inr,
}
use messaging_gateway.Cache.{Entry, has_key, del, get, evict, put}

-- What is done with the cache, each at its time.
pub data Operation (V : Type 0) : Type 0 where
  puts : String → V → Operation V
  gets deletes : String → Operation V
  flushes : Operation V

module _ {V : Type 0} where
  -- No two entries have the same key.
  abbrev pub UniqueKeys : List (Entry V) → Type 0
  UniqueKeys [] = Unit
  UniqueKeys (e ∷ entries) = (any (has_key e.key) entries ≡ false) × UniqueKeys entries

  abbrev pub WithinCap : Option ℕ → List (Entry V) → Type 0
  WithinCap none entries = Unit
  WithinCap (some max_) entries = length entries ≤ max_

  pub evict-WithinCap :
      (bound : Option ℕ) (entries : List (Entry V)) → WithinCap bound (evict bound entries)
  unfolding evict
  evict-WithinCap none entries = tt
  evict-WithinCap (some max_) [] = omega arith
  evict-WithinCap (some max_) (e ∷ entries) =
      if-case (WithinCap (some max_)) (ltb max_ (length (e ∷ entries)))
        (λ over. evict-WithinCap (some max_) entries) (λ fits. ground (arith, fits))

  evict-UniqueKeys :
      (bound : Option ℕ) (entries : List (Entry V))
      → UniqueKeys entries
      → UniqueKeys (evict bound entries)
  unfolding evict
  evict-UniqueKeys none entries u = u
  evict-UniqueKeys (some max_) [] u = tt
  evict-UniqueKeys (some max_) (e ∷ entries) (apart, u) =
      if-case UniqueKeys (ltb max_ (length (e ∷ entries)))
        (λ over. evict-UniqueKeys (some max_) entries u) (λ fits. (apart, u))

  any-filter :
      (key : String) (p : Entry V → Bool) (entries : List (Entry V))
      → any (has_key key) entries ≡ false
      → any (has_key key) (filter p entries) ≡ false
  any-filter key p [] h = refl
  any-filter key p (e ∷ entries) h = ground (arith, any-filter key p entries)

  filter-UniqueKeys :
      (p : Entry V → Bool) (entries : List (Entry V))
      → UniqueKeys entries
      → UniqueKeys (filter p entries)
  filter-UniqueKeys p [] u = tt
  filter-UniqueKeys p (e ∷ entries) (apart, u) =
      if-case UniqueKeys (p e)
        (λ h. (any-filter e.key p entries apart, filter-UniqueKeys p entries u))
        (λ h. filter-UniqueKeys p entries u)

  pub any-del :
      (entries : List (Entry V)) (key : String) → any (has_key key) (del entries key) ≡ false
  unfolding del
  any-del [] key = refl
  any-del (e ∷ entries) key = ground (arith, any-del entries key)

  pub any-append :
      (p : Entry V → Bool) (entries : List (Entry V)) (new : Entry V)
      → any p entries ≡ false
      → p new ≡ false
      → any p (entries ++ new ∷ []) ≡ false
  any-append p [] new h k = ground (arith, k)
  any-append p (e ∷ entries) new h k = ground (arith, any-append p entries new, h, k)

  append-UniqueKeys :
      (entries : List (Entry V)) (new : Entry V)
      → any (has_key new.key) entries ≡ false
      → UniqueKeys entries
      → UniqueKeys (entries ++ new ∷ [])
  append-UniqueKeys [] new h u = (refl, tt)
  append-UniqueKeys (e ∷ entries) new h (apart, u) = (
    any-append (has_key e.key) entries new apart
        (ground (arith, h, eq_iff new.key e.key, eq_iff e.key new.key)),
    append-UniqueKeys entries new (ground (arith, h)) u,
  )

  pub record Sound (bound : Option ℕ) (entries : List (Entry V)) : Type 0 where
    pub within : WithinCap bound entries
    pub unique : UniqueKeys entries

  abbrev pub does : ℕ → Option ℕ → List (Entry V) → ℕ × Operation V → List (Entry V)
  does ttl bound entries (now, puts key value) = put ttl bound entries now key value
  does ttl bound entries (now, gets key) = (get entries now key).0
  does ttl bound entries (now, deletes key) = del entries key
  does ttl bound entries (now, flushes) = []

  abbrev pub all_done : ℕ → Option ℕ → List (Entry V) → List (ℕ × Operation V) → List (Entry V)
  all_done ttl bound entries [] = entries
  all_done ttl bound entries (o ∷ os) = all_done ttl bound (does ttl bound entries o) os

  filter-WithinCap :
      (bound : Option ℕ) (p : Entry V → Bool) (entries : List (Entry V))
      → WithinCap bound entries
      → WithinCap bound (filter p entries)
  filter-WithinCap none p entries h = tt
  filter-WithinCap (some max_) p entries h = omega (arith, length-filter-le p entries, h)

  nil-WithinCap :
      (bound : Option ℕ) (entries : List (Entry V)) → length entries ≡ 0 → WithinCap bound entries
  nil-WithinCap none entries h = tt
  nil-WithinCap (some max_) entries h = omega (arith, h)

  del-Sound :
      (bound : Option ℕ) (entries : List (Entry V)) (key : String)
      → Sound bound entries
      → Sound bound (del entries key)
  unfolding del
  del-Sound bound entries key s = record {
    within = filter-WithinCap bound _ entries s.within;
    unique = filter-UniqueKeys _ entries s.unique;
  }

  get-Sound :
      (bound : Option ℕ) (entries : List (Entry V)) (now : ℕ) (key : String)
      → Sound bound entries
      → Sound bound (get entries now key).0
  unfolding get
  get-Sound bound entries now key s = elim (Option-cases (find (has_key key) entries)) [
    | inl missing ↦ rw (missing, get) s
    | inr (e, found) ↦
        rw (found, get)
          (if-case (λ (r : List (Entry V) × Option V). Sound bound r.0) (leb e.expires_at now)
            {x = (del entries key, none)} {y = (entries, some e.value)}
            (λ old. del-Sound bound entries key s) (λ fresh. s))
  ]

  does-Sound :
      (ttl : ℕ) (bound : Option ℕ) (entries : List (Entry V)) (now : ℕ) (o : Operation V)
      → Sound bound entries
      → Sound bound (does ttl bound entries (now, o))
  unfolding put
  does-Sound ttl bound entries now (puts key value) s =
      let new : Entry V = record { key = key; value = value; expires_at = now + ttl } in
      record {
        within = evict-WithinCap bound _;
        unique = evict-UniqueKeys bound _ (
            append-UniqueKeys (del entries key) new (any-del entries key)
              (del-Sound bound entries key s).unique);
      }
  does-Sound ttl bound entries now (gets key) s = get-Sound bound entries now key s
  does-Sound ttl bound entries now (deletes key) s = del-Sound bound entries key s
  does-Sound ttl bound entries now flushes s = record {
    within = nil-WithinCap bound [] refl;
    unique = tt;
  }

  from-Sound :
      (ttl : ℕ) (bound : Option ℕ) (entries : List (Entry V)) (os : List (ℕ × Operation V))
      → Sound bound entries
      → Sound bound (all_done ttl bound entries os)
  from-Sound ttl bound entries [] s = s
  from-Sound ttl bound entries ((now, o) ∷ os) s =
      from-Sound ttl bound (does ttl bound entries (now, o)) os
        (does-Sound ttl bound entries now o s)

  -- Whatever is done with a cache, it never holds more entries than its cap, nor two for one key.
  pub all_done-Sound :
      (ttl : ℕ) (bound : Option ℕ) (os : List (ℕ × Operation V))
      → Sound bound (all_done ttl bound [] os)
  all_done-Sound ttl bound os =
      from-Sound ttl bound [] os (record { within = nil-WithinCap bound [] refl; unique = tt })
