-- ===== src/Cache/Tests.antt =====
-- A cache with room for two entries.

use messaging_gateway.Prelude.{ℕ, none, some, List, [], ◌∷◌, ◌≡◌, refl}
use messaging_gateway.Cache.{Entry, get, put, evict, del}
use messaging_gateway.Cache.Bounds.{Operation, puts, gets, all_done, Sound, all_done-Sound}

abbrev operations : List (ℕ × Operation ℕ)
operations =
    (1, puts "a" 10) ∷ (2, puts "b" 20) ∷ (3, puts "a" 11) ∷ (4, puts "c" 30) ∷ (5, gets "b") ∷ []

oldest_gone : (get (all_done 100 (some 2) [] operations) 6 "b").1 ≡ none
unfolding get put evict del
oldest_gone = refl

all_done-Sound_example : Sound (some 2) (all_done 100 (some 2) [] operations)
all_done-Sound_example = all_done-Sound 100 (some 2) operations

abbrev entries : List (Entry ℕ)
entries = record { key = "b"; value = 20; expires_at = 50 } ∷ []
