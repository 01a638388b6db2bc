-- ===== src/Cache/Read.antt =====
-- What GetCache finds.
use good_food_be.Base.{◌≡◌, refl, none, some, inl, inr, Option, Option-cases}
use good_food_be.Cache.{Key, Entry, str, Cache, Redis, unavailable, get_cache}

-- There is no string under the key.
abbrev pub NoString : {V : Type 0} → Option (Entry V) → Type 0
NoString {V = V} entry = (v : V) → entry ≡ some (str v) → ⊥

-- The server answers every GET of a string.
abbrev pub Answers : {V : Type 0} → Redis V → Type 0
Answers {V} redis = (k : Key) (c : Cache V) (v : V) → c k ≡ some (str v) → redis.get k c ≡ some v

module _ {V A : Type 0} (redis : Redis V) where
  pub get_cache_missing :
      (key : Key) (decode : V → Option A) (c : Cache V)
      → redis.get key c ≡ none
      → get_cache redis key decode c ≡ unavailable
  unfolding get_cache
  get_cache_missing key decode c e = rw (e, get_cache) refl

  pub get_cache-NoString :
      (key : Key) (decode : V → Option A) (c : Cache V)
      → NoString (c key)
      → get_cache redis key decode c ≡ unavailable
  get_cache-NoString key decode c h = elim (Option-cases (redis.get key c)) [
    | inl missing ↦ get_cache_missing key decode c missing
    | inr (v, found) ↦ absurd (h v (redis.get_found key c v found))
  ]
