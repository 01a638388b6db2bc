-- ===== src/Cache/Stored.antt =====
-- What SetCache leaves under a key, where the set of keys has the key's own name.
use good_food_be.Base.{
  ◌≡◌, sym, ap, ◌∙◌, subst, ◌⊎◌, inl, inr, true, Option, none, some, if◌then◌else◌, arith,
  Option-cases, Bool-cases,
}
use good_food_be.Cache.{Key, same_key, Entry, str, members, Cache, Redis, or_same, set_cache}

str-inj : {V : Type 0} (v w : V) → ◌≡◌ {A = Option (Entry V)} (some (str v)) (some (str w)) → v ≡ w
str-inj v w e = ap (λ o. elim o [ none ↦ v | some x ↦ elim x [ str y ↦ y | members ks ↦ v ] ]) e

module _ {V : Type 0} (redis : Redis V) (key : Key) (v w : V) where
  stored :
      (c c' : Cache V) (j : Key)
      → redis.set key v c ≡ some c'
      → c' j ≡ some (str w)
      → ((same_key key j ≡ true) × (v ≡ w)) ⊎ (c j ≡ some (str w))
  stored c c' j e there = elim (Bool-cases (same_key key j)) [
    | inl same ↦ inl (
      same,
      str-inj v w (
          sym (redis.set_entry key v c c' j e ∙ ap (λ b. if b then some (str v) else c j) same)
          ∙ there),
    )
    | inr other ↦ inr (
        sym (redis.set_entry key v c c' j e ∙ ap (λ b. if b then some (str v) else c j) other)
        ∙ there)
  ]

  added :
      (c c' : Cache V) (j : Key)
      → redis.sadd key key c ≡ some c'
      → c' j ≡ some (str w)
      → c j ≡ some (str w)
  added c c' j e there = elim (Bool-cases (same_key key j)) [
    | inl same ↦ absurd (ground (arith, redis.sadd_entry key key c c' j e))
    | inr other ↦ ground (arith, redis.sadd_entry key key c c' j e)
  ]

  after_sadd :
      (c : Cache V) (j : Key)
      → or_same (redis.sadd key key c) c j ≡ some (str w)
      → c j ≡ some (str w)
  after_sadd c j there = elim (Option-cases (redis.sadd key key c)) [
    | inl refused ↦ subst (λ o. or_same o c j ≡ some (str w)) refused there
    | inr (c', e) ↦ added c c' j e (subst (λ o. or_same o c j ≡ some (str w)) e there)
  ]

  -- A string that stands there afterwards is the new one under the key itself, or stood there before.
  pub set_cache-string :
      (c : Cache V) (j : Key)
      → set_cache redis key v (some key) c j ≡ some (str w)
      → ((same_key key j ≡ true) × (v ≡ w)) ⊎ (c j ≡ some (str w))
  unfolding set_cache
  set_cache-string c j there =
      let first = after_sadd (or_same (redis.set key v c) c) j there in
      elim (Option-cases (redis.set key v c)) [
        | inl failed ↦ inr (subst (λ o. or_same o c j ≡ some (str w)) failed first)
        | inr (c', e) ↦ stored c c' j e (subst (λ o. or_same o c j ≡ some (str w)) e first)
      ]
