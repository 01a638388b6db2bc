-- ===== src/Cache/Clear.antt =====
-- What ClearCache removes.
use good_food_be.Base.{
  ◌≡◌, ◌≢◌, refl, inl, inr, true, false, none, some, List, [], ◌∷◌, str_eq_iff, str_eq_refl,
  if◌then◌else◌, arith, Option-cases,
}
use good_food_be.Base.Int.{eq_ℤ_iff}
use good_food_be.Cache.{
  Arg, num, int, text, Key, same_args, same_key, listed, str, Cache, members_of, Redis, set_cache,
  clear_one, clear_all, clear_cache,
}

pub same_args_refl : (xs : List Arg) → same_args xs xs ≡ true
same_args_refl [] = refl
same_args_refl (num a ∷ xs) = ground (arith, same_args_refl xs)
same_args_refl (int a ∷ xs) = ground (arith, same_args_refl xs, (eq_ℤ_iff a a).1 refl)
same_args_refl (text a ∷ xs) = ground (arith, same_args_refl xs, str_eq_refl a)

pub same_key_refl : (k : Key) → same_key k k ≡ true
unfolding same_key
same_key_refl k = ground (arith, same_args_refl k.args, str_eq_refl k.format)

pub same_args_sound : (xs ys : List Arg) → same_args xs ys ≡ true → xs ≡ ys
same_args_sound [] [] h = refl
same_args_sound [] (y ∷ ys) h = ground arith
same_args_sound (x ∷ xs) [] h = ground arith
same_args_sound (num a ∷ xs) (num b ∷ ys) h = ground (arith, same_args_sound xs ys)
same_args_sound (int a ∷ xs) (int b ∷ ys) h = ground (arith, same_args_sound xs ys, eq_ℤ_iff a b)
same_args_sound (text a ∷ xs) (text b ∷ ys) h =
    ground (arith, same_args_sound xs ys, str_eq_iff a b)
same_args_sound (x ∷ xs) (y ∷ ys) h = ground arith

pub same_key_sound : (k j : Key) → same_key k j ≡ true → k ≡ j
unfolding same_key
same_key_sound k j h = ground (arith, same_args_sound k.args j.args, str_eq_iff k.format j.format)

-- The server answers every DEL.
abbrev pub Deletes : {V : Type 0} → Redis V → Type 0
Deletes {V} redis = (ks : List Key) (c : Cache V) → redis.del ks c ≢ none

module _ {V : Type 0} (redis : Redis V) (up : Deletes redis) where
  emptied : (k : Key) (c c' : Cache V) → redis.del (k ∷ []) c ≡ some c' → members_of (c' k) ≡ []
  emptied k c c' gone = ground (arith, redis.del_entry (k ∷ []) c c' k gone, same_key_refl k)

  clear_one_entry :
      (k : Key) (c : Cache V) (j : Key)
      → clear_one redis k c j ≡ (if same_key k j then none else c j)
  unfolding clear_one
  clear_one_entry k c j = elim (Option-cases (redis.del (k ∷ []) c)) [
    | inl down ↦ absurd (up (k ∷ []) c down)
    | inr (c', gone) ↦ elim (Option-cases (redis.smembers k c')) [
      | inl failed ↦ ground (arith, redis.del_entry (k ∷ []) c c' j gone)
      | inr (ks, listing) ↦ ground (
        arith,
        redis.del_entry (k ∷ []) c c' j gone,
        redis.smembers_found k c' ks listing,
        emptied k c c' gone,
      )
    ]
  ]

  clear_all_entry :
      (ks : List Key) (c : Cache V) (j : Key)
      → clear_all redis ks c j ≡ (if listed j ks then none else c j)
  unfolding clear_all
  clear_all_entry [] c j = refl
  clear_all_entry (k ∷ ks) c j =
      ground (arith, clear_all_entry ks (clear_one redis k c) j, clear_one_entry k c j)

  -- With a server that answers, ClearCache removes exactly the keys that it is given. In particular it
  -- removes no member of a set that is registered under one of them, since it deletes the set before it
  -- lists its members.
  pub clear_cache_exact :
      (ks : List Key) (c : Cache V) (j : Key)
      → clear_cache (some redis) ks c j ≡ (if listed j ks then none else c j)
  unfolding clear_cache
  clear_cache_exact ks c j = clear_all_entry ks c j

  -- A value that SetCache has stored and registered in a set survives a ClearCache of that set, if its
  -- own key is another one and the server accepted the store.
  clear_cache_keeps_members :
      (key set_key : Key) (v : V) (c stored : Cache V)
      → same_key set_key key ≡ false
      → redis.set key v c ≡ some stored
      → clear_cache (some redis) (set_key ∷ []) (set_cache redis key v (some set_key) c) key
        ≡ some (str v)
  unfolding set_cache
  clear_cache_keeps_members key set_key v c stored differ kept =
      elim (Option-cases (redis.sadd set_key key stored)) [
        | inl refused ↦ ground (
          arith,
          clear_cache_exact (set_key ∷ []) stored key,
          redis.set_entry key v c stored key kept,
          same_key_refl key,
        )
        | inr (c', added) ↦ ground (
          arith,
          clear_cache_exact (set_key ∷ []) c' key,
          redis.sadd_entry set_key key stored c' key added,
          redis.set_entry key v c stored key kept,
          same_key_refl key,
        )
      ]
