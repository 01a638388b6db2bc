-- ===== src/Cache/Server.antt =====
-- A server in memory that meets the laws of `Redis`.
use good_food_be.Base.{
  ◌≡◌, sym, ◌∙◌, ap, Bool, true, false, Option, none, some, List, [], ◌∷◌, if◌then◌else◌, arith,
}
use good_food_be.Cache.{Key, same_key, listed, Entry, str, members, Cache, members_of, Redis}

abbrev pub without : Key → List Key → List Key
without m [] = []
without m (k ∷ ks) = if same_key m k then without m ks else k ∷ without m ks

module _ {V : Type 0} where
  abbrev pub value_of : Option (Entry V) → Option V
  value_of none = none
  value_of (some (str v)) = some v
  value_of (some (members ks)) = none

  -- SADD and SREM on a string are errors.
  abbrev pub is_string : Option (Entry V) → Bool
  is_string none = false
  is_string (some (str v)) = true
  is_string (some (members ks)) = false

  abbrev pub put : Key → Option (Entry V) → Cache V → Cache V
  put k e c j = if same_key k j then e else c j

  pub get_found : (k : Key) (c : Cache V) (v : V) → value_of (c k) ≡ some v → c k ≡ some (str v)
  get_found k c v e = found (c k) e
    where
      found : (o : Option (Entry V)) → value_of o ≡ some v → o ≡ some (str v)
      found none e = ground arith
      found (some (str w)) e = ground arith
      found (some (members ks)) e = ground arith

  un_some : Cache V → Option (Cache V) → Cache V
  un_some d none = d
  un_some d (some c) = c

  some-at : {c c' : Cache V} (j : Key) → some c ≡ some c' → c' j ≡ c j
  unfolding un_some
  some-at {c = c} j e = ap (λ x. un_some c x j) (sym e)

  pub put_entry :
      (k : Key) (e : Option (Entry V)) (c c' : Cache V) (j : Key)
      → some (put k e c) ≡ some c'
      → c' j ≡ (if same_key k j then e else c j)
  put_entry k e c c' j h = some-at j h

  abbrev pub add : Key → Key → Cache V → Option (Cache V)
  add k m c =
      if is_string (c k) then none else some (put k (some (members (m ∷ members_of (c k)))) c)

  pub add_entry :
      (k m : Key) (c c' : Cache V) (j : Key)
      → add k m c ≡ some c'
      → c' j ≡ (if same_key k j then some (members (m ∷ members_of (c k))) else c j)
  add_entry k m c c' j h = added (is_string (c k)) h
    where
      added :
          (b : Bool)
          → (if b then none else some (put k (some (members (m ∷ members_of (c k)))) c)) ≡ some c'
          → c' j ≡ (if same_key k j then some (members (m ∷ members_of (c k))) else c j)
      added true h = cc
      added false h = some-at j h

  pub add_string : (k m : Key) (c : Cache V) (v : V) → c k ≡ some (str v) → add k m c ≡ none
  add_string k m c v e =
      ap (λ o. if is_string o then none else some (put k (some (members (m ∷ members_of o))) c)) e

  abbrev pub list_members : Key → Cache V → Option (List Key)
  list_members k c = some (members_of (c k))

  pub list_members_found :
      (k : Key) (c : Cache V) (ks : List Key) → list_members k c ≡ some ks → ks ≡ members_of (c k)
  list_members_found k c ks h = ground arith

  abbrev pub rem : Key → Key → Cache V → Option (Cache V)
  rem k m c = some (put k (some (members (without m (members_of (c k))))) c)

  pub rem_entry :
      (k m : Key) (c c' : Cache V) (j : Key)
      → rem k m c ≡ some c'
      → same_key k j ≡ false
      → c' j ≡ c j
  rem_entry k m c c' j h other = some-at j h ∙ rw other

  abbrev pub drop_keys : List Key → Cache V → Option (Cache V)
  drop_keys ks c = some (λ j. if listed j ks then none else c j)

  pub drop_keys_entry :
      (ks : List Key) (c c' : Cache V) (j : Key)
      → drop_keys ks c ≡ some c'
      → c' j ≡ (if listed j ks then none else c j)
  drop_keys_entry ks c c' j h = some-at j h

  abbrev pub server : Redis V
  server = record {
    get = λ k c. value_of (c k);
    set = λ k v c. some (put k (some (str v)) c);
    sadd = add;
    smembers = list_members;
    srem = rem;
    del = drop_keys;
    get_found = get_found;
    set_entry = λ k v c c' j h. put_entry k (some (str v)) c c' j h;
    sadd_entry = add_entry;
    sadd_string = add_string;
    smembers_found = list_members_found;
    srem_entry = rem_entry;
    del_entry = drop_keys_entry;
  }

  -- The empty cache.
  abbrev pub empty : Cache V
  empty k = none
