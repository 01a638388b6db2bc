-- ===== src/Cache.antt =====
-- The Redis cache: GetCache, SetCache and ClearCache of GoodFood-BE/internal/utils/utilities.go. The
-- server is no code of the repository: `Redis` is what the code relies on, its commands with their
-- documented meaning when they succeed. Entries also expire; an expiry is a `del` that no request makes.
pub mod Clear
pub mod Read
pub mod Stored
pub mod Server
mod Tests
use good_food_be.Base.{
  ℕ, String, ◌≡◌, ◌↔◌, Bool, true, false, Option, none, some, List, [], ◌∷◌, ◌&&◌, ◌||◌, ◌==◌,
  str_eq, if◌then◌else◌,
}
use good_food_be.Base.Int.{ℤ, eq_ℤ}

-- An argument of `fmt.Sprintf`.
pub data Arg : Type 0 where
  num : ℕ → Arg
  int : ℤ → Arg
  text : String → Arg

-- A key is a format string of the source with its arguments, and keys are told apart by both. The server has the
-- printed texts, which are different where the arguments are numbers or one text at the end. Where free text
-- stands before another argument, as in products:page=%d:type=%s:search=%s, two requests can print the same text,
-- and then share an entry that is two entries here.
pub record Key : Type 0 where
  pub format : String
  pub args : List Arg

abbrev pub same_arg : Arg → Arg → Bool
same_arg (num a) (num b) = a == b
same_arg (int a) (int b) = eq_ℤ a b
same_arg (text a) (text b) = str_eq a b
same_arg _ _ = false

abbrev pub same_args : List Arg → List Arg → Bool
same_args [] [] = true
same_args (a ∷ as') (b ∷ bs) = same_arg a b && same_args as' bs
same_args _ _ = false

unfoldable pub same_key : Key → Key → Bool
same_key k j = str_eq k.format j.format && same_args k.args j.args

abbrev pub listed : Key → List Key → Bool
listed k [] = false
listed k (j ∷ js) = same_key j k || listed k js

-- What stands under a key: a string, here the JSON text of a value, or a set of keys.
pub data Entry (V : Type 0) : Type 0 where
  str : V → Entry V
  members : List Key → Entry V

abbrev pub Cache : Type 0 → Type 0
Cache V = Key → Option (Entry V)

-- The members that SMEMBERS lists.
abbrev pub members_of : {V : Type 0} → Option (Entry V) → List Key
members_of none = []
members_of (some (str v)) = []
members_of (some (members ks)) = ks

-- The commands; `none` is an error, and leaves the server as it was.
pub record Redis (V : Type 0) : Type 0 where
  pub get : Key → Cache V → Option V
  pub set : Key → V → Cache V → Option (Cache V)
  pub sadd : Key → Key → Cache V → Option (Cache V)
  pub smembers : Key → Cache V → Option (List Key)
  pub srem : Key → Key → Cache V → Option (Cache V)
  pub del : List Key → Cache V → Option (Cache V)
  pub get_found : (k : Key) (c : Cache V) (v : V) → get k c ≡ some v → c k ≡ some (str v)
  pub set_entry :
      (k : Key) (v : V) (c c' : Cache V) (j : Key)
      → set k v c ≡ some c'
      → c' j ≡ (if same_key k j then some (str v) else c j)
  pub sadd_entry :
      (k m : Key) (c c' : Cache V) (j : Key)
      → sadd k m c ≡ some c'
      → c' j ≡ (if same_key k j then some (members (m ∷ members_of (c k))) else c j)
  -- WRONGTYPE
  pub sadd_string : (k m : Key) (c : Cache V) (v : V) → c k ≡ some (str v) → sadd k m c ≡ none
  pub smembers_found :
      (k : Key) (c : Cache V) (ks : List Key) → smembers k c ≡ some ks → ks ≡ members_of (c k)
  -- A set that loses its last member is gone; that entry and an empty set list the same members.
  pub srem_entry :
      (k m : Key) (c c' : Cache V) (j : Key)
      → srem k m c ≡ some c'
      → same_key k j ≡ false
      → c' j ≡ c j
  pub del_entry :
      (ks : List Key) (c c' : Cache V) (j : Key)
      → del ks c ≡ some c'
      → c' j ≡ (if listed j ks then none else c j)

abbrev pub or_same : {A : Type 0} → Option A → A → A
or_same none a = a
or_same (some b) a = b

-- The two results of GetCache: `hit` is (true, nil), `unreadable` (false, nil), and `unavailable` is
-- (false, err), also where the key is missing. `decode` is json.Unmarshal into the target's type.
pub data Lookup (A : Type 0) : Type 0 where
  hit : A → Lookup A
  unreadable : Lookup A
  unavailable : Lookup A

module _ {V : Type 0} (redis : Redis V) where
  unfoldable pub get_cache : {A : Type 0} → Key → (V → Option A) → Cache V → Lookup A
  get_cache key decode c = elim (redis.get key c) [
    | none ↦ unavailable
    | some v ↦ elim (decode v) [ none ↦ unreadable | some a ↦ hit a ]
  ]

  -- `set_key` is none where the source passes "".
  unfoldable pub set_cache : Key → V → Option Key → Cache V → Cache V
  set_cache key value set_key c =
      let c' = or_same (redis.set key value c) c in
      elim set_key [ none ↦ c' | some s ↦ or_same (redis.sadd s key c') c' ]

  -- One round of the loop: the set is deleted first, and then asked for its members.
  clear_one : Key → Cache V → Cache V
  clear_one set_key c =
      let c' = or_same (redis.del (set_key ∷ []) c) c in
      elim (redis.smembers set_key c') [
        | none ↦ c'
        | some [] ↦ c'
        | some (k ∷ ks) ↦ or_same (redis.del (k ∷ ks) c') c'
      ]

  clear_all : List Key → Cache V → Cache V
  clear_all [] c = c
  clear_all (k ∷ ks) c = clear_all ks (clear_one k c)

-- Without a client, as in unit tests, ClearCache does nothing.
unfoldable pub clear_cache : {V : Type 0} → Option (Redis V) → List Key → Cache V → Cache V
unfolding clear_one clear_all
clear_cache none keys c = c
clear_cache (some redis) keys c = clear_all redis keys c
