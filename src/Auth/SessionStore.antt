-- ===== src/Auth/SessionStore.antt =====
-- What stands in Redis for the sessions: the records under "refresh:{jti}" and the sets under
-- "user_refresh:{username}", and the server's commands on them, each of which may fail.
use good_food_be.Base.{
  ℕ, ◌≡◌, String, Bool, false, ◌||◌, Option, none, some, List, [], ◌∷◌, str_eq, if◌then◌else◌,
}

-- dto.RefreshRecord, which is stored as its JSON and reads back as itself.
pub record RefreshRecord : Type 0 where
  pub username : String
  pub token_hash : String
  pub expires_at : ℕ
  pub user_agent : String
  pub ip : String

pub record Sessions : Type 0 where
  pub records : String → Option RefreshRecord
  pub of_user : String → List String

-- The commands that RevokeAllUserRefreshTokens queues: DEL "refresh:"+jti, and SREM of a jti from the set
-- of a user.
pub data Command : Type 0 where
  del : String → Command
  srem : String → String → Command

-- Whether the commands delete the record.
abbrev pub deletes : String → List Command → Bool
deletes j [] = false
deletes j (del k ∷ cs) = str_eq k j || deletes j cs
deletes j (srem u k ∷ cs) = deletes j cs

-- The commands, `none` where one fails; `get` answers `some none` for redis.Nil. A record whose TTL has
-- passed is gone.
pub record SessionServer : Type 0 where
  pub get : String → Sessions → Option (Option RefreshRecord)
  pub set : String → RefreshRecord → ℕ → Sessions → Option Sessions
  pub del_record : String → Sessions → Option Sessions
  pub sadd : String → String → Sessions → Option Sessions
  pub srem_member : String → String → Sessions → Option Sessions
  pub smembers : String → Sessions → Option (List String)
  pub exec : List Command → Sessions → Option Sessions
  pub get_found :
      (j : String) (s : Sessions) (o : Option RefreshRecord) → get j s ≡ some o → o ≡ s.records j
  pub set_records :
      (k : String) (r : RefreshRecord) (ttl : ℕ) (s s' : Sessions) (j : String)
      → set k r ttl s ≡ some s'
      → s'.records j ≡ (if str_eq k j then some r else s.records j)
  pub del_records :
      (k : String) (s s' : Sessions) (j : String)
      → del_record k s ≡ some s'
      → s'.records j ≡ (if str_eq k j then none else s.records j)
  pub sadd_records :
      (u k : String) (s s' : Sessions) (j : String)
      → sadd u k s ≡ some s'
      → s'.records j ≡ s.records j
  pub srem_records :
      (u k : String) (s s' : Sessions) (j : String)
      → srem_member u k s ≡ some s'
      → s'.records j ≡ s.records j
  pub smembers_found :
      (u : String) (s : Sessions) (js : List String) → smembers u s ≡ some js → js ≡ s.of_user u
  pub exec_records :
      (cs : List Command) (s s' : Sessions) (j : String)
      → exec cs s ≡ some s'
      → s'.records j ≡ (if deletes j cs then none else s.records j)
