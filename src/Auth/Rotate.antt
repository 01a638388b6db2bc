-- ===== src/Auth/Rotate.antt =====
-- What ValidateRefreshAndRotate guarantees of a refresh token's life.
use good_food_be.Base.{
  ℕ, ⊤, ◌≡◌, ◌≢◌, inl, inr, refl, sym, ap, ◌∙◌, subst, String, true, false, Option, none, some,
  List, [], ◌∷◌, str_eq, str_eq_refl, if◌then◌else◌, Bool-cases, Option-cases, arith, Elem,
}
use good_food_be.Auth.SessionStore.{RefreshRecord, Sessions, Command, deletes, SessionServer}
use good_food_be.Auth.{
  Claims, Jwt, RotateError, token_refused, missing_jti, redis_error, not_found, reuse_detected,
  Rotated, rotated, refused, panics, Lookup, found, missing, broken, create_token,
  save_refresh_token, leave_set, revoke_refresh_token, revoke_all_user_refresh_tokens, pipeline,
  renewed, matched, validate_refresh_and_rotate, get_refresh_record,
}

-- The server answers every command.
pub record Serves (redis : SessionServer) : Type 0 where
  pub gets : (j : String) (s : Sessions) → redis.get j s ≢ none
  pub sets : (j : String) (r : RefreshRecord) (ttl : ℕ) (s : Sessions) → redis.set j r ttl s ≢ none
  pub dels : (j : String) (s : Sessions) → redis.del_record j s ≢ none
  pub sadds : (u j : String) (s : Sessions) → redis.sadd u j s ≢ none
  pub lists : (u : String) (s : Sessions) → redis.smembers u s ≢ none
  pub execs : (cs : List Command) (s : Sessions) → redis.exec cs s ≢ none

deletes_listed :
    (jwt : Jwt) (redis : SessionServer) (sha256_hex : String → String) (u j : String)
    (js : List String)
    → Elem j js
    → deletes j (pipeline jwt redis sha256_hex u js) ≡ true
deletes_listed jwt redis h u j [] member = elim member [ ]
deletes_listed jwt redis h u j (k ∷ js) (inl same) = rw same (ground (arith, str_eq_refl k))
deletes_listed jwt redis h u j (k ∷ js) (inr later) =
    ground (arith, deletes_listed jwt redis h u j js later)

module _ (jwt : Jwt) (redis : SessionServer) (sha256_hex : String → String)
    (serves : Serves redis) where
  pub revoked :
      (jti : String) (s : Sessions)
      → (revoke_refresh_token jwt redis sha256_hex jti s).records jti ≡ none
  unfolding revoke_refresh_token
  revoked jti s =
      let s' =
        leave_set jwt redis sha256_hex jti (get_refresh_record jwt redis sha256_hex jti s) s in
      elim (Option-cases (redis.del_record jti s')) [
        | inl down ↦ absurd (serves.dels jti s' down)
        | inr (t, gone) ↦ rw gone (redis.del_records jti s' t jti gone ∙ rw (str_eq_refl jti) refl)
      ]

  -- If the outcome is a rotation, the token's own record is gone.
  abbrev Spent : ℕ → String → Rotated × Sessions → Type 0
  Spent now token (rotated access refresh jti, s') =
      (claims : Claims) × (jwt.parse now token ≡ some claims) × (s'.records claims.id ≡ none)
  Spent now token (refused e, s') = ⊤
  Spent now token (panics, s') = ⊤

  module _ (now : ℕ) (new_jti token user_agent ip : String) where
    renewed-Spent :
        (claims : Claims) (o : Option (String × String)) (s : Sessions)
        → jwt.parse now token ≡ some claims
        → Spent now token (renewed jwt redis sha256_hex now new_jti claims user_agent ip o s)
    renewed-Spent claims none s parsed = tt
    renewed-Spent claims (some (access, refresh)) s parsed =
        elim (Option-cases (jwt.parse now refresh)) [
          | inl bad ↦ rw (renewed, bad) tt
          | inr (new_claims, good) ↦
              rw (renewed, good)
                (
                  claims,
                  parsed,
                  revoked claims.id
                      (save_refresh_token jwt redis sha256_hex now new_jti refresh claims.username
                        user_agent ip new_claims.expires_at s).1,
                )
        ]

    matched-Spent :
        (claims : Claims) (l : Lookup) (s : Sessions)
        → jwt.parse now token ≡ some claims
        → Spent now token (matched jwt redis sha256_hex now new_jti claims token user_agent ip l s)
    matched-Spent claims broken s parsed = tt
    matched-Spent claims missing s parsed = tt
    matched-Spent claims (found rec) s parsed =
        elim (Bool-cases (str_eq rec.token_hash (sha256_hex token))) [
          | inr differ ↦ rw differ tt
          | inl same ↦ rw same (
              renewed-Spent claims (create_token jwt redis sha256_hex now new_jti claims.username) s
                parsed)
        ]

    spent :
        (s : Sessions)
        → Spent now token
            (validate_refresh_and_rotate jwt redis sha256_hex now new_jti token user_agent ip s)
    unfolding validate_refresh_and_rotate
    spent s = elim (Option-cases (jwt.parse now token)) [
      | inl bad ↦ rw (validate_refresh_and_rotate, bad) tt
      | inr (claims, good) ↦ elim (Bool-cases (str_eq claims.id "")) [
        | inl unnamed ↦ rw (validate_refresh_and_rotate, good, unnamed) tt
        | inr named ↦
            rw (validate_refresh_and_rotate, good, named)
              (matched-Spent claims (get_refresh_record jwt redis sha256_hex claims.id s) s good)
      ]
    ]

  pub refused_after :
      (now : ℕ) (jti token user_agent ip : String) (s : Sessions)
      → ((claims : Claims) → jwt.parse now token ≡ some claims → s.records claims.id ≡ none)
      → (e : RotateError) × (validate_refresh_and_rotate jwt redis sha256_hex now jti token
            user_agent ip s
          ≡ (refused e, s))
  unfolding validate_refresh_and_rotate get_refresh_record
  refused_after now jti token user_agent ip s gone = elim (Option-cases (jwt.parse now token)) [
    | inl bad ↦ (token_refused, rw (validate_refresh_and_rotate, bad) refl)
    | inr (claims, good) ↦ elim (Bool-cases (str_eq claims.id "")) [
      | inl unnamed ↦ (missing_jti, rw (validate_refresh_and_rotate, good, unnamed) refl)
      | inr named ↦ elim (Option-cases (redis.get claims.id s)) [
        | inl down ↦ (redis_error, rw (validate_refresh_and_rotate, good, named, down) refl)
        | inr (o, got) ↦ (
          not_found,
          rw
              (
                validate_refresh_and_rotate,
                good,
                named,
                got,
                redis.get_found claims.id s o got ∙ gone claims good,
              )
              refl,
        )
      ]
    ]
  ]

  -- With a server that answers, a refresh token is good for one rotation: after ValidateRefreshAndRotate has
  -- rotated it, every later call with the same token, at any time and from any client, is refused with an
  -- error and changes nothing.
  pub rotate_once :
      (now : ℕ) (jti token user_agent ip access refresh jti' : String) (s s' : Sessions)
      → validate_refresh_and_rotate jwt redis sha256_hex now jti token user_agent ip s
        ≡ (rotated access refresh jti', s')
      → (later : ℕ) (jti'' user_agent' ip' : String)
      → (e : RotateError) × (validate_refresh_and_rotate jwt redis sha256_hex later jti'' token
            user_agent' ip' s'
          ≡ (refused e, s'))
  rotate_once now jti token user_agent ip access refresh jti' s s' run later jti'' user_agent' ip' =
      let (claims, good, gone) =
        subst (Spent now token) run (spent now jti token user_agent ip s) in
      refused_after later jti'' token user_agent' ip' s' (λ claims' again.
        subst (λ c. s'.records c.id ≡ none)
          (sym (jwt.parse_same now later claims claims' token good again)) gone)

  all_revoked :
      (u : String) (s : Sessions) (j : String)
      → Elem j (s.of_user u)
      → (revoke_all_user_refresh_tokens jwt redis sha256_hex u s).records j ≡ none
  unfolding revoke_all_user_refresh_tokens
  all_revoked u s j member = elim (Option-cases (redis.smembers u s)) [
    | inl down ↦ absurd (serves.lists u s down)
    | inr (js, listing) ↦ elim (Option-cases (redis.exec (pipeline jwt redis sha256_hex u js) s)) [
      | inl down ↦ absurd (serves.execs (pipeline jwt redis sha256_hex u js) s down)
      | inr (s', ran) ↦
          rw (revoke_all_user_refresh_tokens, listing, ran)
            (redis.exec_records (pipeline jwt redis sha256_hex u js) s s' j ran
              ∙ ap (λ b. if b then none else s.records j)
                  (deletes_listed jwt redis sha256_hex u j js
                    (subst (Elem j) (sym (redis.smembers_found u s js listing)) member)))
    ]
  ]

  -- With a server that answers, a token that names a stored session but is not the token that was stored
  -- for it is refused as reuse, and every session in the set of the session's user is gone.
  pub reuse_revokes :
      (now : ℕ) (jti token user_agent ip : String) (s : Sessions) (claims : Claims)
      (rec : RefreshRecord)
      → jwt.parse now token ≡ some claims
      → str_eq claims.id "" ≡ false
      → s.records claims.id ≡ some rec
      → str_eq rec.token_hash (sha256_hex token) ≡ false
      → (validate_refresh_and_rotate jwt redis sha256_hex now jti token user_agent ip s ≡ (
        refused reuse_detected,
        revoke_all_user_refresh_tokens jwt redis sha256_hex rec.username s,
      ))
        × ((j : String)
            → Elem j (s.of_user rec.username)
            → (validate_refresh_and_rotate jwt redis sha256_hex now jti token user_agent ip
                  s).1.records
                j
              ≡ none)
  unfolding validate_refresh_and_rotate get_refresh_record
  reuse_revokes now jti token user_agent ip s claims rec good named stored differ =
      elim (Option-cases (redis.get claims.id s)) [
        | inl down ↦ absurd (serves.gets claims.id s down)
        | inr (o, got) ↦
            let hit = redis.get_found claims.id s o got ∙ stored in
            let run : validate_refresh_and_rotate jwt redis sha256_hex now jti token user_agent ip s
                ≡ (
                  refused reuse_detected,
                  revoke_all_user_refresh_tokens jwt redis sha256_hex rec.username s,
                ) =
              rw (validate_refresh_and_rotate, good, named, got, hit, differ) refl in
            (run, λ j member. ap (λ r. r.1.records j) run ∙ all_revoked rec.username s j member)
      ]
