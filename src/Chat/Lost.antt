-- ===== src/Chat/Lost.antt =====
-- What a second connection of the same user costs.
use good_food_be.Base.{
  ℕ, ◌≡◌, ◌≢◌, sym, ap, ◌∙◌, subst, true, none, some, ◌∷◌, String, ==_refl, ◌<◌, arith,
  if◌then◌else◌,
}
use good_food_be.Base.Int.{pos}
use good_food_be.Chat.{
  Hub, accepted, user_opens, user_connects, user_leaves, admin_says, write_json,
}
use good_food_be.Chat.Conns.{lookup, put, runs, lookup-remove, runs-cons, runs-drop_one}

-- The user opens a second connection, and the first one then closes.
abbrev pub reopened : ℕ → ℕ → ℕ → Hub → Hub
reopened id old new s =
    user_leaves id old (user_connects (some (pos id)) new (user_connects (some (pos id)) old s))

-- The user's second handler runs, and an admin's message to the user is written nowhere.
abbrev pub Deaf : ℕ → ℕ → Hub → Hub → Type 0
Deaf id new s t =
    (runs id new t.live_users ≡ true)
    × ((admin_id : ℕ) (text : String)
        → (admin_says admin_id (some (record { to_id = id; body = text })) t).outbox ≡ s.outbox)

opens_lem :
    (id conn : ℕ) (s : Hub)
    → 0 < id
    → user_connects (some (pos id)) conn s ≡ user_opens (some id) conn s
unfolding user_connects
opens_lem id conn s h = ap (λ o. user_opens o conn s) (accepted_pos id h)
  where
    accepted_pos : (id : ℕ) → 0 < id → accepted (some (pos id)) ≡ some id
    accepted_pos id h = ground arith

opened-Deaf :
    (id old new : ℕ) (s : Hub)
    → old ≢ new
    → Deaf id new s (user_leaves id old (user_opens (some id) new (user_opens (some id) old s)))
unfolding user_leaves admin_says
opened-Deaf id old new s differ = (
  ground (
    arith,
    runs-drop_one id old id new ((id, new) ∷ (id, old) ∷ s.live_users),
    runs-cons id new id new ((id, old) ∷ s.live_users),
  ),
  λ admin_id text.
      ap (λ o. write_json o admin_id text s.outbox)
        (lookup-remove id id (put id new (put id old s.users))
          ∙ ap (λ b. if b then none else lookup id (put id new (put id old s.users))) (==_refl id)),
)

-- After a user has opened a second connection and closed the first one, the handler of the second runs,
-- and whatever any admin sends to the user is written nowhere.
pub reopened-Deaf :
    (id old new : ℕ) (s : Hub) → 0 < id → old ≢ new → Deaf id new s (reopened id old new s)
reopened-Deaf id old new s positive differ =
    subst (λ t. Deaf id new s (user_leaves id old t))
      (sym (
        ap (user_connects (some (pos id)) new) (opens_lem id old s positive)
        ∙ opens_lem id new (user_opens (some id) old s) positive))
      (opened-Deaf id old new s differ)
