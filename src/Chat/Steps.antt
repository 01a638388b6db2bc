-- ===== src/Chat/Steps.antt =====
-- How the chat moves: the handlers' steps, in any order in which the connections make them.
use good_food_be.Base.{ℕ, ◌≡◌, String, true, Option, []}
use good_food_be.Base.Int.{ℤ}
use good_food_be.Chat.{
  ChatMessage, Hub, user_connects, admin_connects, user_leaves, admin_leaves, user_says, admin_says,
}
use good_food_be.Chat.Conns.{runs}

-- Messages and disconnections come from handlers that run.
pub data Step (s t : Hub) : Type 0 where
  user_joins : (param : Option ℤ) (conn : ℕ) → t ≡ user_connects param conn s → Step s t
  admin_joins : (param : Option ℤ) (conn : ℕ) → t ≡ admin_connects param conn s → Step s t
  user_writes :
      (id conn : ℕ) (text : String)
      → runs id conn s.live_users ≡ true
      → t ≡ user_says text s
      → Step s t
  admin_writes :
      (id conn : ℕ) (payload : Option ChatMessage)
      → runs id conn s.live_admins ≡ true
      → t ≡ admin_says id payload s
      → Step s t
  user_goes :
      (id conn : ℕ) → runs id conn s.live_users ≡ true → t ≡ user_leaves id conn s → Step s t
  admin_goes :
      (id conn : ℕ) → runs id conn s.live_admins ≡ true → t ≡ admin_leaves id conn s → Step s t

-- Before the first connection.
abbrev pub idle : Hub
idle = record { users = []; admins = []; live_users = []; live_admins = []; outbox = [] }

pub data Reach : Hub → Type 0 where
  start : Reach idle
  next : {s t : Hub} → Reach s → Step s t → Reach t
