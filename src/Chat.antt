-- ===== src/Chat.antt =====
-- The live chat: GoodFood-BE/internal/server/handlers/chatMessage.go. A handler runs for as long as its
-- connection is open; the regions that it runs under a mutex are the steps here, and the handlers of all
-- connections interleave at them in any order. The websocket library is a parameter only in that it
-- decides which step comes next; the errors of its writes are ignored by the code.
pub mod Conns
pub mod Steps
pub mod Live
pub mod Lost
mod Tests
use good_food_be.Base.{
  ℕ, String, Bool, true, false, Option, none, some, List, [], ◌∷◌, ◌==◌, ◌&&◌, if◌then◌else◌,
}
use good_food_be.Base.Int.{ℤ, pos, pos_part, leb_ℤ}
use good_food_be.Chat.Conns.{Registry, lookup, put, remove, drop_one}

-- dto.ChatMessage, less the sender (ID and role) and the time, which the code does not read.
pub record ChatMessage : Type 0 where
  pub to_id : ℕ
  pub body : String

-- What is written to a connection: a text as it came, or the map of HandleAdminWebSocket.
pub data Frame : Type 0 where
  raw : String → Frame
  from_admin : ℕ → String → Frame

-- `users` and `admins` are userConnections and adminConnections, from account IDs to connections.
-- `live_users` and `live_admins` are the handlers that run, each by its ID and its connection. `outbox` holds
-- what has been written, newest first.
pub record Hub : Type 0 where
  pub users : Registry
  pub admins : Registry
  pub live_users : Registry
  pub live_admins : Registry
  pub outbox : List (ℕ × Frame)

-- `strconv.Atoi(…)`, and the test `err != nil || accountID <= 0`.
abbrev pub accepted : Option ℤ → Option ℕ
accepted none = none
accepted (some z) = if leb_ℤ z (pos 0) then none else some (pos_part z)

-- HandleUserWebsocket up to its loop; a rejected connection is told so and closed.
abbrev pub user_opens : Option ℕ → ℕ → Hub → Hub
user_opens none conn hub = record hub { outbox = (conn, raw "Invalid accountID") ∷ hub.outbox }
user_opens (some id) conn hub = record hub {
  users = put id conn hub.users;
  live_users = (id, conn) ∷ hub.live_users;
}

abbrev pub admin_opens : Option ℕ → ℕ → Hub → Hub
admin_opens none conn hub = record hub { outbox = (conn, raw "Invalid adminID") ∷ hub.outbox }
admin_opens (some id) conn hub = record hub {
  admins = put id conn hub.admins;
  live_admins = (id, conn) ∷ hub.live_admins;
}

unfoldable pub user_connects : Option ℤ → ℕ → Hub → Hub
user_connects param conn hub = user_opens (accepted param) conn hub

unfoldable pub admin_connects : Option ℤ → ℕ → Hub → Hub
admin_connects param conn hub = admin_opens (accepted param) conn hub

-- The deferred function: the entry of the ID goes, whichever connection it holds.
unfoldable pub user_leaves : ℕ → ℕ → Hub → Hub
user_leaves id conn hub = record hub {
  users = remove id hub.users;
  live_users = drop_one id conn hub.live_users;
}

unfoldable pub admin_leaves : ℕ → ℕ → Hub → Hub
admin_leaves id conn hub = record hub {
  admins = remove id hub.admins;
  live_admins = drop_one id conn hub.live_admins;
}

-- The range over adminConnections. Go's order is not fixed; the registry's stands for any.
abbrev pub write_all : String → Registry → List (ℕ × Frame) → List (ℕ × Frame)
write_all text [] out = out
write_all text ((id, conn) ∷ rest) out = (conn, raw text) ∷ write_all text rest out

unfoldable pub user_says : String → Hub → Hub
user_says text hub = record hub { outbox = write_all text hub.admins hub.outbox }

abbrev pub write_json : Option ℕ → ℕ → String → List (ℕ × Frame) → List (ℕ × Frame)
write_json none admin_id text out = out
write_json (some conn) admin_id text out = (conn, from_admin admin_id text) ∷ out

-- `payload` is json.Unmarshal of the message; one that fails is skipped.
unfoldable pub admin_says : ℕ → Option ChatMessage → Hub → Hub
admin_says admin_id none hub = hub
admin_says admin_id (some payload) hub = record hub {
  outbox = write_json (lookup payload.to_id hub.users) admin_id payload.body hub.outbox;
}
