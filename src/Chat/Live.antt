-- ===== src/Chat/Live.antt =====
-- Only connections whose handler runs are registered.
use good_food_be.Base.{ℕ, ◌≡◌, sym, subst, true, Option, none, some, ◌∷◌, arith}
use good_food_be.Chat.{
  ChatMessage, Hub, user_opens, admin_opens, accepted, user_connects, admin_connects, user_leaves,
  admin_leaves, user_says, admin_says,
}
use good_food_be.Chat.Conns.{
  Registry, lookup, put, remove, runs, drop_one, lookup-nil, lookup-put, lookup-remove, runs-cons,
  runs-drop_one,
}
use good_food_be.Chat.Steps.{
  Step, user_joins, admin_joins, user_writes, admin_writes, user_goes, admin_goes, Reach, start,
  next,
}

-- Every connection of the map is that of a handler that runs under the ID.
unfoldable pub AllRun : Registry → Registry → Type 0
AllRun m live = (j d : ℕ) → lookup j m ≡ some d → runs j d live ≡ true

abbrev pub IsLive : Hub → Type 0
IsLive hub = AllRun hub.users hub.live_users × AllRun hub.admins hub.live_admins

put-AllRun : (k c : ℕ) (m live : Registry) → AllRun m live → AllRun (put k c m) ((k, c) ∷ live)
unfolding AllRun
put-AllRun k c m live h j d at = ground (arith, lookup-put k c j m, runs-cons k c j d live, h j d)

remove-AllRun :
    (k c : ℕ) (m live : Registry) → AllRun m live → AllRun (remove k m) (drop_one k c live)
unfolding AllRun
remove-AllRun k c m live h j d at =
    ground (arith, lookup-remove k j m, runs-drop_one k c j d live, h j d)

user_opens-IsLive : (id : Option ℕ) (conn : ℕ) (s : Hub) → IsLive s → IsLive (user_opens id conn s)
user_opens-IsLive none conn s h = h
user_opens-IsLive (some id) conn s h = (put-AllRun id conn s.users s.live_users h.0, h.1)

admin_opens-IsLive :
    (id : Option ℕ) (conn : ℕ) (s : Hub) → IsLive s → IsLive (admin_opens id conn s)
admin_opens-IsLive none conn s h = h
admin_opens-IsLive (some id) conn s h = (h.0, put-AllRun id conn s.admins s.live_admins h.1)

admin_says-IsLive :
    (id : ℕ) (payload : Option ChatMessage) (s : Hub) → IsLive s → IsLive (admin_says id payload s)
unfolding admin_says
admin_says-IsLive id none s h = h
admin_says-IsLive id (some m) s h = h

Step-IsLive : (s t : Hub) → Step s t → IsLive s → IsLive t
unfolding user_connects admin_connects user_says user_leaves admin_leaves
Step-IsLive s t (user_joins param conn e) h =
    subst IsLive (sym e) (user_opens-IsLive (accepted param) conn s h)
Step-IsLive s t (admin_joins param conn e) h =
    subst IsLive (sym e) (admin_opens-IsLive (accepted param) conn s h)
Step-IsLive s t (user_writes id conn text at e) h = subst IsLive (sym e) h
Step-IsLive s t (admin_writes id conn payload at e) h =
    subst IsLive (sym e) (admin_says-IsLive id payload s h)
Step-IsLive s t (user_goes id conn at e) h =
    subst IsLive (sym e) (remove-AllRun id conn s.users s.live_users h.0, h.1)
Step-IsLive s t (admin_goes id conn at e) h =
    subst IsLive (sym e) (h.0, remove-AllRun id conn s.admins s.live_admins h.1)

-- In every state that the chat can reach, however the handlers interleave, each registered connection is
-- one whose handler runs under the ID: nothing is written to a connection that has been left.
pub Reach-IsLive : {t : Hub} → Reach t → IsLive t
unfolding AllRun
Reach-IsLive start =
    (λ j d at. ground (arith, lookup-nil j), λ j d at. ground (arith, lookup-nil j))
Reach-IsLive (next {s = s} {t = t} r st) = Step-IsLive s t st (Reach-IsLive r)
