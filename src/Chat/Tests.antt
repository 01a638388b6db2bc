-- ===== src/Chat/Tests.antt =====
-- A user with two tabs, and an admin.
use good_food_be.Base.{refl, some, arith}
use good_food_be.Base.Int.{pos}
use good_food_be.Chat.{Hub, user_connects, admin_connects}
use good_food_be.Chat.Steps.{user_joins, admin_joins, Reach, start, next, idle}
use good_food_be.Chat.Live.{IsLive, Reach-IsLive}
use good_food_be.Chat.Lost.{Deaf, reopened, reopened-Deaf}

abbrev joined : Hub
joined = admin_connects (some (pos 1)) 20 (user_connects (some (pos 7)) 10 idle)

reach : Reach joined
reach = next (next start (user_joins (some (pos 7)) 10 refl)) (admin_joins (some (pos 1)) 20 refl)

Reach-IsLive_example : IsLive joined
Reach-IsLive_example = Reach-IsLive reach

reopened-Deaf_example : Deaf 7 11 joined (reopened 7 10 11 joined)
reopened-Deaf_example = reopened-Deaf 7 10 11 joined (omega arith) (λ e. ground arith)
