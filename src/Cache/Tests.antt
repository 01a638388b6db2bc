-- ===== src/Cache/Tests.antt =====
-- ClearCache on a server that holds one set and its member.
use good_food_be.Base.{ℕ, ◌≡◌, some, none, [], ◌∷◌, arith, if◌then◌else◌}
use good_food_be.Cache.{num, Key, listed, Cache, Redis, set_cache, clear_cache}
use good_food_be.Cache.Server.{server, empty}
use good_food_be.Cache.Clear.{Deletes, clear_cache_exact}

abbrev set_key : Key
set_key = record { format = "products"; args = [] }

abbrev page : Key
page = record { format = "product:page=%d"; args = num 1 ∷ [] }

abbrev redis : Redis ℕ
redis = server

up : Deletes redis
up ks c e = ground arith

abbrev filled : Cache ℕ
filled = set_cache redis page 42 (some set_key) empty

clear_cache_exact_example :
    clear_cache (some redis) (set_key ∷ page ∷ []) filled page
    ≡ (if listed page (set_key ∷ page ∷ []) then none else filled page)
clear_cache_exact_example = clear_cache_exact redis up (set_key ∷ page ∷ []) filled page
