-- ===== src/Auth/Memory.antt =====
-- A server in memory that meets the laws of `SessionServer`.
use good_food_be.Base.{
  ◌≡◌, refl, sym, ap, ◌∙◌, String, Option, none, some, List, [], ◌∷◌, str_eq, if◌then◌else◌, arith,
}
use good_food_be.Auth.SessionStore.{
  RefreshRecord, Sessions, Command, del, srem, deletes, SessionServer,
}

abbrev pub without : String → List String → List String
without j [] = []
without j (k ∷ ks) = if str_eq j k then without j ks else k ∷ without j ks

abbrev pub with_record : String → Option RefreshRecord → Sessions → Sessions
with_record k o s = record s { records = λ j. if str_eq k j then o else s.records j }

abbrev pub with_members : String → List String → Sessions → Sessions
with_members u js s = record s { of_user = λ v. if str_eq u v then js else s.of_user v }

abbrev pub run_all : List Command → Sessions → Sessions
run_all [] s = s
run_all (del j ∷ cs) s = run_all cs (with_record j none s)
run_all (srem u j ∷ cs) s = run_all cs (with_members u (without j (s.of_user u)) s)

pub run_all_records :
    (cs : List Command) (s : Sessions) (j : String)
    → (run_all cs s).records j ≡ (if deletes j cs then none else s.records j)
run_all_records [] s j = refl
run_all_records (del k ∷ cs) s j = ground (arith, run_all_records cs (with_record k none s) j)
run_all_records (srem u k ∷ cs) s j =
    run_all_records cs (with_members u (without k (s.of_user u)) s) j

un_some : Sessions → Option Sessions → Sessions
un_some d none = d
un_some d (some s) = s

pub at : {s s' : Sessions} (j : String) → some s ≡ some s' → s'.records j ≡ s.records j
unfolding un_some
at {s = s} j e = ap (λ x. (un_some s x).records j) (sym e)

un_list : List String → Option (List String) → List String
un_list d none = d
un_list d (some s) = s

un_found : Option RefreshRecord → Option (Option RefreshRecord) → Option RefreshRecord
un_found d none = d
un_found d (some s) = s

pub listing : {js ks : List String} → some js ≡ some ks → ks ≡ js
unfolding un_list
listing {js = js} e = ap (un_list js) (sym e)

pub answer : {a b : Option RefreshRecord} → some a ≡ some b → b ≡ a
unfolding un_found
answer {a = a} e = ap (un_found a) (sym e)

abbrev pub sessions_server : SessionServer
sessions_server = record {
  get = λ j s. some (s.records j);
  set = λ k r ttl s. some (with_record k (some r) s);
  del_record = λ k s. some (with_record k none s);
  sadd = λ u j s. some (with_members u (j ∷ s.of_user u) s);
  srem_member = λ u j s. some (with_members u (without j (s.of_user u)) s);
  smembers = λ u s. some (s.of_user u);
  exec = λ cs s. some (run_all cs s);
  get_found = λ j s o e. answer e;
  set_records = λ k r ttl s s' j e. at j e;
  del_records = λ k s s' j e. at j e;
  sadd_records = λ u k s s' j e. at j e;
  srem_records = λ u k s s' j e. at j e;
  smembers_found = λ u s js e. listing e;
  exec_records = λ cs s s' j e. at j e ∙ run_all_records cs s j;
}
