-- ===== src/Account/AdminList.antt =====
-- GetAdminUsers and GetAdminUserDetail of GoodFood-BE/internal/server/handlers/admin_users.go. ILIKE and the counts
-- of FetchCards are parameters.
use good_food_be.Base.{
  ℕ, ◌≡◌, ◌≤◌, refl, ap, inl, inr, String, Bool, true, false, Option, none, some, List, All, length,
  ◌==◌, str_eq, if◌then◌else◌, Bool-cases,
}
use good_food_be.Base.Int.{ℤ, pos}
use good_food_be.Store.{Result, Result-cases, get, tally}
use good_food_be.Http.{Action, Ends, ◌>>=◌, ◌>>◌, pure, error_if, or_message, read}
use good_food_be.Paging.{Float64, paginate, is_zero}
use good_food_be.Account.{Account, AccountTable, account_key}

-- dto.UserCards
pub record UserCards : Type 0 where
  pub total_users : ℕ
  pub total_disabled : ℕ

-- What GetAdminUsers answers.
pub record UserPage : Type 0 where
  pub data_rows : List Account
  pub cards : UserCards
  pub total_page : ℤ

pub record UserQuery : Type 0 where
  pub page : ℤ
  pub sort : String
  pub search : String

-- ILIKE on a column that may be null.
abbrev pub on_null : (String → Bool) → Option String → Bool
on_null p none = false
on_null p (some x) = p x

-- `contains search x` is the match with "%search%".
unfoldable pub user_condition : (String → String → Bool) → String → String → Account → Bool
user_condition contains sort search a =
    if str_eq search ""
    then true
    else if str_eq sort "Username"
    then contains search a.username
    else if str_eq sort "Phone number"
    then on_null (contains search) a.phone_number
    else if str_eq sort "Email"
    then contains search a.email
    else if str_eq sort "Full name"
    then contains search a.full_name
    else true

module _ {F : Type 0} (float : Float64 F) (accounts : AccountTable)
    (contains : String → String → Bool) (fetch_cards : List Account → Result UserCards) where
  abbrev pub list_users : UserQuery → List Account → UserCards → Action (List Account) ⊥ UserPage
  list_users q t cards = do
    total ← or_message (accounts.count (user_condition contains q.sort q.search) t) 500
    let (offset, total_page) = paginate float q.page (pos 6) (pos total)
    users ← or_message (accounts.select (user_condition contains q.sort q.search) 6 offset t) 500
    pure (record { data_rows = users; cards = cards; total_page = total_page })

  unfoldable pub get_admin_users : UserQuery → Action (List Account) ⊥ UserPage
  get_admin_users q = do
    t ← read
    cards ← or_message (fetch_cards t) 500
    error_if (is_zero q.page) 401 "Did not receive page"
    list_users q t cards

  unfoldable pub get_admin_user_detail : ℕ → Action (List Account) ⊥ Account
  get_admin_user_detail id = do
    error_if (id == 0) 400 "Did not receive accountID"
    t ← read
    or_message (accounts.one (λ a. a.account_id == id) t) 500

  -- At most six accounts that match, and the number of pages that Paginate gives for as many as match.
  ListsUsers : UserQuery → List Account → UserPage → List Account → Type 0
  ListsUsers q t answer t' =
      (t' ≡ t)
      × (length answer.data_rows ≤ 6)
      × All
          (λ a.
            (user_condition contains q.sort q.search a ≡ true)
            × (get account_key a.account_id t ≡ some a))
          answer.data_rows
      × (answer.total_page
          ≡ (paginate float q.page (pos 6)
              (pos (tally account_key (user_condition contains q.sort q.search) t t))).1)

  list_users-ListsUsers :
      (q : UserQuery) (t : List Account) (cards : UserCards)
      → Ends (ListsUsers q t) t (list_users q t cards t)
  unfolding ListsUsers
  list_users-ListsUsers q t cards =
      elim (Result-cases (accounts.count (user_condition contains q.sort q.search) t)) [
        | inr (wrong, e) ↦ rw e refl
        | inl (total, counted) ↦
            rw counted
              (elim (Result-cases (
                accounts.select (user_condition contains q.sort q.search) 6
                  (paginate float q.page (pos 6) (pos total)).0 t)) [
                    | inr (wrong, e) ↦ rw e refl
                    | inl (users, e) ↦
                        let (few, all) =
                          accounts.select_found (user_condition contains q.sort q.search) 6
                            (paginate float q.page (pos 6) (pos total)).0 t users e in
                        rw e (
                          refl,
                          few,
                          all,
                          ap (λ n. (paginate float q.page (pos 6) (pos n)).1)
                              (accounts.count_found (user_condition contains q.sort q.search) t
                                total counted),
                        )
                  ])
      ]

  -- GetAdminUsers writes nothing; a request that it answers has at most six accounts, each a row of the table that
  -- matches the search in the column of the sort, and the number of pages that Paginate gives for the number of
  -- all rows that match.
  get_admin_users-ListsUsers :
      (q : UserQuery) (t : List Account) → Ends (ListsUsers q t) t (get_admin_users q t)
  unfolding get_admin_users
  get_admin_users-ListsUsers q t = elim (Result-cases (fetch_cards t)) [
    | inr (wrong, e) ↦ rw e refl
    | inl (cards, e) ↦ elim (Bool-cases (is_zero q.page)) [
      | inl no_page ↦ rw (e, no_page) refl
      | inr given ↦ rw (e, given) (list_users-ListsUsers q t cards)
    ]
  ]
