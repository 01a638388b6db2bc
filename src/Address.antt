-- ===== src/Address.antt =====
-- GoodFood-BE/internal/server/handlers/address.go, on the table `address`.
pub mod Owner
pub mod Default
mod Tests
use good_food_be.Base.{ℕ, String, Bool, true, false, Option, List, ◌==◌, ◌&&◌, ◌||◌, not}
use good_food_be.Store.{Table, get}
use good_food_be.Base.Int.{ℤ, pos}
use good_food_be.Paging.{Float64, is_zero, paginate}
use good_food_be.Http.{
  Action, ◌>>=◌, ◌>>◌, pure, error_if, parsed, or_error, or_message, read, write,
}

-- models.Address
pub record Address : Type 0 where
  pub address_id : ℕ
  pub phone_number : String
  pub full_name : String
  pub address : String
  pub specific_address : String
  pub status : Bool
  pub province_id : ℕ
  pub district_id : ℕ
  pub ward_id : ℕ
  pub delete_status : Bool
  pub account_id : ℕ
  pub ward_code : String

-- The handlers fail with texts only.
abbrev pub Handler : Type 0 → Type 0
Handler A = Action (List Address) ⊥ A

-- Every query of this file by `"addressID" = ?`.
abbrev by_id : ℕ → Address → Bool
by_id id a = a.address_id == id

abbrev pub address_key : Address → ℕ
address_key a = a.address_id

abbrev pub AddressTable : Type 0
AddressTable = Table address_key (λ a id. record a { address_id = id })

-- The row under an address ID.
abbrev pub row_of : ℕ → List Address → Option Address
row_of = get address_key

-- The fields that AddressUpdate takes from the body.
abbrev pub updated : Address → Address → Address
updated row details = record row {
  address = details.address;
  district_id = details.district_id;
  full_name = details.full_name;
  phone_number = details.phone_number;
  specific_address = details.specific_address;
  status = details.status;
  ward_code = details.ward_code;
}

module _ (db : AddressTable) where
  -- The rows and the page count of FetchAddress; `page` is the query parameter.
  unfoldable pub fetch_address : {F : Type 0} → Float64 F → ℕ → ℤ → Handler (List Address × ℤ)
  fetch_address float account_id page = do
    error_if (account_id == 0) 400 "Did not receive accountID"
    error_if (is_zero page) 400 "Did not receive pageNum"
    table ← read
    total ←
        or_error (db.count (λ a. a.account_id == account_id) table) 500 "Total address not found"
    let (offset, total_page) = paginate float page (pos 6) (pos total)
    addresses ← or_message (db.select (λ a. a.account_id == account_id) 6 offset table) 500
    pure (addresses, total_page)

  unfoldable pub address_insert : Option Address → Handler Address
  address_insert body = do
    address_details ← parsed body 400 "Invalid request body"
    table ← read
    (row, table') ← or_error (db.insert address_details table) 500 "Couldn't insert new address"
    write table'
    pure row

  -- AddressDetail, and the first half of AddressUpdate and AddressDelete behind their parameters.
  owned_address : ℕ → ℕ → Handler Address
  owned_address account_id address_id = do
    table ← read
    row ← or_error (db.one (by_id address_id) table) 404 "Address not found"
    error_if (not (row.account_id == account_id)) 403 "Address belongs to another account!"
    pure row

  unfoldable pub address_detail : ℕ → ℕ → Handler Address
  unfolding owned_address
  address_detail address_id account_id = do
    error_if (address_id == 0) 400 "Did not receive addressID"
    error_if (account_id == 0) 400 "Did not receive accountID"
    owned_address account_id address_id

  unfoldable pub address_update : ℕ → ℕ → Option Address → Handler Address
  unfolding owned_address
  address_update account_id address_id body = do
    error_if (account_id == 0) 400 "Did not receive accountID"
    error_if (address_id == 0) 400 "Did not receive addressID"
    update_details ← parsed body 400 "Invalid body request"
    row ← owned_address account_id address_id
    table ← read
    let to_be_updated = updated row update_details
    table' ← or_error (db.update to_be_updated table) 500 "Cannot update the specified address"
    write table'
    pure to_be_updated

  unfoldable pub address_delete : ℕ → ℕ → Handler Address
  unfolding owned_address
  address_delete account_id address_id = do
    error_if (account_id == 0) 400 "Did not receive accountID"
    error_if (address_id == 0) 400 "Did not receive addressID"
    to_be_deleted ← owned_address account_id address_id
    table ← read
    table' ← or_message (db.delete to_be_deleted table) 500
    write table'
    pure to_be_deleted

  unfoldable pub address_fill : ℕ → Handler Address
  address_fill account_id = do
    error_if (account_id == 0) 400 "Did not receive accountID"
    table ← read
    or_error (db.one (λ a. a.account_id == account_id && a.status) table) 500
        "Please go set your default delivery address!"

  -- The two updates of AddressQuickChange are two statements, with no transaction round them.
  unfoldable pub address_quick_change : ℕ → ℕ → ℕ → Handler Address
  address_quick_change account_id address_id to_be_disabled = do
    error_if (account_id == 0) 400 "Did not receive accountID"
    error_if (address_id == 0) 400 "Did not receive addressID"
    error_if (to_be_disabled == 0) 400 "Did not receive toBeDisabled address"
    error_if (address_id == to_be_disabled) 400 "addressID and toBeDisabled cannot be the same"
    table ← read
    to_be_updated ←
        or_error (db.one (by_id address_id) table) 404
          "Cannot find the specified to-be-updated address"
    disable_this ←
        or_error (db.one (by_id to_be_disabled) table) 404
          "Cannot find the specified to-be-disabled address"
    error_if
        (not (to_be_updated.account_id == account_id)
          || not (disable_this.account_id == account_id))
        403 "Address belongs to another account!"
    enabled ←
        or_error (db.update (record to_be_updated { status = true }) table) 500
          "Cannot update the toBeUpdated address"
    write enabled
    changed ←
        or_error (db.update (record disable_this { status = false }) enabled) 500
          "Cannot update the disableThis address"
    write changed
    pure (record to_be_updated { status = true })
