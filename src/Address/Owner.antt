-- ===== src/Address/Owner.antt =====
-- Who may read and write an address: AddressDetail, AddressUpdate and AddressDelete of
-- GoodFood-BE/internal/server/handlers/address.go.
use good_food_be.Base.{ℕ, ◌≡◌, refl, sym, inl, inr, none, some, List, arith, subst}
use good_food_be.Store.{done, get, Result-cases}
use good_food_be.Store.Laws.{Elsewhere, update-Writes, delete-Removes, one_by_key}
use good_food_be.Http.{Ends}
use good_food_be.Address.{
  Address, AddressTable, address_key, by_id, row_of, updated, address_detail, address_update,
  address_delete,
}

-- The row that was read is the caller's, and nothing was written.
abbrev pub IsRead : ℕ → ℕ → List Address → Address → List Address → Type 0
IsRead account_id address_id t row t' =
    (row.account_id ≡ account_id) × (row_of address_id t ≡ some row) × (t' ≡ t)

-- The row has these fields of the body and keeps its others: the body's province and ward ID, its deletion
-- status, its IDs of the address and the account do not count.
abbrev pub IsEdit : Address → Address → Address → Type 0
IsEdit details old row =
    (row.address ≡ details.address)
    × (row.district_id ≡ details.district_id)
    × (row.full_name ≡ details.full_name)
    × (row.phone_number ≡ details.phone_number)
    × (row.specific_address ≡ details.specific_address)
    × (row.status ≡ details.status)
    × (row.ward_code ≡ details.ward_code)
    × (row.province_id ≡ old.province_id)
    × (row.ward_id ≡ old.ward_id)
    × (row.delete_status ≡ old.delete_status)
    × (row.address_id ≡ old.address_id)
    × (row.account_id ≡ old.account_id)

-- The row was the caller's, it has the new fields, and it alone is written.
abbrev pub IsUpdate : ℕ → ℕ → Address → List Address → Address → List Address → Type 0
IsUpdate account_id address_id details t row t' =
    (row.account_id ≡ account_id)
    × ((old : Address) × (row_of address_id t ≡ some old) × IsEdit details old row)
    × (row_of address_id t' ≡ some row)
    × Elsewhere address_key address_id t t'

-- The row was the caller's, and it alone is gone.
abbrev pub IsDelete : ℕ → ℕ → List Address → Address → List Address → Type 0
IsDelete account_id address_id t row t' =
    (row.account_id ≡ account_id)
    × (row_of address_id t ≡ some row)
    × (row_of address_id t' ≡ none)
    × Elsewhere address_key address_id t t'

module _ (db : AddressTable) where
  module _ (account_id address_id : ℕ) (t : List Address) (old : Address)
      (found : db.one (by_id address_id) t ≡ done old) (own : old.account_id ≡ account_id) where
    old_key : old.address_id ≡ address_id
    old_key = (one_by_key db address_id t old found).0

    old_here : row_of address_id t ≡ some old
    old_here = (one_by_key db address_id t old found).1

    update_step :
        (details : Address) (t' : List Address)
        → db.update (updated old details) t ≡ done t'
        → IsUpdate account_id address_id details t (updated old details) t'
    update_step details t' wrote =
        let (now, rest) =
          update-Writes db (updated old details) old t t' wrote
            (subst (λ k. get address_key k t ≡ some old) (sym old_key) old_here) in
        (
          own,
          (old, old_here, (refl, refl, refl, refl, refl, refl, refl, refl, refl, refl, refl, refl)),
          subst (λ k. get address_key k t' ≡ some (updated old details)) old_key now,
          subst (λ k. Elsewhere address_key k t t') old_key rest,
        )

    delete_step :
        (t' : List Address) → db.delete old t ≡ done t' → IsDelete account_id address_id t old t'
    delete_step t' wrote =
        let (now, rest) = delete-Removes db old t t' wrote in
        (
          own,
          old_here,
          subst (λ k. get address_key k t' ≡ none) old_key now,
          subst (λ k. Elsewhere address_key k t t') old_key rest,
        )

  module _ (account_id address_id : ℕ) where
    -- Whatever the table and the engine, AddressDetail writes nothing, and answers 200 only with the
    -- row under the address ID, which belongs to the account ID of the request.
    address_detail-Owned :
        (t : List Address)
        → Ends (IsRead account_id address_id t) t (address_detail db address_id account_id t)
    unfolding address_detail
    address_detail-Owned t = elim (Result-cases (db.one (by_id address_id) t)) [
      | inl (old, found) ↦ ground (arith, old_here account_id address_id t old found)
      | inr (e, wrong) ↦ ground arith
    ]

    -- AddressUpdate answers 200 only if the row under the address ID belongs to the account ID of the
    -- request; then that row has the body's address, specific address, district ID, ward code, full name, phone
    -- number and status, keeps its province ID, ward ID, deletion status and owner whatever the body has
    -- there, and is the only one written. On every error the table is as it was.
    pub address_update-Owned :
        (details : Address) (t : List Address)
        → Ends
            (IsUpdate account_id address_id details t)
            t
            (address_update db account_id address_id (some details) t)
    unfolding address_update
    address_update-Owned details t = elim (Result-cases (db.one (by_id address_id) t)) [
      | inl (old, found) ↦ elim (Result-cases (db.update (updated old details) t)) [
        | inl (t', wrote) ↦ ground (
          arith,
          λ (own : old.account_id ≡ account_id).
              update_step account_id address_id t old found own details t' wrote,
        )
        | inr (e, wrong) ↦ ground arith
      ]
      | inr (e, wrong) ↦ ground arith
    ]

    -- AddressDelete answers 200 only if the row under the address ID belongs to the account ID of the
    -- request; then that row is gone and no other is touched. On every error the table is as it was.
    address_delete-Owned :
        (t : List Address)
        → Ends (IsDelete account_id address_id t) t (address_delete db account_id address_id t)
    unfolding address_delete
    address_delete-Owned t = elim (Result-cases (db.one (by_id address_id) t)) [
      | inl (old, found) ↦ elim (Result-cases (db.delete old t)) [
        | inl (t', wrote) ↦ ground (
          arith,
          λ (own : old.account_id ≡ account_id).
              delete_step account_id address_id t old found own t' wrote,
        )
        | inr (e, wrong) ↦ ground arith
      ]
      | inr (e, wrong) ↦ ground arith
    ]
