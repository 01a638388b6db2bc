-- ===== src/Address/Tests.antt =====
-- Address handlers on a small table.
use good_food_be.Base.{◌≡◌, refl, true, false, some, List, [], ◌∷◌, arith}
use good_food_be.Store.Memory.{memory, memory_run}
use good_food_be.Http.{ok, error, Ends}
use good_food_be.Address.{
  Address, AddressTable, address_key, address_update, address_delete, address_quick_change,
}
use good_food_be.Address.Owner.{IsUpdate, address_update-Owned}
use good_food_be.Address.Default.{QuickChange, OnlyDefault, address_quick_change-QuickChange}

abbrev db : AddressTable
db = memory address_key (λ a id. record a { address_id = id }) (λ a id. refl)

abbrev home : Address
home = record {
  address_id = 1;
  phone_number = "0900000001";
  full_name = "An";
  address = "1 Le Loi";
  specific_address = "";
  status = true;
  province_id = 79;
  district_id = 760;
  ward_id = 1;
  delete_status = false;
  account_id = 7;
  ward_code = "00001";
}

abbrev office : Address
office = record home { address_id = 2; address = "2 Hai Ba Trung"; status = false }

abbrev stranger : Address
stranger = record home { address_id = 3; full_name = "Binh"; account_id = 8 }

abbrev table : List Address
table = home ∷ office ∷ stranger ∷ []

abbrev swapped : List Address
swapped = record home { status = false } ∷ record office { status = true } ∷ stranger ∷ []

quick_change_run :
    address_quick_change db 7 2 1 table ≡ (ok (record office { status = true }), swapped)
unfolding address_quick_change memory_run
quick_change_run = refl

stolen_run : address_delete db 7 3 table ≡ (error 403 "Address belongs to another account!", table)
unfolding address_delete memory_run
stolen_run = refl

missing_run : address_update db 7 9 (some office) table ≡ (error 404 "Address not found", table)
unfolding address_update memory_run
missing_run = refl

address_update-Owned_example :
    Ends (IsUpdate 7 2 stranger table) table (address_update db 7 2 (some stranger) table)
address_update-Owned_example = address_update-Owned db 7 2 stranger table

address_quick_change-QuickChange_example :
    QuickChange 7 2 1 table (address_quick_change db 7 2 1 table)
address_quick_change-QuickChange_example = address_quick_change-QuickChange db 7 2 1 table

only_default : OnlyDefault 7 1 table
only_default k a here own set = ground arith
