-- ===== src/ProductType.antt =====
-- Product types: the handlers GetAdminProductTypeDetail, AdminProductTypeCreate, AdminProductTypeUpdate and
-- validationProductType of GoodFood-BE/internal/server/handlers/admin_productTypes.go, on the table
-- `product_type`.
pub mod Unique
pub mod AdminList
mod Tests
use good_food_be.Base.{⊤, ℕ, String, Bool, true, false, not, ◌&&◌, Option, List, ◌==◌, str_eq}
use good_food_be.Store.{Table, Result, done, failed, get}
use good_food_be.Http.{
  Response, ok, error_struct, Action, ◌>>=◌, ◌>>◌, pure, error_if, parsed, or_error, or_message,
  read, write,
}

-- models.ProductType
pub record ProductType : Type 0 where
  pub product_type_id : ℕ
  pub type_name : String
  pub status : Bool

-- dto.ProductTypeError
pub record ProductTypeError : Type 0 where
  pub err_type_name : String

abbrev pub type_key : ProductType → ℕ
type_key p = p.product_type_id

abbrev pub ProductTypeTable : Type 0
ProductTypeTable = Table type_key (λ p id. record p { product_type_id = id })

-- The product type under an ID.
abbrev pub type_of : ℕ → List ProductType → Option ProductType
type_of = get type_key

-- `"typeName" = ? AND "productTypeID" <> ?`
abbrev pub namesake : ProductType → ProductType → Bool
namesake pt p = str_eq p.type_name pt.type_name && not (p.product_type_id == pt.product_type_id)

-- The check for a duplicate, by the answer of the query.
abbrev pub duplicate : Result Bool → Bool × ProductTypeError
duplicate (failed e) = (false, record { err_type_name = "Validation failed, please try again" })
duplicate (done true) = (false, record { err_type_name = "Product type already exists" })
duplicate (done false) = (true, record { err_type_name = "" })

abbrev pub valid_or : Bool × ProductTypeError → Action (List ProductType) ProductTypeError ⊤
valid_or (true, e) t = (ok tt, t)
valid_or (false, e) t = (error_struct 400 e, t)

module _ (db : ProductTypeTable) where
  abbrev pub named : Bool → ProductType → List ProductType → Bool × ProductTypeError
  named true pt t = (false, record { err_type_name = "Please input product type!" })
  named false pt t = duplicate (db.exists (namesake pt) t)

  unfoldable pub validation_product_type : ProductType → List ProductType → Bool × ProductTypeError
  validation_product_type pt t = named (str_eq pt.type_name "") pt t

  unfoldable pub get_admin_product_type_detail :
      ℕ → Action (List ProductType) ProductTypeError ProductType
  get_admin_product_type_detail type_id = do
    error_if (type_id == 0) 400 "Did not receive typeID"
    t ← read
    or_error (db.one (λ p. p.product_type_id == type_id) t) 500 "Product type not found!"

  unfoldable pub admin_product_type_create :
      Option ProductType → Action (List ProductType) ProductTypeError ProductType
  admin_product_type_create body = do
    pt ← parsed body 400 "Invalid request body"
    t ← read
    valid_or (validation_product_type pt t)
    (row, t') ← or_message (db.insert pt t) 500
    write t'
    pure row

  unfoldable pub admin_product_type_update :
      Option ProductType → Action (List ProductType) ProductTypeError ProductType
  admin_product_type_update body = do
    pt ← parsed body 400 "Invalid request body"
    t ← read
    valid_or (validation_product_type pt t)
    to_update ←
        or_error (db.one (λ p. p.product_type_id == pt.product_type_id) t) 500
          "Product type not found!"
    let to_update' = record to_update { status = pt.status; type_name = pt.type_name }
    t' ← or_message (db.update to_update' t) 500
    write t'
    pure to_update'
