-- ===== src/Product.antt =====
-- Products: GoodFood-BE/internal/server/handlers/admin_products.go and products.go with
-- GoodFood-BE/internal/utils/products_helper.go and GoodFood-BE/internal/dto/product_dto.go. A float32 is a whole multiple
-- of 2^-149, and stands as that multiple.
pub mod Edit
pub mod Catalog
pub mod Edited
pub mod Stale
pub mod Detail
pub mod Displayed
pub mod Shown
pub mod Ratings
pub mod Unseen
pub mod AdminList
pub mod AdminListed
pub mod Tests
mod DetailTests
use good_food_be.Base.{
  ℕ, String, Bool, true, false, ◌&&◌, not, Option, List, [], ◌∷◌, length, ◌==◌, str_eq,
  if◌then◌else◌,
}
use good_food_be.Base.Int.{ℤ, pos, ltb_ℤ}
use good_food_be.Store.{Table}
use good_food_be.Cache.{Cache}

-- models.Product
pub record Product : Type 0 where
  pub product_id : ℕ
  pub product_name : String
  pub price : ℤ
  pub cover_image : String
  pub description : Option String
  pub status : Bool
  pub insert_date : ℕ
  pub product_type_id : ℕ
  pub weight : ℤ

-- models.ProductImage
pub record ProductImage : Type 0 where
  pub product_image_id : ℕ
  pub image : String
  pub product_id : ℕ

abbrev pub product_key : Product → ℕ
product_key p = p.product_id

abbrev pub image_key : ProductImage → ℕ
image_key i = i.product_image_id

abbrev pub ProductTable : Type 0
ProductTable = Table product_key (λ p id. record p { product_id = id })

abbrev pub ImageTable : Type 0
ImageTable = Table image_key (λ i id. record i { product_image_id = id })

-- dto.ProductResponse; of the product's type the code reads the name.
pub record ProductResponse : Type 0 where
  pub product : Product
  pub type_name : String
  pub product_images : List ProductImage

-- dto.ProductError
pub record ProductError : Type 0 where
  pub err_product_name : String
  pub err_price : String
  pub err_weight : String
  pub err_type : String
  pub err_images : String

-- What GetProductsByPage answers, as it is cached too.
pub record CatalogPage : Type 0 where
  pub rows : List Product
  pub total_page : ℤ

pub record State : Type 0 where
  pub products : List Product
  pub images : List ProductImage
  pub cache : Cache CatalogPage

-- An error's text, where the condition holds.
abbrev pub text_if : Bool → String → String
text_if wrong text = if wrong then text else ""

unfoldable pub validation_product : ProductResponse → Bool → Bool × ProductError
validation_product product diff =
    let no_name : Bool = str_eq product.product.product_name "" in
    let low_price : Bool = ltb_ℤ product.product.price (pos 0) in
    let low_weight : Bool = ltb_ℤ product.product.weight (pos 0) in
    let no_type : Bool = str_eq product.type_name "" in
    let no_images : Bool = length product.product_images == 0 && diff in
    (
      not no_name && not low_price && not low_weight && not no_type && not no_images,
      record {
        err_product_name = text_if no_name "Please input product name!";
        err_price = text_if low_price "Price can't be lower than 0!";
        err_weight = text_if low_weight "Weight can't be lower than 0!";
        err_type = text_if no_type "Please choose product type!";
        err_images = text_if no_images "Please upload the product's image!";
      },
    )
