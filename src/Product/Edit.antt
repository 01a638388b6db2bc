-- ===== src/Product/Edit.antt =====
-- AdminProductCreate and AdminProductUpdate. What a transaction writes is a copy of the two tables, which the
-- state takes over at Commit; any return before that is the deferred Rollback. Reads go past the transaction,
-- to the tables as they are.
use Prim.Native.String.{◌++◌ as string_append}
use good_food_be.Base.{
  ⊤, ℕ, String, Bool, true, false, not, Option, none, some, List, [], ◌∷◌, ◌==◌, str_eq,
  if◌then◌else◌,
}
use good_food_be.Store.{fault, message, Result, done, failed}
use good_food_be.Cache.{num, Key, Cache, Redis, clear_cache}
use good_food_be.Http.{
  ok, error, error_struct, Action, ◌>>=◌, ◌>>◌, pure, error_if, parsed, or_error, or_message, read,
  write,
}
use good_food_be.Product.{
  Product, ProductImage, ProductResponse, ProductError, CatalogPage, State, ProductTable,
  ImageTable, validation_product,
}

abbrev pub valid_or : Bool × ProductError → Action State ProductError ⊤
valid_or (true, e) s = (ok tt, s)
valid_or (false, e) s = (error_struct 400 e, s)

-- BeginTx or Commit: nothing, or the text that the handler answers.
abbrev pub unless : Option String → Action State ProductError ⊤
unless none s = (ok tt, s)
unless (some text) s = (error 500 text, s)

-- The literal texts that are given to ClearCache, with "*" in them.
abbrev pub catalog_pattern : Key
catalog_pattern = record {
  format = "products:page=*:type=*:search=*:minPrice=*:maxPrice=*:orderByPrice=*";
  args = [];
}

abbrev pub detail_pattern : ℕ → Key
detail_pattern product_id = record {
  format = "product:detail:%d:filter=*:page=*";
  args = num product_id ∷ [];
}

abbrev pub clear_product : Option (Redis CatalogPage) → ℕ → Cache CatalogPage → Cache CatalogPage
clear_product redis product_id c =
    clear_cache redis (detail_pattern product_id ∷ []) (clear_cache redis (catalog_pattern ∷ []) c)

-- The product's cover image is kept if it had one.
abbrev pub with_cover : Product → Product → Product
with_cover old new =
    if str_eq old.cover_image "" then new else record new { cover_image = old.cover_image }

-- The text that AdminProductCreate puts behind an image's error.
abbrev pub marked : {A : Type 0} → Result A → Result A
marked (done a) = done a
marked (failed e) = failed (fault (string_append (message e) "over here productImgs"))

module _ (images : ImageTable) where
  -- The loop over the images, on the transaction's copy; the rows get their IDs.
  unfoldable pub insert_images :
      ℕ → List ProductImage → List ProductImage → Result (List ProductImage × List ProductImage)
  insert_images id [] t = done ([], t)
  insert_images id (img ∷ rest) t = elim (images.insert (record img { product_id = id }) t) [
    | failed e ↦ failed e
    | done (row, t') ↦ elim (insert_images id rest t') [
      | failed e ↦ failed e
      | done (rows, t'') ↦ done (row ∷ rows, t'')
    ]
  ]

  -- New images take the place of the old ones; without new ones the old ones stay.
  abbrev pub replace_images :
      ℕ → List ProductImage → List ProductImage → Result (List ProductImage × List ProductImage)
  replace_images id [] t = done ([], t)
  replace_images id (img ∷ rest) t = elim (images.all (λ i. i.product_id == id) t) [
    | failed e ↦ failed e
    | done old ↦ elim (images.delete_all old t) [
      | failed e ↦ failed e
      | done t' ↦ insert_images id (img ∷ rest) t'
    ]
  ]

module _ (products : ProductTable) (images : ImageTable) (redis : Option (Redis CatalogPage))
    (commit : Option String) where
  -- From the query of the product under the parameter's ID on; what is updated is the row under the body's ID.
  abbrev pub update_product : ℕ → ProductResponse → Action State ProductError ProductResponse
  update_product product_id update = do
    s ← read
    old ←
        or_error (products.one (λ p. p.product_id == product_id) s.products) 500
          "Product not found!"
    let row = with_cover old update.product
    t ← or_message (products.update row s.products) 500
    (rows, u) ← or_message (replace_images images row.product_id update.product_images s.images) 500
    unless commit
    write (record { products = t; images = u; cache = clear_product redis row.product_id s.cache })
    pure (record update { product = row; product_images = rows })

-- `db_ok` is the assertion that the connection is an *sql.DB.
module _ (products : ProductTable) (images : ImageTable) (redis : Option (Redis CatalogPage))
    (db_ok : Bool) (begin commit : Option String) where
  unfoldable pub admin_product_create :
      Option ProductResponse → Action State ProductError ProductResponse
  admin_product_create body = do
    insert ← parsed body 400 "Invalid request body"
    valid_or (validation_product insert true)
    error_if (not db_ok) 500 "Invalid DB instance"
    unless begin
    s ← read
    (row, t) ← or_message (products.insert insert.product s.products) 500
    (rows, u) ←
        or_message (marked (insert_images images row.product_id insert.product_images s.images)) 500
    unless commit
    write (record { products = t; images = u; cache = clear_product redis row.product_id s.cache })
    pure (record insert { product = row; product_images = rows })

  -- Behind the validation.
  abbrev pub update_valid : ℕ → ProductResponse → Action State ProductError ProductResponse
  update_valid product_id update = do
    error_if (not db_ok) 500 "Invalid DB instance"
    unless begin
    update_product products images redis commit product_id update

  unfoldable pub admin_product_update :
      ℕ → Option ProductResponse → Action State ProductError ProductResponse
  admin_product_update product_id body = do
    error_if (product_id == 0) 400 "Did not receive productID"
    update ← parsed body 400 "Invalid request body"
    valid_or (validation_product update false)
    update_valid product_id update
