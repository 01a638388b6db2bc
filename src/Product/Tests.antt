-- ===== src/Product/Tests.antt =====
-- A product whose price changes.
use good_food_be.Base.{◌≡◌, refl, true, some, none, [], ◌∷◌, arith}
use good_food_be.Base.Int.{pos}
use good_food_be.Store.{done}
use good_food_be.Store.Memory.{memory, memory_run}
use good_food_be.Http.{ok}
use good_food_be.Cache.{Redis, str}
use good_food_be.Cache.Server.{server, empty, put}
use good_food_be.Cache.Read.{Answers}
use good_food_be.Cache.Clear.{Deletes, same_key_refl}
use good_food_be.Paging.Rational.{rational}
use good_food_be.ProductType.{ProductTypeTable, type_key}
use good_food_be.Product.{
  Product, ProductResponse, CatalogPage, State, ProductTable, ImageTable, product_key, image_key,
  validation_product,
}
use good_food_be.Product.Edit.{admin_product_update}
use good_food_be.Product.Catalog.{CatalogQuery, catalog_key, get_products_by_page}
use good_food_be.Product.Stale.{admin_product_update-get_products_by_page}

abbrev pub products : ProductTable
products = memory product_key (λ p id. record p { product_id = id }) (λ p id. refl)

abbrev pub images : ImageTable
images = memory image_key (λ i id. record i { product_image_id = id }) (λ i id. refl)

abbrev pub types : ProductTypeTable
types = memory type_key (λ p id. record p { product_type_id = id }) (λ p id. refl)

abbrev redis : Redis CatalogPage
redis = server

abbrev pub rice : Product
rice = record {
  product_id = 1;
  product_name = "Rice";
  price = pos 30000;
  cover_image = "rice.png";
  description = none;
  status = true;
  insert_date = 0;
  product_type_id = 1;
  weight = pos 1;
}

abbrev body : ProductResponse
body = record {
  product = record rice { price = pos 35000 };
  type_name = "Main";
  product_images = [];
}

abbrev query : CatalogQuery
query = record {
  page = pos 1;
  type_name = "";
  search = "";
  min_price = pos 0;
  max_price = pos 100000;
  order_by = "ASC";
}

abbrev shown : CatalogPage
shown = record { rows = rice ∷ []; total_page = pos 1 }

abbrev start : State
start = record {
  products = rice ∷ [];
  images = [];
  cache = put (catalog_key query) (some (str shown)) empty;
}

up : Deletes redis
up ks c e = ground arith

answers : Answers redis
answers k c v e = ground arith

cached : start.cache (catalog_key query) ≡ some (str shown)
cached = ground (arith, same_key_refl (catalog_key query))

changed :
    (admin_product_update products images
      (some redis)
      true
      none
      none
      1
      (some body)
      start).1.products
    ≡ body.product ∷ []
unfolding admin_product_update validation_product memory_run
changed = refl

admin_product_update-get_products_by_page_example :
    get_products_by_page rational types products redis []
      (λ n. n)
      (λ name search. true)
      (λ order condition limit offset rows. done rows)
      query
      (admin_product_update products images (some redis) true none none 1 (some body) start).1
    ≡ (
      ok shown,
      (admin_product_update products images (some redis) true none none 1 (some body) start).1,
    )
admin_product_update-get_products_by_page_example =
    admin_product_update-get_products_by_page rational types products images redis [] (λ n. n)
      (λ name search. true) (λ order condition limit offset rows. done rows) true none none up
      answers query 1 body start shown refl cached
