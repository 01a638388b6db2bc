-- ===== src/Lib.antt =====
-- A model of the GoodFood backend's own logic: a Fiber (HTTP) server over PostgreSQL (sqlboiler) and Redis.
--
-- The parts and how they interact. A handler reads its parsed query parameters and body, calls the query
-- builder on the tables, reads or clears cache entries, and answers with a JSON body or SendError. Here a
-- handler is a function of the parsed request and of the state (the rows of the tables it touches, the
-- cache), to the answer and the state it leaves, written as a do block in the order of the source; what was
-- written before an error stays written.
--
--   Base     shared names, Boolean tests, lists; Base/Int: Go's int as ℤ with its 64-bit wrap-around
--   Store    the tables: the calls of GoodFood-BE/models that the handlers use, each of which may fail, and
--            what a call that succeeds means; Store/Memory is a table in memory that meets these laws
--   Http     answers, SendError and SendErrorStruct of GoodFood-BE/internal/service/error.go, and how the
--            handlers chain steps with early returns
--   Paging   Paginate of GoodFood-BE/internal/utils/utilities.go, float64 a parameter with its rounding laws
--   Cache    GetCache, SetCache and ClearCache of the same file, on a Redis server with its documented commands
--   Address  GoodFood-BE/internal/server/handlers/address.go
--   Cart     GoodFood-BE/internal/server/handlers/carts.go, GoodFood-BE/internal/utils/cart_helper.go
--   Invoice  Invoice/Status: the status of an order, GoodFood-BE/internal/utils/admin_invoices_helper.go and
--            UpdateInvoice of GoodFood-BE/internal/server/handlers/admin_invoices.go; Invoice/Pay: InvoicePay
--            of GoodFood-BE/internal/server/handlers/invoices.go; Invoice/Listing: GetAdminInvoice
--   Order    GetOrderHistory and CancelOrder of GoodFood-BE/internal/server/handlers/orderhistory.go
--   Auth     GoodFood-BE/internal/auth: tokens, stored sessions, their rotation, and the two middlewares
--   Account  registration, profile and admin updates with validationUser; below it Password (its change),
--            Login (login, refresh, logout), Oauth (the login by a provider), Reset (a forgotten password),
--            AdminList (the admin's list and detail) and Memory (a table with unique mail addresses):
--            users.go, admin_users.go and changepassword.go of GoodFood-BE/internal/server/handlers, and
--            GoodFood-BE/internal/utils/user_helper.go
--   ProductType  GoodFood-BE/internal/server/handlers/admin_productTypes.go
--   Vnpay    InvoicePayVNPAY of GoodFood-BE/internal/server/handlers/invoices.go: the signed query of a payment's
--            URL, as lists of bytes; Vnpay/Parse is a reader of queries to compare it with
--   Product  Product/Edit: AdminProductCreate, AdminProductUpdate and validationProduct of admin_products.go;
--            Product/Catalog: GetProductsByPage of products.go with GetProductsUtil of
--            GoodFood-BE/internal/utils/products_helper.go; Product/Detail: GetDetail with BuildProductDetail;
--            Product/AdminList: the admin's list and detail, and the lists of the home page
--   Review   Review/Analysis and Review/Listing: GetAdminReviewAnalysis and GetAdminReview of admin_reviews.go, with
--            GoodFood-BE/internal/utils/admin_reviews_helper.go; Review/Upload, Submit and Update:
--            HandleSubmitReview and HandleUpdateReview of GoodFood-BE/internal/server/handlers/review.go; Review/Replies:
--            the replies; Review/Fetch: FetchReviewData with its three goroutines; Review/Details: the details
--   Chat     GoodFood-BE/internal/server/handlers/chatMessage.go: the two maps of connections, and the steps of all
--            handlers in any order
--   Chatbot  place_order and get_order_status of GoodFood-BE/internal/server/handlers/chatbot.go;
--            Chatbot/Schedule: the goroutines of place_order in any order; Chatbot/Dispatch: CallVertexAI
--   Routes   GoodFood-BE/internal/server/routes.go: the routes as data, with the middleware of their groups
--   Jobs     GoodFood-BE/internal/jobs, its worker in GoodFood-BE/cmd/worker/main.go, and HandleContact of users.go
--
-- Bounds. IDs and counts are natural numbers, Go's int that may be negative (pages, quantities) is ℤ, wrapped
-- to 64 bits where the source computes. The theorem on Paginate holds below 2^52, where float64 is exact.
-- Decimal digits are written on fuel, one more than the number, which Vnpay/Bytes shows to be enough; every
-- other loop of the modelled code is over a finite list.
--
-- Not modelled, or parameters: the SQL engine and the generated query code of GoodFood-BE/models, the Redis
-- server (expiry included), the JWT library, hashing, UUIDs, the clock, the mail server, LIKE, raw SQL joins,
-- Fiber and asynq; JSON encoding of what is only passed on, the microservice for reviews, the language model,
-- the storage of images, the exchange with Google and Facebook; the dashboards and statistics and the
-- chatbot's get_top_product, which are SQL texts; the classification of images, which passes a file on;
-- ClearRedisByPattern, which nothing calls; start-up and connections.
pub mod Base
pub mod Store
pub mod Http
pub mod Paging
pub mod Cache
pub mod Address
pub mod Cart
pub mod Invoice
pub mod Order
pub mod Auth
pub mod Account
pub mod ProductType
pub mod Vnpay
pub mod Product
pub mod Review
pub mod Chat
pub mod Chatbot
pub mod Routes
pub mod Jobs
