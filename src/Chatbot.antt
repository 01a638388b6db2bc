-- ===== src/Chatbot.antt =====
-- The chatbot's functions place_order and get_order_status of
-- GoodFood-BE/internal/server/handlers/chatbot.go. The model that answers in words (`ask`, of
-- GiveAnswerForUnreachableData), the search of a product by ILIKE (`find`) and the tables are parameters.
pub mod Schedule
pub mod Blocked
pub mod Progress
pub mod Dispatch
pub mod Calls
pub mod Ordered
mod Tests
mod DispatchTests
use good_food_be.Base.{
  ℕ, String, Bool, Option, none, some, List, [], ◌∷◌, map, ◌==◌, ◌&&◌, str_eq, if◌then◌else◌,
}
use good_food_be.Base.Int.{ℤ}
use good_food_be.Store.{DbError, no_rows, fault, message, Result, done, failed}
use good_food_be.Http.{Response, ok, error, panic}
use good_food_be.Address.{Address, AddressTable}
use good_food_be.Cart.{CartDetail, CartDetailResponse}
use good_food_be.Invoice.{Invoice, InvoiceStatus, InvoiceTable, StatusTable}
use good_food_be.Account.{Account, AccountTable}

-- One product of the call's arguments, by what `p["product_name"].(string)` and
-- `int(p["quantity"].(float64))` give. They are `none` where the argument is missing or of another type, and the
-- assertion panics.
pub record Item : Type 0 where
  pub product_name : Option String
  pub quantity : Option ℤ

-- What GiveAnswerForUnreachableData does: it returns an error or the model's words, or it reads the candidates of a
-- nil response and panics. The last is so when CallVertexAI fails, which returns the nil error of SendError.
pub data Asked : Type 0 where
  asked_wrong : String → Asked
  asked_words : String → Asked
  asked_panic : Asked

-- The one thing that a goroutine of place_order does in the end: it sends an answer to respChan, or an
-- error to errChan, or appends to the carts under the mutex; or it panics, and the process ends.
pub data Outcome (P : Type 0) : Type 0 where
  answers : String → Outcome P
  fails : String → Outcome P
  adds : CartDetailResponse P → Outcome P
  panics : Outcome P

-- The answers with 200: a text of the model, the status of an order, or an order that is ready.
pub data Reply (P : Type 0) : Type 0 where
  said : String → Reply P
  order_status : ℕ → String → Reply P
  ready : List (CartDetailResponse P) → Option Address → String → Reply P

-- What place_order has before it starts its goroutines: an answer, or the account and the address to go on
-- with. An error of the address's query that is not sql.ErrNoRows is not looked at, and leaves no address.
pub data Prepared (P : Type 0) : Type 0 where
  replied : Response ⊥ (Reply P) → Prepared P
  goes_on : Account → Option Address → Prepared P

abbrev pub worded : {P : Type 0} → Asked → Response ⊥ (Reply P)
worded (asked_wrong wrong) = error 500 wrong
worded (asked_words text) = ok (said text)
worded asked_panic = panic

abbrev pub address_question : String
address_question =
    "The user wanted to place an order but they didn't have a delivery address. Politely asked them to add their delivery address first at Account > Delivery Address"

abbrev pub order_question : String
order_question =
    "user asked for the status of an order, but the order does not exist in the database or it's not THEIR order"

module _ {P : Type 0} (product_id : P → ℕ) (ask : String → Asked) (find : String → Result P)
    (missing_question : String → String) where
  -- One goroutine, on the account's item.
  abbrev pub sent : Asked → Outcome P
  sent (asked_wrong wrong) = fails wrong
  sent (asked_words text) = answers text
  sent asked_panic = panics

  abbrev pub looked_up : ℕ → String → ℤ → Result P → Outcome P
  looked_up account_id product_name quantity (failed no_rows) =
      sent (ask (missing_question product_name))
  looked_up account_id product_name quantity (failed (fault text)) = fails text
  looked_up account_id product_name quantity (done product) = adds (
    record {
      cart_id = 0;
      quantity = quantity;
      product_id = product_id product;
      account_id = account_id;
    },
    some product,
  )

  abbrev pub asserted : ℕ → Option ℤ → Option String → Outcome P
  asserted account_id none product_name = panics
  asserted account_id (some quantity) none = panics
  asserted account_id (some quantity) (some product_name) =
      looked_up account_id product_name quantity (find product_name)

  unfoldable pub outcome : ℕ → Item → Outcome P
  outcome account_id item = asserted account_id item.quantity item.product_name

  abbrev pub addressed : Account → Result Address → Prepared P
  addressed user (failed no_rows) = replied (worded (ask address_question))
  addressed user (failed (fault text)) = goes_on user none
  addressed user (done address) = goes_on user (some address)

  unfoldable pub prepare :
      AccountTable → AddressTable → String → List Account → List Address → Prepared P
  prepare accounts addresses username account_rows address_rows =
      if str_eq username ""
      then replied (error 401 "User not authenticated")
      else elim (accounts.one (λ a. str_eq a.username username) account_rows) [
        | failed e ↦ replied (error 500 (message e))
        | done user ↦
            addressed user
              (addresses.one (λ a. a.account_id == user.account_id && a.status) address_rows)
      ]

  abbrev pub status_known : ℕ → Result InvoiceStatus → Response ⊥ (Reply P)
  status_known order_id (failed e) = error 500 (message e)
  status_known order_id (done status) = ok (order_status order_id status.status_name)

  abbrev pub order_known :
      StatusTable → List InvoiceStatus → ℕ → Result Invoice → Response ⊥ (Reply P)
  order_known statuses status_rows order_id (failed no_rows) = worded (ask order_question)
  order_known statuses status_rows order_id (failed (fault text)) = error 500 text
  order_known statuses status_rows order_id (done order) =
      status_known order_id
        (statuses.one (λ s. s.invoice_status_id == order.invoice_status_id) status_rows)

  unfoldable pub get_order_status :
      AccountTable
      → InvoiceTable
      → StatusTable
      → String
      → ℕ
      → List Account
      → List Invoice
      → List InvoiceStatus
      → Response ⊥ (Reply P)
  get_order_status accounts invoices statuses username order_id account_rows orders status_rows =
      if str_eq username ""
      then error 401 "User not authenticated"
      else elim (accounts.one (λ a. str_eq a.username username) account_rows) [
        | failed e ↦ error 500 (message e)
        | done account ↦ order_known statuses status_rows order_id (
            invoices.one (λ i. i.invoice_id == order_id && i.account_id == account.account_id)
              orders)
      ]
