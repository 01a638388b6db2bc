-- ===== src/Vnpay.antt =====
-- The payment by VNPay: InvoicePayVNPAY of GoodFood-BE/internal/server/handlers/invoices.go and the
-- constants of GoodFood-BE/config/vnpay_config.go. A text is the list of its bytes. HMAC-SHA512 in
-- hexadecimal (`hmac`: secret and data), the environment, the clock and the query of the greatest invoiceID
-- are parameters; the int64 that `int64(body.TotalPrice)` yields is part of the request.
pub mod Bytes
pub mod Escape
pub mod Parse
pub mod RoundTrip
pub mod Lookup
pub mod Signed
pub mod Amount
mod Tests
use Prim.Native.String.{◌++◌ as string_append}
use good_food_be.Base.{ℕ, ◌⊎◌, inl, inr, String, Bool, true, false, List, [], ◌∷◌, ◌++◌, map}
use good_food_be.Base.Int.{ℤ, pos, ◌+ℤ◌, ◌*ℤ◌, wrap64}
use good_food_be.Store.{message, Result, done, failed}
use good_food_be.Http.{Response, ok, error}
use good_food_be.Vnpay.Bytes.{Text, codes, sort, value, itoa}
use good_food_be.Vnpay.Escape.{query_escape}

abbrev pub Params : Type 0
Params = List (Text × Text)

-- The environment's variables VNPAY_TMN, VNPAY_RETURN_URL and VNPAY_SECRET.
pub record Env : Type 0 where
  pub tmn : Text
  pub return_url : Text
  pub secret : Text

-- What the handler reads of the parsed body, and of the request.
pub record PayBody : Type 0 where
  pub total_price : ℤ
  pub invoice_id : ℤ

abbrev pub pay_url : Text
pay_url = codes "https://sandbox.vnpayment.vn/paymentv2/vpcpay.html"

abbrev pub amount_of : PayBody → ℤ
amount_of body = wrap64 (body.total_price *ℤ pos 100)

unfoldable pub vnp_params : PayBody → ℤ → Env → Text → Text → Text → Params
vnp_params body latest env ip created expires =
    (codes "vnp_Version", codes "2.1.0")
    ∷ (codes "vnp_Command", codes "pay")
    ∷ (codes "vnp_TmnCode", env.tmn)
    ∷ (codes "vnp_Amount", itoa (amount_of body))
    ∷ (codes "vnp_CurrCode", codes "VND")
    ∷ (codes "vnp_BankCode", codes "NCB")
    ∷ (codes "vnp_TxnRef", itoa (wrap64 (latest +ℤ pos 1)))
    ∷ (codes "vnp_OrderInfo", codes "Paying for invoice: " ++ itoa body.invoice_id)
    ∷ (codes "vnp_Locale", codes "vn")
    ∷ (codes "vnp_OrderType", codes "other")
    ∷ (codes "vnp_ReturnUrl", env.return_url)
    ∷ (codes "vnp_IpAddr", ip)
    ∷ (codes "vnp_CreateDate", created)
    ∷ (codes "vnp_ExpireDate", expires)
    ∷ []

abbrev pub pair_text : Text → Text → Text
pair_text key v = key ++ (b'=' ∷ query_escape v)

-- `later` is `i > 0`.
abbrev pub joined : Bool → Text → Text
joined true text = b'&' ∷ text
joined false text = text

abbrev pub written : Bool → Text → Text → Text
written later key [] = []
written later key (c ∷ v) = joined later (pair_text key (c ∷ v))

-- The loop over the sorted keys; it writes the same text twice, to be signed and to be sent.
unfoldable pub raw_data : Params → Bool → List Text → Text
raw_data params later [] = []
raw_data params later (key ∷ keys) =
    written later key (value key params) ++ raw_data params true keys

abbrev pub keys_of : Params → List Text
keys_of params = map (λ p. p.0) params

unfoldable pub signed_query : (Text → Text → Text) → Text → Params → Text
signed_query hmac secret params =
    let raw = raw_data params false (sort (keys_of params)) in
    raw ++ (codes "&vnp_SecureHash=" ++ hmac secret raw)

unfoldable pub payment_url : (Text → Text → Text) → Text → Params → Text
payment_url hmac secret params = pay_url ++ (b'?' ∷ signed_query hmac secret params)

unfoldable pub invoice_pay_vnpay :
    (Text → Text → Text) → String ⊎ PayBody → Result ℤ → Env → Text → Text → Text → Response ⊥ Text
invoice_pay_vnpay hmac (inl wrong) latest env ip created expires = error 400 wrong
invoice_pay_vnpay hmac (inr body) (failed e) env ip created expires =
    error 500 (string_append "Failed to fetch latest invoiceID: " (message e))
invoice_pay_vnpay hmac (inr body) (done latest) env ip created expires =
    ok (payment_url hmac env.secret (vnp_params body latest env ip created expires))
