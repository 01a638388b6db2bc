-- ===== src/Vnpay/Tests.antt =====
-- A payment of 150000 with a note that needs escaping.
use good_food_be.Base.{◌≡◌, refl, inr, [], ◌∷◌, arith}
use good_food_be.Base.Int.{pos}
use good_food_be.Store.{done}
use good_food_be.Vnpay.{Env, PayBody, vnp_params, invoice_pay_vnpay, keys_of}
use good_food_be.Vnpay.Bytes.{Text, codes, sort, insert, itoa, digits, holds-IsBytes}
use good_food_be.Vnpay.Escape.{query_escape, escape_byte, unreserved}
use good_food_be.Vnpay.Amount.{Asks, invoice_pay_vnpay-Asks}

abbrev body : PayBody
body = record { total_price = pos 150000; invoice_id = pos 3 }

abbrev env : Env
env = record {
  tmn = codes "GF&D";
  return_url = codes "http://localhost/a?b=c";
  secret = codes "key";
}

abbrev hmac : Text → Text → Text
hmac key text = codes "0af"

invoice_pay_vnpay-Asks_example :
    Asks hmac
      (vnp_params body (pos 7) env (codes "127.0.0.1") (codes "20260101") (codes "20260102"))
      env.secret
      15000000
      8
      (invoice_pay_vnpay hmac
        (inr body)
        (done (pos 7))
        env
        (codes "127.0.0.1")
        (codes "20260101")
        (codes "20260102"))
invoice_pay_vnpay-Asks_example =
    invoice_pay_vnpay-Asks hmac body 150000 7 env (codes "127.0.0.1") (codes "20260101")
      (codes "20260102") (λ key text. (refl, (refl, (refl, tt)))) refl (omega arith) (omega arith)
      (
        holds-IsBytes (codes "GF&D") refl,
        holds-IsBytes (codes "http://localhost/a?b=c") refl,
        holds-IsBytes (codes "127.0.0.1") refl,
        holds-IsBytes (codes "20260101") refl,
        holds-IsBytes (codes "20260102") refl,
      )

escaped : query_escape (codes "a b&c") ≡ codes "a+b%26c"
unfolding query_escape escape_byte unreserved
escaped = refl

amount_text : itoa (pos 15000000) ≡ codes "15000000"
unfolding itoa digits
amount_text = refl

first_keys :
    sort (keys_of (vnp_params body (pos 7) env [] [] []))
    ≡ codes "vnp_Amount"
      ∷ codes "vnp_BankCode"
      ∷ codes "vnp_Command"
      ∷ codes "vnp_CreateDate"
      ∷ codes "vnp_CurrCode"
      ∷ codes "vnp_ExpireDate"
      ∷ codes "vnp_IpAddr"
      ∷ codes "vnp_Locale"
      ∷ codes "vnp_OrderInfo"
      ∷ codes "vnp_OrderType"
      ∷ codes "vnp_ReturnUrl"
      ∷ codes "vnp_TmnCode"
      ∷ codes "vnp_TxnRef"
      ∷ codes "vnp_Version"
      ∷ []
unfolding sort insert vnp_params
first_keys = refl
