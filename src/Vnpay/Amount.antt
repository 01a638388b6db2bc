-- ===== src/Vnpay/Amount.antt =====
-- What InvoicePayVNPAY tells the gateway.
use good_food_be.Base.{
  ℕ, ◌≡◌, refl, ap, ◌∙◌, suc, ◌*◌, ◌<◌, inr, String, Bool, true, false, some, List, [], ◌∷◌, ◌++◌,
  ◌==◌, ltb, ◌&&◌, All, arith,
}
use good_food_be.Base.Int.{ℤ, pos, ◌+ℤ◌, ◌*ℤ◌, wrap64, two63}
use good_food_be.Store.{done}
use good_food_be.Http.{Response, ok}
use good_food_be.Vnpay.{
  Params, raw_data, Env, PayBody, pay_url, amount_of, vnp_params, keys_of, signed_query,
  payment_url, invoice_pay_vnpay,
}
use good_food_be.Vnpay.Bytes.{
  Text, codes, same, value, sort, itoa, number_from, number_from-itoa, holds, holds-All, IsBytes,
  IsBytes-append, holds-IsBytes, itoa-IsBytes, value-IsBytes,
}
use good_food_be.Vnpay.Escape.{IsHex}
use good_food_be.Vnpay.Parse.{parse_query}
use good_food_be.Vnpay.RoundTrip.{hash_key, CanSign, IsKey}
use good_food_be.Vnpay.Signed.{signature, signed_query-Reads}

-- The environment and the request consist of bytes.
abbrev pub AreBytes : Env → Text → Text → Text → Type 0
AreBytes env ip created expires =
    IsBytes env.tmn × IsBytes env.return_url × IsBytes ip × IsBytes created × IsBytes expires

test_keys : List Text → Bool
test_keys [] = true
test_keys (k ∷ ks) =
    holds (λ c. c == b'&') false k && (holds (λ c. c == b'=') false k && test_keys ks)

test_keys-IsKey : (ks : List Text) → test_keys ks ≡ true → All IsKey ks
unfolding test_keys
test_keys-IsKey [] h = tt
test_keys-IsKey (k ∷ ks) h = (
  (
    holds-All (λ c. c == b'&') false k (ground (arith, h)),
    holds-All (λ c. c == b'=') false k (ground (arith, h)),
  ),
  test_keys-IsKey ks (ground (arith, h)),
)

infixr 5 ◌&◌
abbrev ◌&◌ : {A B : Type 0} → A → B → A × B
a & b = (a, b)

constant : (s : String) → holds (λ c. ltb c 256) true (codes s) ≡ true → IsBytes (codes s)
constant s h = holds-IsBytes (codes s) h

vnp_params-CanSign :
    (body : PayBody) (latest : ℤ) (env : Env) (ip created expires : Text)
    → AreBytes env ip created expires
    → CanSign (vnp_params body latest env ip created expires)
unfolding vnp_params test_keys
vnp_params-CanSign body latest env ip created expires (tmn, url, address, from, until) = (
  test_keys-IsKey (keys_of (vnp_params body latest env ip created expires)) refl,
  λ k. value-IsBytes k (vnp_params body latest env ip created expires) (
      constant "2.1.0" refl
      & constant "pay" refl
      & tmn
      & itoa-IsBytes (amount_of body)
      & constant "VND" refl
      & constant "NCB" refl
      & itoa-IsBytes (wrap64 (latest +ℤ pos 1))
      & IsBytes-append (codes "Paying for invoice: ") (itoa body.invoice_id)
          (constant "Paying for invoice: " refl) (itoa-IsBytes body.invoice_id)
      & constant "vn" refl
      & constant "other" refl
      & url
      & address
      & from
      & until
      & tt),
  refl,
)

hundredfold : (n : ℕ) → n * 100 < two63 → wrap64 (pos n *ℤ pos 100) ≡ pos (n * 100)
unfolding wrap64 ◌*ℤ◌
hundredfold n h = ground (arith, h)

following : (m : ℕ) → suc m < two63 → wrap64 (pos m +ℤ pos 1) ≡ pos (suc m)
unfolding wrap64 ◌+ℤ◌
following m h = ground (arith, h)

vnp_params-numbers :
    (body : PayBody) (n m : ℕ) (env : Env) (ip created expires : Text)
    → body.total_price ≡ pos n
    → n * 100 < two63
    → suc m < two63
    → (value (codes "vnp_Amount") (vnp_params body (pos m) env ip created expires)
        ≡ itoa (pos (n * 100)))
      × (value (codes "vnp_TxnRef") (vnp_params body (pos m) env ip created expires)
          ≡ itoa (pos (suc m)))
unfolding vnp_params
vnp_params-numbers body n m env ip created expires price amount order = (
  ap (λ a. itoa (wrap64 (a *ℤ pos 100))) price ∙ ap itoa (hundredfold n amount),
  ap itoa (following m order),
)

-- The answer is a URL of the gateway whose query, read by the rules of a URL's query, has the amount, the
-- order's number and every other parameter, signed.
abbrev pub Asks : (Text → Text → Text) → Params → Text → ℕ → ℕ → Response ⊥ Text → Type 0
Asks hmac params secret amount order response =
    (query : Text) × (read : Params) × (response ≡ ok (pay_url ++ (b'?' ∷ query)))
    × (parse_query query ≡ some read)
    × (number_from 0 (value (codes "vnp_Amount") read) ≡ amount)
    × (number_from 0 (value (codes "vnp_TxnRef") read) ≡ order)
    × ((k : Text) → same hash_key k ≡ false → value k read ≡ value k params)
    × (value hash_key read ≡ signature hmac secret params)

-- InvoicePayVNPAY answers with a URL that the gateway reads back without an error: the amount is a hundred
-- times the whole part of the request's total price, the order is one more than the greatest invoiceID, every
-- other parameter has its value, whatever bytes stand in it, and the signature is that of the parameters. The
-- price and that ID must not be negative and the numbers fit an int64, the environment and the request be
-- bytes, and HMAC give hexadecimal digits.
pub invoice_pay_vnpay-Asks :
    (hmac : Text → Text → Text) (body : PayBody) (n m : ℕ) (env : Env) (ip created expires : Text)
    → ((key text : Text) → IsHex (hmac key text))
    → body.total_price ≡ pos n
    → n * 100 < two63
    → suc m < two63
    → AreBytes env ip created expires
    → Asks hmac
        (vnp_params body (pos m) env ip created expires)
        env.secret
        (n * 100)
        (suc m)
        (invoice_pay_vnpay hmac (inr body) (done (pos m)) env ip created expires)
unfolding invoice_pay_vnpay payment_url
invoice_pay_vnpay-Asks hmac body n m env ip created expires hex price amount order bytes =
    let params : Params = vnp_params body (pos m) env ip created expires in
    let (read, parses, agrees, signed) =
      signed_query-Reads hmac env.secret params
        (vnp_params-CanSign body (pos m) env ip created expires bytes)
        (hex env.secret (raw_data params false (sort (keys_of params)))) in
    let numbers = vnp_params-numbers body n m env ip created expires price amount order in
    (
      signed_query hmac env.secret params,
      read,
      refl,
      parses,
      ap (number_from 0) (agrees (codes "vnp_Amount") refl ∙ numbers.0)
          ∙ number_from-itoa (n * 100),
      ap (number_from 0) (agrees (codes "vnp_TxnRef") refl ∙ numbers.1) ∙ number_from-itoa (suc m),
      agrees,
      signed,
    )
