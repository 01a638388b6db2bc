-- ===== src/Vnpay/Signed.antt =====
-- What the gateway finds in a payment's query.
use good_food_be.Base.{◌≡◌, refl, ap, ◌∙◌, false, some, List, [], ◌∷◌, ◌++◌, ◌==◌, All}
use good_food_be.Vnpay.{Params, raw_data, keys_of, signed_query}
use good_food_be.Vnpay.Bytes.{Text, same, sort, listed-sort, value, holds-All}
use good_food_be.Vnpay.Escape.{NoAmp, IsHex, All-append, IsHex-NoAmp, query_unescape-IsHex}
use good_food_be.Vnpay.Parse.{added, split, fields, read_fields, parse_query, cut-append}
use good_food_be.Vnpay.RoundTrip.{hash_key, CanSign, IsKey, entries, fields-raw_data, read_pieces}
use good_food_be.Vnpay.Lookup.{
  value-entries, value-entries_unlisted, if_listed-keys_of, All-sort, if_listed,
}

-- The hash of the sorted parameters.
abbrev pub signature : (Text → Text → Text) → Text → Params → Text
signature hmac secret params = hmac secret (raw_data params false (sort (keys_of params)))

-- The query is read without an error; every parameter has its value, every other key none, and the hash is
-- that of the parameters.
abbrev pub Reads : (Text → Text → Text) → Text → Params → Type 0
Reads hmac secret params =
    (read : Params) × (parse_query (signed_query hmac secret params) ≡ some read)
    × ((k : Text) → same hash_key k ≡ false → value k read ≡ value k params)
    × (value hash_key read ≡ signature hmac secret params)

split-last : (x : Text) → NoAmp x → split x ≡ (x, [])
unfolding split
split-last [] h = refl
split-last (c ∷ x) h = rw (h.0, split-last x h.1) refl

fields-last : (x : Text) → NoAmp x → fields x ≡ added x []
unfolding fields
fields-last x h = ap (λ p. added p.0 p.1) (split-last x h)

read_hash :
    (h : Text) → IsHex h → read_fields (fields (hash_key ++ (b'=' ∷ h))) ≡ some ((hash_key, h) ∷ [])
unfolding read_fields
read_hash h hex =
    ap read_fields (
      fields-last (hash_key ++ (b'=' ∷ h)) (
        All-append (λ c. (c == b'&') ≡ false) hash_key (b'=' ∷ h)
          (holds-All (λ c. c == b'&') false hash_key refl) (refl, IsHex-NoAmp h hex)))
    ∙ rw
        (
          cut-append hash_key h (holds-All (λ c. c == b'=') false hash_key refl),
          query_unescape-IsHex h hex,
        )
        refl

-- Whatever the parameters' values are, the query that InvoicePayVNPAY signs and sends is read, by the rules of
-- a URL's query, as exactly the parameters and their signature: escaping lets no value end its field, and no
-- separator is lost at an empty value. The keys must be free of "&" and "=" and none be vnp_SecureHash, the
-- values must be bytes, and the hash hexadecimal.
pub signed_query-Reads :
    (hmac : Text → Text → Text) (secret : Text) (params : Params)
    → CanSign params
    → IsHex (signature hmac secret params)
    → Reads hmac secret params
unfolding signed_query parse_query
signed_query-Reads hmac secret params (keys, bytes, fresh) hex =
    let h : Text = signature hmac secret params in
    let ks : List Text = sort (keys_of params) in
    let sorted : All IsKey ks = All-sort IsKey (keys_of params) keys in
    let last : Params = (hash_key, h) ∷ [] in
    (
      entries params ks last,
      ap read_fields (fields-raw_data params ks (hash_key ++ (b'=' ∷ h)) sorted)
          ∙ read_pieces params ks (fields (hash_key ++ (b'=' ∷ h))) last sorted bytes
              (read_hash h hex),
      λ k other.
          value-entries k params last ks (ap (λ b. if_listed b h) other)
          ∙ ap (λ b. if_listed b (value k params)) (listed-sort k (keys_of params))
          ∙ if_listed-keys_of k params,
      value-entries_unlisted hash_key params last ks
          (listed-sort hash_key (keys_of params) ∙ fresh),
    )
