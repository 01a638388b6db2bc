-- ===== src/Vnpay/RoundTrip.antt =====
-- The query of a payment is read back.
use good_food_be.Base.{
  ℕ, ◌≡◌, refl, ap, ◌∙◌, ◌<◌, true, false, ◌==◌, some, List, [], ◌∷◌, ◌++◌, All,
}
use good_food_be.Vnpay.{Params, pair_text, raw_data, keys_of}
use good_food_be.Vnpay.Bytes.{Text, codes, listed, value}
use good_food_be.Vnpay.Escape.{
  query_escape, NoAmp, All-append, query_escape-NoAmp, decode-query_escape,
}
use good_food_be.Vnpay.Parse.{
  added, fields, read_fields, fields-append, fields-amp, NoEquals, cut-append,
}

abbrev pub hash_key : Text
hash_key = codes "vnp_SecureHash"

-- A key that a query can hold as it is.
abbrev pub IsKey : Text → Type 0
IsKey k = NoAmp k × NoEquals k

-- The keys can stand in a query, none is that of the hash, and the values are bytes.
abbrev pub CanSign : Params → Type 0
CanSign params =
    All IsKey (keys_of params)
    × ((k : Text) → All (λ c. c < 256) (value k params))
    × (listed hash_key (keys_of params) ≡ false)

abbrev pub piece : Text → Text → List Text → List Text
piece k [] rest = rest
piece k (c ∷ v) rest = pair_text k (c ∷ v) ∷ rest

-- The fields that the loop writes for the keys, in front of others.
abbrev pub pieces : Params → List Text → List Text → List Text
pieces params [] rest = rest
pieces params (k ∷ ks) rest = piece k (value k params) (pieces params ks rest)

abbrev pub entry : Text → Text → Params → Params
entry k [] rest = rest
entry k (c ∷ v) rest = (k, c ∷ v) ∷ rest

-- What they are read as.
abbrev pub entries : Params → List Text → Params → Params
entries params [] rest = rest
entries params (k ∷ ks) rest = entry k (value k params) (entries params ks rest)

added-middle :
    (k : Text) (c : ℕ) (s : Text) (l : List Text) → added (k ++ (c ∷ s)) l ≡ (k ++ (c ∷ s)) ∷ l
added-middle [] c s l = refl
added-middle (d ∷ k) c s l = refl

fields-pair :
    (k v s : Text) → NoAmp k → fields (pair_text k v ++ (b'&' ∷ s)) ≡ pair_text k v ∷ fields s
fields-pair k v s h =
    fields-append (pair_text k v) s (
      All-append (λ c. (c == b'&') ≡ false) k (b'=' ∷ query_escape v) h
        (refl, query_escape-NoAmp v))
    ∙ added-middle k b'=' (query_escape v) (fields s)

-- Behind the first key, what is written begins with "&" if another "&" follows.
abbrev Goes : Params → List Text → Text → Type 0
Goes params ks t =
    (u : Text) × (raw_data params true ks ++ (b'&' ∷ t) ≡ b'&' ∷ u)
    × (fields u ≡ pieces params ks (fields t))

append_assoc : (s t u : Text) → (s ++ t) ++ u ≡ s ++ (t ++ u)
append_assoc [] t u = refl
append_assoc (c ∷ s) t u = ap (λ x. c ∷ x) (append_assoc s t u)

written_then :
    (k v : Text) (params : Params) (ks : List Text) (t : Text)
    → NoAmp k
    → value k params ≡ v
    → Goes params ks t
    → Goes params (k ∷ ks) t
unfolding raw_data
written_then k [] params ks t h e g = rw (e) g
written_then k (c ∷ v) params ks t h e (u, begins, read) = rw (e) (
  pair_text k (c ∷ v) ++ (b'&' ∷ u),
  append_assoc (b'&' ∷ pair_text k (c ∷ v)) (raw_data params true ks) (b'&' ∷ t)
      ∙ ap (λ x. (b'&' ∷ pair_text k (c ∷ v)) ++ x) begins,
  fields-pair k (c ∷ v) u h ∙ ap (λ l. pair_text k (c ∷ v) ∷ l) read,
)

raw_data-Goes : (params : Params) (ks : List Text) (t : Text) → All IsKey ks → Goes params ks t
unfolding raw_data
raw_data-Goes params [] t h = (t, refl, refl)
raw_data-Goes params (k ∷ ks) t h =
    written_then k (value k params) params ks t h.0.0 refl (raw_data-Goes params ks t h.1)

first_written :
    (k v : Text) (params : Params) (ks : List Text) (t : Text)
    → NoAmp k
    → value k params ≡ v
    → Goes params ks t
    → fields (raw_data params false (k ∷ ks) ++ (b'&' ∷ t)) ≡ pieces params (k ∷ ks) (fields t)
unfolding raw_data
first_written k [] params ks t h e (u, begins, read) =
    rw (e) (ap fields begins ∙ fields-amp u ∙ read)
first_written k (c ∷ v) params ks t h e (u, begins, read) = rw (e) (
    ap fields (
      append_assoc (pair_text k (c ∷ v)) (raw_data params true ks) (b'&' ∷ t)
      ∙ ap (λ x. pair_text k (c ∷ v) ++ x) begins)
    ∙ fields-pair k (c ∷ v) u h
    ∙ ap (λ l. pair_text k (c ∷ v) ∷ l) read)

pub fields-raw_data :
    (params : Params) (ks : List Text) (t : Text)
    → All IsKey ks
    → fields (raw_data params false ks ++ (b'&' ∷ t)) ≡ pieces params ks (fields t)
unfolding raw_data
fields-raw_data params [] t h = fields-amp t
fields-raw_data params (k ∷ ks) t h =
    first_written k (value k params) params ks t h.0.0 refl (raw_data-Goes params ks t h.1)

read_pair :
    (k v : Text) (fs : List Text) (read : Params)
    → NoEquals k
    → All (λ c. c < 256) v
    → read_fields fs ≡ some read
    → read_fields (pair_text k v ∷ fs) ≡ some ((k, v) ∷ read)
unfolding read_fields
read_pair k v fs read h bytes e =
    rw (cut-append k (query_escape v) h, decode-query_escape v bytes, e) refl

read_piece :
    (k v : Text) (fs : List Text) (read : Params)
    → NoEquals k
    → All (λ c. c < 256) v
    → read_fields fs ≡ some read
    → read_fields (piece k v fs) ≡ some (entry k v read)
read_piece k [] fs read h bytes e = e
read_piece k (c ∷ v) fs read h bytes e = read_pair k (c ∷ v) fs read h bytes e

pub read_pieces :
    (params : Params) (ks fs : List Text) (read : Params)
    → All IsKey ks
    → ((k : Text) → All (λ c. c < 256) (value k params))
    → read_fields fs ≡ some read
    → read_fields (pieces params ks fs) ≡ some (entries params ks read)
read_pieces params [] fs read h bytes e = e
read_pieces params (k ∷ ks) fs read h bytes e =
    read_piece k (value k params) (pieces params ks fs) (entries params ks read) h.0.1 (bytes k)
      (read_pieces params ks fs read h.1 bytes e)
