-- ===== src/Vnpay/Escape.antt =====
-- `url.QueryEscape`, and its inverse as a decoder of what comes behind `=` in a query.
use good_food_be.Base.{
  ℕ, ◌≡◌, refl, sym, ==_sound, ap, inl, inr, ◌∙◌, ◌+◌, ◌-◌, ◌*◌, ◌/◌, ◌%◌, ◌<◌, Bool, true, false,
  ◌&&◌, ◌||◌, Option, none, some, [], ◌∷◌, ◌++◌, ◌==◌, ltb, leb, if◌then◌else◌, All, Bool-cases,
  arith,
}
use good_food_be.Vnpay.Bytes.{Text}

-- Letters, digits and "-", "_", ".", "~" stay.
unfoldable pub unreserved : ℕ → Bool
unreserved c =
    (leb b'a' c && leb c b'z')
    || (leb b'A' c && leb c b'Z')
    || (leb b'0' c && leb c b'9')
    || c == b'-'
    || c == b'_'
    || c == b'.'
    || c == b'~'

abbrev pub hex_digit : ℕ → ℕ
hex_digit n = if ltb n 10 then b'0' + n else b'A' + (n - 10)

unfoldable pub escape_byte : ℕ → Text
escape_byte c =
    if unreserved c
    then c ∷ []
    else if c == b' '
    then b'+' ∷ []
    else b'%' ∷ hex_digit (c / 16) ∷ hex_digit (c % 16) ∷ []

unfoldable pub query_escape : Text → Text
query_escape [] = []
query_escape (c ∷ s) = escape_byte c ++ query_escape s

-- What the decoder is at: any character, or a digit behind "%".
pub data Awaits : Type 0 where
  plain : Awaits
  high : Awaits
  low : ℕ → Awaits

abbrev pub hex_value : ℕ → Option ℕ
hex_value c =
    if leb b'0' c && leb c b'9'
    then some (c - b'0')
    else if leb b'A' c && leb c b'F'
    then some (c - b'A' + 10)
    else none

abbrev pub consed : ℕ → Option Text → Option Text
consed c none = none
consed c (some s) = some (c ∷ s)

abbrev pub decode : Awaits → Text → Option Text
decode plain [] = some []
decode high [] = none
decode (low h) [] = none
decode plain (c ∷ s) = elim (c == b'%') [
  | true ↦ decode high s
  | false ↦ consed (if c == b'+' then b' ' else c) (decode plain s)
]
decode high (c ∷ s) = elim (hex_value c) [ none ↦ none | some h ↦ decode (low h) s ]
decode (low h) (c ∷ s) = elim (hex_value c) [
  | none ↦ none
  | some l ↦ consed (h * 16 + l) (decode plain s)
]

unfoldable pub query_unescape : Text → Option Text
query_unescape s = decode plain s

hex_value-hex_digit : (n : ℕ) → n < 16 → hex_value (hex_digit n) ≡ some n
hex_value-hex_digit n h = ground arith

pub kept_as_is :
    (c : ℕ)
    → unreserved c ≡ true
    → ((c == b'%') ≡ false) × ((c == b'+') ≡ false) × ((c == b'&') ≡ false)
unfolding unreserved
kept_as_is c h = (ground (arith, h), ground (arith, h), ground (arith, h))

pub decode-char :
    (c : ℕ) (s : Text)
    → (c == b'%') ≡ false
    → (c == b'+') ≡ false
    → decode plain (c ∷ s) ≡ consed c (decode plain s)
decode-char c s h k =
    ap
      (λ (b : Bool). elim b as (λ _. Option Text) [
        | true ↦ decode high s
        | false ↦ consed (if c == b'+' then b' ' else c) (decode plain s)
      ])
      h
    ∙ ap (λ b. consed (if b then b' ' else c) (decode plain s)) k

decode-hex :
    (a b h l : ℕ) (s : Text)
    → hex_value a ≡ some h
    → hex_value b ≡ some l
    → decode plain (b'%' ∷ a ∷ b ∷ s) ≡ consed (h * 16 + l) (decode plain s)
decode-hex a b h l s e e' =
    ap
      (λ (o : Option ℕ). elim o as (λ _. Option Text) [
        | none ↦ none
        | some n ↦ decode (low n) (b ∷ s)
      ])
      e
    ∙ ap
        (λ (o : Option ℕ). elim o as (λ _. Option Text) [
          | none ↦ none
          | some n ↦ consed (h * 16 + n) (decode plain s)
        ])
        e'

decode-escape_byte :
    (c : ℕ) (s : Text) → c < 256 → decode plain (escape_byte c ++ s) ≡ consed c (decode plain s)
unfolding escape_byte
decode-escape_byte c s h = elim (Bool-cases (unreserved c)) [
  | inl stays ↦ rw (stays) (decode-char c s (kept_as_is c stays).0 (kept_as_is c stays).1)
  | inr changes ↦ elim (Bool-cases (c == b' ')) [
    | inl space ↦
        rw (changes, space) (ap (λ d. consed d (decode plain s)) (sym (==_sound c b' ' space)))
    | inr other ↦
        rw (changes, other)
          (decode-hex (hex_digit (c / 16)) (hex_digit (c % 16)) (c / 16) (c % 16) s
              (hex_value-hex_digit (c / 16) (ground (arith, h)))
              (hex_value-hex_digit (c % 16) (ground arith))
            ∙ ap (λ d. consed d (decode plain s)) (ground arith))
  ]
]

-- A byte of the escaped text neither ends a pair nor is a character that the decoder takes otherwise.
pub decode-query_escape :
    (v : Text) → All (λ c. c < 256) v → query_unescape (query_escape v) ≡ some v
unfolding query_escape query_unescape
decode-query_escape [] h = refl
decode-query_escape (c ∷ v) h =
    decode-escape_byte c (query_escape v) h.0 ∙ ap (consed c) (decode-query_escape v h.1)

pub All-append : (P : ℕ → Type 0) (s t : Text) → All P s → All P t → All P (s ++ t)
All-append P [] t h k = k
All-append P (c ∷ s) t h k = (h.0, All-append P s t h.1 k)

abbrev pub NoAmp : Text → Type 0
NoAmp s = All (λ c. (c == b'&') ≡ false) s

escape_byte-NoAmp : (c : ℕ) → NoAmp (escape_byte c)
unfolding escape_byte
escape_byte-NoAmp c = elim (Bool-cases (unreserved c)) [
  | inl stays ↦ rw (stays) ((kept_as_is c stays).2, tt)
  | inr changes ↦ elim (Bool-cases (c == b' ')) [
    | inl space ↦ rw (changes, space) (refl, tt)
    | inr other ↦ rw (changes, other) (refl, (ground arith, (ground arith, tt)))
  ]
]

pub query_escape-NoAmp : (v : Text) → NoAmp (query_escape v)
unfolding query_escape
query_escape-NoAmp [] = tt
query_escape-NoAmp (c ∷ v) =
    All-append (λ d. (d == b'&') ≡ false) (escape_byte c) (query_escape v) (escape_byte-NoAmp c)
      (query_escape-NoAmp v)

-- What `hex.EncodeToString` writes.
abbrev pub IsHex : Text → Type 0
IsHex s = All (λ c. ((leb b'0' c && leb c b'9') || (leb b'a' c && leb c b'f')) ≡ true) s

pub IsHex-NoAmp : (s : Text) → IsHex s → NoAmp s
IsHex-NoAmp [] h = tt
IsHex-NoAmp (c ∷ s) h = (ground (arith, h.0), IsHex-NoAmp s h.1)

pub query_unescape-IsHex : (s : Text) → IsHex s → query_unescape s ≡ some s
unfolding query_unescape
query_unescape-IsHex [] h = refl
query_unescape-IsHex (c ∷ s) h =
    decode-char c s (ground (arith, h.0)) (ground (arith, h.0))
    ∙ ap (consed c) (query_unescape-IsHex s h.1)
