-- ===== src/Vnpay/Lookup.antt =====
-- Looking up what a query was read as.
use good_food_be.Base.{
  ◌≡◌, refl, sym, ap, ◌∙◌, ◌⊎◌, inl, inr, Bool, true, false, ◌||◌, List, [], ◌∷◌, if◌then◌else◌,
  All, Bool-cases, arith,
}
use good_food_be.Vnpay.{Params, keys_of}
use good_food_be.Vnpay.Bytes.{
  Text, same, same_sound, same_refl, text_le, insert, sort, listed, value,
}
use good_food_be.Vnpay.RoundTrip.{entry, entries}

value-entry_other :
    (j k v : Text) (read : Params) → same k j ≡ false → value j (entry k v read) ≡ value j read
value-entry_other j k [] read h = refl
value-entry_other j k (c ∷ v) read h = rw (h) refl

value-entry_self :
    (j v : Text) (read : Params)
    → (value j read ≡ v) ⊎ (value j read ≡ [])
    → value j (entry j v read) ≡ v
value-entry_self j [] read (inl e) = e
value-entry_self j [] read (inr e) = e
value-entry_self j (c ∷ v) read h = rw (same_refl j) refl

abbrev pub if_listed : Bool → Text → Text
if_listed b v = if b then v else []

one_or_none : (b : Bool) (s v : Text) → s ≡ if_listed b v → (s ≡ v) ⊎ (s ≡ [])
one_or_none true s v e = inl e
one_or_none false s v e = inr e

pub value-entries :
    (j : Text) (params read : Params) (ks : List Text)
    → value j read ≡ []
    → value j (entries params ks read) ≡ if_listed (listed j ks) (value j params)
value-entries j params read [] e = e
value-entries j params read (k ∷ ks) e = elim (Bool-cases (same k j)) [
  | inl h ↦
      let rest : Params = entries params ks read in
      ap (λ i. value j (entry i (value i params) rest)) (same_sound k j h)
      ∙ value-entry_self j (value j params) rest (
          one_or_none (listed j ks) (value j rest) (value j params)
            (value-entries j params read ks e))
      ∙ sym (ap (λ b. if_listed (b || listed j ks) (value j params)) h)
  | inr h ↦
      value-entry_other j k (value k params) (entries params ks read) h
      ∙ value-entries j params read ks e
      ∙ sym (ap (λ b. if_listed (b || listed j ks) (value j params)) h)
]

pub value-entries_unlisted :
    (j : Text) (params read : Params) (ks : List Text)
    → listed j ks ≡ false
    → value j (entries params ks read) ≡ value j read
value-entries_unlisted j params read [] e = refl
value-entries_unlisted j params read (k ∷ ks) e =
    value-entry_other j k (value k params) (entries params ks read) (ground (arith, e))
    ∙ value-entries_unlisted j params read ks (ground (arith, e))

-- Only a key of the map has a value.
pub if_listed-keys_of :
    (j : Text) (params : Params)
    → if_listed (listed j (keys_of params)) (value j params) ≡ value j params
if_listed-keys_of j [] = refl
if_listed-keys_of j ((k, v) ∷ m) = elim (Bool-cases (same k j)) [
  | inl h ↦ rw (h) refl
  | inr h ↦ rw (h) (if_listed-keys_of j m)
]

All-insert : (P : Text → Type 0) (k : Text) (ks : List Text) → P k → All P ks → All P (insert k ks)
unfolding insert
All-insert P k [] p h = (p, tt)
All-insert P k (j ∷ js) p h = elim (Bool-cases (text_le k j)) [
  | inl first ↦ rw (first) (p, h)
  | inr later ↦ rw (later) (h.0, All-insert P k js p h.1)
]

pub All-sort : (P : Text → Type 0) (ks : List Text) → All P ks → All P (sort ks)
unfolding sort
All-sort P [] h = tt
All-sort P (k ∷ ks) h = All-insert P k (sort ks) h.0 (All-sort P ks h.1)
