-- ===== src/Invoice/Status/Progress.antt =====
-- The life of an order as a relation on its stages, and how the code follows it.
use good_food_be.Base.{
  ℕ, ◌≡◌, ◌≢◌, ◌⊎◌, refl, subst, inl, inr, String, Bool, true, false, Option, List, [], ◌∷◌, ◌||◌,
  arith, str_eq,
}
use good_food_be.Invoice.{Invoice}
use good_food_be.Invoice.Status.{progression, advance}

-- The rows of the table `invoice_status`, in the order of their IDs from 1.
pub data Stage : Type 0 where
  placed confirmed processing shipping delivered cancelled : Stage

abbrev pub name_of : Stage → String
name_of placed = "Order Placed"
name_of confirmed = "Order Confirmed"
name_of processing = "Order Processing"
name_of shipping = "Shipping"
name_of delivered = "Delivered"
name_of cancelled = "Cancelled"

abbrev pub id_of : Stage → ℕ
id_of placed = 1
id_of confirmed = 2
id_of processing = 3
id_of shipping = 4
id_of delivered = 5
id_of cancelled = 6

-- The moves of an order: forward by one stage, or from the first stage to the cancellation.
pub data Moves : Stage → Stage → Type 0 where
  confirm : Moves placed confirmed
  process : Moves confirmed processing
  ship : Moves processing shipping
  deliver : Moves shipping delivered
  cancel : Moves placed cancelled

-- The same stage, or one move on.
abbrev pub Next : Stage → Stage → Type 0
Next a b = (a ≡ b) ⊎ Moves a b

abbrev pub names : String → List String → Bool
names x [] = false
names x (y ∷ ys) = str_eq x y || names x ys

abbrev pub Offers : Stage → Stage → Type 0
Offers a b = names (name_of b) (progression (name_of a)) ≡ true

pub Offers-sound : (a b : Stage) → Offers a b → Next a b
unfolding progression
Offers-sound placed placed h = inl refl
Offers-sound placed confirmed h = inr confirm
Offers-sound placed cancelled h = inr cancel
Offers-sound confirmed confirmed h = inl refl
Offers-sound confirmed processing h = inr process
Offers-sound processing processing h = inl refl
Offers-sound processing shipping h = inr ship
Offers-sound shipping shipping h = inl refl
Offers-sound shipping delivered h = inr deliver
Offers-sound delivered delivered h = inl refl
Offers-sound cancelled cancelled h = inl refl
Offers-sound a b h = cc

Offers-self : (a : Stage) → Offers a a
unfolding progression
Offers-self placed = refl
Offers-self confirmed = refl
Offers-self processing = refl
Offers-self shipping = refl
Offers-self delivered = refl
Offers-self cancelled = refl

Offers-move : {a b : Stage} → Moves a b → Offers a b
unfolding progression
Offers-move confirm = refl
Offers-move process = refl
Offers-move ship = refl
Offers-move deliver = refl
Offers-move cancel = refl

pub Next-Offers : (a b : Stage) → Next a b → Offers a b
Next-Offers a b next = elim next [
  | inl same ↦ subst (Offers a) same (Offers-self a)
  | inr move ↦ Offers-move move
]

-- A delivered order is paid.
abbrev pub PaidIfDelivered : Invoice → Type 0
PaidIfDelivered i = i.invoice_status_id ≡ 5 → i.status ≡ true

-- The invoice stands at the stage, and has the reason if that is the cancellation.
abbrev pub StandsAt : Stage → Option String → Invoice → Type 0
StandsAt b reason i = (i.invoice_status_id ≡ id_of b) × (b ≡ cancelled → i.cancel_reason ≡ reason)

advance_same :
    (a : Stage) (reason : Option String) (i : Invoice)
    → i.invoice_status_id ≡ id_of a
    → PaidIfDelivered i
    → StandsAt a reason (advance (id_of a) reason i) × PaidIfDelivered (advance (id_of a) reason i)
unfolding advance
advance_same cancelled reason i at paid = ((ground arith, λ e. ground arith), λ e. ground arith)
advance_same delivered reason i at paid = ((ground arith, λ e. cc), λ e. ground arith)
advance_same shipping reason i at paid = ((ground arith, λ e. cc), λ e. ground arith)
advance_same processing reason i at paid = ((ground arith, λ e. cc), λ e. ground arith)
advance_same confirmed reason i at paid = ((ground arith, λ e. cc), λ e. ground arith)
advance_same placed reason i at paid = ((ground arith, λ e. cc), λ e. ground arith)

advance_move :
    {a b : Stage} (reason : Option String) (i : Invoice)
    → Moves a b
    → i.invoice_status_id ≡ id_of a
    → StandsAt b reason (advance (id_of b) reason i) × PaidIfDelivered (advance (id_of b) reason i)
unfolding advance
advance_move reason i confirm at = ((ground arith, λ e. cc), λ e. ground arith)
advance_move reason i process at = ((ground arith, λ e. cc), λ e. ground arith)
advance_move reason i ship at = ((ground arith, λ e. cc), λ e. ground arith)
advance_move reason i deliver at = ((ground arith, λ e. cc), λ e. ground arith)
advance_move reason i cancel at = ((ground arith, λ e. ground arith), λ e. ground arith)

-- If the stage asked for is one that FetchStatusProgression offers for the order's own, the business logic
-- of UpdateInvoiceStatus brings the order exactly there, with the reason if it is the cancellation, and a
-- delivered order stays paid.
pub advance-StandsAt :
    (a b : Stage) (reason : Option String) (i : Invoice)
    → Offers a b
    → i.invoice_status_id ≡ id_of a
    → PaidIfDelivered i
    → StandsAt b reason (advance (id_of b) reason i) × PaidIfDelivered (advance (id_of b) reason i)
advance-StandsAt a b reason i offered at paid = elim (Offers-sound a b offered) [
  | inl same ↦
      subst
        (λ x.
          StandsAt x reason (advance (id_of x) reason i)
          × PaidIfDelivered (advance (id_of x) reason i))
        same (advance_same a reason i at paid)
  | inr move ↦ advance_move reason i move at
]

-- A request for a stage other than "Delivered" and "Cancelled" moves a delivered order to the status of a
-- cancelled one: its reason stays as it was, and UpdateInvoiceStatus sends no mail.
advance_delivered :
    (asked : ℕ) (reason : Option String) (i : Invoice)
    → i.invoice_status_id ≡ id_of delivered
    → asked ≢ id_of delivered
    → asked ≢ id_of cancelled
    → ((advance asked reason i).invoice_status_id ≡ id_of cancelled)
      × ((advance asked reason i).cancel_reason ≡ i.cancel_reason)
unfolding advance
advance_delivered asked reason i at not_delivered not_cancelled = (ground arith, ground arith)
