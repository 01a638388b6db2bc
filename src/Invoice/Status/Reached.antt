-- ===== src/Invoice/Status/Reached.antt =====
-- Which stages UpdateInvoiceStatus of GoodFood-BE/internal/utils/admin_invoices_helper.go reaches.
use good_food_be.Base.{◌≡◌, ◌≢◌, ◌⊎◌, ◌↔◌, refl, sym, subst, inl, inr, String, Option, ◌+◌, arith}
use good_food_be.Invoice.{Invoice}
use good_food_be.Invoice.Status.{advance}
use good_food_be.Invoice.Status.Progress.{
  Stage, placed, confirmed, processing, shipping, delivered, cancelled, id_of, Moves, confirm,
  process, ship, deliver, cancel, Offers, Offers-sound, Next-Offers,
}

id_of-injective : (a b : Stage) → id_of a ≡ id_of b → a ≡ b
id_of-injective placed placed e = refl
id_of-injective confirmed confirmed e = refl
id_of-injective processing processing e = refl
id_of-injective shipping shipping e = refl
id_of-injective delivered delivered e = refl
id_of-injective cancelled cancelled e = refl
id_of-injective a b e = absurd (ground (arith, e))

stage_after : (a b : Stage) → id_of a + 1 ≡ id_of b → Moves a b ⊎ (b ≡ cancelled)
stage_after placed confirmed e = inl confirm
stage_after confirmed processing e = inl process
stage_after processing shipping e = inl ship
stage_after shipping delivered e = inl deliver
stage_after delivered cancelled e = inr refl
stage_after a b e = absurd (ground (arith, e))

-- What is asked for without being offered, and yet reached.
abbrev pub Jumps : Stage → Type 0
Jumps b = (b ≡ delivered) ⊎ (b ≡ cancelled)

one_on :
    (a b : Stage) (reason : Option String) (i : Invoice)
    → i.invoice_status_id ≡ id_of a
    → id_of b ≢ 5
    → id_of b ≢ 6
    → (advance (id_of b) reason i).invoice_status_id ≡ id_of b
    → (id_of a ≡ id_of b) ⊎ (id_of a + 1 ≡ id_of b)
unfolding advance
one_on a b reason i at not_delivered not_cancelled reached = ground arith

arrives :
    (a b : Stage) (reason : Option String) (i : Invoice)
    → i.invoice_status_id ≡ id_of a
    → id_of b ≢ 5
    → id_of b ≢ 6
    → (advance (id_of b) reason i).invoice_status_id ≡ id_of b
    → Offers a b ⊎ Jumps b
arrives a b reason i at not_delivered not_cancelled reached =
    elim (one_on a b reason i at not_delivered not_cancelled reached) [
      | inl same ↦ inl (Next-Offers a b (inl (id_of-injective a b same)))
      | inr more ↦ elim (stage_after a b more) [
        | inl move ↦ inl (Next-Offers a b (inr move))
        | inr last ↦ inr (inr last)
      ]
    ]

reached-Offers :
    (a b : Stage) (reason : Option String) (i : Invoice)
    → i.invoice_status_id ≡ id_of a
    → (advance (id_of b) reason i).invoice_status_id ≡ id_of b
    → Offers a b ⊎ Jumps b
reached-Offers a delivered reason i at reached = inr (inl refl)
reached-Offers a cancelled reason i at reached = inr (inr refl)
reached-Offers a placed reason i at reached =
    arrives a placed reason i at (ground arith) (ground arith) reached
reached-Offers a confirmed reason i at reached =
    arrives a confirmed reason i at (ground arith) (ground arith) reached
reached-Offers a processing reason i at reached =
    arrives a processing reason i at (ground arith) (ground arith) reached
reached-Offers a shipping reason i at reached =
    arrives a shipping reason i at (ground arith) (ground arith) reached

jumped :
    (b : Stage) (reason : Option String) (i : Invoice)
    → Jumps b
    → (advance (id_of b) reason i).invoice_status_id ≡ id_of b
unfolding advance
jumped b reason i (inl e) =
    subst (λ c. (advance (id_of c) reason i).invoice_status_id ≡ id_of c) (sym e) (ground arith)
jumped b reason i (inr e) =
    subst (λ c. (advance (id_of c) reason i).invoice_status_id ≡ id_of c) (sym e) (ground arith)

moved :
    {a b : Stage} (reason : Option String) (i : Invoice)
    → i.invoice_status_id ≡ id_of a
    → Moves a b
    → (advance (id_of b) reason i).invoice_status_id ≡ id_of b
unfolding advance
moved reason i at confirm = ground arith
moved reason i at process = ground arith
moved reason i at ship = ground arith
moved reason i at deliver = ground arith
moved reason i at cancel = ground arith

stayed :
    (a : Stage) (reason : Option String) (i : Invoice)
    → i.invoice_status_id ≡ id_of a
    → (advance (id_of a) reason i).invoice_status_id ≡ id_of a
unfolding advance
stayed a reason i at = ground arith

-- The business logic of UpdateInvoiceStatus brings an order to the stage asked for exactly if that is one that
-- FetchStatusProgression offers for the order's own stage, or is "Delivered" or "Cancelled", which are reached
-- from every stage. What any other request leaves is another status than the one asked for.
pub advance_iff :
    (a b : Stage) (reason : Option String) (i : Invoice)
    → i.invoice_status_id ≡ id_of a
    → ((advance (id_of b) reason i).invoice_status_id ≡ id_of b) ↔ (Offers a b ⊎ Jumps b)
advance_iff a b reason i at = (
  reached-Offers a b reason i at,
  λ asked. elim asked [
    | inr jump ↦ jumped b reason i jump
    | inl offered ↦ elim (Offers-sound a b offered) [
      | inl same ↦
          subst (λ c. (advance (id_of c) reason i).invoice_status_id ≡ id_of c) same
            (stayed a reason i at)
      | inr move ↦ moved reason i at move
    ]
  ],
)
