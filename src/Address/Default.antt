-- ===== src/Address/Default.antt =====
-- The default delivery address: AddressQuickChange and AddressFill of
-- GoodFood-BE/internal/server/handlers/address.go.
use mathlib.Core.Option
use mathlib.Core.Option.{Option}
use good_food_be.Base.{
  ℕ, ◌≡◌, ◌≢◌, ◌⊎◌, sym, ap, ◌∙◌, inl, inr, Bool, true, false, some, List, arith, subst, ◌==◌, ◌&&◌,
  ℕ_discrete,
}
use good_food_be.Store.{done, get, Result-cases}
use good_food_be.Store.Laws.{Elsewhere, update-Writes, one_by_key}
use good_food_be.Http.{Response, ok, error, error_struct, panic, Ends}
use good_food_be.Address.{
  Address, AddressTable, address_key, by_id, row_of, address_fill, address_quick_change,
}

abbrev pub with_status : Bool → Address → Address
with_status s a = record a { status = s }

-- The row under `id` has its status set, and no other row is written.
abbrev pub Sets : Bool → ℕ → List Address → List Address → Type 0
Sets s id t t' =
    (row_of id t' ≡ Option.map (with_status s) (row_of id t)) × Elsewhere address_key id t t'

-- Two addresses of the account: the new default is set and the old one is cleared, nothing else.
abbrev pub IsSwap : ℕ → ℕ → ℕ → List Address → Address → List Address → Type 0
IsSwap account_id address_id to_be_disabled t row t' =
    (row.account_id ≡ account_id)
    × (row_of address_id t' ≡ some row)
    × (row_of address_id t' ≡ Option.map (with_status true) (row_of address_id t))
    × (row_of to_be_disabled t' ≡ Option.map (with_status false) (row_of to_be_disabled t))
    × (Option.map (λ a. a.account_id) (row_of to_be_disabled t) ≡ some account_id)
    × ((k : ℕ) → k ≢ address_id → k ≢ to_be_disabled → row_of k t' ≡ row_of k t)

-- How a request for a quick change may end: with the swap; with an error and no write; or, if the second
-- update fails, with the new default set and the old one kept.
abbrev pub QuickChange : ℕ → ℕ → ℕ → List Address → Response ⊥ Address × List Address → Type 0
QuickChange account_id address_id to_be_disabled t (ok row, t') =
    IsSwap account_id address_id to_be_disabled t row t'
QuickChange account_id address_id to_be_disabled t (error code text, t') =
    (t' ≡ t) ⊎ ((text ≡ "Cannot update the disableThis address") × Sets true address_id t t')
QuickChange account_id address_id to_be_disabled t (error_struct code e, t') = ⊥
QuickChange account_id address_id to_be_disabled t (panic, t') = ⊥

module _ (db : AddressTable) where
  set_step :
      (s : Bool) (id : ℕ) (t t' : List Address) (old : Address)
      → old.address_id ≡ id
      → row_of id t ≡ some old
      → db.update (with_status s old) t ≡ done t'
      → Sets s id t t'
  set_step s id t t' old same here wrote =
      let (now, rest) =
        update-Writes db (with_status s old) old t t' wrote
          (subst (λ k. get address_key k t ≡ some old) (sym same) here) in
      (
        rw here (subst (λ k. get address_key k t' ≡ some (with_status s old)) same now),
        subst (λ k. Elsewhere address_key k t t') same rest,
      )

  module _ (account_id address_id to_be_disabled : ℕ) (t : List Address)
      (differ : address_id ≢ to_be_disabled) (new old : Address)
      (new_found : db.one (by_id address_id) t ≡ done new)
      (old_found : db.one (by_id to_be_disabled) t ≡ done old) where
    enable_step :
        (enabled : List Address)
        → db.update (with_status true new) t ≡ done enabled
        → Sets true address_id t enabled
    enable_step enabled wrote =
        let (same, here) = one_by_key db address_id t new new_found in
        set_step true address_id t enabled new same here wrote

    IsSwap-step :
        (enabled changed : List Address)
        → db.update (with_status true new) t ≡ done enabled
        → db.update (with_status false old) enabled ≡ done changed
        → new.account_id ≡ account_id
        → old.account_id ≡ account_id
        → IsSwap account_id address_id to_be_disabled t (with_status true new) changed
    IsSwap-step enabled changed first second own own' =
        let (same, here) = one_by_key db address_id t new new_found in
        let (same', here') = one_by_key db to_be_disabled t old old_found in
        let (now, rest) = enable_step enabled first in
        let (now', rest') =
          set_step false to_be_disabled enabled changed old same'
            (rest to_be_disabled (λ e. differ (sym e)) ∙ here') second in
        (
          own,
          rest' address_id differ ∙ now ∙ rw here,
          rest' address_id differ ∙ now,
          rw (rest to_be_disabled (λ e. differ (sym e))) at now',
          rw here' (ap some own'),
          λ k not_new not_old. rest' k not_old ∙ rest k not_new,
        )

  -- AddressQuickChange swaps the default among two different addresses of the account, or answers an
  -- error. An error leaves the table as it was, but for one: if the second of its two updates fails, the
  -- first stays written, and the account has the new default beside the old.
  pub address_quick_change-QuickChange :
      (account_id address_id to_be_disabled : ℕ) (t : List Address)
      → QuickChange account_id address_id to_be_disabled t
          (address_quick_change db account_id address_id to_be_disabled t)
  unfolding address_quick_change
  address_quick_change-QuickChange account_id address_id to_be_disabled t =
      elim (Result-cases (db.one (by_id address_id) t)) [
        | inl (new, new_found) ↦ elim (Result-cases (db.one (by_id to_be_disabled) t)) [
          | inl (old, old_found) ↦ elim (Result-cases (db.update (with_status true new) t)) [
            | inl (enabled, first) ↦
                elim (Result-cases (db.update (with_status false old) enabled)) [
                  | inl (changed, second) ↦ ground (
                    arith,
                    λ (differ : address_id ≢ to_be_disabled) (own : new.account_id ≡ account_id)
                          (own' : old.account_id ≡ account_id).
                        IsSwap-step account_id address_id to_be_disabled t differ new old new_found
                          old_found enabled changed first second own own',
                  )
                  | inr (e, wrong) ↦ ground (
                    arith,
                    λ (differ : address_id ≢ to_be_disabled).
                        enable_step account_id address_id to_be_disabled t differ new old new_found
                          old_found enabled first,
                  )
                ]
            | inr (e, wrong) ↦ ground arith
          ]
          | inr (e, wrong) ↦ ground arith
        ]
        | inr (e, wrong) ↦ ground arith
      ]

  -- AddressFill writes nothing, and answers 200 only with a default address of the account.
  address_fill-Default :
      (account_id : ℕ) (t : List Address)
      → Ends
          (λ row t'.
            (row.account_id ≡ account_id)
            × (row.status ≡ true)
            × (row_of row.address_id t ≡ some row)
            × (t' ≡ t))
          t
          (address_fill db account_id t)
  unfolding address_fill
  address_fill-Default account_id t =
      elim (Result-cases (db.one (λ a. a.account_id == account_id && a.status) t)) [
        | inl (row, found) ↦
            ground (arith, db.one_found (λ a. a.account_id == account_id && a.status) t row found)
        | inr (e, wrong) ↦ ground arith
      ]

-- The account's only default address, if it has one, is the one under `id`.
abbrev pub OnlyDefault : ℕ → ℕ → List Address → Type 0
OnlyDefault account_id id t =
    (k : ℕ) (a : Address)
    → row_of k t ≡ some a
    → a.account_id ≡ account_id
    → a.status ≡ true
    → k ≡ id

swap-OnlyDefault :
    (account_id address_id to_be_disabled : ℕ) (t t' : List Address) (row : Address)
    → OnlyDefault account_id to_be_disabled t
    → IsSwap account_id address_id to_be_disabled t row t'
    → OnlyDefault account_id address_id t'
swap-OnlyDefault account_id address_id to_be_disabled t t' row only swap k a here own set =
    elim (ℕ_discrete k address_id) [
      | yes new ↦ new
      | no other ↦ elim (ℕ_discrete k to_be_disabled) [
        | yes old ↦ absurd (
            cleared a (row_of to_be_disabled t)
              (sym (subst (λ j. row_of j t' ≡ some a) old here) ∙ swap.3) set)
        | no third ↦ absurd (third (only k a (sym (swap.5 k other third) ∙ here) own set))
      ]
    ]
  where
    cleared :
        (a : Address) (o : Option Address)
        → some a ≡ Option.map (with_status false) o
        → a.status ≢ true
    cleared a o e = ground arith

-- If the account has no default address but the one to be disabled, then after a successful quick
-- change it has exactly one default, the chosen address.
quick_change-OnlyDefault :
    (db : AddressTable) (account_id address_id to_be_disabled : ℕ) (t t' : List Address)
    (row : Address)
    → OnlyDefault account_id to_be_disabled t
    → address_quick_change db account_id address_id to_be_disabled t ≡ (ok row, t')
    → OnlyDefault account_id address_id t'
      × (Option.map (λ a. a.status) (row_of address_id t') ≡ some true)
quick_change-OnlyDefault db account_id address_id to_be_disabled t t' row only e =
    let swap : IsSwap account_id address_id to_be_disabled t row t' =
      subst (QuickChange account_id address_id to_be_disabled t) e
        (address_quick_change-QuickChange db account_id address_id to_be_disabled t) in
    (
      swap-OnlyDefault account_id address_id to_be_disabled t t' row only swap,
      turned row (row_of address_id t) (row_of address_id t') swap.1 swap.2,
    )
  where
    turned :
        (row : Address) (o o' : Option Address)
        → o' ≡ some row
        → o' ≡ Option.map (with_status true) o
        → Option.map (λ a. a.status) o' ≡ some true
    turned row o o' here e = ground arith
