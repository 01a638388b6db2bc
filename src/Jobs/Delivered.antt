-- ===== src/Jobs/Delivered.antt =====
-- From a task's making to its mail.
use good_food_be.Base.{
  ⊤, ◌≡◌, refl, sym, ap, ◌∙◌, subst, ◌⊎◌, inl, inr, String, Option, none, some, List, [], ◌∷◌, ◌++◌,
  Sum-cases, arith,
}
use good_food_be.Http.{Response, ok, error}
use good_food_be.Jobs.{
  Task, Json, ResetPasswordPayload, CustomerSentContactPayload, ContactResponse, Mail, reset_mail,
  contact_mail, made, sent, contact_of, reset_of, type_reset_password_email,
  type_send_contact_message, new_reset_password_email_task, new_customer_sent_contact_task,
  handle_reset_password_email_task, handle_contact_customer_sent, work, enqueued, contact_task,
  handle_contact,
}

made_task :
    {J : Type 0} (name : String) (r : String ⊎ J) (t : Task J)
    → made name r ≡ inr t
    → (j : J) × (r ≡ inr j) × (t ≡ record { type_name = name; payload = j })
made_task name (inl wrong) t e = absurd (ground arith)
made_task name (inr j) t e = (j, refl, ap (λ o. elim o [ inl x ↦ t | inr x ↦ x ]) (sym e))

module _ {J : Type 0} (reset_json : Json J ResetPasswordPayload)
    (contact_json : Json J CustomerSentContactPayload) (dial : Mail → Option String) where
  -- The worker makes of the task for a contact message one mail with the customer's address and message, and of
  -- the task for a reset one mail to its address with its link; a mail that the server refuses leaves
  -- the mails sent so far.
  new_reset_password_email_task-work :
      (to_email reset_link : String) (t : Task J) (mails : List Mail)
      → new_reset_password_email_task reset_json contact_json dial to_email reset_link ≡ inr t
      → work reset_json contact_json dial t mails
        ≡ sent (reset_mail to_email reset_link) (dial (reset_mail to_email reset_link)) mails
  unfolding new_reset_password_email_task work handle_reset_password_email_task
  new_reset_password_email_task-work to_email reset_link t mails e =
      let p : ResetPasswordPayload = record { to_email = to_email; reset_link = reset_link } in
      let (j, marshalled, is) = made_task type_reset_password_email (reset_json.marshal p) t e in
      ap (λ (x : Task J). work reset_json contact_json dial x mails) is
      ∙ ap (λ r. reset_of reset_json contact_json dial r mails)
          (reset_json.unmarshal_marshal p j marshalled)

  new_customer_sent_contact_task-work :
      (fullname from_email message : String) (t : Task J) (mails : List Mail)
      → new_customer_sent_contact_task reset_json contact_json dial fullname from_email message
        ≡ inr t
      → work reset_json contact_json dial t mails
        ≡ sent (contact_mail from_email message) (dial (contact_mail from_email message)) mails
  unfolding new_customer_sent_contact_task work handle_contact_customer_sent
  new_customer_sent_contact_task-work fullname from_email message t mails e =
      let p : CustomerSentContactPayload = record {
        fullname = fullname;
        from_email = from_email;
        message = message;
      } in
      let (j, marshalled, is) = made_task type_send_contact_message (contact_json.marshal p) t e in
      ap (λ (x : Task J). work reset_json contact_json dial x mails) is
      ∙ ap (λ r. contact_of reset_json contact_json dial r mails)
          (contact_json.unmarshal_marshal p j marshalled)

  made-Queued :
      (enqueue : Task J → Option String) (t : Task J) (o : Option String)
      (queue queue' : List (Task J))
      → enqueued reset_json contact_json dial t o queue ≡ (ok tt, queue')
      → queue' ≡ queue ++ t ∷ []
  made-Queued enqueue t (some wrong) queue queue' e = absurd (refused (ap (λ x. x.0) e))
    where
      refused : ◌≡◌ {A = Response ⊥ ⊤} (error 500 wrong) (ok tt) → ⊥
      refused h = ground arith
  made-Queued enqueue t none queue queue' e = sym (ap (λ x. x.1) e)

  -- A contact that HandleContact answers with 200 is one task at the end of the queue, and the worker makes of it
  -- one mail to the shop with the address and the message of the request, or reports the mail server's error. The
  -- name of the customer reaches nobody.
  handle_contact-work :
      (enqueue : Task J → Option String) (body : ContactResponse) (queue queue' : List (Task J))
      → handle_contact reset_json contact_json dial enqueue (inr body) queue ≡ (ok tt, queue')
      → (t : Task J) × (queue' ≡ queue ++ t ∷ [])
        × ((mails : List Mail)
            → work reset_json contact_json dial t mails
              ≡ sent
                  (contact_mail body.email body.message)
                  (dial (contact_mail body.email body.message))
                  mails)
  unfolding handle_contact
  handle_contact-work enqueue body queue queue' e =
      elim (Sum-cases (
        new_customer_sent_contact_task reset_json contact_json dial body.fullname body.email
          body.message)) [
            | inl (wrong, failed) ↦ absurd (
                refused wrong (
                  ap (λ x. x.0)
                    (subst
                      (λ r.
                        contact_task reset_json contact_json dial enqueue r queue ≡ (ok tt, queue'))
                      failed e)))
            | inr (t, made_it) ↦ (
              t,
              made-Queued enqueue t (enqueue t) queue queue' (
                  subst
                    (λ r.
                      contact_task reset_json contact_json dial enqueue r queue ≡ (ok tt, queue'))
                    made_it e),
              λ mails.
                  new_customer_sent_contact_task-work body.fullname body.email body.message t mails
                    made_it,
            )
          ]
    where
      refused : (wrong : String) → ◌≡◌ {A = Response ⊥ ⊤} (error 500 wrong) (ok tt) → ⊥
      refused wrong h = ground arith
