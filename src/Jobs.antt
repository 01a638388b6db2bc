-- ===== src/Jobs.antt =====
-- Background jobs: GoodFood-BE/internal/jobs (task.go, handler.go), their registration in
-- GoodFood-BE/cmd/worker/main.go, and HandleContact of GoodFood-BE/internal/server/handlers/users.go. JSON, the queue
-- asynq and the mail server are parameters.
pub mod Delivered
use good_food_be.Base.{
  ℕ, ◌≡◌, ⊤, ◌⊎◌, inl, inr, String, Option, none, some, List, [], ◌∷◌, ◌++◌, str_eq, if◌then◌else◌,
}
use good_food_be.Http.{Response, ok, error}

pub record ResetPasswordPayload : Type 0 where
  pub to_email : String
  pub reset_link : String

pub record CustomerSentContactPayload : Type 0 where
  pub fullname : String
  pub from_email : String
  pub message : String

abbrev pub type_reset_password_email : String
type_reset_password_email = "email:reset_password"

abbrev pub type_send_contact_message : String
type_send_contact_message = "contact:customer_sent"

-- asynq.Task over the JSON texts `J`.
pub record Task (J : Type 0) : Type 0 where
  pub type_name : String
  pub payload : J

-- json.Marshal and json.Unmarshal of one struct, each with its error's text. What the code relies on: what was
-- marshalled is read back.
pub record Json (J A : Type 0) : Type 0 where
  pub marshal : A → String ⊎ J
  pub unmarshal : J → String ⊎ A
  pub unmarshal_marshal : (a : A) (j : J) → marshal a ≡ inr j → unmarshal j ≡ inr a

-- A mail that the server has sent: the link for a reset to its address, or a message to the shop with the
-- customer's address in it.
pub data Mail : Type 0 where
  reset_mail : String → String → Mail
  contact_mail : String → String → Mail

-- dto.ContactResponse
pub record ContactResponse : Type 0 where
  pub fullname : String
  pub email : String
  pub message : String

abbrev pub made : {J : Type 0} → String → String ⊎ J → String ⊎ Task J
made type_name (inl wrong) = inl wrong
made type_name (inr j) = inr (record { type_name = type_name; payload = j })

-- A job ends with the mails sent so far and an error's text, if there is one; asynq retries it then.
abbrev pub Job : Type 0
Job = List Mail → Option String × List Mail

-- `dial mail` is DialAndSend: an error's text, or nothing.
abbrev pub sent : Mail → Option String → Job
sent mail (some wrong) mails = (some wrong, mails)
sent mail none mails = (none, mail ∷ mails)

module _ {J : Type 0} (reset_json : Json J ResetPasswordPayload)
    (contact_json : Json J CustomerSentContactPayload) (dial : Mail → Option String) where
  unfoldable pub new_reset_password_email_task : String → String → String ⊎ Task J
  new_reset_password_email_task to_email reset_link =
      made type_reset_password_email
        (reset_json.marshal (record { to_email = to_email; reset_link = reset_link }))

  unfoldable pub new_customer_sent_contact_task : String → String → String → String ⊎ Task J
  new_customer_sent_contact_task fullname from_email message = made type_send_contact_message (
      contact_json.marshal
        (record { fullname = fullname; from_email = from_email; message = message }))

  abbrev pub reset_of : String ⊎ ResetPasswordPayload → Job
  reset_of (inl wrong) mails = (some wrong, mails)
  reset_of (inr p) mails =
      sent (reset_mail p.to_email p.reset_link) (dial (reset_mail p.to_email p.reset_link)) mails

  unfoldable pub handle_reset_password_email_task : Task J → Job
  handle_reset_password_email_task t = reset_of (reset_json.unmarshal t.payload)

  -- The full name is not passed on.
  abbrev pub contact_of : String ⊎ CustomerSentContactPayload → Job
  contact_of (inl wrong) mails = (some wrong, mails)
  contact_of (inr p) mails =
      sent (contact_mail p.from_email p.message) (dial (contact_mail p.from_email p.message)) mails

  unfoldable pub handle_contact_customer_sent : Task J → Job
  handle_contact_customer_sent t = contact_of (contact_json.unmarshal t.payload)

  -- The registration in the worker; asynq answers a type that is not registered with an error.
  unfoldable pub work : Task J → Job
  work t mails =
      if str_eq t.type_name type_reset_password_email
      then handle_reset_password_email_task t mails
      else if str_eq t.type_name type_send_contact_message
      then handle_contact_customer_sent t mails
      else (some "handler not found for task", mails)

  -- `enqueue` is asynq's answer; the request's body is parsed, or the text of its error.
  abbrev pub enqueued : Task J → Option String → List (Task J) → Response ⊥ ⊤ × List (Task J)
  enqueued t (some wrong) queue = (error 500 wrong, queue)
  enqueued t none queue = (ok tt, queue ++ t ∷ [])

  abbrev pub contact_task :
      (Task J → Option String) → String ⊎ Task J → List (Task J) → Response ⊥ ⊤ × List (Task J)
  contact_task enqueue (inl wrong) queue = (error 500 wrong, queue)
  contact_task enqueue (inr t) queue = enqueued t (enqueue t) queue

  unfoldable pub handle_contact :
      (Task J → Option String)
      → String ⊎ ContactResponse
      → List (Task J)
      → Response ⊥ ⊤ × List (Task J)
  handle_contact enqueue (inl bad) queue = (error 400 bad, queue)
  handle_contact enqueue (inr body) queue =
      contact_task enqueue (new_customer_sent_contact_task body.fullname body.email body.message)
        queue
