-- ===== src/Core/Email/Blocks.antt =====
-- What each step of app/core/email.py leaves of an address's entry on the suppression list.
use a2z_core.Prelude.{
  ℕ, ◌≡◌, refl, sym, ◌∙◌, ap, inl, inr, Bool, false, ◌==◌, ◌&&◌, not, Option, none, some, [], ◌∷◌,
  ◌++◌, ltb, count, count-append, Bool-cases, arith,
}
use a2z_core.Prelude.Text.{Text, scoped_eq, scoped_beq, scoped_beq_iff}
use a2z_core.Prelude.Dict
use a2z_core.Prelude.Dict.{Dict, nat_eq, get-put, get-remove, beq_refl}
use a2z_core.Prelude.Run.{◌>>=◌, raise_if, pure, Keeps, bind-Keeps, raise_if-Keeps}
use a2z_core.Core.Email.Address.{is_address}
use a2z_core.Core.Email.{
  ServiceType, EmailStatus, Reason, Sent, Post, Error, Answers, Email, service_beq,
  ensure_config_set, check_limit, outgoing, record_event, log_sent, deliver, send_limited,
  send_unless, send_checked, send_with, send_email, suppress, set_event_status, announce, mark,
  delete_item, unsuppress_email,
}

-- The address is on the org's list.
abbrev pub IsSuppressed : ℕ × Text → Post → Type 0
IsSuppressed key s = (reason : Reason) × (Dict.get key s.suppression ≡ some reason)

-- A message to the address on behalf of the org.
abbrev pub is_to : ℕ × Text → Sent → Bool
is_to key mail = scoped_beq (mail.org_id, mail.to) key

module _ (key : ℕ × Text) (n : ℕ) where
  -- The address is on the list, and SES has accepted as many messages to it as before.
  abbrev pub Blocks : Post → Type 0
  Blocks s = IsSuppressed key s × (count (is_to key) s.sent ≡ n)

  ensure_config_set-Keeps :
      (a : Answers) (org_id : ℕ) (service_type : ServiceType)
      → Keeps Blocks (ensure_config_set a org_id service_type)
  ensure_config_set-Keeps a org_id service_type s blocks =
      elim (Bool-cases
        (ltb 0 (count (λ x. x.0 == org_id && service_beq x.1 service_type) s.config_sets))) [
          | inl known ↦ rw known blocks
          | inr new ↦ elim (Bool-cases a.destination_fails) [
            | inl fails ↦ rw (new, fails) blocks
            | inr made ↦ rw (new, made) blocks
          ]
        ]

  record_event-Keeps :
      (a : Answers) (service_type : ServiceType) (mail : Sent)
      → Keeps Blocks (record_event a service_type mail)
  record_event-Keeps a service_type mail s blocks = elim (Bool-cases a.table_fails) [
    | inl fails ↦ rw fails blocks
    | inr up ↦ rw up blocks
  ]

  log_sent-Keeps :
      (a : Answers) (service_type : ServiceType) (mail : Sent)
      → Keeps Blocks (log_sent a service_type mail)
  log_sent-Keeps a service_type mail =
      bind-Keeps Blocks (record_event a service_type mail)
        (λ _. raise_if a.audit_fails Error.audit_error >>= λ _. pure mail.message_id)
        (record_event-Keeps a service_type mail)
        (λ _.
          bind-Keeps Blocks (raise_if a.audit_fails Error.audit_error) (λ _. pure mail.message_id)
            (raise_if-Keeps Blocks a.audit_fails Error.audit_error) (λ _ s blocks. blocks))

  deliver-Keeps :
      (a : Answers) (org_id : ℕ) (service_type : ServiceType) (email : Email)
      (org : Option Text × Text) (accepted : Option ℕ)
      → scoped_beq (org_id, email.to) key ≡ false
      → Keeps Blocks (deliver a org_id service_type email org accepted)
  deliver-Keeps a org_id service_type email org none other s blocks = blocks
  deliver-Keeps a org_id service_type email org (some message_id) other s blocks =
      let mail = outgoing org_id service_type email org a message_id in
      let appended = count-append (is_to key) s.sent (mail ∷ []) in
      let none_more : count (is_to key) (mail ∷ []) ≡ 0 = rw other refl in
      log_sent-Keeps a service_type mail (record s { sent = s.sent ++ mail ∷ [] })
        (blocks.0, omega (arith, appended, none_more, blocks.1))

  send_limited-Keeps :
      (a : Answers) (org_id : ℕ) (service_type : ServiceType) (email : Email)
      (org : Option Text × Text)
      → scoped_beq (org_id, email.to) key ≡ false
      → Keeps Blocks (send_limited a org_id service_type email org)
  send_limited-Keeps a org_id service_type email org other =
      bind-Keeps Blocks (check_limit a org_id) (λ _. deliver a org_id service_type email org a.ses)
        (λ s blocks. blocks) (λ _. deliver-Keeps a org_id service_type email org a.ses other)

  send_checked-Keeps :
      (a : Answers) (org_id : ℕ) (service_type : ServiceType) (email : Email)
      (org : Option Text × Text)
      → Keeps Blocks (send_checked a org_id service_type email org)
  send_checked-Keeps a org_id service_type email org s ((reason, listed), counted) =
      go (Dict.get (org_id, email.to) s.suppression) refl
    where
      go :
          (found : Option Reason)
          → Dict.get (org_id, email.to) s.suppression ≡ found
          → Blocks (send_unless a org_id service_type email org found s).1
      go (some reason') e = ((reason, listed), counted)
      go none e = elim (Bool-cases (scoped_beq (org_id, email.to) key)) [
        | inr other ↦
            send_limited-Keeps a org_id service_type email org other s ((reason, listed), counted)
        | inl same ↦
            let equal = (scoped_beq_iff (org_id, email.to) key).0 same in
            let both = sym e ∙ ap (λ k. Dict.get k s.suppression) equal ∙ listed in absurd cc
      ]

  send_with-Keeps :
      (a : Answers) (org_id : ℕ) (service_type : ServiceType) (email : Email)
      (settings : Option (Option Text × Text))
      → Keeps Blocks (send_with a org_id service_type email settings)
  send_with-Keeps a org_id service_type email none = λ s blocks. blocks
  send_with-Keeps a org_id service_type email (some org) =
      bind-Keeps Blocks (ensure_config_set a org_id service_type)
        (λ _. send_checked a org_id service_type email org)
        (ensure_config_set-Keeps a org_id service_type)
        (λ _. send_checked-Keeps a org_id service_type email org)

  pub send_email-Keeps :
      (a : Answers) (org_id : ℕ) (service_type : ServiceType) (email : Email)
      → Keeps Blocks (send_email a org_id service_type email)
  unfolding send_email
  send_email-Keeps a org_id service_type email =
      bind-Keeps Blocks (raise_if (not (is_address a.is_space email.to)) Error.invalid_address)
        (λ _. send_with a org_id service_type email a.settings)
        (raise_if-Keeps Blocks (not (is_address a.is_space email.to)) Error.invalid_address)
        (λ _. send_with-Keeps a org_id service_type email a.settings)

  put-listed :
      (other : ℕ × Text) (reason : Reason) (s : Post)
      → Blocks s
      → Blocks (record s { suppression = Dict.put other reason s.suppression })
  put-listed other reason s ((reason', listed), counted) =
      let found = get-put other key reason s.suppression in
      elim (Bool-cases (scoped_beq other key)) [
        | inl same ↦ ((reason, found ∙ rw same refl), counted)
        | inr differs ↦ ((reason', found ∙ rw differs listed), counted)
      ]

  pub suppress-Keeps :
      (a : Answers) (org_id : ℕ) (email : Text) (reason : Reason)
      → Keeps Blocks (suppress a org_id email reason)
  suppress-Keeps a org_id email reason s blocks = elim (Bool-cases a.table_fails) [
    | inl fails ↦ rw fails blocks
    | inr up ↦ rw up (put-listed (org_id, email) reason s blocks)
  ]

  pub mark-Keeps :
      (a : Answers) (message_id : ℕ) (status : EmailStatus)
      → Keeps Blocks (mark a message_id status)
  mark-Keeps a message_id status =
      bind-Keeps Blocks (set_event_status message_id status) (λ _. announce a) (λ s blocks. blocks)
        (λ _.
          bind-Keeps Blocks (raise_if a.audit_fails Error.audit_error)
            (λ _. raise_if a.publish_fails Error.event_error)
            (raise_if-Keeps Blocks a.audit_fails Error.audit_error)
            (λ _. raise_if-Keeps Blocks a.publish_fails Error.event_error))

  pub unsuppress_email-Keeps :
      (a : Answers) (org_id : ℕ) (email : Text)
      → scoped_beq (org_id, email) key ≡ false
      → Keeps Blocks (unsuppress_email a org_id email)
  unfolding unsuppress_email
  unsuppress_email-Keeps a org_id email other =
      bind-Keeps Blocks (delete_item a org_id email) (λ _. raise_if a.audit_fails Error.audit_error)
        (λ s ((reason, listed), counted). elim (Bool-cases a.table_fails) [
          | inl fails ↦ rw fails ((reason, listed), counted)
          | inr up ↦
              let found = get-remove (org_id, email) key s.suppression in
              rw up ((reason, found ∙ rw other listed), counted)
        ])
        (λ _. raise_if-Keeps Blocks a.audit_fails Error.audit_error)
