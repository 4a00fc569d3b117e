-- ===== src/Core/Email.antt =====
-- app/core/email.py: sending on behalf of an org, and the suppression list that bounces and complaints
-- fill.
pub mod Address
pub mod Blocks
pub mod Suppressed
use a2z_core.Prelude.{
  ℕ, Bool, true, false, ◌==◌, ◌&&◌, ◌||◌, not, Option, none, some, List, [], ◌∷◌, ◌++◌, ltb, count,
  if◌then◌else◌,
}
use a2z_core.Prelude.Text.{Text, codes, text_beq, scoped_eq, scoped_beq}
use a2z_core.Prelude.Dict
use a2z_core.Prelude.Dict.{Dict, nat_eq}
use a2z_core.Prelude.Run.{Result, Run, ok, err, ◌>>=◌, ◌>>◌, pure, raise_if}
use a2z_core.Core.Email.Address.{is_address}
use a2z_core.Core.RateLimit.{Outcome, check_and_increment}

pub data ServiceType : Type 0 where
  invoicing omnichannel appointments expenses : ServiceType

pub data EmailStatus : Type 0 where
  queued sent delivered bounced complained rejected : EmailStatus

pub data Reason : Type 0 where
  bounce : Text → Reason
  complaint : Reason

-- A message handed to SES.
pub record Sent : Type 0 where
  pub message_id : ℕ
  pub org_id : ℕ
  pub to : Text
  pub source : Text
  pub reply_to : Text
  pub subject : Text
  pub body_html : Text
  pub body_text : Text

-- A row of the table of e-mail events.
pub record Event : Type 0 where
  pub org_id : ℕ
  pub to : Text
  pub service_type : ServiceType
  pub status : EmailStatus
  pub subject : Text

-- The suppression and event tables, the windows of the rate limiter, the config sets that are
-- confirmed, and what SES has accepted, oldest first.
pub record Post : Type 0 where
  pub suppression : Dict (ℕ × Text) Reason
  pub events : Dict ℕ Event
  pub windows : Dict (ℕ × Text) (List ℕ)
  pub config_sets : List (ℕ × ServiceType)
  pub sent : List Sent

-- InvalidAddressError, SuppressionListError, RateLimitError, IndexError, EmailError, and the errors of
-- the settings, DynamoDB, the audit log and EventBridge.
pub data Error : Type 0 where
  invalid_address suppressed index_error email_error : Error
  rate_limited : ℕ → Error
  settings_error table_error audit_error event_error : Error

abbrev pub PostCall : Type 0 → Type 0
PostCall = Run Post Error

-- What the libraries and services answer to one call: the domain and the sender's name of the org's
-- settings, `re`'s white space and `_html_to_text`, the clocks, SES's message id (none on a
-- ClientError), and what fails.
pub record Answers : Type 0 where
  pub settings : Option (Option Text × Text)
  pub is_space : ℕ → Bool
  pub html_to_text : Text → Text
  pub destination_fails : Bool
  pub hz : ℕ
  pub monotonic : ℕ
  pub ses : Option ℕ
  pub table_fails : Bool
  pub audit_fails : Bool
  pub publish_fails : Bool

pub record Email : Type 0 where
  pub to : Text
  pub subject : Text
  pub body_html : Text
  pub body_text : Option Text
  pub reply_to : Option Text

abbrev pub service_name : ServiceType → Text
service_name ServiceType.invoicing = codes "invoicing"
service_name ServiceType.omnichannel = codes "omnichannel"
service_name ServiceType.appointments = codes "appointments"
service_name ServiceType.expenses = codes "expenses"

-- `x or y` on texts
abbrev pub or_else : Option Text → Text → Text
or_else none other = other
or_else (some []) other = other
or_else (some (c ∷ s)) other = c ∷ s

abbrev pub default_domain : Text
default_domain = codes "example.com"

abbrev pub address_of : ServiceType → Text → Text
address_of service_type domain = service_name service_type ++ codes "@" ++ domain

-- `_sender`
abbrev pub sender : Text → ServiceType → Text → Text
sender domain service_type [] = address_of service_type domain
sender domain service_type (c ∷ name) =
    c ∷ name ++ codes " <" ++ address_of service_type domain ++ codes ">"

abbrev pub service_beq : ServiceType → ServiceType → Bool
service_beq a b = text_beq (service_name a) (service_name b)

-- `_ensure_config_set`; a failure of the set's creation itself is only logged.
abbrev pub ensure_config_set : Answers → ℕ → ServiceType → PostCall (Unit {0})
ensure_config_set a org_id service_type s =
    if ltb 0 (count (λ x. x.0 == org_id && service_beq x.1 service_type) s.config_sets)
    then (ok tt, s)
    else if a.destination_fails
    then (err Error.email_error, s)
    else (ok tt, record s { config_sets = (org_id, service_type) ∷ s.config_sets })

abbrev pub limit_result : Outcome → Result Error (Unit {0})
limit_result Outcome.recorded = ok tt
limit_result (Outcome.rate_limited retry_after) = err (Error.rate_limited retry_after)
limit_result Outcome.index_error = err Error.index_error

-- `limits_for("email.send")`
abbrev pub send_limit : ℕ
send_limit = 50

abbrev pub send_window : ℕ
send_window = 3600

abbrev pub check_limit : Answers → ℕ → PostCall (Unit {0})
check_limit a org_id s =
    let (outcome, windows) =
      check_and_increment a.hz (org_id, codes "email.send") send_limit send_window a.monotonic
        s.windows in
    (limit_result outcome, record s { windows = windows })

abbrev pub outgoing : ℕ → ServiceType → Email → Option Text × Text → Answers → ℕ → Sent
outgoing org_id service_type email (org_domain, sender_name) a message_id =
    let domain = or_else org_domain default_domain in
    record {
      message_id = message_id;
      org_id = org_id;
      to = email.to;
      source = sender domain service_type sender_name;
      reply_to = or_else email.reply_to (address_of service_type domain);
      subject = email.subject;
      body_html = email.body_html;
      body_text = or_else email.body_text (a.html_to_text email.body_html);
    }

-- `_record_event`
abbrev pub record_event : Answers → ServiceType → Sent → PostCall (Unit {0})
record_event a service_type mail s = if a.table_fails then (err Error.table_error, s) else (
  ok tt,
  record s {
    events =
        Dict.put mail.message_id
          (record {
            org_id = mail.org_id;
            to = mail.to;
            service_type = service_type;
            status = EmailStatus.sent;
            subject = mail.subject;
          })
          s.events;
  },
)

-- After SES has accepted the message.
abbrev pub log_sent : Answers → ServiceType → Sent → PostCall ℕ
log_sent a service_type mail = do
  record_event a service_type mail
  raise_if a.audit_fails Error.audit_error
  pure mail.message_id

-- `_ses_send` and what follows it.
abbrev pub deliver : Answers → ℕ → ServiceType → Email → Option Text × Text → Option ℕ → PostCall ℕ
deliver a org_id service_type email org none s = (err Error.email_error, s)
deliver a org_id service_type email org (some message_id) s =
    let mail = outgoing org_id service_type email org a message_id in
    log_sent a service_type mail (record s { sent = s.sent ++ mail ∷ [] })

abbrev pub send_limited : Answers → ℕ → ServiceType → Email → Option Text × Text → PostCall ℕ
send_limited a org_id service_type email org =
    check_limit a org_id >>= λ _. deliver a org_id service_type email org a.ses

-- `_is_suppressed`: nothing is counted for an address that is.
abbrev pub send_unless :
    Answers → ℕ → ServiceType → Email → Option Text × Text → Option Reason → PostCall ℕ
send_unless a org_id service_type email org (some reason) s = (err Error.suppressed, s)
send_unless a org_id service_type email org none s = send_limited a org_id service_type email org s

abbrev pub send_checked : Answers → ℕ → ServiceType → Email → Option Text × Text → PostCall ℕ
send_checked a org_id service_type email org s =
    send_unless a org_id service_type email org (Dict.get (org_id, email.to) s.suppression) s

abbrev pub send_with : Answers → ℕ → ServiceType → Email → Option (Option Text × Text) → PostCall ℕ
send_with a org_id service_type email none s = (err Error.settings_error, s)
send_with a org_id service_type email (some org) s =
    (ensure_config_set a org_id service_type >>= λ _. send_checked a org_id service_type email org)
      s

unfoldable pub send_email : Answers → ℕ → ServiceType → Email → PostCall ℕ
send_email a org_id service_type email =
    raise_if (not (is_address a.is_space email.to)) Error.invalid_address >>= λ _.
    send_with a org_id service_type email a.settings

-- `_suppress`
abbrev pub suppress : Answers → ℕ → Text → Reason → PostCall (Unit {0})
suppress a org_id email reason s =
    if a.table_fails
    then (err Error.table_error, s)
    else (ok tt, record s { suppression = Dict.put (org_id, email) reason s.suppression })

abbrev pub with_status : EmailStatus → Option Event → ℕ → Dict ℕ Event → Dict ℕ Event
with_status status none message_id events = events
with_status status (some event) message_id events =
    Dict.put message_id (record event { status = status }) events

-- `_set_event_status`: only of an event that exists.
abbrev pub set_event_status : ℕ → EmailStatus → PostCall (Unit {0})
set_event_status message_id status s = (
  ok tt,
  record s { events = with_status status (Dict.get message_id s.events) message_id s.events },
)

-- `log_audit` and `publish_event`
abbrev pub announce : Answers → PostCall (Unit {0})
announce a = raise_if a.audit_fails Error.audit_error >> raise_if a.publish_fails Error.event_error

abbrev pub mark : Answers → ℕ → EmailStatus → PostCall (Unit {0})
mark a message_id status = set_event_status message_id status >>= λ _. announce a

-- `_handle_bounce_notification` and `_handle_complaint_notification`
unfoldable pub handle_bounce : Answers → ℕ → ℕ → Text → Text → PostCall (Unit {0})
handle_bounce a org_id message_id to bounce_type =
    suppress a org_id to (Reason.bounce bounce_type) >>= λ _. mark a message_id EmailStatus.bounced

unfoldable pub handle_complaint : Answers → ℕ → ℕ → Text → PostCall (Unit {0})
handle_complaint a org_id message_id to =
    suppress a org_id to Reason.complaint >>= λ _. mark a message_id EmailStatus.complained

abbrev pub delete_item : Answers → ℕ → Text → PostCall (Unit {0})
delete_item a org_id email s =
    if a.table_fails
    then (err Error.table_error, s)
    else (ok tt, record s { suppression = Dict.remove (org_id, email) s.suppression })

unfoldable pub unsuppress_email : Answers → ℕ → Text → PostCall (Unit {0})
unsuppress_email a org_id email =
    delete_item a org_id email >>= λ _. raise_if a.audit_fails Error.audit_error

abbrev pub status_of : Option Event → Result Error EmailStatus
status_of none = err Error.email_error
status_of (some event) = ok event.status

unfoldable pub get_email_status : ℕ → PostCall EmailStatus
get_email_status message_id s = (status_of (Dict.get message_id s.events), s)

unfoldable pub resolve_org_for_message : ℕ → Post → Option ℕ
resolve_org_for_message message_id s = elim (Dict.get message_id s.events) [
  | none ↦ none
  | some event ↦ some event.org_id
]

-- `get_suppression_list`: the bounced and the complained addresses of an org.
abbrev pub add_to : Reason → Text → List Text × List Text → List Text × List Text
add_to (Reason.bounce bounce_type) email (bounces, complaints) = (email ∷ bounces, complaints)
add_to Reason.complaint email (bounces, complaints) = (bounces, email ∷ complaints)

unfoldable pub get_suppression_list : ℕ → Dict (ℕ × Text) Reason → List Text × List Text
get_suppression_list org_id [] = ([], [])
get_suppression_list org_id ((key, reason) ∷ rows) =
    let rest = get_suppression_list org_id rows in
    if key.0 == org_id then add_to reason key.1 rest else rest
