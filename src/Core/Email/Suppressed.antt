-- ===== src/Core/Email/Suppressed.antt =====
-- What app/core/email.py sends to an address that is on an org's suppression list.
use a2z_core.Prelude.{
  ℕ, ◌≡◌, refl, sym, ◌∙◌, ap, subst, false, some, List, [], ◌∷◌, count, All, if◌then◌else◌,
}
use a2z_core.Prelude.Text.{Text, scoped_eq, scoped_beq, scoped_beq_iff}
use a2z_core.Prelude.Dict
use a2z_core.Prelude.Dict.{Dict, nat_eq, get-put, get-remove, beq_refl}
use a2z_core.Prelude.Run.{ok, ◌>>=◌, bind-Keeps, bind-ok}
use a2z_core.Core.Email.Blocks.{
  Blocks, is_to, send_email-Keeps, suppress-Keeps, mark-Keeps, unsuppress_email-Keeps,
}
use a2z_core.Core.Email.{
  ServiceType, EmailStatus, Reason, Post, Answers, Email, send_email, suppress, mark, handle_bounce,
  handle_complaint, unsuppress_email,
}

-- A call of the module, or a notification of SES.
pub data Request : Type 0 where
  sending : Answers → ℕ → ServiceType → Email → Request
  bouncing : Answers → ℕ → ℕ → Text → Text → Request
  complaining : Answers → ℕ → ℕ → Text → Request
  unsuppressing : Answers → ℕ → Text → Request

unfoldable pub serve : Request → Post → Post
serve (sending a org_id service_type email) s = (send_email a org_id service_type email s).1
serve (bouncing a org_id message_id to bounce_type) s =
    (handle_bounce a org_id message_id to bounce_type s).1
serve (complaining a org_id message_id to) s = (handle_complaint a org_id message_id to s).1
serve (unsuppressing a org_id email) s = (unsuppress_email a org_id email s).1

unfoldable pub run : List Request → Post → Post
run [] s = s
run (request ∷ requests) s = run requests (serve request s)

-- The request does not take the address off the list.
abbrev pub Spares : ℕ × Text → Request → Type 0
Spares key (sending a org_id service_type email) = Unit
Spares key (bouncing a org_id message_id to bounce_type) = Unit
Spares key (complaining a org_id message_id to) = Unit
Spares key (unsuppressing a org_id email) = scoped_beq (org_id, email) key ≡ false

-- A bounce of or a complaint by the address, which DynamoDB stores.
abbrev pub Lists : ℕ × Text → Request → Type 0
Lists key (sending a org_id service_type email) = ⊥
Lists key (bouncing a org_id message_id to bounce_type) =
    (a.table_fails ≡ false) × ((org_id, to) ≡ key)
Lists key (complaining a org_id message_id to) = (a.table_fails ≡ false) × ((org_id, to) ≡ key)
Lists key (unsuppressing a org_id email) = ⊥

module _ (key : ℕ × Text) where
  serve-Keeps :
      (n : ℕ) (request : Request) (s : Post)
      → Spares key request
      → Blocks key n s
      → Blocks key n (serve request s)
  unfolding serve handle_bounce handle_complaint
  serve-Keeps n (sending a org_id service_type email) s spares blocks =
      send_email-Keeps key n a org_id service_type email s blocks
  serve-Keeps n (bouncing a org_id message_id to bounce_type) s spares blocks =
      bind-Keeps (Blocks key n) (suppress a org_id to (Reason.bounce bounce_type))
        (λ _. mark a message_id EmailStatus.bounced)
        (suppress-Keeps key n a org_id to (Reason.bounce bounce_type))
        (λ _. mark-Keeps key n a message_id EmailStatus.bounced) s blocks
  serve-Keeps n (complaining a org_id message_id to) s spares blocks =
      bind-Keeps (Blocks key n) (suppress a org_id to Reason.complaint)
        (λ _. mark a message_id EmailStatus.complained)
        (suppress-Keeps key n a org_id to Reason.complaint)
        (λ _. mark-Keeps key n a message_id EmailStatus.complained) s blocks
  serve-Keeps n (unsuppressing a org_id email) s spares blocks =
      unsuppress_email-Keeps key n a org_id email spares s blocks

  run-Keeps :
      (n : ℕ) (requests : List Request) (s : Post)
      → All (Spares key) requests
      → Blocks key n s
      → Blocks key n (run requests s)
  unfolding run
  run-Keeps n [] s spares blocks = blocks
  run-Keeps n (request ∷ requests) s spares blocks =
      run-Keeps n requests (serve request s) spares.1 (serve-Keeps n request s spares.0 blocks)

  suppress-mark :
      (a : Answers) (org_id message_id : ℕ) (to : Text) (reason : Reason) (status : EmailStatus)
      (s : Post)
      → a.table_fails ≡ false
      → (org_id, to) ≡ key
      → Blocks key
          (count (is_to key) s.sent)
          ((suppress a org_id to reason >>= λ _. mark a message_id status) s).1
  suppress-mark a org_id message_id to reason status s up same =
      let n = count (is_to key) s.sent in
      let listed : Post = record s { suppression = Dict.put (org_id, to) reason s.suppression } in
      let stored : suppress a org_id to reason s ≡ (ok tt, listed) = rw up refl in
      let found : Dict.get key listed.suppression ≡ some reason =
        get-put (org_id, to) key reason s.suppression
        ∙ ap (λ b. if b then some reason else Dict.get key s.suppression)
            ((scoped_beq_iff (org_id, to) key).1 same) in
      subst (λ z. Blocks key n z.1)
        (sym (
          bind-ok (suppress a org_id to reason) (λ _. mark a message_id status) s listed tt stored))
        (mark-Keeps key n a message_id status listed ((reason, found), refl))

  serve-Lists :
      (notice : Request) (s : Post)
      → Lists key notice
      → Blocks key (count (is_to key) s.sent) (serve notice s)
  unfolding serve handle_bounce handle_complaint
  serve-Lists (sending a org_id service_type email) s listing = absurd listing
  serve-Lists (unsuppressing a org_id email) s listing = absurd listing
  serve-Lists (bouncing a org_id message_id to bounce_type) s (up, same) =
      suppress-mark a org_id message_id to (Reason.bounce bounce_type) EmailStatus.bounced s up same
  serve-Lists (complaining a org_id message_id to) s (up, same) =
      suppress-mark a org_id message_id to Reason.complaint EmailStatus.complained s up same

  -- After a bounce of an address or a complaint by it, which DynamoDB has stored, SES gets no further
  -- message to the address from that org, whatever the org and the others send and whatever
  -- notifications come in, as long as the org does not take the address off its list.
  pub run-suppressed :
      (notice : Request) (requests : List Request) (s : Post)
      → Lists key notice
      → All (Spares key) requests
      → count (is_to key) (run (notice ∷ requests) s).sent ≡ count (is_to key) s.sent
  unfolding run
  run-suppressed notice requests s listing spares =
      (run-Keeps (count (is_to key) s.sent) requests (serve notice s) spares
        (serve-Lists notice s listing)).1
