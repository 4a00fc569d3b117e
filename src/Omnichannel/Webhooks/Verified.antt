-- ===== src/Omnichannel/Webhooks/Verified.antt =====
-- Which calls from outside `handle_webhook` of app/services/omnichannel/webhooks.py queues.
use a2z_core.Prelude.{
  ◌≡◌, refl, sym, ◌∙◌, ap, subst, inl, inr, Bool, true, false, ◌&&◌, Option, none, some, [], ◌∷◌,
  ◌++◌, find, Bool-cases, arith,
}
use a2z_core.Prelude.Text.{Text, codes, text_beq, text_beq_iff, text_eq, scoped_eq}
use a2z_core.Prelude.Dict
use a2z_core.Prelude.Dict.{Dict, beq_refl}
use a2z_core.Prelude.Run.{Result, ok, err, ◌>>=◌, bind-ok}
use a2z_core.Omnichannel.Model.{ChannelConnection, Error}
use a2z_core.Omnichannel.Connections.{
  Hub, Adapter, email, meta, registry, found_or, secret_result, get_adapter, get_secret, has_id,
  answer,
}
use a2z_core.Omnichannel.Webhooks.{
  Outside, Webhook, resolve, get_header, compute_signature, matches_signature, signature_header,
  signing_secret_key, signing_secret, get_or_empty, resolve_connection, verify_inbound_signature,
  enqueue_payload, handle_signed, handle_bundle, handle_adapter, handle_resolved, handle_webhook,
}

-- The signature that the call carries: for Meta, the header is the HMAC of the body under the
-- "app_secret" of the credentials, or under the empty key if they have none; for e-mail there is none.
abbrev pub IsSigned : Outside → Webhook → Adapter → Dict Text Text → Type 0
IsSigned outside webhook email bundle = Unit
IsSigned outside webhook meta bundle =
    get_header outside signature_header webhook.headers
    ≡ some (
        codes "sha256="
        ++ outside.hexdigest (get_or_empty (Dict.get (codes "app_secret") bundle)) webhook.raw_body)

-- The connection is active, is of the channel, and the adapter lets the call pass under the stored
-- credentials.
abbrev pub IsVerified :
    Outside → Webhook → Hub → ChannelConnection → Adapter → Dict Text Text → Type 0
IsVerified outside webhook s connection adapter bundle =
    (find (has_id webhook.connection_id) s.connections ≡ some connection)
    × (connection.is_active ≡ true)
    × (connection.channel_type ≡ webhook.channel_type)
    × (registry webhook.channel_type ≡ some adapter)
    × (Dict.get (connection.org_id, connection.credentials_secret_key) s.secrets ≡ some bundle)
    × (verify_inbound_signature outside adapter webhook (signing_secret adapter bundle) ≡ true)

abbrev pub queued : Hub → ChannelConnection → Text → Hub
queued s connection raw_payload = record s {
  inbound =
      s.inbound
      ++ record {
        org_id = connection.org_id;
        channel_type = connection.channel_type;
        connection_id = connection.id;
        raw_payload = raw_payload;
      }
        ∷ [];
}

abbrev pub Receives : Outside → Webhook → Hub → Result Error (Unit {0}) × Hub → Type 0
Receives outside webhook s (err e, s') = s' ≡ s
Receives outside webhook s (ok u, s') =
    (connection : ChannelConnection) × (adapter : Adapter) × (bundle : Dict Text Text)
    × (raw_payload : Text) × (s' ≡ queued s connection raw_payload)
    × (outside.loads webhook.raw_body ≡ some raw_payload)
    × IsVerified outside webhook s connection adapter bundle
    × IsSigned outside webhook adapter bundle

matches_signature_sound :
    (outside : Outside) (raw_body secret : Text) (header : Option Text)
    → matches_signature outside raw_body secret header ≡ true
    → header ≡ some (compute_signature outside raw_body secret)
matches_signature_sound outside raw_body secret none h = absurd cc
matches_signature_sound outside raw_body secret (some []) h = absurd cc
matches_signature_sound outside raw_body secret (some (c ∷ received)) h =
    ap some ((text_beq_iff (c ∷ received) (compute_signature outside raw_body secret)).0 h)

verify_inbound_signature-IsSigned :
    (outside : Outside) (webhook : Webhook) (adapter : Adapter) (bundle : Dict Text Text)
    → verify_inbound_signature outside adapter webhook (signing_secret adapter bundle) ≡ true
    → IsSigned outside webhook adapter bundle
unfolding verify_inbound_signature
verify_inbound_signature-IsSigned outside webhook email bundle h = tt
verify_inbound_signature-IsSigned outside webhook meta bundle h =
    matches_signature_sound outside webhook.raw_body (signing_secret meta bundle)
      (get_header outside signature_header webhook.headers) h

resolve-inv :
    (channel_type : Text) (found : Option ChannelConnection) (connection : ChannelConnection)
    → resolve channel_type found ≡ ok connection
    → (found ≡ some connection)
      × (connection.is_active ≡ true)
      × (connection.channel_type ≡ channel_type)
unfolding resolve
resolve-inv channel_type none connection h = absurd cc
resolve-inv channel_type (some row) connection h =
    elim (Bool-cases (row.is_active && text_beq row.channel_type channel_type)) [
      | inl usable ↦
          let r : resolve channel_type (some row) ≡ ok row = rw usable refl in
          let same : row ≡ connection = let both = sym r ∙ h in cc in
          let active : row.is_active ≡ true = ground (arith, usable) in
          let channel : text_beq row.channel_type channel_type ≡ true = ground (arith, usable) in
          rw (← same) (refl, active, (text_beq_iff row.channel_type channel_type).0 channel)
      | inr unusable ↦
          let r : resolve channel_type (some row) ≡ err Error.connection_not_found =
            rw unusable refl in
          absurd (let both = sym r ∙ h in cc)
    ]

enqueue_payload-Receives :
    (outside : Outside) (webhook : Webhook) (s : Hub) (connection : ChannelConnection)
    (adapter : Adapter) (bundle : Dict Text Text)
    → IsVerified outside webhook s connection adapter bundle
    → (loaded : Option Text) → outside.loads webhook.raw_body ≡ loaded
    → Receives outside webhook s (enqueue_payload outside webhook connection loaded s)
unfolding enqueue_payload
enqueue_payload-Receives outside webhook s connection adapter bundle verified none e = refl
enqueue_payload-Receives outside webhook s connection adapter bundle verified (some raw_payload) e =
    elim (Bool-cases outside.queue_fails) [
      | inl down ↦ rw down refl
      | inr up ↦
          let r : enqueue_payload outside webhook connection (some raw_payload) s
              ≡ (ok tt, queued s connection raw_payload) =
            rw (up, verified.2) refl in
          subst (Receives outside webhook s) (sym r) (
            connection,
            adapter,
            bundle,
            raw_payload,
            refl,
            e,
            verified,
            verify_inbound_signature-IsSigned outside webhook adapter bundle verified.5,
          )
    ]

handle_signed-Receives :
    (outside : Outside) (webhook : Webhook) (s : Hub) (connection : ChannelConnection)
    (adapter : Adapter) (bundle : Dict Text Text) (verified : Bool)
    → verify_inbound_signature outside adapter webhook (signing_secret adapter bundle) ≡ verified
    → (verify_inbound_signature outside adapter webhook (signing_secret adapter bundle) ≡ true
        → IsVerified outside webhook s connection adapter bundle)
    → Receives outside webhook s (handle_signed outside webhook connection verified s)
unfolding handle_signed
handle_signed-Receives outside webhook s connection adapter bundle false e rest = refl
handle_signed-Receives outside webhook s connection adapter bundle true e rest =
    enqueue_payload-Receives outside webhook s connection adapter bundle (rest e)
      (outside.loads webhook.raw_body) refl

module _ (outside : Outside) (webhook : Webhook) (s : Hub) (connection : ChannelConnection)
    (is_row : find (has_id webhook.connection_id) s.connections ≡ some connection)
    (active : connection.is_active ≡ true)
    (channel : connection.channel_type ≡ webhook.channel_type) where
  abbrev stored : Option (Dict Text Text)
  stored = Dict.get (connection.org_id, connection.credentials_secret_key) s.secrets

  handle_adapter-Receives :
      (adapter : Adapter)
      → registry webhook.channel_type ≡ some adapter
      → (fails : Bool) (found : Option (Dict Text Text)) → stored ≡ found
      → Receives outside webhook s (
          (answer (secret_result fails found) >>= handle_bundle outside webhook connection adapter)
            s)
  handle_adapter-Receives adapter known true found e = refl
  handle_adapter-Receives adapter known false none e = refl
  handle_adapter-Receives adapter known false (some bundle) e =
      handle_signed-Receives outside webhook s connection adapter bundle
        (verify_inbound_signature outside adapter webhook (signing_secret adapter bundle)) refl
        (λ is_verified. (is_row, active, channel, known, e, is_verified))

  handle_resolved-Receives :
      Receives outside webhook s (handle_resolved outside webhook connection s)
  unfolding handle_resolved
  handle_resolved-Receives = go (registry webhook.channel_type) refl
    where
      go :
          (found : Option Adapter)
          → registry webhook.channel_type ≡ found
          → Receives outside webhook s (
              (answer (found_or Error.adapter_error found)
                  >>= handle_adapter outside webhook connection)
                s)
      go none unknown = refl
      go (some adapter) known =
          handle_adapter-Receives adapter known outside.secrets_fail stored refl

pub handle_webhook-Receives :
    (outside : Outside) (webhook : Webhook) (s : Hub)
    → Receives outside webhook s (handle_webhook outside webhook s)
unfolding handle_webhook
handle_webhook-Receives outside webhook s =
    go (resolve webhook.channel_type (find (has_id webhook.connection_id) s.connections)) refl
  where
    go :
        (r : Result Error ChannelConnection)
        → resolve webhook.channel_type (find (has_id webhook.connection_id) s.connections) ≡ r
        → Receives outside webhook s ((answer r >>= handle_resolved outside webhook) s)
    go (err e) missing = refl
    go (ok connection) resolved =
        let (is_row, active, channel) =
          resolve-inv webhook.channel_type (find (has_id webhook.connection_id) s.connections)
            connection resolved in
        handle_resolved-Receives outside webhook s connection is_row active channel

resolve-usable :
    (connection : ChannelConnection)
    → connection.is_active ≡ true
    → resolve connection.channel_type (some connection) ≡ ok connection
unfolding resolve
resolve-usable connection active = rw (active, beq_refl connection.channel_type) refl

module _ (outside : Outside) (webhook : Webhook) (s : Hub) (connection : ChannelConnection)
    (bundle : Dict Text Text) (raw_payload : Text) (up : outside.secrets_fail ≡ false)
    (running : outside.queue_fails ≡ false)
    (loaded : outside.loads webhook.raw_body ≡ some raw_payload) where
  handle_webhook-verified :
      (adapter : Adapter)
      → IsVerified outside webhook s connection adapter bundle
      → handle_webhook outside webhook s ≡ (ok tt, queued s connection raw_payload)
  unfolding handle_webhook handle_resolved handle_signed enqueue_payload
  handle_webhook-verified adapter (is_row, active, channel, known, found, verified) =
      let resolved : resolve webhook.channel_type
            (find (has_id webhook.connection_id) s.connections)
          ≡ ok connection =
        ap (resolve webhook.channel_type) is_row
        ∙ ap (λ c. resolve c (some connection)) (sym channel)
        ∙ resolve-usable connection active in
      bind-ok (resolve_connection webhook.channel_type webhook.connection_id)
        (handle_resolved outside webhook) s s connection (ap (λ r. (r, s)) resolved)
      ∙ bind-ok (get_adapter Error.adapter_error webhook.channel_type)
          (handle_adapter outside webhook connection) s s adapter
          (ap (λ o. (found_or Error.adapter_error o, s)) known)
      ∙ bind-ok
          (get_secret outside.secrets_fail connection.org_id connection.credentials_secret_key)
          (handle_bundle outside webhook connection adapter) s s bundle
          (ap (λ o. (secret_result outside.secrets_fail o, s)) found
            ∙ ap (λ b. (secret_result b (some bundle), s)) up)
      ∙ ap (λ b. handle_signed outside webhook connection b s) verified
      ∙ ap (λ o. enqueue_payload outside webhook connection o s) loaded
      ∙ rw (running, channel) refl

  -- A call with a signature under the empty key is queued for a connection of Meta whose stored
  -- credentials have no "app_secret": the connection is active and of the channel in the URL, the
  -- body is JSON, and Secrets Manager and SQS answer.
  pub handle_webhook-without_app_secret :
      find (has_id webhook.connection_id) s.connections ≡ some connection
      → connection.is_active ≡ true
      → connection.channel_type ≡ webhook.channel_type
      → registry webhook.channel_type ≡ some meta
      → Dict.get (connection.org_id, connection.credentials_secret_key) s.secrets ≡ some bundle
      → Dict.get (signing_secret_key meta) bundle ≡ none
      → get_header outside signature_header webhook.headers
        ≡ some (compute_signature outside webhook.raw_body [])
      → handle_webhook outside webhook s ≡ (ok tt, queued s connection raw_payload)
  unfolding verify_inbound_signature
  handle_webhook-without_app_secret is_row active channel known found missing signed =
      let empty : signing_secret meta bundle ≡ [] = ap get_or_empty missing in
      let verified : verify_inbound_signature outside meta webhook (signing_secret meta bundle)
          ≡ true =
        ap
          (λ secret.
            matches_signature outside webhook.raw_body secret
              (get_header outside signature_header webhook.headers))
          empty
        ∙ ap (matches_signature outside webhook.raw_body []) signed
        ∙ beq_refl (compute_signature outside webhook.raw_body []) in
      handle_webhook-verified meta (is_row, active, channel, known, found, verified)
