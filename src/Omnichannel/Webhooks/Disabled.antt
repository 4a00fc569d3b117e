-- ===== src/Omnichannel/Webhooks/Disabled.antt =====
-- The webhooks of a connection that `disable_connection` of app/services/omnichannel/connections.py has
-- disabled.
use a2z_core.Prelude.{
  ℕ, ◌≡◌, refl, sym, ◌∙◌, ap, subst, inl, inr, false, Option, none, some, List, [], ◌∷◌, ◌++◌, map,
  find, Bool-cases,
}
use a2z_core.Prelude.Text.{Text}
use a2z_core.Prelude.Dict.{Dict}
use a2z_core.Prelude.Run.{
  Result, ok, err, ◌>>=◌, ◌>>◌, pure, raise_if, Keeps, bind-Keeps, raise_if-Keeps, bind-err,
}
use a2z_core.Core.Role.{Role, owner_or_admin}
use a2z_core.Omnichannel.Access.{require_role}
use a2z_core.Omnichannel.Model.{ChannelConnection, Error}
use a2z_core.Omnichannel.Connections.{
  Hub, HubCall, Answers, NewConnection, Adapter, email, meta, get_adapter, has_at, after_at,
  both_given, credentials_key, secret_key, put_secret, get_secret, require_admin, verify_domain,
  own, load, has_id, new_connection, announce, disabled, disable_row, answer, connect,
  add_connection, disable_loaded, create_connection, disable_connection,
}
use a2z_core.Omnichannel.Connections.Disabling.{
  IsDisabled, append-IsDisabled, disable_row-inactive, find-disable_row, own-inv, found-inactive,
}
use a2z_core.Omnichannel.Webhooks.{
  Outside, Webhook, resolve, resolve_connection, handle_resolved, handle_webhook,
}
use a2z_core.Omnichannel.Webhooks.Verified.{Receives, handle_webhook-Receives}

-- A call on the table: of an administrator, or from outside.
pub data Request : Type 0 where
  creating : Answers → ℕ → ℕ → NewConnection → Request
  disabling : Answers → ℕ → ℕ → ℕ → Request
  receiving : Outside → Webhook → Request

unfoldable pub run : List Request → Hub → Hub
run [] s = s
run (creating a org_id actor_user_id request ∷ requests) s =
    run requests (create_connection a org_id actor_user_id request s).1
run (disabling a org_id actor_user_id connection_id ∷ requests) s =
    run requests (disable_connection a org_id actor_user_id connection_id s).1
run (receiving outside webhook ∷ requests) s = run requests (handle_webhook outside webhook s).1

module _ (id : ℕ) where
  abbrev Off : Hub → Type 0
  Off s = IsDisabled id s.connections

  credentials_key-Keeps :
      (a : Answers) (org_id : ℕ) (credentials : Option (Dict Text Text)) (key : Option Text)
      → Keeps Off (credentials_key a org_id credentials key)
  credentials_key-Keeps a org_id (some credentials) key =
      bind-Keeps Off (put_secret a org_id a.connection_text credentials)
        (λ _. pure a.connection_text)
        (λ s off. elim (Bool-cases a.secrets_fail) [ inl down ↦ rw down off | inr up ↦ rw up off ])
        (λ _ s off. off)
  credentials_key-Keeps a org_id none (some key) =
      bind-Keeps Off (get_secret a.secrets_fail org_id key) (λ _. pure key) (λ s off. off)
        (λ _ s off. off)
  credentials_key-Keeps a org_id none none = λ s off. off

  verify_domain-Keeps : (a : Answers) (address : Text) → Keeps Off (verify_domain a address)
  verify_domain-Keeps a address s off = elim (Bool-cases (has_at address)) [
    | inr plain ↦ rw plain off
    | inl at ↦ elim (Bool-cases (a.verification_fails (after_at address))) [
      | inl fails ↦ rw (at, fails) off
      | inr verified ↦ rw (at, verified) off
    ]
  ]

  secret_key-Keeps :
      (a : Answers) (org_id : ℕ) (request : NewConnection) (adapter : Adapter)
      → Keeps Off (secret_key a org_id request adapter)
  secret_key-Keeps a org_id request meta =
      credentials_key-Keeps a org_id request.credentials request.credentials_secret_key
  secret_key-Keeps a org_id request email = verify_domain-Keeps a request.provider_account_id

  announce-Keeps : (a : Answers) → Keeps Off (announce a)
  announce-Keeps a =
      bind-Keeps Off (raise_if a.audit_fails Error.audit_error)
        (λ _. raise_if a.publish_fails Error.event_error)
        (raise_if-Keeps Off a.audit_fails Error.audit_error)
        (λ _. raise_if-Keeps Off a.publish_fails Error.event_error)

  announced-Keeps :
      (a : Answers) (connection : ChannelConnection)
      → Keeps Off (announce a >>= λ _. pure connection)
  announced-Keeps a connection =
      bind-Keeps Off (announce a) (λ _. pure connection) (announce-Keeps a) (λ _ s off. off)

  require_admin-Keeps :
      (a : Answers) (org_id actor_user_id : ℕ) → Keeps Off (require_admin a org_id actor_user_id)
  require_admin-Keeps a org_id actor_user_id =
      bind-Keeps Off (answer (require_role a.memberships actor_user_id org_id owner_or_admin))
        (λ _. pure tt) (λ s off. off) (λ _ s off. off)

  create_connection-Keeps :
      (a : Answers) (org_id actor_user_id : ℕ) (request : NewConnection)
      → Keeps Off (create_connection a org_id actor_user_id request)
  unfolding create_connection
  create_connection-Keeps a org_id actor_user_id request =
      bind-Keeps Off (require_admin a org_id actor_user_id)
        (λ _. get_adapter Error.connection_invalid request.channel_type >>= checked)
        (require_admin-Keeps a org_id actor_user_id)
        (λ _.
          bind-Keeps Off (get_adapter Error.connection_invalid request.channel_type) checked
            (λ s off. off)
            (λ adapter.
              bind-Keeps Off (raise_if (both_given request) Error.connection_invalid)
                (λ _. connect a org_id request adapter)
                (raise_if-Keeps Off (both_given request) Error.connection_invalid)
                (λ _.
                  bind-Keeps Off (secret_key a org_id request adapter)
                    (add_connection a org_id request) (secret_key-Keeps a org_id request adapter)
                    (λ key s off.
                      announced-Keeps a (new_connection a org_id request key)
                        (record s {
                          connections = s.connections ++ new_connection a org_id request key ∷ [];
                        })
                        (append-IsDisabled id s.connections
                          (new_connection a org_id request key ∷ []) off)))))
    where
      checked : Adapter → HubCall ChannelConnection
      checked adapter =
          raise_if (both_given request) Error.connection_invalid >> connect a org_id request adapter

  disable_connection-Keeps :
      (a : Answers) (org_id actor_user_id connection_id : ℕ)
      → Keeps Off (disable_connection a org_id actor_user_id connection_id)
  unfolding disable_connection
  disable_connection-Keeps a org_id actor_user_id connection_id =
      bind-Keeps Off (require_admin a org_id actor_user_id)
        (λ _. load org_id connection_id >>= disable_loaded a connection_id)
        (require_admin-Keeps a org_id actor_user_id)
        (λ _.
          bind-Keeps Off (load org_id connection_id) (disable_loaded a connection_id) (λ s off. off)
            (λ connection s (row, found, inactive).
              announced-Keeps a (disabled connection)
                (record s { connections = map (disable_row connection_id) s.connections })
                (
                  disable_row connection_id row,
                  find-disable_row id connection_id s.connections row found,
                  disable_row-inactive connection_id row inactive,
                )))

  handle_webhook-Keeps :
      (outside : Outside) (webhook : Webhook) → Keeps Off (handle_webhook outside webhook)
  handle_webhook-Keeps outside webhook s off =
      received (handle_webhook outside webhook s) (handle_webhook-Receives outside webhook s)
    where
      received : (z : Result Error (Unit {0}) × Hub) → Receives outside webhook s z → Off z.1
      received (err e, s') same = subst Off (sym same) off
      received (ok u, s')
            (connection, adapter, bundle, raw_payload, same, loaded, verified, signed) =
          subst Off (sym same) off

  run-Off : (requests : List Request) (s : Hub) → Off s → Off (run requests s)
  unfolding run
  run-Off [] s off = off
  run-Off (creating a org_id actor_user_id request ∷ requests) s off =
      run-Off requests (create_connection a org_id actor_user_id request s).1
        (create_connection-Keeps a org_id actor_user_id request s off)
  run-Off (disabling a org_id actor_user_id connection_id ∷ requests) s off =
      run-Off requests (disable_connection a org_id actor_user_id connection_id s).1
        (disable_connection-Keeps a org_id actor_user_id connection_id s off)
  run-Off (receiving outside webhook ∷ requests) s off =
      run-Off requests (handle_webhook outside webhook s).1
        (handle_webhook-Keeps outside webhook s off)

resolve-disabled :
    (channel_type : Text) (found : Option ChannelConnection) (connection : ChannelConnection)
    → found ≡ some connection
    → connection.is_active ≡ false
    → resolve channel_type found ≡ err Error.connection_not_found
unfolding resolve
resolve-disabled channel_type none connection e inactive = absurd cc
resolve-disabled channel_type (some row) connection e inactive =
    let same : row ≡ connection = cc in
    let off : row.is_active ≡ false = ap (λ c. c.is_active) same ∙ inactive in rw off refl

module _ (a : Answers) (org_id actor_user_id id : ℕ) where
  TurnsOff : Result Error ChannelConnection × Hub → Type 0
  TurnsOff (ok connection, s') = IsDisabled id s'.connections
  TurnsOff (err e, s') = Unit

  TurnsOff-state :
      (z : Result Error ChannelConnection × Hub) → IsDisabled id z.1.connections → TurnsOff z
  unfolding TurnsOff
  TurnsOff-state (ok connection, s') off = off
  TurnsOff-state (err e, s') off = tt

  disable_loaded-IsDisabled :
      (s : Hub) (found : Result Error ChannelConnection)
      → own org_id (find (has_id id) s.connections) ≡ found
      → TurnsOff ((answer found >>= disable_loaded a id) s)
  unfolding TurnsOff
  disable_loaded-IsDisabled s (err e) missing = tt
  disable_loaded-IsDisabled s (ok connection) loaded =
      let found = own-inv org_id (find (has_id id) s.connections) connection loaded in
      let s' : Hub = record s { connections = map (disable_row id) s.connections } in
      let inactive : (disable_row id connection).is_active ≡ false =
        found-inactive id s.connections connection found in
      TurnsOff-state ((announce a >>= λ _. pure (disabled connection)) s') (
        announced-Keeps id a (disabled connection) s' (
          disable_row id connection,
          find-disable_row id id s.connections connection found,
          inactive,
        ))

  disable_connection-IsDisabled :
      (s : Hub) → TurnsOff (disable_connection a org_id actor_user_id id s)
  unfolding disable_connection TurnsOff
  disable_connection-IsDisabled s =
      go (require_role a.memberships actor_user_id org_id owner_or_admin)
    where
      go :
          (r : Result Error Role)
          → TurnsOff (((answer r >> pure tt) >>= λ _. load org_id id >>= disable_loaded a id) s)
      go (err e) = tt
      go (ok role) = disable_loaded-IsDisabled s (own org_id (find (has_id id) s.connections)) refl

-- Once `disable_connection` has returned, no later webhook of that connection is accepted: whatever
-- connections are created or disabled and whatever webhooks come in between, `handle_webhook` answers
-- that there is no such connection and changes nothing.
pub handle_webhook-disabled :
    (a : Answers) (org_id actor_user_id : ℕ) (connection : ChannelConnection) (s s' : Hub)
    (requests : List Request) (outside : Outside) (webhook : Webhook)
    → disable_connection a org_id actor_user_id webhook.connection_id s ≡ (ok connection, s')
    → handle_webhook outside webhook (run requests s')
      ≡ (err Error.connection_not_found, run requests s')
unfolding handle_webhook TurnsOff
handle_webhook-disabled a org_id actor_user_id connection s s' requests outside webhook returned =
    let id = webhook.connection_id in
    let now : IsDisabled id s'.connections =
      subst (TurnsOff a org_id actor_user_id id) returned
        (disable_connection-IsDisabled a org_id actor_user_id id s) in
    let (row, found, inactive) = run-Off id requests s' now in
    bind-err (resolve_connection webhook.channel_type id) (handle_resolved outside webhook)
      (run requests s') (run requests s') Error.connection_not_found
      (ap (λ r. (r, run requests s'))
        (resolve-disabled webhook.channel_type (find (has_id id) (run requests s').connections) row
          found inactive))
