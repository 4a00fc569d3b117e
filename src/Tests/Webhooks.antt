-- ===== src/Tests/Webhooks.antt =====
-- The theorems on connections and webhooks at concrete inputs.
use a2z_core.Prelude.{◌≡◌, refl, false, true, none, some, List, [], ◌∷◌}
use a2z_core.Prelude.Text.{Text, codes, text_beq, text_eq, scoped_eq}
use a2z_core.Prelude.Dict
use a2z_core.Prelude.Dict.{Dict}
use a2z_core.Prelude.Run.{ok, err}
use a2z_core.Core.Role.{Role, owner_or_admin}
use a2z_core.Omnichannel.Access.{require_role}
use a2z_core.Omnichannel.Model.{ChannelConnection, Error}
use a2z_core.Omnichannel.Connections.{
  Answers, Hub, NewConnection, disabled, registry, disable_connection,
}
use a2z_core.Omnichannel.Webhooks.{Outside, Webhook, handle_webhook, get_header, signature_header}
use a2z_core.Omnichannel.Webhooks.Verified.{queued, handle_webhook-without_app_secret}
use a2z_core.Omnichannel.Webhooks.Disabled.{
  Request, creating, disabling, receiving, run, handle_webhook-disabled,
}

abbrev connection : ChannelConnection
connection = record {
  id = 8;
  org_id = 5;
  channel_type = codes "whatsapp";
  display_name = [];
  provider_account_id = [];
  is_active = true;
  created_at = 0;
  credentials_secret_key = codes "8";
}

abbrev bundle : Dict Text Text
bundle = (codes "access_token", codes "t") ∷ []

abbrev hub : Hub
hub = record {
  connections = connection ∷ [];
  secrets = ((5, codes "8"), bundle) ∷ [];
  inbound = [];
}

abbrev answers : Answers
answers = record {
  memberships = λ user_id org_id. some Role.owner;
  connection_id = 9;
  connection_text = codes "9";
  created_at = 1;
  secrets_fail = false;
  verification_fails = λ domain. false;
  audit_fails = false;
  publish_fails = false;
}

abbrev outside : Outside
outside = record {
  hexdigest = λ secret raw_body. secret;
  lower = λ s. s;
  loads = λ s. some s;
  secrets_fail = false;
  queue_fails = false;
}

abbrev webhook : Webhook
webhook = record {
  channel_type = codes "whatsapp";
  connection_id = 8;
  raw_body = codes "{}";
  headers = (signature_header, codes "sha256=") ∷ [];
}

handle_webhook-without_app_secret_example :
    handle_webhook outside webhook hub ≡ (ok tt, queued hub connection (codes "{}"))
handle_webhook-without_app_secret_example =
    handle_webhook-without_app_secret outside webhook hub connection bundle (codes "{}") refl refl
      refl refl refl refl (unfold registry text_beq in refl) (unfold Dict.get text_beq in refl)
      (unfold Dict.get text_beq in refl) (unfold get_header text_beq in refl)

abbrev request : NewConnection
request = record {
  channel_type = codes "email";
  display_name = [];
  provider_account_id = codes "a@b.c";
  credentials = none;
  credentials_secret_key = none;
}

abbrev requests : List Request
requests = creating answers 5 20 request ∷ receiving outside webhook ∷ disabling answers 5 20 8 ∷ []

abbrev disabled_hub : Hub
disabled_hub = record hub { connections = disabled connection ∷ [] }

handle_webhook-disabled_example :
    handle_webhook outside webhook (run requests disabled_hub)
    ≡ (err Error.connection_not_found, run requests disabled_hub)
handle_webhook-disabled_example =
    handle_webhook-disabled answers 5 20 (disabled connection) hub disabled_hub requests outside
      webhook (unfold disable_connection require_role owner_or_admin in refl)
