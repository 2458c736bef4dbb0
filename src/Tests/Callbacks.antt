-- ===== src/Tests/Callbacks.antt =====
-- Callback addresses and what is sent to them, with one public and one private address.
use hate_sentry.Base.{◌≡◌, ◌↔◌, ◌⊎◌, ℕ, ◌==◌, none, some, [], ◌∷◌, false}
use hate_sentry.Base.Text.{trim_space}
use hate_sentry.Errors.{ok}
use hate_sentry.Models.{ClientApplication}
use hate_sentry.Moderation.Service.{FinalDecisionPayload}
use hate_sentry.Float64.{float_zero}
use hate_sentry.Crypto.{Crypto}
use hate_sentry.Webhooks.Address.{Addresses, Dialer, validate_url}
use hate_sentry.Webhooks.Dispatch.{Http, HttpDispatcher}
use hate_sentry.Webhooks.Sent.{IsCallback, validate_url-ok_iff}

-- The address 0 is private.
abbrev pub addresses : Addresses ℕ
addresses = record {
  to_lower = λ s. s;
  parse_request_uri =
      λ s. some (record { scheme = "https"; host = "a.example"; hostname = "a.example" });
  parse_addr = λ s. none;
  must_parse_addr = λ s. 9;
  same_addr = λ a b. a == b;
  is4_in6 = λ a. false;
  as4 = λ a. a;
  is_loopback = λ a. false;
  is_private = λ a. a == 0;
  is_link_local_unicast = λ a. false;
  is_link_local_multicast = λ a. false;
  is_multicast = λ a. false;
  is_unspecified = λ a. false;
}

-- A connection is the address.
abbrev dialer : Dialer ℕ ℕ ℕ
dialer = record {
  split_host_port = λ s. ok (s, "443");
  lookup_ip_addr = λ host w. (ok (some 0 ∷ some 5 ∷ []), w);
  dial = λ ip port w. (ok ip, w);
}

validate_url-ok_iff_example : (validate_url addresses "https://a.example/hook" ≡ ok tt) ↔ (
    (trim_space "https://a.example/hook" ≡ "")
    ⊎ IsCallback addresses (trim_space "https://a.example/hook"))
validate_url-ok_iff_example = validate_url-ok_iff addresses "https://a.example/hook"

abbrev crypto : Crypto ℕ
crypto = record {
  random = λ n w. (ok [], w);
  base64_raw_url = λ bytes. "new";
  sha256_hex = λ s. s;
  hmac_sha256_hex = λ secret body. secret;
}

abbrev http : Http ℕ
http = record {
  safe_client = λ request w. (ok 200, w);
  now = λ w. (w, w);
  new_uuid = λ w. ("uuid", w);
  marshal = λ payload. ok "{}";
  request_error = λ url. none;
}

abbrev dispatcher : HttpDispatcher ℕ
dispatcher = record { client = none; now = none }

abbrev client : ClientApplication
client = record {
  id = 7;
  created_at = 2;
  updated_at = 2;
  user_id = 1;
  name = "forum";
  api_key_hash = "";
  api_key_prefix = "";
  status = "active";
  webhook_url = "https://a.example/hook";
  webhook_secret = "whsec_s";
  policy_version = "";
}

abbrev payload : FinalDecisionPayload
payload = record {
  delivery_id = "";
  event = "";
  request_id = "r";
  client_id = 0;
  external_id = "";
  actor_id = "";
  source = "api";
  decision = "allow";
  review_status = "";
  risk_score = float_zero;
  labels = [];
  reason = "fine";
  policy_version = "v1";
  created_at = 2;
}
