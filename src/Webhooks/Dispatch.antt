-- ===== src/Webhooks/Dispatch.antt =====
-- internal/webhooks/webhooks.go: `HTTPDispatcher`.
--
-- What it uses of time, uuid, encoding/json and net/http are parameters. A client sends a request
-- and returns the status of the response.
use Prim.Native.String.{◌++◌}
use hate_sentry.Base.{
  ℕ, ◌/◌, String, ◌||◌, ◌==◌, ltb, leb, Option, none, some, [], str_eq, if◌then◌else◌,
}
use hate_sentry.Base.Text.{trim_space}
use hate_sentry.Base.Decimal.{itoa}
use hate_sentry.Errors.{
  Error, plain, delivery, frames, error_text, Result, ok, err, raised, configuration_error,
  reject_if,
}
use hate_sentry.Exec.{Exec, pure, lift, run, require, ◌>>=◌, ◌>>◌}
use hate_sentry.Models.{Time, ClientApplication}
use hate_sentry.Moderation.Service.{FinalDecisionPayload, Dispatcher}
use hate_sentry.Crypto.{Crypto}
use hate_sentry.Webhooks.{sign}
use hate_sentry.Webhooks.Address.{Addresses, validate_url}

-- A POST request with its headers.
pub record Request : Type 0 where
  pub url : String
  pub body : String
  pub content_type : String
  pub event : String
  pub delivery : String
  pub timestamp : String
  pub signature : String

abbrev pub HttpClient : Type 0 → Type 0
HttpClient W = Request → Exec W ℕ

pub record HttpDispatcher (W : Type 0) : Type 0 where
  pub client : Option (HttpClient W)
  pub now : Option (W → Time × W)

pub record Http (W : Type 0) : Type 0 where
  -- The client of `NewHTTPDispatcher`: five seconds, no redirects, `safeDialContext`.
  pub safe_client : HttpClient W
  pub now : W → Time × W
  pub new_uuid : W → String × W
  pub marshal : FinalDecisionPayload → Result String
  -- The error of `http.NewRequestWithContext`, if there is one.
  pub request_error : String → Option Error

-- `fmt.Errorf("…: %w", err)`.
abbrev pub wrapf : String → Error → Error
wrapf prefix e = record { own = plain (prefix ++ ": " ++ error_text e); causes = frames e }

abbrev pub wrapped : {A : Type 0} → String → Result A → Result A
wrapped prefix (ok a) = ok a
wrapped prefix (err e) = err (wrapf prefix e)

abbrev no_error : Option Error → Result (Unit {0})
no_error none = ok tt
no_error (some e) = err e

abbrev pub or_default : {A : Type 0} → A → Option A → A
or_default a none = a
or_default a (some given) = given

-- The defaults that the payload gets.
unfoldable pub completed : ClientApplication → FinalDecisionPayload → FinalDecisionPayload
completed client payload = record payload {
  event = if str_eq payload.event "" then "moderation.final_decision" else payload.event;
  client_id = if payload.client_id == 0 then client.id else payload.client_id;
}

-- What the status of the response says.
unfoldable pub answered : Result ℕ → Result (Unit {0})
unfolding itoa
answered (err e) = err (wrapf "send webhook request" e)
answered (ok status) =
    if ltb status 200 || leb 300 status
    then err
        (record { own = delivery status ("webhook returned status " ++ itoa status); causes = [] })
    else ok tt

module _ {W : Type 0} (http : Http W) where
  -- `NewHTTPDispatcher`, `NewHTTPDispatcherWithClient`.
  unfoldable pub new_http_dispatcher : HttpDispatcher W
  new_http_dispatcher = record { client = some http.safe_client; now = some http.now }

  unfoldable pub new_http_dispatcher_with_client : Option (HttpClient W) → HttpDispatcher W
  new_http_dispatcher_with_client client = record {
    client = some (or_default http.safe_client client);
    now = some http.now;
  }

  abbrev pub delivery_id : String → W → String × W
  delivery_id given w = if str_eq given "" then http.new_uuid w else (given, w)

  module _ {Ip : Type 0} (net : Addresses Ip) (crypto : Crypto W) where
    -- The signed request of a payload with its defaults.
    unfoldable pub signed_request :
        ClientApplication → FinalDecisionPayload → String → Time → String → Request
    unfolding sign itoa
    signed_request client payload body now id =
        let seconds = now / 1000000000 in
        record {
          url = client.webhook_url;
          body = body;
          content_type = "application/json";
          event = payload.event;
          delivery = id;
          timestamp = itoa seconds;
          signature = sign crypto client.webhook_secret seconds body;
        }

    -- From the body on: the request is made, signed and sent.
    unfoldable pub post :
        HttpDispatcher W → ClientApplication → FinalDecisionPayload → String → Exec W (Unit {0})
    post d client payload body = do
      lift (wrapped "create webhook request" (no_error (http.request_error client.webhook_url)))
      now ← run (or_default http.now d.now)
      id ← run (delivery_id (trim_space payload.delivery_id))
      λ w.
          let (status, w') =
            or_default http.safe_client d.client (signed_request client payload body now id) w in
          (answered status, w')

    unfoldable pub dispatch_checked :
        HttpDispatcher W → ClientApplication → FinalDecisionPayload → Exec W (Unit {0})
    unfolding post
    dispatch_checked d client payload = do
      lift (
          reject_if (str_eq (trim_space client.webhook_secret) "")
            (raised (configuration_error "webhook secret is not configured")))
      lift (validate_url net client.webhook_url)
      body ← lift (wrapped "marshal webhook payload" (http.marshal (completed client payload)))
      post d client (completed client payload) body

    -- `DispatchFinalDecision`.
    unfoldable pub dispatch_final_decision :
        Option (HttpDispatcher W) → ClientApplication → FinalDecisionPayload → Exec W (Unit {0})
    unfolding dispatch_checked
    dispatch_final_decision dispatcher client payload = do
      d ← require dispatcher (configuration_error "webhook dispatcher is not configured")
      if str_eq (trim_space client.webhook_url) ""
          then pure tt
          else dispatch_checked d client payload

    abbrev error_of : Result (Unit {0}) → Option Error
    error_of (ok done) = none
    error_of (err e) = some e

    -- The same as the interface that the moderation service calls.
    unfoldable pub http_dispatcher : HttpDispatcher W → Dispatcher W
    unfolding dispatch_final_decision
    http_dispatcher d client payload w =
        let (sent, w') = dispatch_final_decision (some d) client payload w in (error_of sent, w')
