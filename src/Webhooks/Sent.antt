-- ===== src/Webhooks/Sent.antt =====
-- internal/webhooks/webhooks.go: which addresses a callback may have, and what is sent to it.
use Prim.Native.String.{◌++◌}
use hate_sentry.Base.{
  ℕ, ◌/◌, ◌==◌, ◌<◌, ◌≤◌, if◌then◌else◌, str_eq_ne, ◌≡◌, ◌≢◌, ◌↔◌, ◌⊎◌, inl, inr, refl, String,
  false, not, Bool-cases, Option-cases, Option, none, some, List, [], ◌∷◌, Occurs, str_eq, eq_iff,
  arith,
}
use hate_sentry.Base.Text.{trim_space, trim_suffix, has_suffix}
use hate_sentry.Base.Decimal.{itoa}
use hate_sentry.Errors.{
  Error, plain, delivery, frames, error_text, Result, ok, err, fail, validation_error, reject_if-ok,
}
use hate_sentry.Models.{Time, ClientApplication}
use hate_sentry.Moderation.Service.{FinalDecisionPayload}
use hate_sentry.Crypto.{Crypto}
use hate_sentry.Webhooks.Address.{
  Addresses, Url, Dialer, is_local_hostname, is_blocked_ip, blocked_unmapped, is_cloud_metadata_ip,
  blocked_host, validate_parsed, validate_url, dial_first,
}
use hate_sentry.Webhooks.Dispatch.{HttpClient, HttpDispatcher, Http, delivery_id}

module _ {Ip : Type 0} (net : Addresses Ip) where
  -- An address that belongs to none of the ranges that are not public, nor to a cloud's metadata.
  pub record IsPublic (ip : Ip) : Type 0 where
    pub not_loopback : net.is_loopback ip ≡ false
    pub not_private : net.is_private ip ≡ false
    pub not_link_local_unicast : net.is_link_local_unicast ip ≡ false
    pub not_link_local_multicast : net.is_link_local_multicast ip ≡ false
    pub not_multicast : net.is_multicast ip ≡ false
    pub not_unspecified : net.is_unspecified ip ≡ false
    pub not_metadata4 : net.same_addr ip (net.must_parse_addr "169.254.169.254") ≡ false
    pub not_metadata6 : net.same_addr ip (net.must_parse_addr "fd00:ec2::254") ≡ false

  -- A host whose name, in small letters and without a dot at its end, is neither localhost nor one
  -- of its subdomains.
  abbrev pub IsRemote : String → Type 0
  IsRemote host =
      (trim_suffix (net.to_lower host) "." ≢ "localhost")
      × (has_suffix (trim_suffix (net.to_lower host) ".") ".localhost" ≡ false)

  -- An IPv4 address in an IPv6 one stands for itself.
  abbrev pub IsPublicHost : Option Ip → Type 0
  IsPublicHost none = Unit
  IsPublicHost (some ip) = IsPublic (if net.is4_in6 ip then net.as4 ip else ip)

  IsPublic-blocked_unmapped : (ip : Ip) → (blocked_unmapped net ip ≡ false) ↔ IsPublic ip
  unfolding blocked_unmapped is_cloud_metadata_ip
  IsPublic-blocked_unmapped ip = (
    λ h. record {
      not_loopback = ground arith;
      not_private = ground arith;
      not_link_local_unicast = ground arith;
      not_link_local_multicast = ground arith;
      not_multicast = ground arith;
      not_unspecified = ground arith;
      not_metadata4 = ground arith;
      not_metadata6 = ground arith;
    },
    λ public.
        rw
          (
            public.not_loopback, public.not_private, public.not_link_local_unicast,
            public.not_link_local_multicast, public.not_multicast, public.not_unspecified,
            public.not_metadata4, public.not_metadata6,
          )
          refl,
  )

  IsPublicHost-blocked_host : (ip : Option Ip) → (blocked_host net ip ≡ false) ↔ IsPublicHost ip
  unfolding blocked_host is_blocked_ip
  IsPublicHost-blocked_host none = (λ h. tt, λ h. refl)
  IsPublicHost-blocked_host (some ip) =
      IsPublic-blocked_unmapped (if net.is4_in6 ip then net.as4 ip else ip)

  IsRemote-is_local_hostname :
      (host : String) → (is_local_hostname net host ≡ false) ↔ IsRemote host
  unfolding is_local_hostname
  IsRemote-is_local_hostname host =
      let name = trim_suffix (net.to_lower host) "." in
      (
        λ h. ((λ p. let same = (eq_iff name "localhost").1 p in ground arith), ground arith),
        λ (other, no_suffix). rw (str_eq_ne name "localhost" other, no_suffix) refl,
      )

  -- The text is an absolute https URL whose host is neither local nor an address that is not public.
  pub record IsCallback (text : String) : Type 0 where
    pub url : Url
    pub parsed : net.parse_request_uri text ≡ some url
    pub host_given : url.host ≢ ""
    pub is_https : url.scheme ≡ "https"
    pub is_remote : IsRemote url.hostname
    pub is_public : IsPublicHost (net.parse_addr url.hostname)

  validate_parsed-IsCallback :
      (text : String) → validate_parsed net (net.parse_request_uri text) ≡ ok tt → IsCallback text
  unfolding validate_parsed
  validate_parsed-IsCallback text h = elim (Option-cases (net.parse_request_uri text)) [
    | inl missing ↦ let refused : err _ ≡ ok tt = rw missing at h in cc
    | inr (url, found) ↦
        let (given, h1) = reject_if-ok (str_eq url.host "") _ _ (rw found at h) in
        let (https, h2) = reject_if-ok (not (str_eq url.scheme "https")) _ _ h1 in
        let (distant, h3) = reject_if-ok (is_local_hostname net url.hostname) _ _ h2 in
        let (public, _) = reject_if-ok (blocked_host net (net.parse_addr url.hostname)) _ _ h3 in
        record {
          url = url;
          parsed = found;
          host_given = λ p. ground (arith, eq_iff url.host "");
          is_https = ground (arith, eq_iff url.scheme "https");
          is_remote = (IsRemote-is_local_hostname url.hostname).0 distant;
          is_public = (IsPublicHost-blocked_host (net.parse_addr url.hostname)).0 public;
        }
  ]

  IsCallback-validate_parsed :
      (text : String) → IsCallback text → validate_parsed net (net.parse_request_uri text) ≡ ok tt
  unfolding validate_parsed
  IsCallback-validate_parsed text c =
      let given : str_eq c.url.host "" ≡ false =
        ground (arith, eq_iff c.url.host "", c.host_given) in
      let https = (eq_iff c.url.scheme "https").1 c.is_https in
      let distant = (IsRemote-is_local_hostname c.url.hostname).1 c.is_remote in
      let public = (IsPublicHost-blocked_host (net.parse_addr c.url.hostname)).1 c.is_public in
      rw (c.parsed, given, https, distant, public) refl

  -- A callback address is accepted exactly if it is blank or, trimmed, an absolute https URL whose
  -- host is neither localhost nor a subdomain of it, nor an address that is loopback, private,
  -- link-local, multicast, unspecified or of a cloud's metadata.
  pub validate_url-ok_iff :
      (text : String)
      → (validate_url net text ≡ ok tt) ↔ ((trim_space text ≡ "") ⊎ IsCallback (trim_space text))
  unfolding validate_url
  validate_url-ok_iff text = elim (Bool-cases (str_eq (trim_space text) "")) [
    | inl blank ↦ (λ h. inl ((eq_iff (trim_space text) "").0 blank), λ h. rw blank refl)
    | inr given ↦ (
      λ h. inr (validate_parsed-IsCallback (trim_space text) (rw given at h)),
      λ c. elim c [
        | inl blank ↦ let absurd = (eq_iff (trim_space text) "").1 blank in cc
        | inr callback ↦ rw given (IsCallback-validate_parsed (trim_space text) callback)
      ],
    )
  ]

  module _ {W Conn : Type 0} (dialer : Dialer W Ip Conn) where
    -- A connection attempt goes to an address that was resolved and is not blocked, or none is
    -- made and the addresses are refused.
    pub dial_first_sound :
        (port : String) (ips : List (Option Ip)) (w : W)
        → (dial_first net dialer port ips w
            ≡ (fail (validation_error "webhook host resolves to private or local addresses"), w))
          ⊎ ((ip : Ip) × Occurs (some ip) ips
              × (is_blocked_ip net ip ≡ false)
              × (dial_first net dialer port ips w ≡ dialer.dial ip port w))
    unfolding dial_first
    dial_first_sound port [] w = inl refl
    dial_first_sound port (none ∷ ips) w = elim (dial_first_sound port ips w) [
      | inl refused ↦ inl refused
      | inr (ip, there, public, dialled) ↦ inr (ip, inr there, public, dialled)
    ]
    dial_first_sound port (some ip ∷ ips) w = elim (Bool-cases (is_blocked_ip net ip)) [
      | inr public ↦ inr (ip, inl refl, public, rw public refl)
      | inl blocked ↦ elim (dial_first_sound port ips w) [
        | inl refused ↦ inl (rw blocked refused)
        | inr (other, there, public, dialled) ↦ inr (other, inr there, public, rw blocked dialled)
      ]
    ]

-- What is given, or else the default.
abbrev pub IsDefault : {A : Type 0} → A → Option A → A → Type 0
IsDefault default given a = (given ≡ some a) ⊎ ((given ≡ none) × (a ≡ default))

module _ {W Ip : Type 0} (http : Http W) (net : Addresses Ip) (crypto : Crypto W)
    (d : HttpDispatcher W) (client : ClientApplication) (payload : FinalDecisionPayload) where
  -- The request that was sent from the world before, and the answer to it.
  pub record IsSent (before : W) (answer : Result (Unit {0}) × W) : Type 0 where
    pub to_callback : IsCallback net (trim_space client.webhook_url)
    pub has_secret : trim_space client.webhook_secret ≢ ""
    pub body : String
    -- The body is the payload, with its event and client filled in.
    pub is_body :
        http.marshal (record payload {
          event = if str_eq payload.event "" then "moderation.final_decision" else payload.event;
          client_id = if payload.client_id == 0 then client.id else payload.client_id;
        })
        ≡ ok body
    pub now : Time
    pub drawn_in : W
    pub clock : W → Time × W
    pub is_clock : IsDefault http.now d.now clock
    pub is_now : clock before ≡ (now, drawn_in)
    pub id : String
    pub sent_in : W
    pub is_id :
        (if str_eq (trim_space payload.delivery_id) ""
          then http.new_uuid drawn_in
          else (trim_space payload.delivery_id, drawn_in))
        ≡ (id, sent_in)
    pub sender : HttpClient W
    pub is_sender : IsDefault http.safe_client d.client sender
    pub response : Result ℕ × W
    pub is_response :
        sender
          (record {
            url = client.webhook_url;
            body = body;
            content_type = "application/json";
            event = if str_eq payload.event "" then "moderation.final_decision" else payload.event;
            delivery = id;
            timestamp = itoa (now / 1000000000);
            signature =
                "sha256="
                ++ crypto.hmac_sha256_hex client.webhook_secret
                    (itoa (now / 1000000000) ++ "." ++ body);
          })
          sent_in
        ≡ response
    pub is_left_in : answer.1 ≡ response.1
    -- What the response is worth: only a status of 200 to 299 is a success.
    pub succeeds :
        (status : ℕ) → response.0 ≡ ok status → 200 ≤ status → status < 300 → answer.0 ≡ ok tt
    pub fails :
        (status : ℕ)
        → response.0 ≡ ok status
        → (status < 200) ⊎ (300 ≤ status)
        → answer.0
          ≡ err (record {
            own = delivery status ("webhook returned status " ++ itoa status);
            causes = [];
          })
    pub breaks :
        (e : Error)
        → response.0 ≡ err e
        → answer.0
          ≡ err (record {
            own = plain ("send webhook request" ++ ": " ++ error_text e);
            causes = frames e;
          })
