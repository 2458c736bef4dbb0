-- ===== src/Webhooks/Address.antt =====
-- internal/webhooks/webhooks.go: which callback addresses are accepted, and which are dialled.
--
-- An `Addresses` holds what the source uses of net/url, net/netip and net, and `strings.ToLower`.
use Prim.Native.String.{◌++◌}
use hate_sentry.Base.{
  String, Bool, false, not, ◌||◌, Option, none, some, List, [], ◌∷◌, str_eq, if◌then◌else◌,
}
use hate_sentry.Base.Text.{trim_space, has_suffix, trim_suffix}
use hate_sentry.Errors.{
  plain, frames, error_text, Result, ok, err, fail, raised, validation_error, reject_if, ◌>>◌,
}
use hate_sentry.Exec.{Exec}

pub record Url : Type 0 where
  pub scheme : String
  pub host : String
  -- `Hostname()`.
  pub hostname : String

pub record Addresses (Ip : Type 0) : Type 0 where
  pub to_lower : String → String
  -- `url.ParseRequestURI`.
  pub parse_request_uri : String → Option Url
  -- `netip.ParseAddr`, and `netip.MustParseAddr` on the two constants.
  pub parse_addr : String → Option Ip
  pub must_parse_addr : String → Ip
  pub same_addr : Ip → Ip → Bool
  pub is4_in6 : Ip → Bool
  -- `netip.AddrFrom4(ip.As4())`.
  pub as4 : Ip → Ip
  pub is_loopback : Ip → Bool
  pub is_private : Ip → Bool
  pub is_link_local_unicast : Ip → Bool
  pub is_link_local_multicast : Ip → Bool
  pub is_multicast : Ip → Bool
  pub is_unspecified : Ip → Bool

-- What the source uses of the resolver and of the dialer, for one port.
pub record Dialer (W Ip Conn : Type 0) : Type 0 where
  -- `net.SplitHostPort`, of which an error is the text.
  pub split_host_port : String → Result (String × String)
  -- `LookupIPAddr`, each address as `netip.AddrFromSlice` reads it.
  pub lookup_ip_addr : String → Exec W (List (Option Ip))
  pub dial : Ip → String → Exec W Conn

module _ {Ip : Type 0} (net : Addresses Ip) where
  -- `isLocalHostname`.
  unfoldable pub is_local_hostname : String → Bool
  unfolding has_suffix trim_suffix
  is_local_hostname host =
      let name = trim_suffix (net.to_lower host) "." in
      str_eq name "localhost" || has_suffix name ".localhost"

  -- `isCloudMetadataIP`.
  unfoldable pub is_cloud_metadata_ip : Ip → Bool
  is_cloud_metadata_ip ip =
      net.same_addr ip (net.must_parse_addr "169.254.169.254")
      || net.same_addr ip (net.must_parse_addr "fd00:ec2::254")

  -- The test of `isBlockedIP` behind the unmapping of an IPv4 address in an IPv6 one.
  unfoldable pub blocked_unmapped : Ip → Bool
  unfolding is_cloud_metadata_ip
  blocked_unmapped ip =
      net.is_loopback ip
      || net.is_private ip
      || net.is_link_local_unicast ip
      || net.is_link_local_multicast ip
      || net.is_multicast ip
      || net.is_unspecified ip
      || is_cloud_metadata_ip ip

  -- `isBlockedIP`.
  unfoldable pub is_blocked_ip : Ip → Bool
  unfolding blocked_unmapped
  is_blocked_ip ip = blocked_unmapped (if net.is4_in6 ip then net.as4 ip else ip)

  unfoldable pub blocked_host : Option Ip → Bool
  unfolding is_blocked_ip
  blocked_host none = false
  blocked_host (some ip) = is_blocked_ip ip

  unfoldable pub validate_parsed : Option Url → Result (Unit {0})
  unfolding is_local_hostname blocked_host
  validate_parsed none = fail (validation_error "webhook_url must be a valid absolute URL")
  validate_parsed (some url) = do
    reject_if (str_eq url.host "")
        (raised (validation_error "webhook_url must be a valid absolute URL"))
    reject_if (not (str_eq url.scheme "https"))
        (raised (validation_error "webhook_url must use https"))
    reject_if (is_local_hostname url.hostname)
        (raised (validation_error "webhook_url must not target localhost"))
    reject_if (blocked_host (net.parse_addr url.hostname))
        (raised (validation_error "webhook_url must not target private or local addresses"))
    ok tt

  -- `ValidateURL`.
  unfoldable pub validate_url : String → Result (Unit {0})
  unfolding trim_space validate_parsed
  validate_url raw_url =
      let trimmed = trim_space raw_url in
      if str_eq trimmed "" then ok tt else validate_parsed (net.parse_request_uri trimmed)

  module _ {W Conn : Type 0} (dialer : Dialer W Ip Conn) where
    -- The loop of `safeDialContext`: the first address that is not blocked is dialled.
    unfoldable pub dial_first : String → List (Option Ip) → Exec W Conn
    unfolding is_blocked_ip
    dial_first port [] w =
        (fail (validation_error "webhook host resolves to private or local addresses"), w)
    dial_first port (none ∷ ips) w = dial_first port ips w
    dial_first port (some ip ∷ ips) w =
        let rest = dial_first port ips w in if is_blocked_ip ip then rest else dialer.dial ip port w

    abbrev pub dial_resolved : String → Result (List (Option Ip)) → Exec W Conn
    dial_resolved port (err e) w = (
      err (record { own = plain ("resolve webhook host: " ++ error_text e); causes = frames e }),
      w,
    )
    dial_resolved port (ok ips) w = dial_first port ips w

    abbrev dial_split : Result (String × String) → Exec W Conn
    dial_split (err e) w = (err e, w)
    dial_split (ok (host, port)) w =
        let (ips, w') = dialer.lookup_ip_addr host w in dial_resolved port ips w'

    -- `safeDialContext`.
    unfoldable pub safe_dial_context : String → Exec W Conn
    unfolding dial_first
    safe_dial_context address = dial_split (dialer.split_host_port address)
