-- ===== src/Outgoing/Webhook.antt =====
-- digest.rs: the webhook that digests are posted to, behind the guard on its host.
pub mod Guard
use ai_agent_boilerplate.Prelude.{
  ℕ, ◌+◌, ◌-◌, ◌/◌, ◌%◌, Bool, true, false, Option, none, some, List, [], ◌∷◌, ◌++◌, ltb,
  if◌then◌else◌,
}
use ai_agent_boilerplate.Text.{Text, codes, is_empty}
use ai_agent_boilerplate.Exec.{
  ◌>>=◌, ◌>>◌, Exec, Result, pure, raise, ok_or, map_err, from_result, convert,
}
use ai_agent_boilerplate.Ports.{Port, PortError, port_error, Digest, DigestSender}
use ai_agent_boilerplate.Outgoing.{Resolver, Post, bytes, is_success}
use ai_agent_boilerplate.Outgoing.Hosts.{IpAddr, find_blocked}

-- What the guard reads of a parsed URL.
pub record Url : Type 0 where
  pub host : Option Text
  pub port : Option ℕ

pub record Library (S : Type 0) : Type 0 where
  pub parse_url : Text → Result Text Url
  pub lookup_host : Text → ℕ → Exec Text S (List IpAddr)
  pub ip_text : IpAddr → Text
  pub to_vec : Digest → Result Text (List ℕ)
  pub hmac_sha256 : Text → List ℕ → List ℕ
  pub status_text : ℕ → Text
  pub post : Post S

abbrev pub prefixed : Text → Text → PortError
prefixed prefix e = port_error (prefix ++ e)

abbrev pub port_or_zero : Option ℕ → ℕ
port_or_zero none = 0
port_or_zero (some port) = port

abbrev pub hex_digit : ℕ → ℕ
hex_digit n = if ltb n 10 then b'0' + n else b'a' + n - 10

-- `{b:02x}` of every byte.
unfoldable pub hex : List ℕ → Text
hex [] = []
hex (b ∷ bs) = hex_digit (b / 16) ∷ hex_digit (b % 16) ∷ hex bs

module _ {S : Type 0} (library : Library S) where
  abbrev pub non_public : IpAddr → Text
  non_public a =
      codes "webhook host resolves to a non-public address (" ++ (library.ip_text a ++ codes ")")

  abbrev pub checked : Option IpAddr → Port S Unit
  checked none = pure tt
  checked (some a) = raise (port_error (non_public a))

  abbrev pub check_addresses : List IpAddr → Port S Unit
  check_addresses [] = raise (port_error (codes "webhook host did not resolve"))
  check_addresses (a ∷ addrs) = checked (find_blocked (a ∷ addrs))

  unfoldable pub ensure_public_host : Text → Bool → Port S Unit
  ensure_public_host url true = pure tt
  ensure_public_host url false = do
    parsed ←
        from_result (convert (prefixed (codes "invalid webhook url: ")) (library.parse_url url))
    host ← ok_or (port_error (codes "webhook url has no host")) parsed.host
    resolved ←
        map_err (prefixed (codes "cannot resolve webhook host: "))
          (library.lookup_host host (port_or_zero parsed.port))
    check_addresses resolved

  abbrev pub returned : List IpAddr → Option IpAddr → Exec Text S (List IpAddr)
  returned addrs none = pure addrs
  returned addrs (some a) = raise (non_public a)

  -- `PublicOnlyResolver`
  unfoldable pub resolve : Resolver S
  resolve name = do addrs ← library.lookup_host name 0; returned addrs (find_blocked addrs)

  unfoldable pub sign : Text → List ℕ → Text
  sign secret body = codes "sha256=" ++ hex (library.hmac_sha256 secret body)

  -- `secret.filter(|s| !s.is_empty())`
  abbrev pub signing_secret : Option Text → Option Text
  signing_secret none = none
  signing_secret (some secret) = if is_empty secret then none else some secret

  abbrev pub signature : Option Text → List ℕ → List (Text × Text)
  signature none body = []
  signature (some secret) body = (codes "X-Signature-256", sign secret body) ∷ []

  -- `None` is the client's default resolver.
  abbrev pub resolver_of : Bool → Option (Resolver S)
  resolver_of true = none
  resolver_of false = some resolve

  abbrev pub succeeded : ℕ → Port S Unit
  succeeded status =
      if is_success status
      then pure tt
      else raise (prefixed (codes "webhook returned ") (library.status_text status))

  -- `WebhookDigestSender::new` and `send`.
  unfoldable pub send : Option Text → Bool → Text → Digest → Port S Unit
  unfolding ensure_public_host resolve sign
  send secret allow_private webhook_url digest = do
    ensure_public_host webhook_url allow_private
    body ←
        from_result
          (convert (prefixed (codes "digest serialization failed: ")) (library.to_vec digest))
    status ← map_err (prefixed (codes "webhook unreachable: ")) (
        library.post (resolver_of allow_private) (record {
          url = webhook_url;
          headers =
              (codes "content-type", codes "application/json")
              ∷ signature (signing_secret secret) body;
          body = bytes body;
        }))
    succeeded status

  abbrev pub webhook_digest_sender : Option Text → Bool → DigestSender S
  webhook_digest_sender secret allow_private = record { send = send secret allow_private }

abbrev pub noop_digest_sender : {S : Type 0} → DigestSender S
noop_digest_sender = record { send = λ url digest. pure tt }
