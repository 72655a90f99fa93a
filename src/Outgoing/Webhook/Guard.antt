-- ===== src/Outgoing/Webhook/Guard.antt =====
-- backend/src/adapters/digest.rs: the guard of a webhook's host, and the resolver of its client.
use ai_agent_boilerplate.Prelude.{
  ℕ, ◌≡◌, refl, inl, inr, true, false, Option, none, some, List, [], ◌∷◌, arith, Bool-cases, any,
  All,
}
use ai_agent_boilerplate.Text.{Text}
use ai_agent_boilerplate.Exec.{Result, ok, err, continue}
use ai_agent_boilerplate.Ports.{port_error, Digest}
use ai_agent_boilerplate.Outgoing.Hosts.{IpAddr, is_blocked_ip, find_blocked}
use ai_agent_boilerplate.Outgoing.Webhook.{
  Library, port_or_zero, non_public, check_addresses, ensure_public_host, resolve, returned, send,
}

find_blocked-some :
    (addrs : List IpAddr)
    → any is_blocked_ip addrs ≡ true
    → (a : IpAddr) × (find_blocked addrs ≡ some a) × (is_blocked_ip a ≡ true)
unfolding find_blocked
find_blocked-some [] h = absurd (ground arith)
find_blocked-some (a ∷ addrs) h = elim (Bool-cases (is_blocked_ip a)) [
  | inl blocked ↦ (a, rw blocked, blocked)
  | inr public_host ↦
      let rest = find_blocked-some addrs (rw public_host at h) in
      (rest.0, rw public_host rest.1, rest.2)
]

find_blocked-none :
    (addrs : List IpAddr) → find_blocked addrs ≡ none → All (λ a. is_blocked_ip a ≡ false) addrs
unfolding find_blocked
find_blocked-none [] h = tt
find_blocked-none (a ∷ addrs) h = elim (Bool-cases (is_blocked_ip a)) [
  | inl blocked ↦ absurd (ground arith)
  | inr public_host ↦ (public_host, find_blocked-none addrs (rw public_host at h))
]

-- The addresses of a successful resolution are all public.
abbrev pub IsPublic : Result Text (List IpAddr) → Type 0
IsPublic (ok addrs) = All (λ a. is_blocked_ip a ≡ false) addrs
IsPublic (err e) = Unit

module _ {S : Type 0} (library : Library S) where
  check_addresses-refused :
      (addrs : List IpAddr) (s : S)
      → any is_blocked_ip addrs ≡ true
      → (a : IpAddr) × (is_blocked_ip a ≡ true)
        × (check_addresses library addrs s ≡ (err (port_error (non_public library a)), s))
  check_addresses-refused [] s h = absurd (ground arith)
  check_addresses-refused (a ∷ addrs) s h =
      let found = find_blocked-some (a ∷ addrs) h in (found.0, found.2, rw found.1)

  -- Where webhooks to private hosts are not allowed and the host of a webhook resolves to any
  -- blocked address, a digest is not sent: the result is the error that names a blocked address,
  -- and the state is that after the lookup of the host.
  pub send_refused :
      (secret : Option Text) (webhook_url : Text) (digest : Digest) (host : Text) (port : Option ℕ)
      (addrs : List IpAddr) (s s1 : S)
      → library.parse_url webhook_url ≡ ok (record { host = some host; port = port })
      → library.lookup_host host (port_or_zero port) s ≡ (ok addrs, s1)
      → any is_blocked_ip addrs ≡ true
      → (a : IpAddr) × (is_blocked_ip a ≡ true)
        × (send library secret false webhook_url digest s
            ≡ (err (port_error (non_public library a)), s1))
  unfolding send ensure_public_host
  send_refused secret webhook_url digest host port addrs s s1 p l b =
      let refused = check_addresses-refused addrs s1 b in
      (refused.0, refused.1, rw (p, l, refused.2))

  returned-Public :
      (addrs : List IpAddr) (o : Option IpAddr) (s : S)
      → find_blocked addrs ≡ o
      → IsPublic (returned library addrs o s).0
  returned-Public addrs none s h = find_blocked-none addrs h
  returned-Public addrs (some a) s h = tt

  resolved-Public :
      (r : Result Text (List IpAddr)) (s : S)
      → IsPublic (continue r (λ addrs. returned library addrs (find_blocked addrs)) s).0
  resolved-Public (ok addrs) s = returned-Public addrs (find_blocked addrs) s refl
  resolved-Public (err e) s = tt

  -- The resolver of the webhook's client returns an error or addresses none of which is blocked,
  -- whatever the name resolves to when the connection is made.
  pub resolve-Public : (name : Text) (s : S) → IsPublic (resolve library name s).0
  unfolding resolve
  resolve-Public name s = resolved-Public (library.lookup_host name 0 s).0 _
