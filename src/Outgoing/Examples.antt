-- ===== src/Outgoing/Examples.antt =====
-- The metadata address of a cloud, as a webhook.
use ai_agent_boilerplate.Prelude.{ℕ, ◌+◌, ◌≡◌, refl, true, false, none, some, [], ◌∷◌, arith, any}
use ai_agent_boilerplate.Text.{codes}
use ai_agent_boilerplate.Exec.{ok, err}
use ai_agent_boilerplate.Ports.{Digest, port_error}
use ai_agent_boilerplate.Outgoing.Hosts.{Ipv4, IpAddr, v4, is_blocked_ip, is_blocked_v4}
use ai_agent_boilerplate.Outgoing.Hosts.Blocks.{number, in_block, blocks, is_blocked-blocks}
use ai_agent_boilerplate.Outgoing.Webhook.{Library, non_public, send}
use ai_agent_boilerplate.Outgoing.Webhook.Guard.{send_refused}

abbrev metadata : Ipv4
metadata = record { o0 = 169; o1 = 254; o2 = 169; o3 = 254 }

-- Counts its requests.
abbrev library : Library ℕ
library = record {
  parse_url = λ url. ok (record { host = some (codes "metadata"); port = none });
  lookup_host = λ host port n. (ok (v4 metadata ∷ []), n);
  ip_text = λ a. codes "169.254.169.254";
  to_vec = λ digest. ok [];
  hmac_sha256 = λ secret body. [];
  status_text = λ status. codes "status";
  post = λ resolver request n. (ok 200, n + 1);
}

abbrev digest : Digest
digest = record {
  recurring_search_id = 20;
  job_id = 10;
  keyword = codes "rust";
  new_count = 0;
  new_results = [];
}

is_blocked-blocks_example : is_blocked_ip (v4 metadata) ≡ any (in_block (number metadata)) blocks
is_blocked-blocks_example =
    is_blocked-blocks metadata (omega arith, omega arith, omega arith, omega arith)

send_refused_example :
    (a : IpAddr) × (is_blocked_ip a ≡ true)
    × (send library none false (codes "http://metadata") digest 0
        ≡ (err (port_error (non_public library a)), 0))
unfolding is_blocked_ip is_blocked_v4
send_refused_example =
    send_refused library none (codes "http://metadata") digest (codes "metadata") none
      (v4 metadata ∷ []) 0 0 refl refl refl
