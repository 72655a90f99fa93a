-- ===== src/Healthcheck.antt =====
-- backend/src/healthcheck.rs: the probe of the container. The connection, the write and the read
-- are parameters.
use ai_agent_boilerplate.Prelude.{Option, none, some, ◌++◌, if◌then◌else◌}
use ai_agent_boilerplate.Text.{Text, codes, starts_with}
use ai_agent_boilerplate.Exec.{◌>>=◌, ◌>>◌, Exec, pure, raise, map_err}

abbrev pub addr_from_env : Option Text → Text
addr_from_env none = codes "127.0.0.1:8000"
addr_from_env (some addr) = addr

abbrev pub first_line_or_empty : Option Text → Text
first_line_or_empty none = codes "<empty>"
first_line_or_empty (some line) = line

-- `first_line` is `lines().next()`.
module _ {S : Type 0} (connect : Text → Exec Text S Unit) (write_all : Text → Exec Text S Unit)
    (read_to_string : Exec Text S Text) (first_line : Text → Option Text) where
  abbrev pub judged : Text → Exec Text S Unit
  judged response =
      if starts_with response (codes "HTTP/1.1 200")
      then pure tt
      else raise (codes "unexpected response: " ++ first_line_or_empty (first_line response))

  unfoldable pub check : Text → Exec Text S Unit
  check addr = do
    map_err (λ e. codes "cannot connect to " ++ (addr ++ (codes ": " ++ e))) (connect addr)
    map_err (λ e. codes "cannot send request: " ++ e)
        (write_all (codes "GET /healthz HTTP/1.1\r\nHost: localhost\r\nConnection: close\r\n\r\n"))
    response ← map_err (λ e. codes "cannot read response: " ++ e) read_to_string
    judged response
