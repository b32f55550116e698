-- ===== src/Net/Service.antt =====
-- What the receive path of net.c makes of the count of refused logins.
use corestack.Prelude.{◌+◌, ◌≡◌, true, false, if◌then◌else◌}
use corestack.Htttp.Result.{Result}
use corestack.Net.{
  cli_disconnected, auth_none, ClientEvent, ev_reject, ev_disconnect, ev_auth_ok, ev_auth_reply,
  NetClient,
}
use corestack.Net.Receive.{is_auth_none}

-- The count and the method that waits for its reply are as they were.
abbrev pub SameAuth : NetClient → NetClient → Type 0
SameAuth c d = (d.auth_failures ≡ c.auth_failures) × (d.auth_pending ≡ c.auth_pending)

abbrev Served : NetClient → ClientEvent × NetClient → Type 0
Served c (ev_disconnect, d) = d.phase ≡ cli_disconnected
Served c (ev_auth_reply, d) = SameAuth c d × (is_auth_none c.auth_pending ≡ false)
Served c (ev_reject, d) = SameAuth c d × (is_auth_none c.auth_pending ≡ true)
Served c (ev_auth_ok, d) = ⊥
Served c (_, d) = SameAuth c d

-- What the caller of `client_service` finds; `c` is the client from before.
abbrev pub IsAccounted : NetClient → ClientEvent × NetClient → Type 0
IsAccounted c (ev_auth_reply, d) = ⊥
IsAccounted c (ev_disconnect, d) =
    (d.phase ≡ cli_disconnected)
    × (d.auth_failures ≡ 0)
    × (d.auth_pending ≡ auth_none)
    × (d.reconnect_ok ≡ c.auth_refused_last)
IsAccounted c (ev_reject, d) =
    d.auth_failures ≡ c.auth_failures + (if is_auth_none c.auth_pending then 0 else 1)
IsAccounted c (ev_auth_ok, d) =
    (is_auth_none c.auth_pending ≡ false)
    × (d.auth_failures ≡ c.auth_failures)
    × (d.auth_pending ≡ auth_none)
IsAccounted c (_, d) = SameAuth c d
