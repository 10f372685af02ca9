-- ===== src/Connect/Serve.antt =====
-- internal/connect/serve.go: ServeRelay, which keeps a host reachable through the relay. Each call
-- of relay.Listen is an event. Times are in seconds; the log lines but the warning are left out.
pub mod Outage
use cmd_chat.Prelude.{
  ltb, if◌then◌else◌, nat_eq, bytes_eq, Bytes, err, ℕ, ◌+◌, ◌-◌, ◌*◌, ◌/◌, min, Bool, true, false,
  Option, none, some, List, [], ◌∷◌, ◌++◌,
}
use cmd_chat.Relay.WebSocket
use cmd_chat.Relay.Session
use cmd_chat.Relay.Session.{wait_timeout, control_failed}

abbrev pub relay_retry_min : ℕ
relay_retry_min = 3

abbrev pub relay_retry_max : ℕ
relay_retry_max = 60

-- `isWaitTimeout`
unfoldable pub is_wait_timeout : Session.Error → Bool
is_wait_timeout wait_timeout = true
is_wait_timeout (control_failed (WebSocket.closed code reason)) = true
is_wait_timeout _ = false

-- What Listen comes to: a session, or an error, and whether `stop` is closed by then or while
-- ServeRelay waits.
pub data Event : Type 0 where
  paired : (peer : Bytes) → Event
  failed : Session.Error → (stops : Bool) (stops_waiting : Bool) → Event

pub data Action : Type 0 where
  -- A session that is handed to the host.
  served : (peer : Bytes) → Action
  warned : Action
  waited : (seconds : ℕ) → Action

pub record State : Type 0 where
  pub backoff : ℕ
  pub announced : Bool

abbrev pub start : State
start = record { backoff = relay_retry_min; announced = false }

unfoldable pub next_backoff : ℕ → ℕ
next_backoff b = if ltb relay_retry_max (b * 2) then relay_retry_max else b * 2

-- One round of the loop; no state when it returns.
unfoldable pub round : State → Event → Option State × List Action
round s (paired peer) =
    (some (record { backoff = relay_retry_min; announced = false }), served peer ∷ [])
round s (failed e stops stops_waiting) =
    let warning = if s.announced then [] else warned ∷ [] in
    if is_wait_timeout e
    then (if stops then none else some (record s { backoff = relay_retry_min }), [])
    else if stops
    then (none, [])
    else if stops_waiting
    then (none, warning)
    else (
      some (record { backoff = next_backoff s.backoff; announced = true }),
      warning ++ (waited s.backoff ∷ []),
    )

-- What follows a round, if the loop goes on.
abbrev pub go_on : (State → List Action) → Option State × List Action → List Action
go_on more (none, actions) = actions
go_on more (some s, actions) = actions ++ more s

-- `ServeRelay`, until it returns or for the events given.
unfoldable pub serve_relay : State → List Event → List Action
serve_relay s [] = []
serve_relay s (e ∷ es) = go_on (λ s'. serve_relay s' es) (round s e)
