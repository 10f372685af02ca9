-- ===== src/Connect.antt =====
-- The connection strategy of internal/connect/connect.go, but for its log lines, and TCPEndpoints of
-- internal/phonebook/candidates.go. A connection is a number; the network is a parameter.
pub mod Race
pub mod Strategy
pub mod Serve
mod Tests
use cmd_chat.Prelude.{
  ltb, ◌==◌, if◌then◌else◌, length, ◌>>=◌, ◌>>◌, or_fail, Result, eq, bytes_beq, nat_eq, bytes_eq,
  Bytes, codes, ok, err, ℕ, ◌-◌, ◌/◌, Bool, true, false, not, Option, none, some, List, [], ◌∷◌,
}
use cmd_chat.Discovery.{Packet, find}
use cmd_chat.Phonebook.{Candidate}
use Race.{Arrival, DialError, dial_fastest, no_candidate}

abbrev pub relay_protocol_version : ℕ
relay_protocol_version = 2

-- `Force` is none for the automatic strategy.
pub data Transport : Type 0 where
  path_lan path_direct path_relay : Transport

pub record Outcome : Type 0 where
  pub conn : ℕ
  pub path : Transport
  pub detail : Bytes
  pub host_id : Bytes
  pub fingerprint : Bytes

-- `unreachable` is ErrUnreachable, `lookup_failed` what the phonebook answered.
pub data Error : Type 0 where
  unreachable lookup_failed : Error

pub record Peer : Type 0 where
  pub id : Bytes
  pub online : Bool
  pub fingerprint : Bytes
  pub version : ℕ
  pub last_seen : ℕ
  pub expires_at : ℕ
  pub candidates : List Candidate

-- What the strategy calls: the datagrams that discovery.Find gets, net.DialTimeout, the phonebook's Lookup, the arrivals of
-- a race for endpoints, relay.Dial, net.JoinHostPort with itoa, and addressFamily.
pub record Network : Type 0 where
  pub datagrams : Bytes → Option (List (Option Packet))
  pub dial : Bytes → Option ℕ
  pub lookup : Bytes → Option Peer
  pub arrivals : List Bytes → List Arrival
  pub relay_dial : Bytes → Option ℕ
  pub join_host_port : Bytes → ℕ → Bytes
  pub address_family : Bytes → Bytes

module _ (net : Network) where
  -- `TCPEndpoints`.
  unfoldable pub tcp_endpoints : List Candidate → List Bytes
  tcp_endpoints [] = []
  tcp_endpoints (c ∷ cs) =
      let rest = tcp_endpoints cs in
      elim c.port [
        | none ↦ rest
        | some port ↦
            if not (bytes_beq c.transport (codes "tcp"))
            then rest
            else net.join_host_port c.address port ∷ rest
      ]

  unfoldable pub try_lan : Bytes → Option Outcome
  try_lan target = elim (net.datagrams target) [
    | none ↦ none
    | some ds ↦ elim (find target ds) [
      | [] ↦ none
      | a ∷ _ ↦ elim (net.dial a.endpoint) [
        | none ↦ none
        | some conn ↦ some (record {
          conn = conn;
          path = path_lan;
          detail = codes "LAN";
          host_id = target;
          fingerprint = a.fingerprint;
        })
      ]
    ]
  ]

  -- With the connections that the race closed.
  unfoldable pub try_direct : Bytes → Peer → Option Outcome × List ℕ
  try_direct target peer =
      let endpoints = tcp_endpoints peer.candidates in
      if length endpoints == 0
      then (none, [])
      else let (result, closed) = dial_fastest (length endpoints) (net.arrivals endpoints) in
        (
          elim result [
            | err _ ↦ none
            | ok (conn, endpoint) ↦ some (record {
              conn = conn;
              path = path_direct;
              detail = net.address_family endpoint;
              host_id = target;
              fingerprint = peer.fingerprint;
            })
          ],
          closed,
        )

  unfoldable pub try_relay : Bytes → Peer → Result Error Outcome
  try_relay target peer =
      if ltb peer.version relay_protocol_version
      then err unreachable
      else elim (net.relay_dial peer.id) [
        | none ↦ err unreachable
        | some conn ↦ ok (record {
          conn = conn;
          path = path_relay;
          detail = codes "relay";
          host_id = target;
          fingerprint = peer.fingerprint;
        })
      ]

  -- Whether a stage runs under `Force`, and whether it is the only one.
  abbrev pub runs : Option Transport → Transport → Bool
  runs none p = true
  runs (some path_lan) path_lan = true
  runs (some path_direct) path_direct = true
  runs (some path_relay) path_relay = true
  runs (some _) _ = false

  abbrev pub pinned : Option Transport → Transport → Bool
  pinned none p = false
  pinned (some f) p = runs (some f) p

  -- `Join` from the phonebook on.
  unfoldable pub join_listed : Bytes → Option Transport → Result Error Outcome
  join_listed target force = do
    peer ← or_fail (net.lookup target) lookup_failed
    let direct = if runs force path_direct then (try_direct target peer).0 else none
    elim direct [
      | some r ↦ ok r
      | none ↦ if pinned force path_direct then err unreachable else try_relay target peer
    ]

  unfoldable pub join : Bytes → Option Transport → Result Error Outcome
  join target force =
      let local = if runs force path_lan then try_lan target else none in
      elim local [
        | some r ↦ ok r
        | none ↦ if pinned force path_lan then err unreachable else join_listed target force
      ]
