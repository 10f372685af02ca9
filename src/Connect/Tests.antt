-- ===== src/Connect/Tests.antt =====
-- The connection strategy at concrete inputs.
mod Serve
use cmd_chat.Prelude.{
  nat_eq, bytes_eq, codes, ok, ◌≡◌, refl, true, none, some, List, [], ◌∷◌, ◌++◌, arith,
}
use cmd_chat.Connect.Race.{
  Arrival, connected, failed, deadline, race_loop, start, dial_fastest, connections, drain,
}
use cmd_chat.Connect.Race.Account.{Accounted, dial_fastest-Accounted, race_loop_waits}
use cmd_chat.Connect.{
  Transport, path_direct, path_relay, Outcome, Network, tcp_endpoints, try_lan, try_direct,
  try_relay, join_listed, join,
}
use cmd_chat.Prelude.Map.{lookup, insert}
use cmd_chat.Discovery.{Announcement, magic, find, find_loop, found, was_seen}
use cmd_chat.Connect.Strategy.{Given, join_sound, join-For}

-- A failure, a connection, a later one that is closed, and one that the drain closes.
abbrev arrivals : List Arrival
arrivals =
    failed (1 ∷ []) 9 ∷ connected (2 ∷ []) 5 ∷ connected (3 ∷ []) 6 ∷ connected (4 ∷ []) 7 ∷ []

raced : dial_fastest 4 arrivals ≡ (ok (5, 2 ∷ []), 6 ∷ 7 ∷ [])
unfolding dial_fastest race_loop drain
raced = refl

dial_fastest-Accounted_example : Accounted (5 ∷ 6 ∷ 7 ∷ []) (dial_fastest 4 arrivals)
unfolding connections
dial_fastest-Accounted_example = dial_fastest-Accounted 4 arrivals (
  ((λ e. omega (arith, e)), ((λ e. omega (arith, e)), tt)),
  (((λ e. omega (arith, e)), tt), (tt, tt)),
)

race_loop_waits_example :
    (race_loop 3 start
      (connected (2 ∷ []) 5 ∷ failed (1 ∷ []) 9 ∷ failed (3 ∷ []) 8 ∷ deadline ∷ [])).1
    ≡ deadline ∷ []
race_loop_waits_example =
    race_loop_waits (2 ∷ []) 5 ((1 ∷ [], 9) ∷ (3 ∷ [], 8) ∷ []) (deadline ∷ [])

-- A network where the host that is announced does not answer, and the peer is listed
-- with one address that does.
abbrev announced : Announcement
announced = record { id = codes "cc-B"; name = []; port = 1; fingerprint = []; endpoint = 1 ∷ [] }

abbrev network : Network
network = record {
  datagrams = λ target. some (
      some (record {
        magic_text = magic;
        kind = codes "found";
        announcement = some announced;
        id = [];
      })
      ∷ []);
  dial = λ endpoint. none;
  lookup = λ target. some (record {
    id = target;
    online = true;
    fingerprint = 4 ∷ [];
    version = 2;
    last_seen = 0;
    expires_at = 9;
    candidates =
        record {
          kind = codes "host";
          transport = codes "tcp";
          address = 8 ∷ [];
          port = some 80;
          priority = 100;
        }
        ∷ [];
  });
  arrivals = λ endpoints. connected (8 ∷ 80 ∷ []) 3 ∷ [];
  relay_dial = λ id. some 4;
  join_host_port = λ host port. host ++ (port ∷ []);
  address_family = λ endpoint. codes "IPv4";
}

abbrev direct : Outcome
direct = record {
  conn = 3;
  path = path_direct;
  detail = codes "IPv4";
  host_id = codes "cc-B";
  fingerprint = 4 ∷ [];
}

joined : join network (codes "cc-B") none ≡ ok direct
unfolding join try_lan find find_loop found was_seen lookup insert join_listed try_direct
    tcp_endpoints dial_fastest race_loop
joined = refl

abbrev relayed : Outcome
relayed = record direct { conn = 4; path = path_relay; detail = codes "relay" }

joined_by_relay : join network (codes "cc-B") (some path_relay) ≡ ok relayed
unfolding join try_lan join_listed try_direct try_relay
joined_by_relay = refl

join-For_example :
    (codes "cc-B" ≡ codes "cc-B") × ((p : Transport) → some path_relay ≡ some p → path_relay ≡ p)
join-For_example = join-For network (codes "cc-B") (some path_relay) joined_by_relay
