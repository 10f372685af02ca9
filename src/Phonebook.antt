-- ===== src/Phonebook.antt =====
-- The phonebook client: the candidates of internal/phonebook/candidates.go, and nextIssuedAt and
-- ValidID of internal/phonebook/phonebook.go.
pub mod Candidates
pub mod Clock
pub mod Handle
pub mod Directory
mod Tests
use cmd_chat.Prelude.{
  ltb, leb, ◌==◌, if◌then◌else◌, length, take, drop, eq, bytes_beq, nat_eq, bytes_eq, Bytes, codes,
  ok, err, ℕ, ◌+◌, ◌-◌, ◌/◌, refl, ap, Bool, true, false, not, ◌&&◌, ◌||◌, Option, none, some, List,
  [], ◌∷◌, ◌++◌, map,
}

abbrev pub priority_host_lan : ℕ
priority_host_lan = 100

abbrev pub priority_host_routable : ℕ
priority_host_routable = 150

abbrev pub priority_server_reflexive : ℕ
priority_server_reflexive = 200

-- `Port` may be nil.
pub record Candidate : Type 0 where
  pub kind : Bytes
  pub transport : Bytes
  pub address : Bytes
  pub port : Option ℕ
  pub priority : ℕ

-- An address of this machine, with its text and `IsPrivate`.
pub record Address : Type 0 where
  pub text : Bytes
  pub is_private : Bool

-- What STUN gives: an error, no endpoint, or one.
pub data Mapping : Type 0 where
  stun_failed no_endpoint : Mapping
  endpoint : (address : Bytes) (port : ℕ) → Mapping

unfoldable pub host_candidate : ℕ → Address → Candidate
host_candidate tcp_port ip = record {
  kind = codes "host";
  transport = codes "tcp";
  address = ip.text;
  port = some tcp_port;
  priority = if not ip.is_private then priority_host_routable else priority_host_lan;
}

-- `stun` may be nil.
unfoldable pub reflexive_candidates : Option Mapping → List Candidate
reflexive_candidates none = []
reflexive_candidates (some stun_failed) = []
reflexive_candidates (some no_endpoint) = []
reflexive_candidates (some (endpoint address port)) =
    if length address == 0
    then []
    else record {
      kind = codes "server_reflexive";
      transport = codes "udp";
      address = address;
      port = some port;
      priority = priority_server_reflexive;
    }
      ∷ []

-- `sort.SliceStable` by decreasing priority.
unfoldable pub insert_by_priority : Candidate → List Candidate → List Candidate
insert_by_priority c [] = c ∷ []
insert_by_priority c (d ∷ ds) =
    let rest = insert_by_priority c ds in if ltb c.priority d.priority then d ∷ rest else c ∷ d ∷ ds

unfoldable pub sort_by_priority : List Candidate → List Candidate
sort_by_priority [] = []
sort_by_priority (c ∷ cs) = insert_by_priority c (sort_by_priority cs)

abbrev pub candidate_cap : ℕ
candidate_cap = 7

unfoldable pub gathered : ℕ → List Address → Option Mapping → List Candidate
gathered tcp_port addresses stun =
    map (host_candidate tcp_port) addresses ++ reflexive_candidates stun

-- `GatherCandidates`, with whether it also reports that STUN failed.
unfoldable pub gather_candidates : ℕ → List Address → Option Mapping → List Candidate × Bool
gather_candidates tcp_port addresses stun =
    let candidates = sort_by_priority (gathered tcp_port addresses stun) in
    (
      if ltb candidate_cap (length candidates) then take candidate_cap candidates else candidates,
      elim stun [ some stun_failed ↦ true | _ ↦ false ],
    )

-- `nextIssuedAt`: the time stamp, which is also what the client remembers, from the time that it
-- remembered and the clock's.
unfoldable pub next_issued_at : ℕ → ℕ → ℕ
next_issued_at last now = if leb now last then last + 1 else now

-- The characters of an ID after its prefix.
unfoldable pub is_base32 : ℕ → Bool
is_base32 r = leb b'A' r && leb r b'Z' || leb b'2' r && leb r b'7'

unfoldable pub all_base32 : Bytes → Bool
all_base32 [] = true
all_base32 (r ∷ rs) = if not (is_base32 r) then false else all_base32 rs

unfoldable pub valid_id : Bytes → Bool
valid_id id =
    if not (length id == 19) || not (bytes_beq (take 3 id) (codes "cc-"))
    then false
    else all_base32 (drop 3 id)
