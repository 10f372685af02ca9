-- ===== src/Phonebook/Directory.antt =====
-- The client of the directory: internal/phonebook/phonebook.go. A call of the HTTP library and the
-- JSON library are parameters, the clock and the randomness arguments; the lock is left out.
pub mod Lookup
pub mod Decimal
use cmd_chat.Prelude.{
  ◌==◌, if◌then◌else◌, length, take, ◌>>=◌, ◌>>◌, refuse_if, or_fail, Result, eq, bytes_beq, nat_eq,
  bytes_eq, Bytes, codes, encode_to_string, ok, err, ℕ, zero, suc, ◌+◌, ◌-◌, ◌*◌, ◌/◌, ◌%◌, ◌^◌, ap,
  Bool, true, not, ◌&&◌, Option, none, some, List, [], ◌∷◌, ◌++◌,
}
use cmd_chat.E2ee.Crypto.{Crypto}
use cmd_chat.Connect.{Peer}
use cmd_chat.Phonebook.{Candidate, next_issued_at, valid_id}
use cmd_chat.Phonebook.Handle.{
  Error, Libraries, Announcement, announced_version, handle_of, write_key, seal_announcement,
  open_entry, no_candidates, not_found, offline, not_registered, handle_claimed, outdated, mismatch,
  unreachable, malformed_response, api_error, invalid_id, local_fault,
}

-- The loop of `itoa`, which is also what strconv.FormatInt gives for a number that is not negative:
-- the digits of `v` before the ones that are there, for at most as many turns as there is fuel.
unfoldable pub digits_before : ℕ → ℕ → Bytes → Bytes
digits_before zero v buf = buf
digits_before (suc fuel) v buf =
    let more = digits_before fuel (v / 10) ((48 + v % 10) ∷ buf) in if v == 0 then buf else more

unfoldable pub itoa : ℕ → Bytes
itoa v = if v == 0 then codes "0" else digits_before v v []

abbrev pub signing_prefix : Bytes
signing_prefix = codes "cmd-chat-phonebook/v2"

abbrev pub max_response_size : ℕ
max_response_size = 64 * 2 ^ 10

-- `Client`, with the ID and the private key of its identity.
pub record Client : Type 0 where
  pub base_url : Bytes
  pub id : Bytes
  pub private_key : Bytes
  pub derived_write_key : Option Bytes
  pub client_version : Bytes
  pub last_issued_at : ℕ

-- The object that is sent; `sealed` is there when something is published.
pub record Payload : Type 0 where
  pub sealed : Option Bytes
  pub handle : Bytes
  pub write_key : Bytes
  pub issued_at : ℕ

-- A request; a body comes with the content type and the signature.
pub record Request : Type 0 where
  pub method : Bytes
  pub url : Bytes
  pub signed_body : Option (Bytes × Bytes)

pub record Response : Type 0 where
  pub status : ℕ
  pub body : Bytes

-- `apiEnvelope`
pub record Envelope : Type 0 where
  pub is_ok : Bool
  pub error : Bytes
  pub message : Bytes

pub record Registration : Type 0 where
  pub id : Bytes
  pub expires_at : ℕ
  pub heartbeat_interval : ℕ

-- The answer to a lookup.
pub record Listing : Type 0 where
  pub sealed : Bytes
  pub online : Bool
  pub last_seen : ℕ
  pub expires_at : ℕ

-- `HTTP.Do` with reading the body, and JSON.
pub record Remote : Type 0 where
  pub http : Request → Option Response
  pub marshal_payload : Payload → Bytes
  pub unmarshal_envelope : Bytes → Option Envelope
  pub unmarshal_registration : Bytes → Option Registration
  pub unmarshal_listing : Bytes → Option Listing

-- `strings.Join(parts, "\n")`
unfoldable pub join_lines : List Bytes → Bytes
join_lines [] = []
join_lines (a ∷ []) = a
join_lines (a ∷ b ∷ parts) = a ++ (10 ∷ join_lines (b ∷ parts))

unfoldable pub has_prefix : Bytes → Bytes → Bool
has_prefix text prefix = bytes_beq (take (length prefix) text) prefix

-- The seconds between heartbeats.
unfoldable pub heartbeat_interval_of : Registration → ℕ
heartbeat_interval_of r = if r.heartbeat_interval == 0 then 60 else r.heartbeat_interval

-- The error of an answer that is not OK.
unfoldable pub refusal : Bytes → ℕ → Envelope → Error
refusal path status e =
    if bytes_beq e.error (codes "not_found")
    then not_found
    else if bytes_beq e.error (codes "offline")
    then offline
    else if bytes_beq e.error (codes "not_registered")
    then not_registered
    else if bytes_beq e.error (codes "handle_claimed")
    then handle_claimed
    else if status == 404 && has_prefix path (codes "/v2/")
    then outdated
    else api_error status e.error e.message

module _ (c : Crypto) (l : Libraries) (r : Remote) where
  -- `writeKey`, which is derived once.
  unfoldable pub client_write_key : Client → Result Error (Bytes × Client)
  client_write_key k = elim k.derived_write_key [
    | some key ↦ ok (key, k)
    | none ↦ do
      key ← write_key c l k.private_key
      ok (key, record k { derived_write_key = some key })
  ]

  -- `sign`, under the write key; the methods are capital already.
  unfoldable pub sign_request : Bytes → Bytes → Bytes → ℕ → Bytes → Bytes
  sign_request key method path issued_at body = l.base64 (
      l.sign key (
        join_lines (
          signing_prefix ∷ method ∷ path ∷ itoa issued_at ∷ encode_to_string (c.sha256 body) ∷ [])))

  -- The part of `do` that makes a body.
  unfoldable pub sign_body :
      Client → Bytes → Bytes → Option Bytes → ℕ → Result Error ((Bytes × Bytes) × Client)
  sign_body k method path sealed now = do
    handle ← handle_of c l k.id
    (key, k) ← client_write_key k
    let issued_at = next_issued_at k.last_issued_at now
    let k = record k { last_issued_at = issued_at }
    let body = r.marshal_payload (record {
      sealed = sealed;
      handle = handle;
      write_key = l.base64 (l.public_of key);
      issued_at = issued_at;
    })
    ok ((body, sign_request key method path issued_at body), k)

  -- What `do` makes of the answer.
  unfoldable pub interpret : Bytes → Option Response → Result Error Bytes
  interpret path none = err unreachable
  interpret path (some res) = do
    let text = take max_response_size res.body
    e ← or_fail (r.unmarshal_envelope text) malformed_response
    refuse_if (not e.is_ok) (refusal path res.status e)
    ok text

  unfoldable pub fetch : Client → Bytes → Bytes → Option (Bytes × Bytes) → Result Error Bytes
  fetch k method path signed =
      interpret path
        (r.http (record { method = method; url = k.base_url ++ path; signed_body = signed }))

  -- `do` with a payload; the client has its new time stamp also when the directory refuses.
  unfoldable pub do_signed : Client → Bytes → Bytes → Option Bytes → ℕ → Result Error Bytes × Client
  do_signed k method path sealed now = elim (sign_body k method path sealed now) [
    | err e ↦ (err e, k)
    | ok signed ↦ (fetch signed.1 method path (some signed.0), signed.1)
  ]

  unfoldable pub registered : Client → Result Error Bytes → Result Error Registration
  registered k answer = do
    text ← answer
    out ← or_fail (r.unmarshal_registration text) local_fault
    ok (record out { id = k.id })

  unfoldable pub register : Client → Announcement → Bytes → ℕ → Result Error Registration × Client
  register k a random now =
      let a' = record a { protocol_version = announced_version a.protocol_version } in
      if length a.candidates == 0
      then (err no_candidates, k)
      else elim (seal_announcement c l k.id a' k.client_version random) [
        | err e ↦ (err e, k)
        | ok announced ↦
            let (answer, k') =
              do_signed k (codes "POST") (codes "/v2/publish") (some announced.1) now in
            (registered k answer, k')
      ]

  unfoldable pub heartbeat : Client → ℕ → Result Error Registration × Client
  heartbeat k now =
      let (answer, k') = do_signed k (codes "POST") (codes "/v2/touch") none now in
      (registered k answer, k')

  abbrev entry_path : Bytes → Bytes
  entry_path handle = codes "/v2/entry/" ++ handle

  -- An entry that is not there is as good as removed.
  unfoldable pub unregister : Client → ℕ → Result Error (Unit {0}) × Client
  unregister k now = elim (handle_of c l k.id) [
    | err e ↦ (err e, k)
    | ok handle ↦
        let (answer, k') = do_signed k (codes "DELETE") (entry_path handle) none now in
        (elim answer [ ok _ ↦ ok tt | err not_found ↦ ok tt | err e ↦ err e ], k')
  ]

  unfoldable pub or_mismatch {ℓ} : {A : Type ℓ} → Result Error A → Result Error A
  or_mismatch (ok a) = ok a
  or_mismatch (err e) = err mismatch

  unfoldable pub lookup_peer : Client → Bytes → Result Error Peer
  lookup_peer k id = do
    refuse_if (not (valid_id id)) invalid_id
    handle ← handle_of c l id
    text ← fetch k (codes "GET") (entry_path handle) none
    response ← or_fail (r.unmarshal_listing text) local_fault
    refuse_if (not response.online) offline
    opened ← or_mismatch (open_entry c l id handle response.sealed)
    ok (record {
      id = id;
      online = true;
      fingerprint = opened.fingerprint;
      version = opened.protocol_version;
      last_seen = response.last_seen;
      expires_at = response.expires_at;
      candidates = opened.candidates;
    })

  -- One tick of KeepAlive: what is handed to `onError`, if something is. A registration that has
  -- lapsed is renewed.
  unfoldable pub keep_alive_tick :
      Client → ℕ → Option (Result Error (Unit {0})) → Option Error × Client
  keep_alive_tick k now renewal =
      let (answer, k') = heartbeat k now in
      (
        elim answer [
          | ok _ ↦ none
          | err not_registered ↦ elim renewal [
            | none ↦ some not_registered
            | some (ok _) ↦ none
            | some (err e) ↦ some e
          ]
          | err e ↦ some e
        ],
        k',
      )
