-- ===== src/Trust.antt =====
-- The trust store of internal/auth/trust.go. Base64, JSON and the file system are parameters; a
-- time is a number, the zero time is 0. The lock is not modelled: each method runs alone.
pub mod Pinning
mod Tests
use cmd_chat.Prelude.{
  ◌==◌, if◌then◌else◌, length, Result, eq, bytes_beq, nat_eq, bytes_eq, Bytes, ok, err, ℕ, zero,
  ◌-◌, ◌/◌, ap, Bool, false, not, ◌||◌, Option, none, some, List, [], ◌∷◌,
}
use cmd_chat.Prelude.Map.{lookup, insert, delete}

pub data Error : Type 0 where
  invalid_identity : Error
  -- With the time at which the remembered key was first seen.
  key_changed : ℕ → Error
  not_saved : Error

pub record Record : Type 0 where
  pub public_key : Bytes
  pub first_seen : ℕ
  pub last_seen : ℕ

abbrev pub Peers : Type 0
Peers = List (Bytes × Record)

pub record Store : Type 0 where
  pub peers : Peers
  pub path : Bytes

-- What the store calls: base64; writing a file, which may fail; reading one; the two shapes of a
-- file, where a missing field is `some none`.
pub record Files : Type 0 where
  pub base64 : Bytes → Bytes
  pub write_file : Bytes → Peers → Bool
  pub read_file : Bytes → Option Bytes
  pub unmarshal : Bytes → Option (Option Peers)
  pub unmarshal_legacy : Bytes → Option (List (Bytes × Bytes))

-- The loop over a version 1 file.
unfoldable pub adopt_legacy : List (Bytes × Bytes) → Peers → Peers
adopt_legacy [] peers = peers
adopt_legacy ((id, key) ∷ rest) peers =
    adopt_legacy rest (insert id (record { public_key = key; first_seen = 0; last_seen = 0 }) peers)

unfoldable pub known : Store → Bytes → Option Record
known s id = lookup id s.peers

unfoldable pub is_trusted : Store → Bytes → Bytes → Bool
is_trusted s id key = elim (lookup id s.peers) [
  | none ↦ false
  | some r ↦ bytes_beq r.public_key key
]

module _ (files : Files) where
  -- The file's peers, if it has the current shape.
  unfoldable pub current_peers : Bytes → Option Peers
  current_peers text = elim (files.unmarshal text) [ none ↦ none | some peers ↦ peers ]

  unfoldable pub load_from : Bytes → Store
  load_from path = elim (files.read_file path) [
    | none ↦ record { peers = []; path = path }
    | some text ↦ record {
      peers = elim (current_peers text) [
        | some peers ↦ peers
        | none ↦ elim (files.unmarshal_legacy text) [ none ↦ [] | some old ↦ adopt_legacy old [] ]
      ];
      path = path;
    }
  ]

  unfoldable pub save_locked : Store → Result Error (Unit {0})
  save_locked s =
      if length s.path == 0
      then ok tt
      else if files.write_file s.path s.peers
      then ok tt
      else err not_saved

  -- The outcome and the store, which has changed also where it could not be saved.
  unfoldable pub trust : Store → Bytes → Bytes → ℕ → Result Error (Unit {0}) × Store
  trust s id key now =
      if length id == 0 || length key == 0
      then (err invalid_identity, s)
      else elim (lookup id s.peers) [
        | none ↦
            let r : Record = record { public_key = key; first_seen = now; last_seen = now } in
            let s' = record s { peers = insert id r s.peers } in (save_locked s', s')
        | some existing ↦
            let s' = record s { peers = insert id (record existing { last_seen = now }) s.peers } in
            if not (bytes_beq existing.public_key key)
            then (err (key_changed existing.first_seen), s)
            else (save_locked s', s')
      ]

  unfoldable pub authorize : Store → Bytes → Bytes → ℕ → Result Error (Unit {0}) × Store
  authorize s id public_key now = trust s id (files.base64 public_key) now

  unfoldable pub forget : Store → Bytes → Result Error (Unit {0}) × Store
  forget s id = let s' = record s { peers = delete id s.peers } in (save_locked s', s')
