-- ===== src/Trust/Tests.antt =====
-- The trust store at concrete inputs.
use cmd_chat.Prelude.{
  ◌==◌, if◌then◌else◌, length, get_or, nat_eq, bytes_eq, Bytes, codes, err, ℕ, ◌≡◌, refl, ap, ◌≢◌,
  true, none, some, List, [], ◌∷◌, arith,
}
use cmd_chat.Prelude.Map.{lookup, insert}
use cmd_chat.Trust.{
  key_changed, Record, Store, Files, known, is_trusted, authorize, load_from, adopt_legacy,
  current_peers,
}
use cmd_chat.Trust.Pinning.{Call, authorizing, forgetting, run, Continues, run_pinned}

abbrev files : Files
files = record {
  base64 = λ b. 43 ∷ b;
  write_file = λ path peers. true;
  read_file = λ path. if length path == 3 then some (1 ∷ []) else none;
  unmarshal = λ text. none;
  unmarshal_legacy = λ text. some ((codes "cc-A", 43 ∷ 1 ∷ []) ∷ []);
}

abbrev store : Store
store = record {
  peers = (codes "cc-A", record { public_key = 43 ∷ 1 ∷ []; first_seen = 5; last_seen = 6 }) ∷ [];
  path = codes "peers";
}

abbrev alice : Record
alice = record { public_key = 43 ∷ 1 ∷ []; first_seen = 5; last_seen = 6 }

-- A file of the first version is read with the zero time.
legacy : is_trusted (load_from files (codes "old")) (codes "cc-A") (43 ∷ 1 ∷ []) ≡ true
unfolding is_trusted load_from current_peers adopt_legacy insert lookup
legacy = refl

abbrev calls : List Call
calls =
    authorizing (codes "cc-B") (7 ∷ []) 8
    ∷ authorizing (codes "cc-A") (2 ∷ []) 9
    ∷ forgetting (codes "cc-B")
    ∷ authorizing (codes "cc-A") (1 ∷ []) 10
    ∷ []

run_pinned_example :
    Continues files (run files calls store) (codes "cc-A") alice
    × ((public_key : Bytes) (now : ℕ)
        → length (codes "cc-A") ≢ 0
        → length (43 ∷ public_key) ≢ 0
        → (43 ∷ public_key) ≢ (43 ∷ 1 ∷ [])
        → authorize files (run files calls store) (codes "cc-A") public_key now
          ≡ (err (key_changed 5), run files calls store))
unfolding known lookup
run_pinned_example =
    run_pinned files calls store (codes "cc-A") alice
      (tt, (tt, ((λ e. omega (arith, ap (λ (b : Bytes). get_or b 3 0) e)), (tt, tt)))) refl
