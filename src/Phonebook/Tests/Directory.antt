-- ===== src/Phonebook/Tests/Directory.antt =====
-- The directory at concrete inputs, over stand-ins for the libraries.
use cmd_chat.Prelude.{
  ◌==◌, if◌then◌else◌, length, get_or, take, drop, replicate, length-append, take-append, Result,
  bytes_beq, nat_eq, bytes_eq, Bytes, codes, encode_to_string, ok, err, ℕ, ◌+◌, ◌-◌, ◌≡◌, refl, ap,
  subst, ◌∙◌, true, Option, none, some, [], ◌∷◌, ◌++◌, arith,
}
use cmd_chat.E2ee.Crypto.Toy.{crypto}
use cmd_chat.Connect.{Peer}
use cmd_chat.Phonebook.{valid_id, all_base32, is_base32, next_issued_at}
use cmd_chat.Phonebook.Handle.{
  Error, Entry, Libraries, Announcement, announced_version, associated_data, handle_of, derive,
  entry_key, seal, open_entry, seal_announcement, names_other, mismatch, invalid_id, write_key,
}
use cmd_chat.Phonebook.Handle.Sealing.{LibraryLaws, IsCarried}
use cmd_chat.Phonebook.Directory.{
  Client, Remote, itoa, digits_before, fetch, interpret, refusal, lookup_peer, or_mismatch,
  unregister, do_signed, sign_body, client_write_key, sign_request, join_lines,
}
use cmd_chat.Phonebook.Directory.Lookup.{
  IsListed, lookup_peer-IsListed, lookup_peer-seal_announcement, announced_entry,
}

-- JSON that carries the ID, the fingerprint and the version of an entry.
abbrev marshal_entry : Entry → Option Bytes
marshal_entry e = some ((length e.id ∷ e.id) ++ (e.protocol_version ∷ e.fingerprint))

abbrev unmarshal_body : ℕ → Bytes → Option Entry
unmarshal_body n s = some (record {
  id = take n s;
  protocol_version = get_or s n 0;
  fingerprint = drop (n + 1) s;
  client_version = [];
  candidates = [];
})

abbrev unmarshal_entry : Bytes → Option Entry
unmarshal_entry [] = none
unmarshal_entry (n ∷ s) = unmarshal_body n s

abbrev libraries : Libraries
libraries = record {
  seal_x = λ k n p ad. p ++ replicate 16 0;
  open_x = λ k n p ad. some (take (length p - 16) p);
  base64 = λ b. b;
  base64_decode = some;
  marshal_entry = marshal_entry;
  unmarshal_entry = unmarshal_entry;
  public_of = λ b. b;
  sign = λ k m. m;
  to_lower = λ b. b;
}

abbrev bob : Bytes
bob = codes "cc-ABCDEFGHIJKLMNOP"

abbrev announcement : Announcement
announcement = record { fingerprint = codes "ab"; candidates = []; protocol_version = 0 }

-- What bob publishes.
published : Result Error (Bytes × Bytes)
published = seal_announcement crypto libraries bob announcement [] (replicate 24 9)

library_laws : LibraryLaws libraries
library_laws = record {
  open_x-seal_x = λ k n p ad. ap some (cut p);
  length-seal_x = λ k n p ad. length-append p (replicate 16 0);
  base64_decode-base64 = λ b. refl;
}
  where
    cut : (p : Bytes) → take (length (p ++ replicate 16 0) - 16) (p ++ replicate 16 0) ≡ p
    cut p =
        ap (λ (n : ℕ). take n (p ++ replicate 16 0))
          (omega (arith, length-append p (replicate 16 0)))
        ∙ take-append (length p) p (replicate 16 0) refl

-- A directory that holds the text for the row of a handle, and answers for it alone.
abbrev remote : Bytes → Bytes → Remote
remote row sealed = record {
  http = λ request.
      if bytes_beq request.url (codes "/v2/entry/" ++ row)
      then some (record { status = 200; body = 1 ∷ sealed })
      else some (record { status = 404; body = 0 ∷ codes "not_found" });
  marshal_payload = λ p. p.handle;
  unmarshal_envelope =
      λ b. some (record { is_ok = get_or b 0 0 == 1; error = drop 1 b; message = [] });
  unmarshal_registration = λ b. none;
  unmarshal_listing =
      λ b. some (record { sealed = drop 1 b; online = true; last_seen = 5; expires_at = 6 });
}

abbrev guest : Client
guest = record {
  base_url = [];
  id = codes "cc-AAAAAAAAAAAAAAAA";
  private_key = replicate 64 1;
  derived_write_key = none;
  client_version = codes "0.1.0";
  last_issued_at = 0;
}

abbrev row_of : Result Error (Bytes × Bytes) → Bytes × Bytes
row_of (ok t) = t
row_of (err e) = ([], [])

-- Bob's row, and the directory that has it.
row : Bytes × Bytes
unfolding published
row = row_of published

abbrev directory : Remote
directory = remote row.0 row.1

some_injective {ℓ} : {A : Type ℓ} {a b : A} → some a ≡ some b → a ≡ b
some_injective h = cc

carried : IsCarried libraries (announced_entry crypto libraries directory bob announcement [])
unfolding announced_version
carried p e =
    subst
      (λ (q : Bytes).
        unmarshal_entry q ≡ some (announced_entry crypto libraries directory bob announcement []))
      (some_injective e) refl

lookup_peer-seal_announcement_example :
    lookup_peer crypto libraries directory guest bob
    ≡ ok (record {
      id = bob;
      online = true;
      fingerprint = codes "ab";
      version = 1;
      last_seen = 5;
      expires_at = 6;
      candidates = [];
    })
unfolding row published seal_announcement seal handle_of entry_key derive crypto valid_id all_base32
    is_base32 associated_data announced_version fetch interpret
lookup_peer-seal_announcement_example =
    lookup_peer-seal_announcement crypto libraries directory guest bob announcement []
      (replicate 24 9) row.0 row.1 (1 ∷ row.1)
      (record { sealed = row.1; online = true; last_seen = 5; expires_at = 6 }) library_laws carried
      refl refl refl refl refl

bob_found : Peer
bob_found = record {
  id = bob;
  online = true;
  fingerprint = codes "ab";
  version = 1;
  last_seen = 5;
  expires_at = 6;
  candidates = [];
}

lookup_peer-IsListed_example : IsListed crypto libraries directory guest bob bob_found
unfolding row published seal_announcement seal handle_of entry_key derive crypto valid_id all_base32
    is_base32 associated_data announced_version fetch interpret lookup_peer or_mismatch open_entry
    bob_found
lookup_peer-IsListed_example = lookup_peer-IsListed crypto libraries directory guest bob refl

-- Bob's entry is not believed for someone else, here where the stand-in gives all IDs one row.
misplaced : open_entry crypto libraries guest.id row.0 row.1 ≡ err names_other
unfolding row published seal_announcement seal handle_of entry_key derive crypto valid_id all_base32
    is_base32 associated_data announced_version open_entry
misplaced = refl

stranger : lookup_peer crypto libraries directory guest guest.id ≡ err mismatch
unfolding row published seal_announcement seal handle_of entry_key derive crypto valid_id all_base32
    is_base32 associated_data announced_version fetch interpret refusal lookup_peer or_mismatch
    open_entry
stranger = refl

not_an_id : lookup_peer crypto libraries directory guest (codes "cc-1") ≡ err invalid_id
unfolding lookup_peer valid_id
not_an_id = refl

-- Removing what is not there succeeds.
removed : (unregister crypto libraries directory guest 7).0 ≡ ok tt
unfolding unregister do_signed sign_body client_write_key sign_request join_lines fetch interpret
    refusal row published seal_announcement seal handle_of entry_key derive crypto valid_id
    all_base32 is_base32 associated_data announced_version next_issued_at itoa digits_before
    encode_to_string write_key
removed = refl

port : itoa 8080 ≡ codes "8080"
unfolding itoa digits_before
port = refl
