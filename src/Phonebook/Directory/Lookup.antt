-- ===== src/Phonebook/Directory/Lookup.antt =====
-- Looking a peer up: only its own entry is believed, and what its host published is found.
use cmd_chat.Prelude.{
  or_fail, >>=-eq-ok, refuse_if-eq-ok, or_fail-eq-ok, ok-injective, Result, nat_eq, bytes_eq, Bytes,
  codes, ok, err, ◌≡◌, refl, sym, ap, ◌∙◌, true, not, none, some, ◌++◌, arith,
}
use cmd_chat.E2ee.Crypto.{Crypto}
use cmd_chat.Connect.{Peer}
use cmd_chat.Phonebook.{valid_id}
use cmd_chat.Phonebook.Handle.{
  Error, Entry, Libraries, Announcement, announced_version, handle_of, seal, seal_announcement,
  open_entry, invalid_id, local_fault, offline,
}
use cmd_chat.Phonebook.Handle.Sealing.{
  LibraryLaws, IsCarried, IsOpened, open_entry_sound, open_entry-seal,
}
use cmd_chat.Phonebook.Directory.{Client, Remote, Listing, fetch, or_mismatch, lookup_peer}

module _ (c : Crypto) (l : Libraries) (r : Remote) where
  or_mismatch-eq-ok {ℓ} :
      {A : Type ℓ} (m : Result Error A) {a : A} → or_mismatch c l r m ≡ ok a → m ≡ ok a
  unfolding or_mismatch
  or_mismatch-eq-ok (ok b) h = ap ok (ok-injective h)
  or_mismatch-eq-ok (err e) h = cc h

  -- What a peer that was looked up comes from.
  pub record IsListed (k : Client) (id : Bytes) (p : Peer) : Type 0 where
    pub handle : Bytes
    pub answer : Bytes
    pub listing : Listing
    pub entry : Entry
    pub blinded : handle_of c l id ≡ ok handle
    pub answered : fetch c l r k (codes "GET") (codes "/v2/entry/" ++ handle) none ≡ ok answer
    pub read : r.unmarshal_listing answer ≡ some listing
    pub online : listing.online ≡ true
    pub opened : IsOpened c l id handle listing.sealed entry
    pub peer_is : p ≡ record {
      id = id;
      online = true;
      fingerprint = entry.fingerprint;
      version = entry.protocol_version;
      last_seen = listing.last_seen;
      expires_at = listing.expires_at;
      candidates = entry.candidates;
    }

  -- Whatever the directory answers, a peer that Lookup gives has the ID that was asked for and comes
  -- from an entry that opened under the key of that ID, for the row of that ID, and names that ID;
  -- the request is unsigned, without a body, and for the blinded row.
  pub lookup_peer-IsListed :
      (k : Client) (id : Bytes) {p : Peer} → lookup_peer c l r k id ≡ ok p → IsListed k id p
  unfolding lookup_peer
  lookup_peer-IsListed k id {p} h =
      let (_, h1) = refuse_if-eq-ok (not (valid_id id)) invalid_id _ h in
      let (handle, e2, h2) = >>=-eq-ok (handle_of c l id) _ h1 in
      let (answer, e3, h3) =
        >>=-eq-ok (fetch c l r k (codes "GET") (codes "/v2/entry/" ++ handle) none) _ h2 in
      let (listing, e4, h4) = >>=-eq-ok (or_fail (r.unmarshal_listing answer) local_fault) _ h3 in
      let (on, h5) = refuse_if-eq-ok (not listing.online) offline _ h4 in
      let (entry, e6, h6) =
        >>=-eq-ok (or_mismatch c l r (open_entry c l id handle listing.sealed)) _ h5 in
      record {
        handle = handle;
        answer = answer;
        listing = listing;
        entry = entry;
        blinded = e2;
        answered = e3;
        read = or_fail-eq-ok (r.unmarshal_listing answer) local_fault e4;
        online = ground (arith, on);
        opened =
            open_entry_sound c l id handle listing.sealed
              (or_mismatch-eq-ok (open_entry c l id handle listing.sealed) e6);
        peer_is = sym (ok-injective h6);
      }

  abbrev pub announced_entry : Bytes → Announcement → Bytes → Entry
  announced_entry id a client_version = record {
    id = id;
    fingerprint = l.to_lower a.fingerprint;
    protocol_version = announced_version a.protocol_version;
    client_version = client_version;
    candidates = a.candidates;
  }

  seal_announcement_sound :
      (id : Bytes) (a : Announcement) (client_version random : Bytes) {handle sealed : Bytes}
      → seal_announcement c l id a client_version random ≡ ok (handle, sealed)
      → (valid_id id ≡ true)
        × (handle_of c l id ≡ ok handle)
        × (seal c l id handle (announced_entry id a client_version) random ≡ ok sealed)
  unfolding seal_announcement
  seal_announcement_sound id a client_version random {handle} {sealed} h =
      let (valid, h1) = refuse_if-eq-ok (not (valid_id id)) invalid_id _ h in
      let (found, e2, h2) = >>=-eq-ok (handle_of c l id) _ h1 in
      let (text, e3, h3) =
        >>=-eq-ok (seal c l id found (announced_entry id a client_version) random) _ h2 in
      let both : ◌≡◌ {A = Bytes × Bytes} (found, text) (handle, sealed) = ok-injective h3 in
      (
        ground (arith, valid),
        e2 ∙ ap (λ (t : Bytes × Bytes). ok t.0) both,
        ap (λ (t : Bytes × Bytes). seal c l id t.0 (announced_entry id a client_version) random)
              (sym both)
            ∙ (e3 ∙ ap (λ (t : Bytes × Bytes). ok t.1) both),
      )

  -- What a host seals for its own ID is what a guest finds that looks this ID up, if the directory
  -- gives the sealed text back for the row that it was sealed for and says that the host is there, and
  -- JSON carries the entry.
  pub lookup_peer-seal_announcement :
      (guest : Client) (id : Bytes) (a : Announcement) (client_version random : Bytes)
      (handle sealed answer : Bytes) (listing : Listing)
      → LibraryLaws l
      → IsCarried l (announced_entry id a client_version)
      → seal_announcement c l id a client_version random ≡ ok (handle, sealed)
      → fetch c l r guest (codes "GET") (codes "/v2/entry/" ++ handle) none ≡ ok answer
      → r.unmarshal_listing answer ≡ some listing
      → listing.sealed ≡ sealed
      → listing.online ≡ true
      → lookup_peer c l r guest id
        ≡ ok (record {
          id = id;
          online = true;
          fingerprint = l.to_lower a.fingerprint;
          version = announced_version a.protocol_version;
          last_seen = listing.last_seen;
          expires_at = listing.expires_at;
          candidates = a.candidates;
        })
  unfolding lookup_peer or_mismatch
  lookup_peer-seal_announcement guest id a client_version random handle sealed answer listing laws
        carried made answered read same on =
      let (valid, blinded, sealed_so) = seal_announcement_sound id a client_version random made in
      let opened =
        open_entry-seal c l id handle random (announced_entry id a client_version) laws carried refl
          sealed_so in
      rw (valid, blinded, answered, read, on, same, opened) refl
