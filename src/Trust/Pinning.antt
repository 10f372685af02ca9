-- ===== src/Trust/Pinning.antt =====
-- What the trust store of internal/auth/trust.go keeps over any run of its operations.
use cmd_chat.Prelude.{
  ◌==◌, Bool-cases, Option-cases, length, All, bytes_beq, bytes_beq_iff, nat_eq, bytes_eq, Bytes,
  err, ℕ, ◌≡◌, refl, ◌∙◌, ◌≢◌, ◌⊎◌, inl, inr, false, ◌||◌, none, some, List, [], ◌∷◌, arith,
}
use cmd_chat.Prelude.Map.{lookup, insert, lookup-insert, lookup-delete}
use cmd_chat.Trust.{key_changed, Record, Store, Files, known, trust, authorize, forget}

-- A call of a method that changes the store, with the time of the call.
pub data Call : Type 0 where
  authorizing : (id public_key : Bytes) (now : ℕ) → Call
  forgetting : (id : Bytes) → Call

-- A call that is no `Forget` of an ID.
abbrev pub Keeps : Bytes → Call → Type 0
Keeps id (authorizing _ _ _) = Unit
Keeps id (forgetting other) = other ≢ id

module _ (files : Files) where
  abbrev pub call : Call → Store → Store
  call (authorizing id key now) s = (authorize files s id key now).1
  call (forgetting id) s = (forget files s id).1

  abbrev pub run : List Call → Store → Store
  run [] s = s
  run (c ∷ cs) s = run cs (call c s)

  -- One record follows another of the same key and first sighting.
  pub record Continues (s' : Store) (id : Bytes) (r : Record) : Type 0 where
    pub now_known : Record
    pub is_known : known s' id ≡ some now_known
    pub same_key : now_known.public_key ≡ r.public_key
    pub same_first : now_known.first_seen ≡ r.first_seen

  unchanged : (s : Store) (id : Bytes) (r : Record) → known s id ≡ some r → Continues s id r
  unchanged s id r h = record { now_known = r; is_known = h; same_key = refl; same_first = refl }

  -- A stored record in the place of another ID is not seen, and in its own it is what is seen.
  stored-Continues :
      (s : Store) (other id : Bytes) (old new r : Record) (path : Bytes)
      → known s id ≡ some r
      → (known s other ≡ none) ⊎ (known s other ≡ some old)
      → (new.public_key ≡ old.public_key) × (new.first_seen ≡ old.first_seen)
      → Continues (record { peers = insert other new s.peers; path = path }) id r
  unfolding known
  stored-Continues s other id old new r path h was same = elim (Bool-cases (bytes_beq other id)) [
    | inl e ↦
        let here : other ≡ id = (bytes_beq_iff other id).0 e in
        let old_is_r : r ≡ old = ground (arith, was, h, here) in
        record {
          now_known = new;
          is_known = rw (lookup-insert other id new s.peers, e) refl;
          same_key = ground (arith, same, old_is_r);
          same_first = ground (arith, same, old_is_r);
        }
    | inr e ↦ unchanged _ id r (rw (known, lookup-insert other id new s.peers, e) h)
  ]

  trust-Continues :
      (s : Store) (other key id : Bytes) (now : ℕ) (r : Record)
      → known s id ≡ some r
      → Continues (trust files s other key now).1 id r
  unfolding trust known
  trust-Continues s other key id now r h =
      elim (Bool-cases (length other == 0 || length key == 0)) [
        | inl e ↦ rw e (unchanged s id r h)
        | inr e ↦ elim (Option-cases (lookup other s.peers)) [
          | inl absent ↦
              rw (e, absent)
                (let new : Record = record {
                  public_key = key;
                  first_seen = now;
                  last_seen = now;
                } in
                  stored-Continues s other id new new r s.path h (inl absent) (refl, refl))
          | inr (old, present) ↦ elim (Bool-cases (bytes_beq old.public_key key)) [
            | inl same ↦
                rw (e, present, same)
                  (stored-Continues s other id old (record old { last_seen = now }) r s.path h
                    (inr present) (refl, refl))
            | inr other_key ↦ rw (e, present, other_key) (unchanged s id r h)
          ]
        ]
      ]

  forget-Continues :
      (s : Store) (other id : Bytes) (r : Record)
      → other ≢ id
      → known s id ≡ some r
      → Continues (forget files s other).1 id r
  unfolding known forget
  forget-Continues s other id r k h = unchanged _ id r (
      rw (known, lookup-delete other id s.peers)
        (let e : bytes_beq other id ≡ false = ground (arith, bytes_beq_iff other id) in rw e h))

  call-Continues :
      (c : Call) (s : Store) (id : Bytes) (r : Record)
      → Keeps id c
      → known s id ≡ some r
      → Continues (call c s) id r
  unfolding authorize
  call-Continues (authorizing other key now) s id r k h =
      trust-Continues s other (files.base64 key) id now r h
  call-Continues (forgetting other) s id r k h = forget-Continues s other id r k h

  run-Continues :
      (cs : List Call) (s : Store) (id : Bytes) (r : Record)
      → All (Keeps id) cs
      → known s id ≡ some r
      → Continues (run cs s) id r
  run-Continues [] s id r a h = unchanged s id r h
  run-Continues (c ∷ cs) s id r (k, a) h =
      let one = call-Continues c s id r k h in
      let rest = run-Continues cs (call c s) id one.now_known a one.is_known in
      record {
        now_known = rest.now_known;
        is_known = rest.is_known;
        same_key = rest.same_key ∙ one.same_key;
        same_first = rest.same_first ∙ one.same_first;
      }

  -- Another key for a known ID is refused, and nothing is changed.
  pub trust_refused :
      (s : Store) (id key : Bytes) (now : ℕ) (r : Record)
      → known s id ≡ some r
      → length id ≢ 0
      → length key ≢ 0
      → key ≢ r.public_key
      → trust files s id key now ≡ (err (key_changed r.first_seen), s)
  unfolding trust known
  trust_refused s id key now r h i k d =
      let no_key : bytes_beq r.public_key key ≡ false =
        ground (arith, bytes_beq_iff r.public_key key) in
      let texts : (length id == 0 || length key == 0) ≡ false = ground arith in
      rw (texts, h, no_key) refl

  -- Whatever calls follow, as long as the ID is not forgotten, its record keeps the key and the
  -- first sighting, and authorizing another key for it is refused and changes nothing.
  pub run_pinned :
      (cs : List Call) (s : Store) (id : Bytes) (r : Record)
      → All (Keeps id) cs
      → known s id ≡ some r
      → Continues (run cs s) id r
        × ((public_key : Bytes) (now : ℕ)
            → length id ≢ 0
            → length (files.base64 public_key) ≢ 0
            → files.base64 public_key ≢ r.public_key
            → authorize files (run cs s) id public_key now
              ≡ (err (key_changed r.first_seen), run cs s))
  unfolding authorize
  run_pinned cs s id r a h =
      let c = run-Continues cs s id r a h in
      (
        c,
        λ public_key now i k d. rw (← c.same_first) (
            trust_refused (run cs s) id (files.base64 public_key) now c.now_known c.is_known i k
              (λ e. d (e ∙ c.same_key))),
      )
