-- ===== src/Identity/Keeping.antt =====
-- What is kept of an identity from one run of the program to the next.
use cmd_chat.Prelude.{
  ltb, ◌==◌, Bool-cases, length, ◌>>=◌, or_fail, >>=-eq-ok, refuse_if-eq-ok, ok-injective,
  Result-cases, Result, bytes_beq, nat_eq, bytes_eq, Bytes, ok, err, ◌≡◌, refl, sym, ap, subst, ◌∙◌,
  inl, inr, true, false, not, ◌||◌,
}
use cmd_chat.E2ee.Crypto.{Crypto}
use cmd_chat.Identity.{
  Identity, Error, Stored, store_version, Machine, File, holding, valid, preferred_protection,
  protected, verify_seal, to_write, save, unsealed, read_file, read_stored, identity_of, upgraded,
  load, generate, created, load_or_create, is_missing, inconsistent, no_path, write_failed,
  could_not_open, bad_public_key,
}
use cmd_chat.Identity.Sealing.{
  MachineLaws, IsGenuine, negated, valid-IsValid, protected-IsKept, identity_of-kept,
}

abbrev outcome : Result Error Identity × File → Result Error Identity
outcome r = r.0

module _ (c : Crypto) (m : Machine) where
  load_lem :
      (random : Bytes) (file : File)
      → (load c m random file).0 ≡ (read_stored c m file >>= identity_of c m)
  unfolding load
  load_lem random file = elim (Result-cases (read_stored c m file)) [
    | inl (e, r) ↦ rw (load, r) refl
    | inr (s, r) ↦ elim (Result-cases (identity_of c m s)) [
      | inl (e, o) ↦ rw (load, r, o) refl
      | inr (i, o) ↦ rw (load, r, o) refl
    ]
  ]

  -- When Save succeeds it leaves what Load gives back.
  written :
      (i : Identity) (random content : Bytes)
      → MachineLaws m
      → IsGenuine m i
      → to_write c m i random ≡ ok content
      → (read_stored c m (holding content) >>= identity_of c m) ≡ ok i
  unfolding to_write read_stored read_file
  written i random content laws g h =
      let (v, h) = refuse_if-eq-ok (not (valid c i)) inconsistent _ h in
      let (p, h) = refuse_if-eq-ok (not m.has_path) no_path _ h in
      let (s, e, h) = >>=-eq-ok (protected c m i random) _ h in
      let (u, sealed, h) = >>=-eq-ok (verify_seal c m s i) _ h in
      let (_, h) = refuse_if-eq-ok (not m.can_write) write_failed _ h in
      let v = negated _ v in
      rw
        (
          p,
          sym (ok-injective h),
          laws.unmarshal-marshal s,
          identity_of-kept c m s i laws v
              (protected-IsKept c m i random laws (valid-IsValid c m i v) g e sealed),
        )
        refl

  -- In the same environment, with base64 and JSON that read what they write, Load gives back what Save
  -- has stored, whatever the protection, if the private key is the one that its seed makes.
  pub load-save :
      (i : Identity) (random later : Bytes) (file : File)
      → MachineLaws m
      → IsGenuine m i
      → (save c m i random file).0 ≡ ok tt
      → (load c m later (save c m i random file).1).0 ≡ ok i
  unfolding save
  load-save i random later file laws g h = elim (Result-cases (to_write c m i random)) [
    | inl (e, w) ↦ absurd (cc (rw (save, w) at h))
    | inr (content, w) ↦
        rw (save, w, load_lem later (holding content), written i random content laws g w) refl
  ]

  -- Loading, which may write the file again, does not lose what it loads.
  load-again :
      (i : Identity) (random later : Bytes) (file : File)
      → MachineLaws m
      → IsGenuine m i
      → (load c m random file).0 ≡ ok i
      → (load c m later (load c m random file).1).0 ≡ ok i
  unfolding load upgraded save
  load-again i random later file laws g h =
      let (s, r, o) = >>=-eq-ok (read_stored c m file) _ (sym (load_lem random file) ∙ h) in
      load_lem later _
      ∙ elim (Bool-cases (
          ltb s.version store_version || not (bytes_beq s.protection (preferred_protection c m)))) [
            | inl a ↦ elim (Result-cases (to_write c m i random)) [
              | inl (e, w) ↦ rw (load, r, o, upgraded, a, save, w) (sym (load_lem random file) ∙ h)
              | inr (content, w) ↦
                  rw (load, r, o, upgraded, a, save, w) (written i random content laws g w)
            ]
            | inr a ↦ rw (load, r, o, upgraded, a) (sym (load_lem random file) ∙ h)
          ]

  identity_of-valid : (s : Stored) {i : Identity} → identity_of c m s ≡ ok i → valid c i ≡ true
  unfolding identity_of
  identity_of-valid s h =
      let (public, _, h) = >>=-eq-ok (or_fail (m.base64_decode s.public_key) bad_public_key) _ h in
      let (_, h) = refuse_if-eq-ok (not (length public == 32)) bad_public_key _ h in
      let (private, _, h) = >>=-eq-ok (unsealed c m s) _ h in
      let (v, h) = refuse_if-eq-ok _ inconsistent _ h in
      ap (valid c) (sym (ok-injective h)) ∙ negated _ v

  load-valid :
      (random : Bytes) (file : File) {i : Identity}
      → (load c m random file).0 ≡ ok i
      → valid c i ≡ true
  load-valid random file h =
      let (s, _, o) = >>=-eq-ok (read_stored c m file) _ (sym (load_lem random file) ∙ h) in
      identity_of-valid s o

  -- What Load gives LoadOrCreate gives, and leaves the same file.
  loaded :
      (random : Bytes) (file : File) {i : Identity}
      → (load c m random file).0 ≡ ok i
      → load_or_create c m random file ≡ (ok i, (load c m random file).1)
  unfolding load_or_create
  loaded random file h = rw (load_or_create, h, load-valid random file h) refl

  -- A new identity that is handed out is on the disk.
  created-kept :
      (random : Bytes) (file : File) {i : Identity}
      → MachineLaws m
      → IsGenuine m i
      → (created c m random file).0 ≡ ok i
      → (later : Bytes) → (load c m later (created c m random file).1).0 ≡ ok i
  unfolding created
  created-kept random file {i} laws g h later = elim (Result-cases (generate c m random)) [
    | inl (e, r) ↦ absurd (cc (rw (created, r) at h))
    | inr (fresh, r) ↦
        let (_, saved, same) =
          >>=-eq-ok (save c m fresh.0 fresh.1 file).0 _ (rw (created, r) at h) in
        let is : fresh.0 ≡ i = ok-injective same in
        rw (created, r)
          (load-save fresh.0 fresh.1 later file laws (subst (IsGenuine m) (sym is) g) saved
            ∙ ap ok is)
  ]

  begun :
      (random : Bytes) (file : File) {e : Error}
      → (load c m random file).0 ≡ err e
      → is_missing e ≡ true
      → load_or_create c m random file ≡ created c m random (load c m random file).1
  unfolding load_or_create
  begun random file l a = rw (load_or_create, l, a) refl

  given_up :
      (random : Bytes) (file : File) {e : Error}
      → (load c m random file).0 ≡ err e
      → is_missing e ≡ false
      → load_or_create c m random file ≡ (err (could_not_open e), (load c m random file).1)
  unfolding load_or_create
  given_up random file l a = rw (load_or_create, l, a) refl

  -- In the same environment, with base64 and JSON that read what they write, LoadOrCreate gives an
  -- identity whose private key is the one that its seed makes again in the next run, also when it was
  -- made just now, or the file was written again under another protection.
  pub load_or_create_again :
      (i : Identity) (random later : Bytes) (file : File)
      → MachineLaws m
      → IsGenuine m i
      → (load_or_create c m random file).0 ≡ ok i
      → (load_or_create c m later (load_or_create c m random file).1).0 ≡ ok i
  load_or_create_again i random later file laws g h = elim (Result-cases (load c m random file).0) [
    | inr (j, l) ↦
        let is : j ≡ i = ok-injective (ap outcome (sym (loaded random file l)) ∙ h) in
        let l : (load c m random file).0 ≡ ok i = l ∙ ap ok is in
        rw (loaded random file l)
          (ap outcome (loaded later _ (load-again i random later file laws g l)))
    | inl (e, l) ↦ elim (Bool-cases (is_missing e)) [
      | inl a ↦
          let made = begun random file l a in
          rw made (
            ap outcome
              (loaded later _ (created-kept random _ laws g (sym (ap outcome made) ∙ h) later)))
      | inr a ↦ absurd (cc (rw (given_up random file l a) at h))
    ]
  ]
