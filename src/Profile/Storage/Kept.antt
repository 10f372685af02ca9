-- ===== src/Profile/Storage/Kept.antt =====
-- What is stored is there again, in this run of the program and in the next.
use cmd_chat.Prelude.{
  Bool-cases, Option-cases, nat_eq, bytes_eq, Bytes, ◌≡◌, refl, sym, ap, ◌∙◌, inl, inr, true, false,
  Option, none, some,
}
use cmd_chat.Profile.{Preferences, clean_nickname}
use cmd_chat.Profile.Runes.{encode, runes}
use cmd_chat.Profile.Tidy.{clean_nickname_again}
use cmd_chat.Profile.Storage.{
  Files, Store, restarted, parsed, read_profile, load, save, set_nickname,
}

-- What encoding/json does with a string that is UTF-8, and os.WriteFile where it succeeds.
pub record FileLaws (f : Files) : Type 0 where
  pub round_trip :
      (p : Preferences) (bytes : Bytes)
      → encode (runes p.nickname) ≡ p.nickname
      → f.marshal p ≡ some bytes
      → f.unmarshal bytes ≡ some p
  pub written :
      (bytes : Bytes) (old : Option Bytes)
      → (f.write_file bytes old).0 ≡ true
      → (f.write_file bytes old).1 ≡ some bytes

module _ (f : Files) where
  Saved : Preferences → Store → Type 0
  Saved p s =
      (bytes : Bytes) × (f.marshal p ≡ some bytes)
      × (f.path_known ≡ true)
      × (s.loaded ≡ some p)
      × (s.file ≡ some bytes)

  save_bytes :
      (laws : FileLaws f) (s : Store) (p : Preferences) (bytes : Bytes)
      → f.path_known ≡ true
      → f.marshal p ≡ some bytes
      → ((save f s p).0 ≡ true → Saved p (save f s p).1)
        × ((save f s p).0 ≡ false → (save f s p).1.loaded ≡ s.loaded)
  unfolding save Saved
  save_bytes laws s p bytes known m = elim (Bool-cases (f.write_file bytes s.file).0) [
    | inl w ↦
        simp (known, m, w)
          (λ e. (bytes, refl, refl, refl, laws.written bytes s.file w), λ e. absurd (cc e))
    | inr w ↦ simp (known, m, w) (λ e. absurd (cc e), λ e. refl)
  ]

  saves :
      (laws : FileLaws f) (s : Store) (p : Preferences)
      → ((save f s p).0 ≡ true → Saved p (save f s p).1)
        × ((save f s p).0 ≡ false → (save f s p).1.loaded ≡ s.loaded)
  unfolding save
  saves laws s p = elim (Bool-cases f.path_known) [
    | inr k ↦ simp k (λ e. absurd (cc e), λ e. refl)
    | inl k ↦ elim (Option-cases (f.marshal p)) [
      | inl m ↦ simp (k, m) (λ e. absurd (cc e), λ e. refl)
      | inr (bytes, m) ↦ save_bytes laws s p bytes k m
    ]
  ]

  load_loaded : (s : Store) (p : Preferences) → s.loaded ≡ some p → (load f s).0 ≡ p
  unfolding load
  load_loaded s p e = rw e refl

  remembered :
      (o : Option Preferences) (file : Option Bytes)
      → let s : Store = record { loaded = o; file = file } in
        (load f s).1.loaded ≡ some (load f s).0
  unfolding load
  remembered none file = refl
  remembered (some p) file = refl

  loaded-load : (s : Store) → (load f s).1.loaded ≡ some (load f s).0
  loaded-load s = remembered s.loaded s.file

  -- The next run reads what this one has saved.
  load-restarted :
      (laws : FileLaws f) (s : Store) (p : Preferences) (n : Bytes)
      → p.nickname ≡ clean_nickname f.is_graphic n
      → Saved p s
      → (load f (restarted s)).0 ≡ p
  unfolding load read_profile parsed Saved
  load-restarted laws s p n e saved =
      let again = clean_nickname_again f.is_graphic n in
      let utf8 = ap (λ b. encode (runes b)) e ∙ again.1 ∙ sym e in
      rw (saved.4, saved.2, laws.round_trip p saved.0 utf8 saved.1)
        (ap (λ b. record p { nickname = b }) (ap (clean_nickname f.is_graphic) e ∙ again.0 ∙ sym e))

  -- If a nickname could be stored, the program has it in this run and in the next, cleaned and with
  -- the choice on group chat as it was; if it could not, this run goes on with what it had. The laws
  -- are that encoding/json reads back what it writes for a nickname in UTF-8, and that a file that
  -- was written holds what was written.
  pub set_nickname_kept :
      (laws : FileLaws f) (s : Store) (n : Bytes)
      → let s' = (set_nickname f s n).1 in
        let p : Preferences = record (load f s).0 { nickname = clean_nickname f.is_graphic n } in
        ((set_nickname f s n).0 ≡ true → ((load f s').0 ≡ p) × ((load f (restarted s')).0 ≡ p))
        × ((set_nickname f s n).0 ≡ false → (load f s').0 ≡ (load f s).0)
  unfolding set_nickname Saved
  set_nickname_kept laws s n =
      let p : Preferences = record (load f s).0 { nickname = clean_nickname f.is_graphic n } in
      let saved = saves laws (load f s).1 p in
      (
        λ e. let now = saved.0 e in (load_loaded _ p now.3, load-restarted laws _ p n refl now),
        λ e. load_loaded _ (load f s).0 (saved.1 e ∙ loaded-load s),
      )
