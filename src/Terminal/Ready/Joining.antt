-- ===== src/Terminal/Ready/Joining.antt =====
-- Which lines at the prompt connect to somebody.
use cmd_chat.Prelude.{
  ◌==◌, Bool-cases, length, take, bytes_beq, nat_eq, bytes_eq, Bytes, codes, ℕ, ◌≡◌, refl, sym, ap,
  ◌∙◌, ◌↔◌, inl, inr, Bool, true, false, Option, none, some, [], ◌∷◌, arith,
}
use cmd_chat.Profile.Storage.{Files}
use cmd_chat.Profile.Runes.{first_rune, is_space, rune_bytes}
use cmd_chat.Phonebook.{valid_id}
use cmd_chat.Chat.{Packet}
use cmd_chat.Chat.Room.{Log}
use cmd_chat.Terminal.{Station}
use cmd_chat.Terminal.Text.{
  trim, trim_front, trim_back, all_space, split_at_space, to_lower, lower_rune, split_command,
  command_of, Command, who, invite, nick, group, verify, quit,
}
use cmd_chat.Terminal.Ready.{join, run_word, run_option, run_command}

-- Lower case keeps a `c` in front, and so does the trimming.
to_lower_c : (lower : ℕ → ℕ) (s : Bytes) → (t : Bytes) × (to_lower lower (99 ∷ s) ≡ 99 ∷ t)
unfolding to_lower lower_rune first_rune rune_bytes
to_lower_c lower s = (_, refl)

trim_c : (s : Bytes) → (t : Bytes) × (trim (99 ∷ s) ≡ 99 ∷ t)
unfolding trim trim_front trim_back all_space first_rune is_space
trim_c s = (_, refl)

split_c : (lower : ℕ → ℕ) (s : Bytes) → (t : Bytes) × ((split_command lower (99 ∷ s)).0 ≡ 99 ∷ t)
unfolding split_command split_at_space
split_c lower s =
    let front = trim_c (split_at_space s).0 in
    let word = to_lower_c lower front.0 in (word.0, rw front.1 word.1)

no_command : (t : Bytes) → command_of (99 ∷ t) ≡ none
unfolding command_of
no_command t = refl

c_first : (b : ℕ) (s : Bytes) → bytes_beq (take 3 (b ∷ s)) (codes "cc-") ≡ true → b ≡ 99
c_first b s h = ground (arith, h)

nonempty : (t : Bytes) → (length (99 ∷ t) == 0) ≡ false
nonempty t = ground arith

valid_id_c : (text : Bytes) → valid_id text ≡ true → (t : Bytes) × (text ≡ 99 ∷ t)
unfolding valid_id
valid_id_c [] h = absurd (cc h)
valid_id_c (b ∷ s) h = elim (Bool-cases (bytes_beq (take 3 (b ∷ s)) (codes "cc-"))) [
  | inl e ↦ (s, ap (λ c. c ∷ s) (c_first b s e))
  | inr e ↦ absurd (ground (arith, h, e))
]

module _ (f : Files) (account : Bytes) (lower : ℕ → ℕ) (taken : Log → ℕ → Packet → Bool) where
  -- An ID is not read as one of the words.
  run_word-valid :
      (text : Bytes) (s : Station)
      → valid_id text ≡ true
      → bytes_beq (to_lower lower text) (to_lower lower s.id) ≡ false
      → run_word f account lower taken text s ≡ join text s
  unfolding run_word
  run_word-valid text s v other =
      let c = valid_id_c text v in
      let w = to_lower_c lower c.0 in
      let word = ap (to_lower lower) c.1 ∙ w.1 in rw (word, v, rw word at other, nonempty w.0) refl

  split_valid :
      (text : Bytes) → valid_id text ≡ true → command_of (split_command lower text).0 ≡ none
  split_valid text v =
      let c = valid_id_c text v in
      let w = split_c lower c.0 in
      ap (λ x. command_of (split_command lower x).0) c.1 ∙ ap command_of w.1 ∙ no_command w.0

  -- A connection is tried only to the text itself.
  run_word-join :
      (text target : Bytes) (s s' : Station)
      → run_word f account lower taken text s ≡ join target s'
      → (valid_id text ≡ true)
        × (bytes_beq (to_lower lower text) (to_lower lower s.id) ≡ false)
        × (target ≡ text)
        × (s' ≡ s)
  unfolding run_word
  run_word-join text target s s' h = ground (arith, h)

  joins :
      (text target : Bytes) (s s' : Station)
      → valid_id text ≡ true
      → bytes_beq (to_lower lower text) (to_lower lower s.id) ≡ false
      → target ≡ text
      → s' ≡ s
      → run_command f account lower taken text s ≡ join target s'
  unfolding run_command run_option
  joins text target s s' v other same still =
      rw (split_valid text v) (
        run_word-valid text s v other
        ∙ ap (λ t. join t s) (sym same)
        ∙ ap (join target) (sym still))

  run_option-join :
      (c : Option Command) (argument text target : Bytes) (s s' : Station)
      → run_option f account lower taken c argument text s ≡ join target s'
      → (valid_id text ≡ true)
        × (bytes_beq (to_lower lower text) (to_lower lower s.id) ≡ false)
        × (target ≡ text)
        × (s' ≡ s)
  unfolding run_option
  run_option-join none argument text target s s' h = run_word-join text target s s' h
  run_option-join (some quit) argument text target s s' h = run_word-join text target s s' h
  run_option-join (some verify) argument text target s s' h = run_word-join text target s s' h
  run_option-join (some who) argument text target s s' h = absurd (cc h)
  run_option-join (some invite) argument text target s s' h = absurd (cc h)
  run_option-join (some nick) argument text target s s' h = absurd (cc h)
  run_option-join (some group) argument text target s s' h = absurd (cc h)

  -- A line at the prompt makes the program connect to somebody if and only if it is a valid ID that
  -- is not the user's own, in whatever case; then it connects to that ID, and the station is as it
  -- was.
  pub joins_iff :
      (text target : Bytes) (s s' : Station)
      → (run_command f account lower taken text s ≡ join target s') ↔ (
          (valid_id text ≡ true)
          × (bytes_beq (to_lower lower text) (to_lower lower s.id) ≡ false)
          × (target ≡ text)
          × (s' ≡ s))
  unfolding run_command
  joins_iff text target s s' = (
    run_option-join (command_of (split_command lower text).0) (split_command lower text).1 text
        target s s',
    λ v. joins text target s s' v.0 v.1 v.2 v.3,
  )
