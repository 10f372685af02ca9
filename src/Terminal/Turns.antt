-- ===== src/Terminal/Turns.antt =====
-- The loops of cmd/cmd-chat/main.go: a turn per input, until one returns.
use cmd_chat.Prelude.{
  if◌then◌else◌, Bool-cases, length, All, nat_eq, bytes_eq, ◌≤◌, ◌≡◌, refl, inl, inr, Bool, true,
  false, List, [], ◌∷◌, ◌++◌, arith,
}

module _ {I S : Type 0} (turn : I → S → Bool × S) where
  -- Whether a turn has returned, the state, and the inputs that were not taken.
  unfoldable pub run_turns : List I → S → Bool × S × List I
  run_turns [] s = (false, s, [])
  run_turns (i ∷ inputs) s =
      let (returned, s') = turn i s in
      let rest = run_turns inputs s' in if returned then (true, s', inputs) else rest

  pub turns_returned :
      (i : I) (inputs : List I) (s : S)
      → (turn i s).0 ≡ true
      → run_turns (i ∷ inputs) s ≡ (true, (turn i s).1, inputs)
  unfolding run_turns
  turns_returned i inputs s e = rw e refl

  pub turns_went_on :
      (i : I) (inputs : List I) (s : S)
      → (turn i s).0 ≡ false
      → run_turns (i ∷ inputs) s ≡ run_turns inputs (turn i s).1
  unfolding run_turns
  turns_went_on i inputs s e = rw e refl

  -- Turns that all went on are followed by the turns of what comes later.
  pub run_turns-append :
      (before later : List I) (s : S)
      → (run_turns before s).0 ≡ false
      → run_turns (before ++ later) s ≡ run_turns later (run_turns before s).1
  unfolding run_turns
  run_turns-append [] later s h = refl
  run_turns-append (i ∷ before) later s h = elim (Bool-cases (turn i s).0) [
    | inl e ↦ absurd (cc (rw e at h))
    | inr e ↦ rw e (run_turns-append before later (turn i s).1 (rw e at h))
  ]

  -- If all of them went on, the first ones did.
  pub run_turns_before :
      (before later : List I) (s : S)
      → (run_turns (before ++ later) s).0 ≡ false
      → (run_turns before s).0 ≡ false
  unfolding run_turns
  run_turns_before [] later s h = refl
  run_turns_before (i ∷ before) later s h = elim (Bool-cases (turn i s).0) [
    | inl e ↦ absurd (cc (rw e at h))
    | inr e ↦ rw e (run_turns_before before later (turn i s).1 (rw e at h))
  ]

  -- What holds of the inputs holds of those that are left, which are no more.
  pub All-run_turns :
      (P : I → Type 0) (inputs : List I) (s : S) → All P inputs → All P (run_turns inputs s).2
  unfolding run_turns
  All-run_turns P [] s h = tt
  All-run_turns P (i ∷ inputs) s h = elim (Bool-cases (turn i s).0) [
    | inl e ↦ rw e h.1
    | inr e ↦ rw e (All-run_turns P inputs (turn i s).1 h.1)
  ]

  pub run_turns-length : (inputs : List I) (s : S) → length (run_turns inputs s).2 ≤ length inputs
  unfolding run_turns
  run_turns-length [] s = omega arith
  run_turns-length (i ∷ inputs) s = elim (Bool-cases (turn i s).0) [
    | inl e ↦ rw e (omega arith)
    | inr e ↦ rw e (omega (arith, run_turns-length inputs (turn i s).1))
  ]
