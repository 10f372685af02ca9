-- ===== src/Phonebook/Clock.antt =====
-- The time stamps that the phonebook client signs: nextIssuedAt of internal/phonebook/phonebook.go
-- over any run of the clock.
use cmd_chat.Prelude.{nat_eq, bytes_eq, ℕ, ◌<◌, List, [], ◌∷◌, arith}
use cmd_chat.Phonebook.{next_issued_at}

-- The time stamps of a run of calls, from what is remembered and what the clock says at each.
abbrev pub stamps : ℕ → List ℕ → List ℕ
stamps last [] = []
stamps last (now ∷ clock) = let t = next_issued_at last now in t ∷ stamps t clock

-- Every entry is above the one before it, and the first above a bound.
abbrev pub Increasing : ℕ → List ℕ → Type 0
Increasing last [] = Unit
Increasing last (t ∷ ts) = (last < t) × Increasing t ts

-- Whatever the clock does, also when it stands still or is set back, the time stamps of a client
-- are strictly increasing, above the last one that it remembers.
pub stamps-Increasing : (last : ℕ) (clock : List ℕ) → Increasing last (stamps last clock)
unfolding next_issued_at
stamps-Increasing last [] = tt
stamps-Increasing last (now ∷ clock) =
    (ground arith, stamps-Increasing (next_issued_at last now) clock)
