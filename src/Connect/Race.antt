-- ===== src/Connect/Race.antt =====
-- dialFastest of internal/connect/connect.go: the race as the sequence of what its loop is told. An
-- outcome that comes after the loop has ended is drained in the background.
pub mod Account
use cmd_chat.Prelude.{
  ◌==◌, if◌then◌else◌, Result, eq, nat_eq, bytes_eq, Bytes, ok, err, ℕ, zero, suc, ◌+◌, ◌-◌, ◌/◌,
  not, Option, none, some, List, [], ◌∷◌, ◌++◌,
}

pub data DialError : Type 0 where
  no_candidate : DialError
  dial_failed : ℕ → DialError

-- An outcome of a dial on the channel, the end of the channel, and the time budget.
pub data Arrival : Type 0 where
  connected : (endpoint : Bytes) (conn : ℕ) → Arrival
  failed : (endpoint : Bytes) (cause : ℕ) → Arrival
  channel_closed deadline : Arrival

pub record Race : Type 0 where
  pub winner : Option (ℕ × Bytes)
  pub last_err : Option ℕ
  pub closed : List ℕ

abbrev pub start : Race
start = record { winner = none; last_err = none; closed = [] }

-- The loop over `remaining`, and the arrivals that it leaves to the drain. A first connection and a
-- failure `continue`, past the test that would end the loop; a second connection meets the test.
unfoldable pub race_loop : ℕ → Race → List Arrival → Race × List Arrival
race_loop zero r es = (r, es)
race_loop (suc remaining) r [] = (r, [])
race_loop (suc remaining) r (failed _ cause ∷ es) =
    race_loop remaining (record r { last_err = some cause }) es
race_loop (suc remaining) r (connected endpoint conn ∷ es) =
    let on = race_loop remaining (record r { winner = some (conn, endpoint) }) es in
    elim r.winner [ none ↦ on | some _ ↦ (record r { closed = r.closed ++ (conn ∷ []) }, es) ]
race_loop (suc remaining) r (channel_closed ∷ es) = (r, es)
race_loop (suc remaining) r (deadline ∷ es) = (r, es)

-- The connections that are made, in order.
unfoldable pub connections : List Arrival → List ℕ
connections [] = []
connections (connected _ conn ∷ es) = conn ∷ connections es
connections (failed _ _ ∷ es) = connections es
connections (channel_closed ∷ es) = connections es
connections (deadline ∷ es) = connections es

-- The drain closes what is not the winner.
unfoldable pub drain : Option (ℕ × Bytes) → List Arrival → List ℕ
drain winner [] = []
drain winner (connected _ conn ∷ es) =
    let rest = drain winner es in
    elim winner [ none ↦ conn ∷ rest | some w ↦ if w.0 == conn then rest else conn ∷ rest ]
drain winner (failed _ _ ∷ es) = drain winner es
drain winner (channel_closed ∷ es) = drain winner es
drain winner (deadline ∷ es) = drain winner es

-- The result, and every connection that was closed.
unfoldable pub dial_fastest : ℕ → List Arrival → Result DialError (ℕ × Bytes) × List ℕ
dial_fastest n es =
    let (r, left) = race_loop n start es in
    (
      elim r.winner [
        | some w ↦ ok w
        | none ↦ err (elim r.last_err [ none ↦ no_candidate | some cause ↦ dial_failed cause ])
      ],
      r.closed ++ drain r.winner left,
    )
