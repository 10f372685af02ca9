-- ===== src/Connect/Race/Account.antt =====
-- What becomes of every connection of a race in dialFastest of internal/connect/connect.go, and when
-- the race ends.
use cmd_chat.Prelude.{
  ◌==◌, length, Result, nat_eq, bytes_eq, Bytes, ok, err, ℕ, zero, suc, ◌≡◌, refl, sym, ap, ◌∙◌,
  ◌≢◌, false, Option, none, some, List, [], ◌∷◌, ◌++◌, arith,
}
use mathlib.Core.List.{append_assoc}
use cmd_chat.Connect.Race.{
  DialError, no_candidate, dial_failed, Arrival, connected, failed, channel_closed, deadline, Race,
  start, race_loop, connections, drain, dial_fastest,
}

-- A connection that is not among others, and connections that are all different.
abbrev pub Fresh : ℕ → List ℕ → Type 0
Fresh c [] = Unit
Fresh c (x ∷ xs) = (c ≢ x) × Fresh c xs

abbrev pub Distinct : List ℕ → Type 0
Distinct [] = Unit
Distinct (x ∷ xs) = Fresh x xs × Distinct xs

drain_all : (es : List Arrival) → drain none es ≡ connections es
unfolding drain connections
drain_all [] = refl
drain_all (connected _ conn ∷ es) = ap (◌∷◌ conn) (drain_all es)
drain_all (failed _ _ ∷ es) = drain_all es
drain_all (channel_closed ∷ es) = drain_all es
drain_all (deadline ∷ es) = drain_all es

drain_others :
    (w : ℕ × Bytes) (es : List Arrival)
    → Fresh w.0 (connections es)
    → drain (some w) es ≡ connections es
unfolding drain connections
drain_others w [] f = refl
drain_others w (connected _ conn ∷ es) f =
    let other : (w.0 == conn) ≡ false = ground (arith, f.0) in
    rw other (ap (◌∷◌ conn) (drain_others w es f.1))
drain_others w (failed _ _ ∷ es) f = drain_others w es f
drain_others w (channel_closed ∷ es) f = drain_others w es f
drain_others w (deadline ∷ es) f = drain_others w es f

-- A race that is won: the winner stays, and all that follows is closed.
record Kept (closed : List ℕ) (w : ℕ × Bytes) (es : List Arrival) (outcome : Race × List Arrival)
    : Type 0 where
  pub winner : outcome.0.winner ≡ some w
  pub all : outcome.0.closed ++ drain (some w) outcome.1 ≡ closed ++ connections es

abbrev won : ℕ × Bytes → Option ℕ → List ℕ → Race
won w last closed = record { winner = some w; last_err = last; closed = closed }

abbrev open_race : Option ℕ → Race
open_race last = record { winner = none; last_err = last; closed = [] }

race_won :
    (n : ℕ) (w : ℕ × Bytes) (last : Option ℕ) (closed : List ℕ) (es : List Arrival)
    → Fresh w.0 (connections es)
    → Kept closed w es (race_loop n (won w last closed) es)
unfolding race_loop connections drain
race_won zero w last closed es f = record {
  winner = refl;
  all = ap (λ l. closed ++ l) (drain_others w es f);
}
race_won (suc n) w last closed [] f = record { winner = refl; all = refl }
race_won (suc n) w last closed (failed e cause ∷ es) f =
    let k = race_won n w (some cause) closed es f in record { winner = k.winner; all = k.all }
race_won (suc n) w last closed (connected e conn ∷ es) f = record {
  winner = refl;
  all =
      append_assoc closed (conn ∷ []) (drain (some w) es)
      ∙ ap (λ l. closed ++ (conn ∷ l)) (drain_others w es f.1);
}
race_won (suc n) w last closed (channel_closed ∷ es) f = record {
  winner = refl;
  all = ap (λ l. closed ++ l) (drain_others w es f);
}
race_won (suc n) w last closed (deadline ∷ es) f = record {
  winner = refl;
  all = ap (λ l. closed ++ l) (drain_others w es f);
}

-- What is made of the connections: the winner is the first and the rest is closed, or there is no
-- winner and all are.
abbrev pub Accounted : List ℕ → Result DialError (ℕ × Bytes) × List ℕ → Type 0
Accounted made (err _, closed) = made ≡ closed
Accounted made (ok w, closed) = made ≡ w.0 ∷ closed

abbrev outcome_of : Race × List Arrival → Result DialError (ℕ × Bytes) × List ℕ
outcome_of (r, left) = (
  elim r.winner [
    | some w ↦ ok w
    | none ↦ err (elim r.last_err [ none ↦ no_candidate | some cause ↦ dial_failed cause ])
  ],
  r.closed ++ drain r.winner left,
)

race_open :
    (n : ℕ) (last : Option ℕ) (es : List Arrival)
    → Distinct (connections es)
    → Accounted (connections es) (outcome_of (race_loop n (open_race last) es))
unfolding race_loop connections
race_open zero last es d = sym (drain_all es)
race_open (suc n) last [] d = sym (drain_all [])
race_open (suc n) last (failed e cause ∷ es) d = race_open n (some cause) es d
race_open (suc n) last (connected e conn ∷ es) d =
    let k = race_won n (conn, e) last [] es d.0 in rw k.winner (ap (◌∷◌ conn) (sym k.all))
race_open (suc n) last (channel_closed ∷ es) d = sym (drain_all es)
race_open (suc n) last (deadline ∷ es) d = sym (drain_all es)

-- In a race whose connections are all different, the winner is the first connection that is made
-- and every other one is closed; a race without a winner closes every connection.
pub dial_fastest-Accounted :
    (n : ℕ) (es : List Arrival)
    → Distinct (connections es)
    → Accounted (connections es) (dial_fastest n es)
unfolding dial_fastest
dial_fastest-Accounted n es d = race_open n none es d

-- Candidates that fail, each with its cause.
abbrev pub failures : List (Bytes × ℕ) → List Arrival
failures [] = []
failures ((endpoint, cause) ∷ fs) = failed endpoint cause ∷ failures fs

won_waits :
    (fs : List (Bytes × ℕ)) (w : ℕ × Bytes) (last : Option ℕ) (rest : List Arrival)
    → (race_loop (length fs) (won w last []) (failures fs ++ rest)).1 ≡ rest
unfolding race_loop
won_waits [] w last rest = refl
won_waits ((e, cause) ∷ fs) w last rest = won_waits fs w (some cause) rest

-- A race whose first candidate has connected does not end there: the loop takes in the failure of
-- every other candidate before it ends.
pub race_loop_waits :
    (endpoint : Bytes) (conn : ℕ) (fs : List (Bytes × ℕ)) (rest : List Arrival)
    → (race_loop (suc (length fs)) start (connected endpoint conn ∷ (failures fs ++ rest))).1 ≡ rest
unfolding race_loop
race_loop_waits endpoint conn fs rest = won_waits fs (conn, endpoint) none rest
