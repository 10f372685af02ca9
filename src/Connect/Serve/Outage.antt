-- ===== src/Connect/Serve/Outage.antt =====
-- How long ServeRelay waits while the relay fails.
use cmd_chat.Prelude.{
  if◌then◌else◌, All, nat_eq, bytes_eq, Bytes, ℕ, suc, ◌*◌, ◌^◌, min, ◌≡◌, refl, ap, ◌∙◌, true,
  false, some, List, [], ◌∷◌, ◌++◌, arith,
}
use native.Mathlib.Numerals.{unary_clauses}
use cmd_chat.Relay.Session
use cmd_chat.Connect.Serve.{
  relay_retry_min, relay_retry_max, is_wait_timeout, Event, paired, failed, Action, served, warned,
  waited, State, start, next_backoff, round, go_on, serve_relay,
}

-- Failures that are no ordinary end of a wait, with nobody stopping the host.
abbrev pub failures : List Session.Error → List Event
failures [] = []
failures (e ∷ es) = failed e false false ∷ failures es

abbrev pub AreFaults : List Session.Error → Type 0
AreFaults = All (λ e. is_wait_timeout e ≡ false)

-- The wait after `n` failures before it.
abbrev pub wait_after : ℕ → ℕ
wait_after n = min (relay_retry_min * 2 ^ n) relay_retry_max

-- The waits of some failures, the first with `n` before it.
abbrev pub waits : ℕ → List Session.Error → List Action
waits n [] = []
waits n (e ∷ es) = waited (wait_after n) ∷ waits (suc n) es

doubled : (p : ℕ) → next_backoff (min (3 * p) 60) ≡ min (3 * (p * 2)) 60
unfolding next_backoff
doubled p = ground arith

next_wait : (n : ℕ) → next_backoff (wait_after n) ≡ wait_after (suc n)
next_wait n = simp unary_clauses (doubled (2 ^ n))

round_fault :
    (s : State) (e : Session.Error)
    → is_wait_timeout e ≡ false
    → round s (failed e false false) ≡ (
      some (record { backoff = next_backoff s.backoff; announced = true }),
      (if s.announced then [] else warned ∷ []) ++ (waited s.backoff ∷ []),
    )
unfolding round
round_fault s e h = rw h refl

waits_more :
    (n : ℕ) (es : List Session.Error)
    → AreFaults es
    → serve_relay (record { backoff = wait_after n; announced = true }) (failures es) ≡ waits n es
unfolding serve_relay
waits_more n [] h = refl
waits_more n (e ∷ es) h =
    ap (go_on (λ s. serve_relay s (failures es)))
      (round_fault (record { backoff = wait_after n; announced = true }) e h.0)
    ∙ rw (next_wait n) (ap (◌∷◌ (waited (wait_after n))) (waits_more (suc n) es h.1))

first_round : (s : State) (peer : Bytes) → round s (paired peer) ≡ (some start, served peer ∷ [])
unfolding round
first_round s peer = refl

-- From a pairing on, the failures that follow make one warning, and the wait after the n-th of them
-- is three seconds doubled n times, but never above a minute.
pub serve_relay_outage :
    (s : State) (peer : Bytes) (e : Session.Error) (es : List Session.Error)
    → AreFaults (e ∷ es)
    → serve_relay s (paired peer ∷ failures (e ∷ es)) ≡ served peer ∷ warned ∷ waits 0 (e ∷ es)
unfolding serve_relay
serve_relay_outage s peer e es h =
    ap (go_on (λ t. serve_relay t (failures (e ∷ es)))) (first_round s peer)
    ∙ ap (◌∷◌ (served peer)) (
        ap (go_on (λ t. serve_relay t (failures es))) (round_fault start e h.0)
        ∙ rw (next_wait 0)
            (ap (λ (l : List Action). warned ∷ waited (wait_after 0) ∷ l) (waits_more 1 es h.1)))
