-- ===== src/Connect/Tests/Serve.antt =====
-- ServeRelay at concrete inputs.
use cmd_chat.Prelude.{nat_eq, bytes_eq, codes, ◌≡◌, refl, false, [], ◌∷◌}
use cmd_chat.Relay.Session.{no_host, session_busy, wait_timeout}
use cmd_chat.Connect.Serve.{
  paired, failed, served, warned, waited, start, round, serve_relay, is_wait_timeout,
}
use cmd_chat.Connect.Serve.Outage.{failures, waits, serve_relay_outage}

-- Five failures after a pairing: the waits double and stop at a minute.
serve_relay_outage_example :
    serve_relay start (
      paired (codes "cc-B")
      ∷ failures (no_host ∷ no_host ∷ session_busy ∷ no_host ∷ no_host ∷ no_host ∷ []))
    ≡ served (codes "cc-B")
      ∷ warned
      ∷ waits 0 (no_host ∷ no_host ∷ session_busy ∷ no_host ∷ no_host ∷ no_host ∷ [])
unfolding is_wait_timeout
serve_relay_outage_example =
    serve_relay_outage start (codes "cc-B") no_host
      (no_host ∷ session_busy ∷ no_host ∷ no_host ∷ no_host ∷ [])
      (refl, (refl, (refl, (refl, (refl, (refl, tt))))))

doubling :
    waits 0 (no_host ∷ no_host ∷ no_host ∷ no_host ∷ no_host ∷ no_host ∷ [])
    ≡ waited 3 ∷ waited 6 ∷ waited 12 ∷ waited 24 ∷ waited 48 ∷ waited 60 ∷ []
doubling = refl

-- An idle end is no failure.
idle :
    serve_relay start (failed wait_timeout false false ∷ paired (codes "cc-B") ∷ [])
    ≡ served (codes "cc-B") ∷ []
unfolding serve_relay round is_wait_timeout
idle = refl
