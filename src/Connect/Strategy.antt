-- ===== src/Connect/Strategy.antt =====
-- Join of internal/connect/connect.go: whose identity a transport is for, and which stage gave it.
use cmd_chat.Prelude.{
  if◌then◌else◌, or_fail, >>=-eq-ok, or_fail-eq-ok, ok-injective, Result, nat_eq, bytes_eq, Bytes,
  ok, err, ◌≤◌, ◌≡◌, refl, ap, subst, ◌∙◌, ◌⊎◌, inl, inr, Bool, true, false, Option, none, some,
  arith,
}
use cmd_chat.Connect.{
  Transport, path_lan, path_direct, path_relay, Outcome, Error, unreachable, lookup_failed, Peer,
  Network, relay_protocol_version, try_lan, try_direct, try_relay, join_listed, join, runs, pinned,
}

-- A stage that may be left out or be the only one.
stage_sound :
    (run pin : Bool) (attempt : Option Outcome) (later : Result Error Outcome) {r : Outcome}
    → ◌≡◌ {A = Result Error Outcome}
        (elim (if run then attempt else none) [
          | some o ↦ ok o
          | none ↦ if pin then err unreachable else later
        ])
        (ok r)
    → ((run ≡ true) × (attempt ≡ some r))
      ⊎ ((pin ≡ false) × ((run ≡ true) → attempt ≡ none) × (later ≡ ok r))
stage_sound true pin (some o) later h = inl (refl, ap some (ok-injective h))
stage_sound true true none later h = cc h
stage_sound true false none later h = inr (refl, (λ _. refl), h)
stage_sound false true attempt later h = cc h
stage_sound false false attempt later h = inr (refl, (λ e. cc e), h)

module _ (net : Network) where
  -- A transport for a target, of a path.
  abbrev pub For : Bytes → Transport → Outcome → Type 0
  For target p r = (r.host_id ≡ target) × (r.path ≡ p)

  try_lan-For : (target : Bytes) {r : Outcome} → try_lan net target ≡ some r → For target path_lan r
  unfolding try_lan
  try_lan-For target h = ground arith

  try_direct-For :
      (target : Bytes) (peer : Peer) {r : Outcome}
      → (try_direct net target peer).0 ≡ some r
      → For target path_direct r
  unfolding try_direct
  try_direct-For target peer h = ground arith

  try_relay-For :
      (target : Bytes) (peer : Peer) {r : Outcome}
      → try_relay net target peer ≡ ok r
      → For target path_relay r
        × (relay_protocol_version ≤ peer.version)
        × (net.relay_dial peer.id ≡ some r.conn)
  unfolding try_relay
  try_relay-For target peer h = ground arith

  runs_only : (p q : Transport) → runs net (some p) q ≡ true → q ≡ p
  runs_only path_lan path_lan h = refl
  runs_only path_direct path_direct h = refl
  runs_only path_relay path_relay h = refl
  runs_only _ _ h = cc h

  relay_is_left :
      (p : Transport)
      → pinned net (some p) path_lan ≡ false
      → pinned net (some p) path_direct ≡ false
      → path_relay ≡ p
  relay_is_left path_lan h k = cc h
  relay_is_left path_direct h k = cc k
  relay_is_left path_relay h k = refl

  -- The stage that gave a transport, with the stages before it that did not.
  abbrev pub Given : Bytes → Option Transport → Outcome → Type 0
  Given target force r =
      ((runs net force path_lan ≡ true) × (try_lan net target ≡ some r))
      ⊎ ((pinned net force path_lan ≡ false)
          × ((runs net force path_lan ≡ true) → try_lan net target ≡ none)
          × ((peer : Peer) × (net.lookup target ≡ some peer)
              × (((runs net force path_direct ≡ true) × ((try_direct net target peer).0 ≡ some r))
                  ⊎ ((pinned net force path_direct ≡ false)
                      × ((runs net force path_direct ≡ true)
                          → (try_direct net target peer).0 ≡ none)
                      × (try_relay net target peer ≡ ok r)))))

  join_listed_sound :
      (target : Bytes) (force : Option Transport) {r : Outcome}
      → join_listed net target force ≡ ok r
      → (peer : Peer) × (net.lookup target ≡ some peer)
        × (((runs net force path_direct ≡ true) × ((try_direct net target peer).0 ≡ some r))
            ⊎ ((pinned net force path_direct ≡ false)
                × ((runs net force path_direct ≡ true) → (try_direct net target peer).0 ≡ none)
                × (try_relay net target peer ≡ ok r)))
  unfolding join_listed
  join_listed_sound target force {r} h =
      let (peer, e, h1) = >>=-eq-ok (or_fail (net.lookup target) lookup_failed) _ h in
      (
        peer,
        or_fail-eq-ok (net.lookup target) lookup_failed e,
        stage_sound (runs net force path_direct) (pinned net force path_direct)
            (try_direct net target peer).0 (try_relay net target peer) h1,
      )

  -- A transport that Join gives was given by the first stage that could, of those that run: the
  -- local network, then a direct connection to the peer that the phonebook has, then the relay.
  pub join_sound :
      (target : Bytes) (force : Option Transport) {r : Outcome}
      → join net target force ≡ ok r
      → Given target force r
  unfolding join
  join_sound target force {r} h =
      elim (stage_sound (runs net force path_lan) (pinned net force path_lan) (try_lan net target)
        (join_listed net target force) h) [
          | inl given ↦ inl given
          | inr (not_pinned, not_found, listed) ↦
              inr (not_pinned, not_found, join_listed_sound target force listed)
        ]

  -- Whatever the network answers, the peer that has to be proven on a transport that Join gives is
  -- the target, and a pinned strategy gives no other path.
  pub join-For :
      (target : Bytes) (force : Option Transport) {r : Outcome}
      → join net target force ≡ ok r
      → (r.host_id ≡ target) × ((p : Transport) → force ≡ some p → r.path ≡ p)
  join-For target force {r} h = elim (join_sound target force h) [
    | inl (run, e) ↦
        let (host, path) = try_lan-For target e in
        (host, λ p k. path ∙ runs_only p path_lan (subst (λ f. runs net f path_lan ≡ true) k run))
    | inr (lan, _, (peer, _, inl (run, e))) ↦
        let (host, path) = try_direct-For target peer e in
        (
          host,
          λ p k. path ∙ runs_only p path_direct (subst (λ f. runs net f path_direct ≡ true) k run),
        )
    | inr (lan, _, (peer, _, inr (direct, _, e))) ↦
        let (for, _, _) = try_relay-For target peer e in
        (
          for.0,
          λ p k.
              for.1
              ∙ relay_is_left p (subst (λ f. pinned net f path_lan ≡ false) k lan)
                  (subst (λ f. pinned net f path_direct ≡ false) k direct),
        )
  ]
