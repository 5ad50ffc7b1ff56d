-- ===== src/Statistics/Session.antt =====
-- When a session starts, in the updates of a peer's status of internal/app/wireguard/statistics.go.
use awg_portal.Prelude.{
  ℕ, Bool, true, false, Option, none, some, ◌≡◌, refl, sym, ap, subst, ◌∙◌, ◌⊎◌, inl, inr, arith,
  if◌then◌else◌, ◌&&◌, ◌||◌, ltb, ◌==◌, nat_eq,
}
use awg_portal.Errors.{Result, ok, ◌>>=◌}
use awg_portal.Peer.Physical.{PhysicalPeer}
use awg_portal.Statistics.{
  PeerStatus, TrafficDelta, Clock, not_started_or_stale, is_restarted, get_session_start_time,
  calc_connected, updated_status, collect_peer, ping_peer, handshake_of, calculate_traffic_delta,
  Reach, created, collected, pinged,
}

-- A peer without a handshake has no session.
abbrev pub IsConsistent : PeerStatus → Type 0
IsConsistent p = p.last_handshake ≡ none → p.last_session_start ≡ none

-- What a run of `getSessionStartTime` may answer.
abbrev pub IsStart : PeerStatus → Option ℕ → Option ℕ → Type 0
IsStart old latest r = (latest ≡ none → r ≡ none) × ((r ≡ latest) ⊎ (r ≡ old.last_session_start))

not_started_or_stale-runs :
    (timeout now : ℕ) (start h : Option ℕ)
    → (h ≡ none → start ≡ none)
    → (b : Bool) × (not_started_or_stale timeout now start h ≡ ok b)
not_started_or_stale-runs timeout now none h c = (_, refl)
not_started_or_stale-runs timeout now (some t) (some s) c = (_, refl)
not_started_or_stale-runs timeout now (some t) none c = ground (arith, c refl)

first_transmit-runs :
    (timeout now : ℕ) (old : PeerStatus) (b : Bool)
    → IsConsistent old
    → (x : Bool) × ((if b
          then not_started_or_stale timeout now old.last_session_start old.last_handshake
          else ok false)
        ≡ ok x)
first_transmit-runs timeout now old false c = (false, refl)
first_transmit-runs timeout now old true c =
    not_started_or_stale-runs timeout now old.last_session_start old.last_handshake c

chosen-IsStart :
    (old : PeerStatus) (h : ℕ) (b : Bool)
    → IsStart old (some h) (if b then some h else old.last_session_start)
chosen-IsStart old h true = (λ e. ground (arith, e), inl refl)
chosen-IsStart old h false = (λ e. ground (arith, e), inr refl)

tested :
    (old : PeerStatus) (h : ℕ) (b : Bool) (m : Result (Option ℕ))
    → ((r : Option ℕ) × ((m ≡ ok r) × IsStart old (some h) r))
    → (r : Option ℕ) × (((if b then ok (some h) else m) ≡ ok r) × IsStart old (some h) r)
tested old h true m run = (some h, (refl, (λ e. ground (arith, e), inl refl)))
tested old h false m run = run

pub get_session_start_time-IsStart :
    (timeout now : ℕ) (old : PeerStatus) (rx tx : ℕ) (latest : Option ℕ)
    → IsConsistent old
    → (r : Option ℕ) × ((get_session_start_time timeout now old rx tx latest ≡ ok r)
        × IsStart old latest r)
unfolding get_session_start_time
get_session_start_time-IsStart timeout now old rx tx none c = (none, (refl, (λ e. refl, inl refl)))
get_session_start_time-IsStart timeout now old rx tx (some h) c =
    let (x, run) =
      first_transmit-runs timeout now old ((old.bytes_transmitted == 0) && ltb 0 tx) c in
    tested old h _ _ (
      tested old h _ _ (
        _,
        (
          ap
              (λ (m : Result Bool). m >>= λ b.
                ok (if b || is_restarted old rx tx then some h else old.last_session_start))
              run,
          chosen-IsStart old h (x || is_restarted old rx tx),
        ),
      ))

-- What an update by `collectPeerData` makes of a status.
abbrev pub Collected : PhysicalPeer → PeerStatus → PeerStatus → Type 0
Collected peer p q =
    IsStart p (handshake_of peer.last_handshake) q.last_session_start
    × ((q.last_handshake ≡ handshake_of peer.last_handshake)
        × ((q.bytes_received ≡ peer.bytes_upload) × (q.bytes_transmitted ≡ peer.bytes_download)))

pub collect_peer-Collected :
    (timeout : ℕ) (clock : Clock) (peer : PhysicalPeer) (p : PeerStatus)
    → IsConsistent p
    → (q : PeerStatus) × (td : TrafficDelta) × ((collect_peer timeout clock peer p ≡ ok (q, td))
        × Collected peer p q)
unfolding collect_peer calc_connected
collect_peer-Collected timeout clock peer p c =
    let (r, (run, start)) =
      get_session_start_time-IsStart timeout clock.at_session p peer.bytes_upload
        peer.bytes_download (handshake_of peer.last_handshake) c in
    let td =
      calculate_traffic_delta peer.identifier p.updated_at clock.now p.bytes_transmitted
        peer.bytes_download p.bytes_received peer.bytes_upload in
    (
      updated_status timeout clock peer p r,
      td,
      (
        ap
            (λ (m : Result (Option ℕ)).
              m >>= λ start. ok (updated_status timeout clock peer p start, td))
            run,
        (start, (refl, (refl, refl))),
      ),
    )

Reach-IsConsistent : (p : PeerStatus) → Reach p → IsConsistent p
unfolding ping_peer calc_connected
Reach-IsConsistent _ (created id now) = λ e. refl
Reach-IsConsistent q (collected {p = p} {td = td} r timeout clock peer h) =
    let (q', td', (run, (start, (handshake, _)))) =
      collect_peer-Collected timeout clock peer p (Reach-IsConsistent p r) in
    let same : ok (q', td') ≡ ok (q, td) = sym run ∙ h in
    let pair : (q', td') ≡ (q, td) = cc in
    let equal : q' ≡ q = ap (λ (s : PeerStatus × TrafficDelta). s.0) pair in
    subst IsConsistent equal (λ e. start.0 (sym handshake ∙ e))
Reach-IsConsistent _ (pinged {p = p} r timeout now updated connected pingable) =
    Reach-IsConsistent p r

-- For every status of a peer that the database may hold, the update by the collector does not panic. It
-- stores the counters and the handshake of the peer. The start of the session that it stores is the one
-- before or the time of the handshake, and there is none if the peer never had a handshake.
pub Reach-Collected :
    (timeout : ℕ) (clock : Clock) (peer : PhysicalPeer) (p : PeerStatus)
    → Reach p
    → (q : PeerStatus) × (td : TrafficDelta) × ((collect_peer timeout clock peer p ≡ ok (q, td))
        × Collected peer p q)
Reach-Collected timeout clock peer p r =
    collect_peer-Collected timeout clock peer p (Reach-IsConsistent p r)
