-- ===== src/Statistics.antt =====
-- internal/domain/statistics.go, and the updates of a peer's status in the statistics collector of
-- internal/app/wireguard/statistics.go. Times are nanoseconds, 0 is Go's zero time. Counters are numbers
-- of 64 bits, whose subtraction wraps around.
pub mod Traffic
pub mod Session
mod Tests
use awg_portal.Prelude.{
  ℕ, zero, suc, ◌+◌, ◌-◌, ◌*◌, ◌/◌, ◌%◌, ◌^◌, ltb, leb, String, Bool, true, false, ◌&&◌, ◌||◌,
  Option, none, some, List, [], ◌∷◌, ◌==◌, nat_eq, if◌then◌else◌, length, ◌≡◌,
}
use awg_portal.Errors.{Result, ok, panic, ◌>>=◌}
use awg_portal.Peer.Physical.{PhysicalPeer}

pub record PeerStatus : Type 0 where
  pub peer_id : String
  pub updated_at : ℕ
  pub is_connected : Bool
  pub is_pingable : Bool
  pub last_ping : Option ℕ
  pub bytes_received : ℕ
  pub bytes_transmitted : ℕ
  pub last_handshake : Option ℕ
  pub endpoint : String
  pub last_session_start : Option ℕ

-- `t.Before(now.Add(-timeout))`
abbrev pub is_stale : ℕ → ℕ → ℕ → Bool
is_stale timeout now t = ltb (t + timeout) now

unfoldable pub is_recent_handshake : ℕ → ℕ → Option ℕ → Bool
is_recent_handshake timeout now none = false
is_recent_handshake timeout now (some t) = if is_stale timeout now t then false else true

unfoldable pub calc_connected : ℕ → ℕ → PeerStatus → PeerStatus
calc_connected timeout now s = record s {
  is_connected = s.is_pingable || is_recent_handshake timeout now s.last_handshake;
}

pub record PingerResult : Type 0 where
  pub packets_recv : ℕ
  pub packets_sent : ℕ
  pub rtts : List ℕ

unfoldable pub is_pingable : PingerResult → Bool
is_pingable r = ltb 0 r.packets_recv && (ltb 0 r.packets_sent && ltb 0 (length r.rtts))

pub record TrafficDelta : Type 0 where
  pub entity_id : String
  pub bytes_received_per_second : ℕ
  pub bytes_transmitted_per_second : ℕ

-- Subtraction of unsigned numbers of 64 bits.
abbrev pub sub_64 : ℕ → ℕ → ℕ
sub_64 a b = (a + (2 ^ 64 - b % 2 ^ 64)) % 2 ^ 64

-- `uint64(newTime.Sub(oldTime).Seconds())`. Go leaves open what becomes of a negative number of seconds, after
-- the clock has been set back; this is what it becomes on amd64. The rounding of `Seconds` to a `float64`,
-- which from 2 ^ 23 seconds on can lose a nanosecond, and the bound of `Sub` at 292 years are left out.
unfoldable pub whole_seconds : ℕ → ℕ → ℕ
whole_seconds old_time new_time =
    if leb old_time new_time
    then (new_time - old_time) / 1_000_000_000 % 2 ^ 64
    else (2 ^ 64 - (old_time - new_time) / 1_000_000_000 % 2 ^ 64) % 2 ^ 64

-- The rest of `CalculateTrafficDelta`.
unfoldable pub delta_over : String → ℕ → ℕ → ℕ → ℕ → ℕ → TrafficDelta
delta_over id seconds old_tx new_tx old_rx new_rx =
    if seconds == 0
    then record { entity_id = id; bytes_received_per_second = 0; bytes_transmitted_per_second = 0 }
    else record {
      entity_id = id;
      bytes_received_per_second = sub_64 new_rx old_rx / seconds;
      bytes_transmitted_per_second = sub_64 new_tx old_tx / seconds;
    }

unfoldable pub calculate_traffic_delta : String → ℕ → ℕ → ℕ → ℕ → ℕ → ℕ → TrafficDelta
unfolding delta_over whole_seconds
calculate_traffic_delta id old_time new_time old_tx new_tx old_rx new_rx =
    delta_over id (whole_seconds old_time new_time) old_tx new_tx old_rx new_rx

-- `h == nil || h.Before(oldest)`
abbrev pub is_none_or_stale : ℕ → ℕ → Option ℕ → Bool
is_none_or_stale timeout now none = true
is_none_or_stale timeout now (some t) = is_stale timeout now t

-- `start == nil || h.Before(oldest)`, where `h` may be nil.
abbrev pub not_started_or_stale : ℕ → ℕ → Option ℕ → Option ℕ → Result Bool
not_started_or_stale timeout now none h = ok true
not_started_or_stale timeout now (some t) none = panic
not_started_or_stale timeout now (some t) (some h) = ok (is_stale timeout now h)

abbrev pub not_started : Option ℕ → Bool
not_started none = true
not_started (some t) = false

-- The session was restarted, as a counter is lower, or it is initiated.
unfoldable pub is_restarted : PeerStatus → ℕ → ℕ → Bool
is_restarted old rx tx =
    (ltb 0 rx && ltb rx old.bytes_received)
    || ((ltb 0 tx && ltb tx old.bytes_transmitted)
        || (not_started old.last_session_start
            && (ltb old.bytes_received rx || ltb old.bytes_transmitted tx)))

unfoldable pub get_session_start_time : ℕ → ℕ → PeerStatus → ℕ → ℕ → Option ℕ → Result (Option ℕ)
get_session_start_time timeout now old rx tx none = ok none
get_session_start_time timeout now old rx tx (some h) =
    if (old.bytes_received == 0) && ((old.bytes_transmitted == 0) && (ltb 0 rx || ltb 0 tx))
    then ok (some h)
    else if (old.bytes_received == 0)
        && (ltb 0 rx && is_none_or_stale timeout now old.last_handshake)
    then ok (some h)
    else do
      first_transmit ←
          if (old.bytes_transmitted == 0) && ltb 0 tx
          then not_started_or_stale timeout now old.last_session_start old.last_handshake
          else ok false
      ok (if first_transmit || is_restarted old rx tx then some h else old.last_session_start)

-- What the collector reads of the clock while it updates a status: `now`, the time in
-- `getSessionStartTime`, and the one in `CalcConnected`.
pub record Clock : Type 0 where
  pub now : ℕ
  pub at_session : ℕ
  pub at_connected : ℕ

-- `if !peer.LastHandshake.IsZero()`
abbrev pub handshake_of : ℕ → Option ℕ
handshake_of t = if t == 0 then none else some t

-- The assignments of that update function, with the start of the session.
abbrev pub updated_status : ℕ → Clock → PhysicalPeer → PeerStatus → Option ℕ → PeerStatus
updated_status timeout clock peer p start = calc_connected timeout clock.at_connected (record p {
  updated_at = clock.now;
  last_session_start = start;
  bytes_received = peer.bytes_upload;
  bytes_transmitted = peer.bytes_download;
  endpoint = peer.endpoint;
  last_handshake = handshake_of peer.last_handshake;
})

-- The update function of `collectPeerData`.
unfoldable pub collect_peer :
    ℕ → Clock → PhysicalPeer → PeerStatus → Result (PeerStatus × TrafficDelta)
collect_peer timeout clock peer p =
    let td =
      calculate_traffic_delta peer.identifier p.updated_at clock.now p.bytes_transmitted
        peer.bytes_download p.bytes_received peer.bytes_upload in
    do
      start ←
          get_session_start_time timeout clock.at_session p peer.bytes_upload peer.bytes_download
            (handshake_of peer.last_handshake)
      ok (updated_status timeout clock peer p start, td)

-- The update function of `pingWorker`, with its reads of the clock.
unfoldable pub ping_peer : ℕ → ℕ → ℕ → ℕ → Bool → PeerStatus → PeerStatus
ping_peer timeout now updated connected pingable p = calc_connected timeout connected (record p {
  is_pingable = pingable;
  last_ping = if pingable then some now else none;
  updated_at = updated;
})

-- The defaults of `getOrCreatePeerStatus`.
abbrev pub new_peer_status : String → ℕ → PeerStatus
new_peer_status id now = record {
  peer_id = id;
  updated_at = now;
  is_connected = false;
  is_pingable = false;
  last_ping = none;
  bytes_received = 0;
  bytes_transmitted = 0;
  last_handshake = none;
  endpoint = "";
  last_session_start = none;
}

-- The statuses that the database may hold for a peer: each is new or written by an update of another.
pub data Reach : PeerStatus → Type 0 where
  created : (id : String) (now : ℕ) → Reach (new_peer_status id now)
  collected :
      {p q : PeerStatus} {td : TrafficDelta}
      → Reach p
      → (timeout : ℕ) (clock : Clock) (peer : PhysicalPeer)
      → collect_peer timeout clock peer p ≡ ok (q, td)
      → Reach q
  pinged :
      {p : PeerStatus}
      → Reach p
      → (timeout now updated connected : ℕ) (pingable : Bool)
      → Reach (ping_peer timeout now updated connected pingable p)
