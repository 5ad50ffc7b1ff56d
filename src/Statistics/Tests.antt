-- ===== src/Statistics/Tests.antt =====
-- Updates of the status of a peer, and the theorems at those inputs.
use awg_portal.Prelude.{◌≡◌, refl, true, false, none, some, [], pos}
use awg_portal.Errors.{ok}
use awg_portal.Peer.Physical.{PhysicalPeer}
use awg_portal.Statistics.{
  PeerStatus, TrafficDelta, Clock, calc_connected, collect_peer, ping_peer, calculate_traffic_delta,
  new_peer_status, is_pingable, is_recent_handshake, get_session_start_time, Reach, created,
  whole_seconds, delta_over, pinged,
}
use awg_portal.Statistics.Session.{Collected, Reach-Collected}

abbrev clock : Clock
clock = record { now = 1000; at_session = 1001; at_connected = 1002 }

abbrev physical : PhysicalPeer
physical = record {
  identifier = "peer";
  endpoint = "192.0.2.1:51820";
  allowed_ips = [];
  key_pair = record { private_key = ""; public_key = "peer" };
  preshared_key = "";
  persistent_keepalive = pos 25;
  last_handshake = 950;
  protocol_version = pos 1;
  bytes_upload = 2000;
  bytes_download = 700;
  import_source = "";
  extras = none;
}

abbrev pinged_status : PeerStatus
pinged_status = ping_peer 180 990 991 992 false (new_peer_status "peer" 900)

pinged_Reach : Reach pinged_status
pinged_Reach = pinged (created "peer" 900) 180 990 991 992 false

collects :
    collect_peer 180 clock physical pinged_status
    ≡ ok (
      record {
        peer_id = "peer";
        updated_at = 1000;
        is_connected = true;
        is_pingable = false;
        last_ping = none;
        bytes_received = 2000;
        bytes_transmitted = 700;
        last_handshake = some 950;
        endpoint = "192.0.2.1:51820";
        last_session_start = some 950;
      },
      record {
        entity_id = "peer";
        bytes_received_per_second = 0;
        bytes_transmitted_per_second = 0;
      },
    )
unfolding collect_peer ping_peer calc_connected calculate_traffic_delta whole_seconds delta_over
    get_session_start_time is_recent_handshake
collects = refl

Reach-Collected_example :
    (q : PeerStatus) × (td : TrafficDelta) × ((collect_peer 180 clock physical pinged_status
        ≡ ok (q, td))
      × Collected physical pinged_status q)
Reach-Collected_example = Reach-Collected 180 clock physical pinged_status pinged_Reach

reset_counter :
    (calculate_traffic_delta "peer" 0 10_000_000_000 700 50 2000 2500).bytes_transmitted_per_second
    ≡ 1844674407370955096
unfolding calculate_traffic_delta whole_seconds delta_over
reset_counter = refl

answers : is_pingable (record { packets_recv = 1; packets_sent = 3; rtts = [] }) ≡ false
unfolding is_pingable
answers = refl
