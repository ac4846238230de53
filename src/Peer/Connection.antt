-- ===== src/Peer/Connection.antt =====
-- src/peer.cpp: `peer_on_connect` and `peer_on_disconnect`, which keep the host's two counters.
use enetcpp.Base.{Bool, not, if◌then◌else◌, ◌==◌, add64, sub64}
use enetcpp.Peer.State.{is_connected}
use enetcpp.Peer.{Peer}
use enetcpp.Host.{Conn}

abbrev pub limits_bandwidth : Peer → Bool
limits_bandwidth p = not (p.bandwidth.incoming_bandwidth == 0)

unfoldable pub peer_on_connect : Conn → Conn
peer_on_connect c = if is_connected c.peer.state then c else record c {
  host = record c.host {
    bandwidth_limited_peers =
        if limits_bandwidth c.peer
        then add64 c.host.bandwidth_limited_peers 1
        else c.host.bandwidth_limited_peers;
    connected_peers = add64 c.host.connected_peers 1;
  };
}

unfoldable pub peer_on_disconnect : Conn → Conn
peer_on_disconnect c =
    if is_connected c.peer.state
    then record c {
      host = record c.host {
        bandwidth_limited_peers =
            if limits_bandwidth c.peer
            then sub64 c.host.bandwidth_limited_peers 1
            else c.host.bandwidth_limited_peers;
        connected_peers = sub64 c.host.connected_peers 1;
      };
    }
    else c
