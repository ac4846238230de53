-- ===== src/Host/Configure.antt =====
-- src/host.cpp: the settings of a host.
use enetcpp.Base.{ℕ, true, ◌||◌, if◌then◌else◌, ltb, ◌==◌}
use enetcpp.Command.Limits.{minimum_channel_count, maximum_channel_count}
use enetcpp.Host.{Host}

-- `if (!channelLimit || channelLimit > MAXIMUM) … else if (channelLimit < MINIMUM) …`
unfoldable pub limited : ℕ → ℕ
limited n =
    if n == 0 || ltb maximum_channel_count n
    then maximum_channel_count
    else if ltb n minimum_channel_count
    then minimum_channel_count
    else n

unfoldable pub host_channel_limit : Host → ℕ → Host
unfolding limited
host_channel_limit h n = record h { channel_limit = limited n }

unfoldable pub host_bandwidth_limit : Host → ℕ → ℕ → Host
host_bandwidth_limit h incoming outgoing = record h {
  incoming_bandwidth = incoming;
  outgoing_bandwidth = outgoing;
  recalculate_bandwidth_limits = true;
}
