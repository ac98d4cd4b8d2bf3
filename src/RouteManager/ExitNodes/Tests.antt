-- ===== src/RouteManager/ExitNodes/Tests.antt =====
-- The exit nodes of the sample networks.
use netbird_minimal.RouteManager.ExitNodes.{no_info, collect_exit_node_info}
use netbird_minimal.RouteManager.ExitNodes.Choice.{
  RespectsUser, collect_exit_node_info-RespectsUser,
}
use netbird_minimal.RouteManager.Sample.{sample_env, sample_networks}

collect_exit_node_info-RespectsUser_example :
    RespectsUser sample_env tt (collect_exit_node_info sample_env tt sample_networks no_info)
collect_exit_node_info-RespectsUser_example =
    collect_exit_node_info-RespectsUser sample_env tt sample_networks
