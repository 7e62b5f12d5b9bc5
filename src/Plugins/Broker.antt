-- ===== src/Plugins/Broker.antt =====
-- The gateway of the plugins: internal/plugin/broker.go.
use openspace_os_core.Base.{String, Option, none, some, List, if◌then◌else◌, str_eq, ◌⊎◌, inl, inr}
use openspace_os_core.Event.{Event}
use openspace_os_core.Bus.{MessageBus}
use openspace_os_core.Model.{Node}
use openspace_os_core.Graph.{Answer}
use openspace_os_core.Graph.Nodes.{get_node, list_nodes, ListOptions}
use openspace_os_core.Graph.Service.{KgService, stored}

pub data BrokerError : Type 0 where
  no_event no_node_id : BrokerError

module _ {B : Type 0} where
  -- `PublishEvent`: the error of the broker, or what the bus answers.
  unfoldable pub publish_event : MessageBus B → Option Event → B → BrokerError ⊎ (Option String × B)
  publish_event b none bus = inl no_event
  publish_event b (some e) bus = inr (b.publish bus e)

  unfoldable pub query_node : String → KgService B → BrokerError ⊎ (Answer Node × KgService B)
  query_node id s = if str_eq id "" then inl no_node_id else inr (stored (get_node id) s)

  unfoldable pub list_graph_nodes :
      (List Node → List Node) → ListOptions → KgService B → Answer (List Node) × KgService B
  list_graph_nodes by_age o s = stored (list_nodes by_age o) s
