-- ===== src/Controller/Links/Trees.antt =====
-- controller.c: `add_connection` where the links form trees.
use openflow_controller.Prelude.{ℕ, ◌≡◌, ◌≢◌, true, false}
use openflow_controller.Outcome.{done}
use openflow_controller.Switch.{u8, u32}
use openflow_controller.Network.{connect}
use openflow_controller.Network.Marks.{known}
use openflow_controller.Network.Links.{linked}
use openflow_controller.Network.Total.{WellFormed}
use openflow_controller.Network.Kept.{connect-WellFormed}
use openflow_controller.Network.Simple.{IsSimple, Link}
use openflow_controller.Network.Simple.Connect.{connect-IsSimple}
use openflow_controller.Network.Forest.{IsForest}
use openflow_controller.Network.Forest.Roots.{loop_exists-forest}
use openflow_controller.Controller.{Controller, add_connection}
use openflow_controller.Controller.Links.{unlooped, reported}

-- Where a link between two different known devices is reported, and the links that are then known form trees,
-- the link is put in the graph and nothing else changes: no port of any switch is closed. The graph before the report is
-- well-formed, with each link in both directions, none of them or of the devices twice, and no device linked to itself.
pub add_connection-forest :
    (dest src dst_port src_port : ℕ) (c : Controller) (parent depth : ℕ → ℕ)
    → u8 dest ≢ u8 src
    → known (u8 dest) c.network_graph.devices ≡ true
    → known (u8 src) c.network_graph.devices ≡ true
    → WellFormed c.network_graph
    → IsSimple c.network_graph.devices
    → ((a : ℕ) → linked a a c.network_graph.devices ≡ false)
    → let g' = connect (u8 dest) (u8 src) (u32 dst_port) (u32 src_port) c.network_graph in
      IsForest (Link g'.devices) parent depth
      → add_connection dest src dst_port src_port c ≡ done (record c { network_graph = g' })
unfolding reported
add_connection-forest dest src p q c parent depth apart kd ks w simple no_self forest =
    let (w', _) = connect-WellFormed (u8 dest) (u8 src) (u32 p) (u32 q) c.network_graph kd ks w in
    let (simple', _) =
      connect-IsSimple (u8 dest) (u8 src) (u32 p) (u32 q) c.network_graph apart kd ks no_self
        simple in
    unlooped dest src p q c
      (loop_exists-forest (reported dest src p q c) parent depth w' simple' forest)
