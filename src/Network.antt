-- ===== src/Network.antt =====
-- The graph of the network: `struct network` and `struct node` of controller.h. Each node of a list is
-- allocated for it alone, so a list of nodes is a list of values: the device, and its connections.
pub mod Search
pub mod Marks
pub mod Kept
pub mod Links
pub mod Total
pub mod Simple
pub mod Forest
use openflow_controller.Prelude.{
  ℕ, zero, suc, ◌+◌, List, [], ◌∷◌, ◌++◌, map, Option, none, some, Bool, true, false, ◌||◌, ◌==◌,
  if◌then◌else◌, replicate,
}
use openflow_controller.Switch.{u8}

pub record Node : Type 0 where
  pub hw_addr : ℕ
  pub ip_addr : ℕ
  pub is_switch : Bool
  pub device_num : ℕ  -- uint8_t
  pub port_num : ℕ  -- uint8_t
  pub discovered : Bool

-- A device: its own node, and those that its `next` pointers lead to.
pub record Device : Type 0 where
  pub node : Node
  pub next : List Node

abbrev pub Devices : Type 0
Devices = List (Option Device)

pub record Network : Type 0 where
  pub devices : Devices
  pub num_conn_devices : ℕ  -- uint8_t
  pub max_network_size : ℕ  -- uint8_t

-- `calloc(1, sizeof(struct node))`
abbrev pub blank_node : Node
blank_node = record {
  hw_addr = 0;
  ip_addr = 0;
  is_switch = false;
  device_num = 0;
  port_num = 0;
  discovered = false;
}

unfoldable pub initialize_network_graph : Network
initialize_network_graph = record {
  devices = replicate 50 none;
  num_conn_devices = 0;
  max_network_size = 50;
}

-- `device_num == dest || device_num == src`
abbrev pub is_end : ℕ → ℕ → Node → Bool
is_end dest src n = (n.device_num == dest) || (n.device_num == src)

abbrev pub has_end : ℕ → ℕ → List Node → Bool
has_end dest src [] = false
has_end dest src (n ∷ ns) = is_end dest src n || has_end dest src ns

-- The node that is put at the end of the list of the device `match`.
abbrev pub connection : (match dest src dst_port src_port : ℕ) → Node
connection match dest src dst_port src_port =
    if match == dest
    then record blank_node { device_num = src; port_num = u8 src_port }
    else record blank_node { device_num = dest; port_num = u8 dst_port }

-- The round of `add_connection` for one entry of `devices`.
unfoldable pub connect_device : (dest src dst_port src_port : ℕ) → Option Device → Option Device
connect_device dest src dst_port src_port none = none
connect_device dest src dst_port src_port (some d) = some (
    if is_end dest src d.node
    then (if has_end dest src d.next then d else record d {
      next = d.next ++ connection d.node.device_num dest src dst_port src_port ∷ [];
    })
    else d)

-- The first part of `add_connection`: all entries in turn.
unfoldable pub connect : (dest src dst_port src_port : ℕ) → Network → Network
connect dest src dst_port src_port g = record g {
  devices = map (connect_device dest src dst_port src_port) g.devices;
}
