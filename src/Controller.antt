-- ===== src/Controller.antt =====
-- controller.c: the global state, and the operations that reach several switches.
pub mod Write
pub mod Read
pub mod Setup
pub mod Links
pub mod Running
pub mod EchoExchange
pub mod Tracking
pub mod Select
use openflow_controller.Prelude.{
  ℕ, zero, suc, ◌+◌, ◌*◌, List, [], ◌∷◌, ◌++◌, Option, none, some, Bool, true, false, ◌==◌,
  if◌then◌else◌, get_elem?, set, replicate,
}
use openflow_controller.Memory.{Buffer, release}
use openflow_controller.Switch.{OfSwitch, RwStatus, u8, u32}
use openflow_controller.Outcome.{Outcome, done, crashed, ◌>>=◌}
use openflow_controller.Network.{Network, connect}
use openflow_controller.Network.Search.{loop_exists}
use openflow_controller.Packets.PortMod.{change_port_behavior}

pub record Controller : Type 0 where
  pub num_connected_switches : ℕ
  pub max_connected_switches : ℕ
  -- `max_connected_switches` entries
  pub switch_list : List OfSwitch
  pub network_graph : Network
  pub listening_socket_fd : ℕ
  pub largest_fd : ℕ
  pub interrupt : Bool
  pub xid_generator : ℕ
  pub read_sockets : List ℕ
  pub write_sockets : List ℕ
  pub error_sockets : List ℕ
  -- what `close` was called on, latest first
  pub closed : List ℕ

pub switch_at : ℕ → List OfSwitch → Outcome OfSwitch
switch_at k ss = elim (get_elem? ss k) [ none ↦ crashed | some s ↦ done s ]

abbrev pub put_switch : ℕ → OfSwitch → Controller → Controller
put_switch k s c = record c { switch_list = set c.switch_list k s }

-- `while (switch_list[i].socket_fd != fd) i++;`
pub switch_index : ℕ → List OfSwitch → Outcome ℕ
switch_index fd [] = crashed
switch_index fd (s ∷ ss) =
    let rest = switch_index fd ss >>= λ i. done (suc i) in
    if s.socket_fd == fd then done 0 else rest

-- The descriptors come as `uint8_t`. A loop closes a port of the device that the search reports.
pub add_connection : (dest src dst_port src_port : ℕ) → Controller → Outcome Controller
unfolding switch_at switch_index
add_connection dest src dst_port src_port c = do
  (looped_device, g) ←
      loop_exists (connect (u8 dest) (u8 src) (u32 dst_port) (u32 src_port) c.network_graph)
  let c' = record c { network_graph = g }
  if looped_device == 0 then done c' else (do
    i ← switch_index looped_device c'.switch_list
    s ← switch_at i c'.switch_list
    done (put_switch i (change_port_behavior s src_port false) c'))

abbrev pub free_buffers : OfSwitch → OfSwitch
free_buffers s = elim s.rw [
  | RwStatus.disconnected ↦ s
  | _ ↦ record s { read_buffer = release s.read_buffer; write_buffer = release s.write_buffer }
]

-- `n` entries from entry `k` on; past the end of the array is a crash.
pub free_from : ℕ → ℕ → List OfSwitch → Outcome (List OfSwitch)
free_from zero k ss = done ss
free_from (suc n) k [] = crashed
free_from (suc n) zero (s ∷ ss) = free_from n zero ss >>= λ rest. done (free_buffers s ∷ rest)
free_from (suc n) (suc k) (s ∷ ss) = free_from (suc n) k ss >>= λ rest. done (s ∷ rest)

-- The argument of the source is a pointer to entry `k`; the count is that of all connected switches.
unfoldable pub free_switch_buffers : ℕ → Controller → Outcome Controller
unfolding free_from
free_switch_buffers k c = free_from c.num_connected_switches k c.switch_list >>= λ ss.
    done (record c { switch_list = ss })
