-- ===== src/Controller/Tracking.antt =====
-- controller.c: the list of switches and the graph together, as connections come in and links are
-- reported.
pub mod Sockets
use openflow_controller.Controller.Tracking.Sockets.{
  entry, has_socket-set, all_empty-connect, is_compact-connect, has_socket-put, has_socket-blocked,
  has_socket-after,
}
use mathlib.Core.Option.{some-injective}
use mathlib.Core.Path.{ap₂}
use openflow_controller.Prelude.{
  ℕ, zero, suc, ◌+◌, ◌<◌, ◌≡◌, ◌⊎◌, refl, sym, ap, ◌∙◌, List, [], ◌∷◌, map, Option, none, some,
  true, false, arith, ◌==◌, leb, inl, inr, Bool-cases, if◌then◌else◌, length, get_elem?, set, subst,
}
use openflow_controller.Memory.{fresh}
use openflow_controller.Memory.Words.{AreBytes}
use openflow_controller.Outcome.{done}
use openflow_controller.Switch.{OfSwitch, u8, u16, u32}
use openflow_controller.Network.{Devices, connect, connect_device, initialize_network_graph}
use openflow_controller.Network.Marks.{known}
use openflow_controller.Network.Total.{WellFormed}
use openflow_controller.Network.Kept.{connect-WellFormed}
use openflow_controller.Packets.PortMod.{change_port_behavior}
use openflow_controller.Packets.Requests.{write_openflow_hello}
use openflow_controller.Controller.{Controller, put_switch, add_connection}
use openflow_controller.Controller.Links.{has_socket, switch_at-some, add_connection-total}
use openflow_controller.Controller.Setup.{
  accepted, larger_fd, new_switch, add_to_graph, create_new_connection, initialize_controller,
}
use openflow_controller.Controller.Setup.Filled.{
  all_empty, is_compact, has_hole, filled, add_device-filled, known-filled, closed_in-filled,
  is_compact-filled, length-filled, unmark-filled,
}

-- The graph is well-formed and its table has no device behind an empty entry, and every known device is
-- a connected switch.
pub record IsTracked (c : Controller) : Type 0 where
  pub graph : WellFormed c.network_graph
  pub compact : is_compact c.network_graph.devices ≡ true
  pub listed :
      (n : ℕ)
      → known n c.network_graph.devices ≡ true
      → has_socket n c.num_connected_switches c.switch_list ≡ true

module _ (junk : Option OfSwitch) (fd : ℕ) (c : Controller) where
  unfoldable pub entered : OfSwitch → Controller
  entered old =
      record (put_switch c.num_connected_switches
        (write_openflow_hello (new_switch (u16 fd) (u32 c.xid_generator) old)) c) {
          num_connected_switches = c.num_connected_switches + 1;
          xid_generator = c.xid_generator + 1;
          largest_fd = larger_fd (accepted fd) c.largest_fd;
          network_graph = record c.network_graph {
            devices = filled (u16 fd) c.network_graph.devices;
            num_conn_devices = u8 (c.network_graph.num_conn_devices + 1);
          };
        }

  pub create-entered :
      (old : OfSwitch)
      → get_elem? c.switch_list c.num_connected_switches ≡ some old
      → has_hole c.network_graph.devices ≡ true
      → c.num_connected_switches < c.max_connected_switches
      → create_new_connection junk (accepted fd) c ≡ done (entered old)
  unfolding create_new_connection entered add_to_graph
  create-entered old at hole room =
      let free : leb c.max_connected_switches c.num_connected_switches ≡ false = ground arith in
      rw
        (
          free,
          switch_at-some c.num_connected_switches old c.switch_list at,
          add_device-filled (u16 fd) c.network_graph.devices hole,
        )
        refl

  same_fd : fd < 256 → u8 (u16 fd) ≡ fd
  same_fd small = omega arith

  known-entered :
      (old : OfSwitch) (n : ℕ)
      → IsTracked c
      → fd < 256
      → has_hole c.network_graph.devices ≡ true
      → known n (entered old).network_graph.devices
        ≡ (if fd == n then true else known n c.network_graph.devices)
  unfolding entered
  known-entered old n p small hole =
      known-filled (u16 fd) n c.network_graph.devices p.compact hole
      ∙ ap (λ x. if x == n then true else known n c.network_graph.devices) (same_fd small)

  -- The socket of the new entry.
  socket_fd-entered :
      (old : OfSwitch)
      → (write_openflow_hello (new_switch (u16 fd) (u32 c.xid_generator) old)).socket_fd ≡ u16 fd
  unfolding write_openflow_hello new_switch
  socket_fd-entered old = refl

  bytes-entered :
      (old : OfSwitch)
      → AreBytes
          (write_openflow_hello (new_switch (u16 fd) (u32 c.xid_generator) old)).read_buffer.byte
  unfolding write_openflow_hello new_switch fresh
  bytes-entered old j = omega arith

  listed-entered :
      (old : OfSwitch) (n : ℕ)
      → IsTracked c
      → fd < 256
      → c.num_connected_switches < length c.switch_list
      → (if fd == n then true else known n c.network_graph.devices) ≡ true
      → has_socket n (entered old).num_connected_switches (entered old).switch_list ≡ true
  unfolding entered
  listed-entered old n p small inside h =
      let s = write_openflow_hello (new_switch (u16 fd) (u32 c.xid_generator) old) in
      let word : s.socket_fd ≡ fd = socket_fd-entered old ∙ omega arith in
      let next : suc c.num_connected_switches ≡ c.num_connected_switches + 1 = omega arith in
      subst (λ k. has_socket n k (set c.switch_list c.num_connected_switches s) ≡ true) next
        (has_socket-set n c.num_connected_switches c.switch_list s inside
          ∙ ap (λ x. if x == n then true else has_socket n c.num_connected_switches c.switch_list)
              word
          ∙ by_cases)
    where
      by_cases :
          (if fd == n then true else has_socket n c.num_connected_switches c.switch_list) ≡ true
      by_cases = elim (Bool-cases (fd == n)) [
        | inl e ↦ rw e refl
        | inr e ↦ rw e (p.listed n (rw e at h))
      ]

  -- Where list and graph are tracked and have room, a switch on a descriptor below 256 is taken in: there
  -- is one connected switch more, behind the others in the list, with that descriptor and bytes in its
  -- read buffer, the known devices are those known before and the new one, and list and graph stay
  -- tracked.
  pub create_new_connection-IsTracked :
      IsTracked c
      → fd < 256
      → has_hole c.network_graph.devices ≡ true
      → c.num_connected_switches < c.max_connected_switches
      → c.num_connected_switches < length c.switch_list
      → (c' : Controller) × (create_new_connection junk (accepted fd) c ≡ done c')
        × IsTracked c'
        × (c'.num_connected_switches ≡ c.num_connected_switches + 1)
        × ((n : ℕ)
            → known n c'.network_graph.devices
              ≡ (if fd == n then true else known n c.network_graph.devices))
        × ((s : OfSwitch) × (c'.switch_list ≡ set c.switch_list c.num_connected_switches s)
            × (s.socket_fd ≡ fd)
            × AreBytes s.read_buffer.byte)
  unfolding entered
  create_new_connection-IsTracked p small hole room inside =
      let (old, at) = entry c.switch_list c.num_connected_switches inside in
      (
        entered old,
        create-entered old at hole room,
        tracked old,
        refl,
        λ n. known-entered old n p small hole,
        (
          write_openflow_hello (new_switch (u16 fd) (u32 c.xid_generator) old),
          refl,
          socket_fd-entered old ∙ omega arith,
          bytes-entered old,
        ),
      )
    where
      tracked : (old : OfSwitch) → IsTracked (entered old)
      tracked old = record {
        graph = record {
          closed =
              closed_in-filled (u16 fd) c.network_graph.devices c.network_graph.devices p.compact
                hole p.graph.closed;
          clear = unmark-filled (u16 fd) c.network_graph.devices p.graph.clear;
          sized = omega (arith, p.graph.sized, length-filled (u16 fd) c.network_graph.devices);
        };
        compact = is_compact-filled (u16 fd) c.network_graph.devices p.compact;
        listed =
            λ n h. listed-entered old n p small inside (sym (known-entered old n p small hole) ∙ h);
      }

-- What a report of a link between two known devices leaves.
pub add_connection-after :
    (dest src dst_port src_port : ℕ) (c : Controller)
    → IsTracked c
    → known (u8 dest) c.network_graph.devices ≡ true
    → known (u8 src) c.network_graph.devices ≡ true
    → (c' : Controller) × (add_connection dest src dst_port src_port c ≡ done c')
      × IsTracked c'
      × (c'.num_connected_switches ≡ c.num_connected_switches)
      × ((n : ℕ) → known n c'.network_graph.devices ≡ known n c.network_graph.devices)
      × ((c'.switch_list ≡ c.switch_list)
          ⊎ ((i : ℕ) × (s : OfSwitch) × (get_elem? c.switch_list i ≡ some s)
              × (c'.switch_list ≡ set c.switch_list i (change_port_behavior s src_port false))))
unfolding connect
add_connection-after dest src p q c t kd ks =
    let (c', e, g, w, num, ss) = add_connection-total dest src p q c kd ks t.graph t.listed in
    let (_, kept) =
      connect-WellFormed (u8 dest) (u8 src) (u32 p) (u32 q) c.network_graph kd ks t.graph in
    let same : (n : ℕ) → known n c'.network_graph.devices ≡ known n c.network_graph.devices =
      λ n. ap (λ x. known n x.devices) g ∙ kept n in
    (
      c',
      e,
      record {
        graph = w;
        compact =
            ap (λ x. is_compact x.devices) g
            ∙ is_compact-connect (u8 dest) (u8 src) (u32 p) (u32 q) c.network_graph.devices
            ∙ t.compact;
        listed = λ n h.
            has_socket-after n q c.num_connected_switches c'.num_connected_switches c.switch_list
              c'.switch_list num ss
            ∙ t.listed n (sym (same n) ∙ h);
      },
      num,
      same,
      ss,
    )

-- Where list and graph are tracked, they stay so when a link between two known devices is reported,
-- and the report is taken without a null dereference.
pub add_connection-IsTracked :
    (dest src dst_port src_port : ℕ) (c : Controller)
    → IsTracked c
    → known (u8 dest) c.network_graph.devices ≡ true
    → known (u8 src) c.network_graph.devices ≡ true
    → (c' : Controller) × (add_connection dest src dst_port src_port c ≡ done c') × IsTracked c'
add_connection-IsTracked dest src p q c t kd ks =
    let (c', e, tracked, _, _, _) = add_connection-after dest src p q c t kd ks in (c', e, tracked)

-- The program starts with a list and a graph that are tracked, and with room in the table.
pub initialize_controller-IsTracked :
    (fd : ℕ)
    → IsTracked (initialize_controller fd)
      × (has_hole (initialize_controller fd).network_graph.devices ≡ true)
unfolding initialize_controller initialize_network_graph
initialize_controller-IsTracked fd = (
  record {
    graph = record { closed = refl; clear = refl; sized = omega arith };
    compact = refl;
    listed = λ n h. absurd cc;
  },
  refl,
)
