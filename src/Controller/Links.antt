-- ===== src/Controller/Links.antt =====
-- controller.c: `add_connection` as a whole, from the report of a link to the port that it closes.
pub mod Trees
use openflow_controller.Prelude.{
  ℕ, zero, suc, ◌≡◌, ◌⊎◌, refl, sym, ap, ◌∙◌, List, [], ◌∷◌, some, Bool, true, false, arith, ◌==◌,
  inl, inr, Bool-cases, if◌then◌else◌, get_elem?, set, ==→eq,
}
use openflow_controller.Outcome.{done}
use openflow_controller.Switch.{OfSwitch, u8, u32}
use openflow_controller.Network.{Network, connect}
use openflow_controller.Network.Search.{loop_exists}
use openflow_controller.Network.Marks.{known}
use openflow_controller.Network.Total.{WellFormed, loop_exists-total}
use openflow_controller.Network.Kept.{connect-WellFormed}
use openflow_controller.Packets.PortMod.{change_port_behavior}
use openflow_controller.Controller.{Controller, switch_at, put_switch, switch_index, add_connection}

-- Whether one of the first `k` switches of the list has the descriptor.
abbrev pub has_socket : (fd k : ℕ) → List OfSwitch → Bool
has_socket fd zero ss = false
has_socket fd (suc k) [] = false
has_socket fd (suc k) (s ∷ ss) = if s.socket_fd == fd then true else has_socket fd k ss

has_socket-index :
    (fd k : ℕ) (ss : List OfSwitch)
    → has_socket fd k ss ≡ true
    → (i : ℕ) × (s : OfSwitch) × (switch_index fd ss ≡ done i) × (get_elem? ss i ≡ some s)
unfolding switch_index
has_socket-index fd zero ss h = absurd cc
has_socket-index fd (suc k) [] h = absurd cc
has_socket-index fd (suc k) (s ∷ ss) h = elim (Bool-cases (s.socket_fd == fd)) [
  | inl e ↦ (0, s, rw e refl, refl)
  | inr e ↦
      let (i, t, found, at) = has_socket-index fd k ss (rw e at h) in
      (suc i, t, rw (e, found) refl, at)
]

pub switch_at-some :
    (i : ℕ) (s : OfSwitch) (ss : List OfSwitch) → get_elem? ss i ≡ some s → switch_at i ss ≡ done s
unfolding switch_at
switch_at-some i s ss h = rw (h, switch_at) refl

module _ (dest src dst_port src_port : ℕ) (c : Controller) where
  pub reported : Network
  reported = connect (u8 dest) (u8 src) (u32 dst_port) (u32 src_port) c.network_graph

  pub unlooped :
      loop_exists reported ≡ done (0, reported)
      → add_connection dest src dst_port src_port c ≡ done (record c { network_graph = reported })
  unfolding add_connection reported
  unlooped e = rw e refl

  looped :
      (loop i : ℕ) (s : OfSwitch)
      → loop_exists reported ≡ done (loop, reported)
      → (loop == 0) ≡ false
      → switch_index loop c.switch_list ≡ done i
      → switch_at i c.switch_list ≡ done s
      → add_connection dest src dst_port src_port c
        ≡ done (
            put_switch i
              (change_port_behavior s src_port false)
              (record c { network_graph = reported }))
  unfolding add_connection reported
  looped loop i s e other index at = rw (e, other, index, at) refl

  -- In a well-formed graph whose known devices are all connected switches, the report of a link
  -- between two known devices is taken without a null dereference: the link is put in the graph, which
  -- stays well-formed, and at most one switch of the list changes, which is told to close the port.
  pub add_connection-total :
      known (u8 dest) c.network_graph.devices ≡ true
      → known (u8 src) c.network_graph.devices ≡ true
      → WellFormed c.network_graph
      → ((n : ℕ)
          → known n c.network_graph.devices ≡ true
          → has_socket n c.num_connected_switches c.switch_list ≡ true)
      → (c' : Controller) × (add_connection dest src dst_port src_port c ≡ done c')
        × (c'.network_graph
            ≡ connect (u8 dest) (u8 src) (u32 dst_port) (u32 src_port) c.network_graph)
        × WellFormed c'.network_graph
        × (c'.num_connected_switches ≡ c.num_connected_switches)
        × ((c'.switch_list ≡ c.switch_list)
            ⊎ ((i : ℕ) × (s : OfSwitch) × (get_elem? c.switch_list i ≡ some s)
                × (c'.switch_list ≡ set c.switch_list i (change_port_behavior s src_port false))))
  unfolding reported
  add_connection-total kd ks w listed =
      let (w', kept) =
        connect-WellFormed (u8 dest) (u8 src) (u32 dst_port) (u32 src_port) c.network_graph kd ks
          w in
      let (loop, e, answer) = loop_exists-total reported w' in
      elim (Bool-cases (loop == 0)) [
        | inl none_found ↦
            let zero_loop : loop ≡ 0 = ==→eq loop 0 none_found in
            (
              record c { network_graph = reported },
              unlooped (e ∙ ap (λ r. done (r, reported)) zero_loop),
              refl,
              w',
              refl,
              inl refl,
            )
        | inr other ↦
            let (i, s, index, at) =
              has_socket-index loop c.num_connected_switches c.switch_list
                (listed loop (sym (kept loop) ∙ sure loop other answer)) in
            (
              put_switch i (change_port_behavior s src_port false)
                  (record c { network_graph = reported }),
              looped loop i s e other index (switch_at-some i s c.switch_list at),
              refl,
              w',
              refl,
              inr (i, s, at, refl),
            )
      ]
    where
      sure :
          (loop : ℕ)
          → (loop == 0) ≡ false
          → (loop ≡ 0) ⊎ (known loop reported.devices ≡ true)
          → known loop reported.devices ≡ true
      sure loop other (inl e) = absurd (ground arith)
      sure loop other (inr k) = k
