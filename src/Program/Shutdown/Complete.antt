-- ===== src/Program/Shutdown/Complete.antt =====
-- What is freed when the program ends.
use openflow_controller.Prelude.{
  ℕ, zero, suc, ◌+◌, ◌<◌, ◌≤◌, ◌≡◌, ◌≢◌, refl, sym, subst, ap, ◌∙◌, List, [], ◌∷◌, ◌++◌, none, some,
  true, false, ◌&&◌, arith, length, get_elem?, leb, ltb, if◌then◌else◌,
}
use mathlib.Core.List.{append_assoc}
use mathlib.Core.Option
use mathlib.Core.Option.{some-injective}
use openflow_controller.Memory.{release}
use openflow_controller.Outcome.{done, Gives}
use openflow_controller.Switch.{OfSwitch, RwStatus}
use openflow_controller.Controller.{Controller, free_buffers, free_switch_buffers}
use openflow_controller.Controller.Tracking.Sockets.{entry}
use openflow_controller.Controller.Read.{dispatch}
use openflow_controller.Controller.Read.Failure.{
  is_known, freed, free_from_lem, get_elem?-freed, dispatch-unknown,
}
use openflow_controller.Network.{Node, Device, Devices}
use openflow_controller.Program.Listening.{Candidate}
use openflow_controller.Program.Shutdown.{
  free_controller_mem, freed_nodes, free_network_graph, Freed, clean_up,
}

free_controller_mem_lem :
    (c : Controller)
    → c.num_connected_switches ≤ length c.switch_list
    → free_controller_mem c
      ≡ done (record c { switch_list = freed c.num_connected_switches 0 c.switch_list })
unfolding free_controller_mem free_switch_buffers
free_controller_mem_lem c room =
    rw (free_from_lem c.num_connected_switches 0 c.switch_list (omega (arith, room))) refl

get_elem?-all_freed :
    (n j : ℕ) (s : OfSwitch) (ss : List OfSwitch)
    → j < n
    → get_elem? ss j ≡ some s
    → get_elem? (freed n 0 ss) j ≡ some (free_buffers s)
get_elem?-all_freed n j s ss low at =
    get_elem?-freed n 0 j ss
    ∙ ap (λ b. if b then Option.map free_buffers (get_elem? ss j) else get_elem? ss j) inside
    ∙ ap (λ o. Option.map free_buffers o) at
  where
    inside : (leb 0 j && ltb j (0 + n)) ≡ true
    inside = ground (arith, low)

-- Freed twice.
fault-free_buffers :
    (s : OfSwitch)
    → s.rw ≢ RwStatus.disconnected
    → 0 < s.read_buffer.size
    → 0 < s.write_buffer.size
    → ((free_buffers (free_buffers s)).read_buffer.fault ≡ true)
      × ((free_buffers (free_buffers s)).write_buffer.fault ≡ true)
unfolding release
fault-free_buffers s up read write = (ground (arith, read), ground (arith, write))

once :
    (k n j : ℕ) (t : OfSwitch) (ss : List OfSwitch)
    → k < j
    → j < n
    → get_elem? ss j ≡ some t
    → (if leb k j && ltb j (k + n)
        then Option.map free_buffers (get_elem? ss j)
        else get_elem? ss j)
      ≡ some (free_buffers t)
once k n j t ss behind low at =
    ap (λ b. if b then Option.map free_buffers (get_elem? ss j) else get_elem? ss j) freed_there
    ∙ ap (λ o. Option.map free_buffers o) at
  where
    freed_there : (leb k j && ltb j (k + n)) ≡ true
    freed_there = ground (arith, behind, low)

-- After a message of an unknown type from the switch in entry `k`, the end of the program frees the buffers
-- of a connection behind that entry a second time, if that connection has buffers, was not disconnected and `k` is in
-- the list: where the list has, from `k` on, as many entries as switches are connected.
pub unknown-free_controller_mem :
    (k : ℕ) (s : OfSwitch) (c : Controller)
    → is_known s.of_status ≡ false
    → k < length c.switch_list
    → k + c.num_connected_switches ≤ length c.switch_list
    → (c₁ c₂ : Controller) × (dispatch k s c ≡ done c₁)
      × (free_controller_mem c₁ ≡ done c₂)
      × ((j : ℕ) (t : OfSwitch)
          → k < j
          → j < c.num_connected_switches
          → get_elem? c.switch_list j ≡ some t
          → t.rw ≢ RwStatus.disconnected
          → 0 < t.read_buffer.size
          → 0 < t.write_buffer.size
          → (u : OfSwitch) × (get_elem? c₂.switch_list j ≡ some u)
            × (u.read_buffer.fault ≡ true)
            × (u.write_buffer.fault ≡ true))
unknown-free_controller_mem k s c unknown inside room =
    let (c₁, e, entries, _, num, len) = dispatch-unknown k s c unknown inside room in
    (
      c₁,
      record c₁ { switch_list = freed c₁.num_connected_switches 0 c₁.switch_list },
      e,
      free_controller_mem_lem c₁ (omega (arith, num, len, room)),
      λ j t behind low at up read write. (
        free_buffers (free_buffers t),
        get_elem?-all_freed c₁.num_connected_switches j (free_buffers t) c₁.switch_list
            (omega (arith, num, low))
            (entries j (λ same. omega (arith, same, behind))
              ∙ once k c.num_connected_switches j t c.switch_list behind low at),
        (fault-free_buffers t up read write).0,
        (fault-free_buffers t up read write).1,
      ),
    )

-- The node of a device and the list behind it stand one behind the other among the freed nodes.
chain-freed_nodes :
    (i : ℕ) (d : Device) (ds : Devices)
    → get_elem? ds i ≡ some (some d)
    → (before after : List Node) × (freed_nodes ds ≡ before ++ ((d.node ∷ d.next) ++ after))
unfolding freed_nodes
chain-freed_nodes i d [] at = absurd cc
chain-freed_nodes zero d (x ∷ ds) at =
    ([], freed_nodes ds, ap (λ y. freed_nodes (y ∷ ds)) (some-injective x (some d) at))
chain-freed_nodes (suc i) d (none ∷ ds) at = chain-freed_nodes i d ds at
chain-freed_nodes (suc i) d (some x ∷ ds) at =
    let (before, after, e) = chain-freed_nodes i d ds at in
    (
      x.node ∷ x.next ++ before,
      after,
      ap (λ ns. x.node ∷ x.next ++ ns) e
          ∙ ap (λ ns. x.node ∷ ns) (sym (append_assoc x.next before ((d.node ∷ d.next) ++ after))),
    )

live-free_buffers :
    (s : OfSwitch)
    → s.rw ≢ RwStatus.disconnected
    → ((free_buffers s).read_buffer.live ≡ false) × ((free_buffers s).write_buffer.live ≡ false)
unfolding release
live-free_buffers s up = (ground arith, ground arith)

-- Freed once.
fault-freed :
    (s : OfSwitch)
    → (s.read_buffer.live ≡ true) × (s.read_buffer.fault ≡ false)
    → (s.write_buffer.live ≡ true) × (s.write_buffer.fault ≡ false)
    → ((free_buffers s).read_buffer.fault ≡ false) × ((free_buffers s).write_buffer.fault ≡ false)
unfolding release
fault-freed s (live, sound) (live', sound') =
    (ground (arith, live, sound), ground (arith, live', sound'))

-- Buffers that are live and were used as they may be are freed as they may be.
pub AreFreed : ℕ → List OfSwitch → Type 0
AreFreed n ss =
    (k : ℕ) (u : OfSwitch)
    → k < n
    → get_elem? ss k ≡ some u
    → (u.read_buffer.fault ≡ false) × (u.write_buffer.fault ≡ false)

pub clean_up-AreFreed :
    (server : List Candidate) (c : Controller)
    → c.num_connected_switches ≤ length c.switch_list
    → ((k : ℕ) (s : OfSwitch)
        → k < c.num_connected_switches
        → get_elem? c.switch_list k ≡ some s
        → ((s.read_buffer.live ≡ true) × (s.read_buffer.fault ≡ false))
          × ((s.write_buffer.live ≡ true) × (s.write_buffer.fault ≡ false)))
    → Gives (clean_up server c) (λ f. AreFreed c.num_connected_switches f.controller.switch_list)
unfolding clean_up AreFreed
clean_up-AreFreed server c room sound = rw (free_controller_mem_lem c room) (λ k u low at.
    let (s, here) = entry c.switch_list k (omega (arith, low, room)) in
    let it =
      some-injective (free_buffers s) u
        (sym (get_elem?-all_freed c.num_connected_switches k s c.switch_list low here) ∙ at) in
    let (read, write) = sound k s low here in
    subst (λ x. (x.read_buffer.fault ≡ false) × (x.write_buffer.fault ≡ false)) it
      (fault-freed s read write))

-- The nodes of every device, the buffers of every connection, the listening socket and the addresses.
pub record IsComplete (c : Controller) (server : List Candidate) (f : Freed) : Type 0 where
  pub nodes :
      (i : ℕ) (d : Device)
      → get_elem? c.network_graph.devices i ≡ some (some d)
      → (before after : List Node) × (f.nodes ≡ before ++ ((d.node ∷ d.next) ++ after))
  pub buffers :
      (k : ℕ) (s : OfSwitch)
      → k < c.num_connected_switches
      → get_elem? c.switch_list k ≡ some s
      → s.rw ≢ RwStatus.disconnected
      → (u : OfSwitch) × (get_elem? f.controller.switch_list k ≡ some u)
        × (u.read_buffer.live ≡ false)
        × (u.write_buffer.live ≡ false)
  pub closed : f.controller.closed ≡ c.listening_socket_fd ∷ c.closed
  pub addresses : f.addresses ≡ server

pub clean_up-IsComplete :
    (server : List Candidate) (c : Controller)
    → c.num_connected_switches ≤ length c.switch_list
    → Gives (clean_up server c) (λ f. IsComplete c server f)
unfolding clean_up free_network_graph
clean_up-IsComplete server c room = rw (free_controller_mem_lem c room) (record {
  nodes = λ i d at. chain-freed_nodes i d c.network_graph.devices at;
  buffers = λ k s low at up. (
    free_buffers s,
    get_elem?-all_freed c.num_connected_switches k s c.switch_list low at,
    (live-free_buffers s up).0,
    (live-free_buffers s up).1,
  );
  closed = refl;
  addresses = refl;
})
