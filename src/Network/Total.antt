-- ===== src/Network/Total.antt =====
-- The loop search of controller.c on a graph whose connections all lead to known devices.
pub mod Runs
use openflow_controller.Prelude.{
  ℕ, zero, suc, ◌+◌, ◌<◌, ◌≤◌, ◌≡◌, ◌⊎◌, refl, sym, ap, subst, ◌∙◌, List, [], ◌∷◌, map, none, some,
  true, false, arith, ◌==◌, Bool-cases, inl, inr, get_elem?, length,
}
use openflow_controller.Outcome.{Outcome, done}
use openflow_controller.Network.{Node, Device, Devices, Network}
use openflow_controller.Network.Search.{
  index_of, device_at, mark, unmark, Visit, scan, recursive_loop_exists, scan_root, scan_roots,
  loop_exists,
}
use openflow_controller.Network.Marks.{
  known, all_known, unmarked, known-unmark, known-index_of, unmarked-mark, unmark-mark,
  get_elem?-unmark, device_at-some, closed_in, closed_in-get_elem?,
}
use openflow_controller.Network.Total.Runs.{
  IsClosed, unmarked-length, scan_roots-Runs, recursive_loop_exists-IsVisit,
}

-- The graph between two reports: no device is marked, every connection leads to a known device, and
-- the table has the size that the graph gives.
pub record WellFormed (g : Network) : Type 0 where
  pub closed : closed_in g.devices g.devices ≡ true
  pub clear : map unmark g.devices ≡ g.devices
  pub sized : g.max_network_size ≤ length g.devices

-- In a well-formed graph, the search for a loop ends with an answer, 0 or the number of a known device,
-- dereferences no null pointer, and leaves the graph, its marks included, as it was.
pub loop_exists-total :
    (g : Network)
    → WellFormed g
    → (loop : ℕ) × (loop_exists g ≡ done (loop, g)) × ((loop ≡ 0) ⊎ (known loop g.devices ≡ true))
unfolding loop_exists
loop_exists-total g p =
    let k = suc (length g.devices) in
    let inside : IsClosed g.devices =
      λ i d h. closed_in-get_elem? g.devices g.devices i d p.closed h in
    let (loop, ds, eq, e, _, answer) =
      scan_roots-Runs g.devices inside k (recursive_loop_exists k)
        (recursive_loop_exists-IsVisit g.devices inside k) g.max_network_size 0 0 g.devices
        (inl refl) p.clear (omega (arith, p.sized)) (omega (arith, unmarked-length g.devices)) in
    (loop, rw (eq, e) refl, answer)
