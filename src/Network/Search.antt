-- ===== src/Network/Search.antt =====
-- The search for a loop, `recursive_loop_exists` and `loop_exists` of controller.c.
use openflow_controller.Prelude.{
  ℕ, zero, suc, ◌+◌, List, [], ◌∷◌, map, Option, none, some, Bool, true, false, ◌==◌, if◌then◌else◌,
  get_elem?, set, length,
}
use openflow_controller.Outcome.{Outcome, done, crashed, out_of_fuel, ◌>>=◌}
use openflow_controller.Network.{Node, Device, Devices, Network}

-- `while (devices[i] != NULL && devices[i]->device_num != n) i++;` and the dereference of the entry
-- where it stops.
unfoldable pub index_of : ℕ → Devices → Outcome ℕ
index_of n [] = crashed
index_of n (none ∷ ds) = crashed
index_of n (some d ∷ ds) =
    let rest = index_of n ds >>= λ i. done (suc i) in
    if d.node.device_num == n then done 0 else rest

unfoldable pub device_at : ℕ → Devices → Outcome Device
device_at i ds = elim (get_elem? ds i) [ some (some d) ↦ done d | _ ↦ crashed ]

abbrev pub with_mark : Bool → Device → Device
with_mark b d = record d { node = record d.node { discovered = b } }

-- `devices[i]->discovered = 1`
abbrev pub mark : ℕ → Device → Devices → Devices
mark i d ds = set ds i (some (with_mark true d))

abbrev pub Visit : Type 0
Visit = ℕ → ℕ → Devices → Outcome (ℕ × Devices)

-- The loop over the connections of `find_node`; `visit` is the recursive call.
unfoldable pub scan :
    Visit → (find_node last_node : ℕ) → List Node → Devices → Outcome (ℕ × Devices)
unfolding index_of device_at
scan visit find_node last_node [] ds = done (0, ds)
scan visit find_node last_node (n ∷ ns) ds =
    let rest = scan visit find_node last_node ns in
    if n.device_num == last_node then rest ds else do
      j ← index_of n.device_num ds
      d ← device_at j ds
      if d.node.discovered then done (d.node.device_num, ds) else (do
        (ret, ds') ← visit n.device_num find_node ds
        if ret == 0 then rest ds' else done (ret, ds'))

unfoldable pub recursive_loop_exists : ℕ → Visit
unfolding scan
recursive_loop_exists zero find_node last_node ds = out_of_fuel
recursive_loop_exists (suc fuel) find_node last_node ds = do
  i ← index_of find_node ds
  d ← device_at i ds
  if d.node.discovered
      then done (0, ds)
      else scan (recursive_loop_exists fuel) find_node last_node d.next (mark i d ds)

-- The loop over the connections of a root; `loop` keeps its value if there are none.
unfoldable pub scan_root : Visit → ℕ → List Node → ℕ → Devices → Outcome (ℕ × Devices)
scan_root visit root [] loop ds = done (loop, ds)
scan_root visit root (n ∷ ns) loop ds =
    let rest = scan_root visit root ns in
    do
      (loop', ds') ← visit n.device_num root ds
      if loop' == 0 then rest loop' ds' else done (loop', ds')

-- The rounds of the outer loop from entry `i` on.
unfoldable pub scan_roots : Visit → ℕ → ℕ → ℕ → Devices → Outcome (ℕ × Devices)
unfolding scan_root
scan_roots visit zero i loop ds = done (loop, ds)
scan_roots visit (suc n) i loop ds =
    let rest = scan_roots visit n (i + 1) in
    elim (get_elem? ds i) [
      | none ↦ crashed
      | some none ↦ rest loop ds
      | some (some d) ↦ if d.node.discovered then rest loop ds else (do
        (loop', ds') ← scan_root visit d.node.device_num d.next loop (mark i d ds)
        rest loop' ds')
    ]

abbrev pub unmark : Option Device → Option Device
unmark none = none
unmark (some d) = some (with_mark false d)

-- The recursion is given one round more than there are entries.
unfoldable pub loop_exists : Network → Outcome (ℕ × Network)
unfolding recursive_loop_exists scan_roots
loop_exists g = do
  (loop, ds) ←
      scan_roots (recursive_loop_exists (suc (length g.devices))) g.max_network_size 0 0 g.devices
  done (loop, record g { devices = map unmark ds })
