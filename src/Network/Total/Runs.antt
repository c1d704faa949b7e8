-- ===== src/Network/Total/Runs.antt =====
-- The parts of the loop search of controller.c on a graph whose connections all lead to known devices.
use openflow_controller.Prelude.{
  ℕ, zero, suc, ◌+◌, ◌<◌, ◌≤◌, ◌≡◌, ◌⊎◌, refl, sym, ap, subst, ◌∙◌, List, [], ◌∷◌, map, none, some,
  true, false, arith, ◌==◌, Bool-cases, inl, inr, get_elem?, length,
}
use openflow_controller.Outcome.{Outcome, done}
use openflow_controller.Network.{Node, Device, Devices}
use openflow_controller.Network.Search.{
  index_of, device_at, mark, unmark, Visit, scan, recursive_loop_exists, scan_root, scan_roots,
}
use openflow_controller.Network.Marks.{
  known, all_known, unmarked, known-unmark, known-index_of, unmarked-mark, unmark-mark,
  get_elem?-unmark, device_at-some,
}

-- All connections of all devices lead to known devices.
abbrev pub IsClosed : Devices → Type 0
IsClosed b = (i : ℕ) (d : Device) → get_elem? b i ≡ some (some d) → all_known d.next b ≡ true

all_known-head :
    (n : Node) (ns : List Node) (b : Devices)
    → all_known (n ∷ ns) b ≡ true
    → known n.device_num b ≡ true
all_known-head n ns b h = ground arith

all_known-tail :
    (n : Node) (ns : List Node) (b : Devices) → all_known (n ∷ ns) b ≡ true → all_known ns b ≡ true
all_known-tail n ns b h = ground arith

pub length-unmark : (ds : Devices) → length (map unmark ds) ≡ length ds
length-unmark [] = refl
length-unmark (d ∷ ds) = ap suc (length-unmark ds)

pub unmarked-length : (ds : Devices) → unmarked ds ≤ length ds
unmarked-length [] = omega arith
unmarked-length (none ∷ ds) = omega (arith, unmarked-length ds)
unmarked-length (some d ∷ ds) = ground (arith, unmarked-length ds)

pub entry :
    (ds : Devices) (i : ℕ)
    → i < length ds
    → (get_elem? ds i ≡ some none) ⊎ ((d : Device) × (get_elem? ds i ≡ some (some d)))
entry [] i h = absurd (omega arith)
entry (none ∷ ds) zero h = inl refl
entry (some d ∷ ds) zero h = inr (d, refl)
entry (x ∷ ds) (suc i) h = entry ds i (omega arith)

pub scan_roots-root :
    (visit : Visit) (n i loop : ℕ) (ds : Devices) (d : Device)
    → get_elem? ds i ≡ some (some d)
    → d.node.discovered ≡ false
    → (r : ℕ) (ds' : Devices)
    → scan_root visit d.node.device_num d.next loop (mark i d ds) ≡ done (r, ds')
    → scan_roots visit (suc n) i loop ds ≡ scan_roots visit n (i + 1) r ds'
unfolding scan_roots
scan_roots-root visit n i loop ds d here new r ds' eq = rw (here, scan_roots, new, eq) refl

module _ (b : Devices) (closed : IsClosed b) where
  abbrev IsAnswer : ℕ → Type 0
  IsAnswer r = (r ≡ 0) ⊎ (known r b ≡ true)

  -- A result, 0 or the number of a known device, in the same graph up to the marks, with no more devices unmarked.
  abbrev Runs : Devices → Outcome (ℕ × Devices) → Type 0
  Runs ds o =
      (r : ℕ) × (ds' : Devices) × (o ≡ done (r, ds'))
      × (map unmark ds' ≡ b)
      × (unmarked ds' ≤ unmarked ds)
      × IsAnswer r

  abbrev IsVisit : ℕ → Visit → Type 0
  IsVisit k visit =
      (find_node last_node : ℕ) (ds : Devices)
      → map unmark ds ≡ b
      → known find_node b ≡ true
      → unmarked ds < k
      → Runs ds (visit find_node last_node ds)

  found :
      (n : ℕ) (ds : Devices)
      → map unmark ds ≡ b
      → known n b ≡ true
      → (i : ℕ) × (d : Device) × (index_of n ds ≡ done i)
        × (device_at i ds ≡ done d)
        × (get_elem? ds i ≡ some (some d))
        × (all_known d.next b ≡ true)
        × (d.node.device_num ≡ n)
  found n ds e h =
      let (i, d, index, at, same) = known-index_of n ds (sym (known-unmark n ds) ∙ rw (e) h) in
      (
        i,
        d,
        index,
        device_at-some ds i d at,
        at,
        closed i _ (ap (λ t. get_elem? t i) (sym e) ∙ get_elem?-unmark ds i d at),
        same,
      )

  scan-Runs :
      (k : ℕ) (visit : Visit)
      → IsVisit k visit
      → (find_node last_node : ℕ) (ns : List Node) (ds : Devices) → map unmark ds ≡ b
      → all_known ns b ≡ true
      → unmarked ds < k
      → Runs ds (scan visit find_node last_node ns ds)
  unfolding scan
  scan-Runs k visit good f l [] ds e h below = (0, ds, refl, e, omega arith, inl refl)
  scan-Runs k visit good f l (n ∷ ns) ds e h below =
      let rest = all_known-tail n ns b h in
      elim (Bool-cases (n.device_num == l)) [
        | inl back ↦
            let (r, ds', eq, e', le, ans) = scan-Runs k visit good f l ns ds e rest below in
            (r, ds', rw (back) eq, e', le, ans)
        | inr ahead ↦
            let (i, d, index, at, _, _, same) = found n.device_num ds e (all_known-head n ns b h) in
            elim (Bool-cases d.node.discovered) [
              | inl seen ↦ (
                d.node.device_num,
                ds,
                rw (ahead, index, at, seen) refl,
                e,
                omega arith,
                inr (subst (λ x. known x b ≡ true) (sym same) (all_known-head n ns b h)),
              )
              | inr new ↦
                  let (r, ds', eq, e', le, ans) =
                    good n.device_num f ds e (all_known-head n ns b h) below in
                  elim (Bool-cases (r == 0)) [
                    | inl none_yet ↦
                        let (r', ds₂, eq', e₂, le', ans') =
                          scan-Runs k visit good f l ns ds' e' rest (omega (arith, le, below)) in
                        (
                          r',
                          ds₂,
                          rw (ahead, index, at, new, eq, none_yet) eq',
                          e₂,
                          omega (arith, le, le'),
                          ans',
                        )
                    | inr loop ↦ (r, ds', rw (ahead, index, at, new, eq, loop) refl, e', le, ans)
                  ]
            ]
      ]

  pub recursive_loop_exists-IsVisit : (fuel : ℕ) → IsVisit fuel (recursive_loop_exists fuel)
  unfolding recursive_loop_exists
  recursive_loop_exists-IsVisit zero f l ds e h below = absurd (omega arith)
  recursive_loop_exists-IsVisit (suc fuel) f l ds e h below =
      let (i, d, index, at, here, ahead, _) = found f ds e h in
      elim (Bool-cases d.node.discovered) [
        | inl seen ↦ (0, ds, rw (index, at, seen) refl, e, omega arith, inl refl)
        | inr new ↦
            let fewer = unmarked-mark ds i d here new in
            let (r, ds', eq, e', le, ans) =
              scan-Runs fuel (recursive_loop_exists fuel) (recursive_loop_exists-IsVisit fuel) f l
                d.next (mark i d ds) (unmark-mark ds i d here ∙ e) ahead
                (omega (arith, fewer, below)) in
            (r, ds', rw (index, at, new) eq, e', omega (arith, le, fewer), ans)
      ]

  scan_root-Runs :
      (k : ℕ) (visit : Visit)
      → IsVisit k visit
      → (root : ℕ) (ns : List Node) (loop : ℕ) (ds : Devices) → IsAnswer loop
      → map unmark ds ≡ b
      → all_known ns b ≡ true
      → unmarked ds < k
      → Runs ds (scan_root visit root ns loop ds)
  unfolding scan_root
  scan_root-Runs k visit good root [] loop ds was e h below = (loop, ds, refl, e, omega arith, was)
  scan_root-Runs k visit good root (n ∷ ns) loop ds was e h below =
      let (r, ds', eq, e', le, ans) = good n.device_num root ds e (all_known-head n ns b h) below in
      elim (Bool-cases (r == 0)) [
        | inl none_yet ↦
            let (r', ds₂, eq', e₂, le', ans') =
              scan_root-Runs k visit good root ns r ds' ans e' (all_known-tail n ns b h)
                (omega (arith, le, below)) in
            (r', ds₂, rw (eq, none_yet) eq', e₂, omega (arith, le, le'), ans')
        | inr found ↦ (r, ds', rw (eq, found) refl, e', le, ans)
      ]

  pub scan_roots-Runs :
      (k : ℕ) (visit : Visit)
      → IsVisit k visit
      → (n i loop : ℕ) (ds : Devices) → IsAnswer loop
      → map unmark ds ≡ b
      → i + n ≤ length b
      → unmarked ds < k
      → Runs ds (scan_roots visit n i loop ds)
  unfolding scan_roots
  scan_roots-Runs k visit good zero i loop ds was e h below = (loop, ds, refl, e, omega arith, was)
  scan_roots-Runs k visit good (suc n) i loop ds was e h below =
      elim (entry ds i (omega (arith, h, same_length ds e))) [
        | inl hole ↦
            let (r, ds', eq, e', le, ans) =
              scan_roots-Runs k visit good n (i + 1) loop ds was e (omega (arith, h)) below in
            (r, ds', rw (hole, scan_roots) eq, e', le, ans)
        | inr (d, here) ↦ elim (Bool-cases d.node.discovered) [
          | inl seen ↦
              let (r, ds', eq, e', le, ans) =
                scan_roots-Runs k visit good n (i + 1) loop ds was e (omega (arith, h)) below in
              (r, ds', rw (here, scan_roots, seen) eq, e', le, ans)
          | inr new ↦
              let fewer = unmarked-mark ds i d here new in
              let (r, ds', eq, e', le, ans) =
                scan_root-Runs k visit good d.node.device_num d.next loop (mark i d ds) was
                  (unmark-mark ds i d here ∙ e)
                  (closed i _ (ap (λ t. get_elem? t i) (sym e) ∙ get_elem?-unmark ds i d here))
                  (omega (arith, fewer, below)) in
              let (r', ds₂, eq', e₂, le', ans') =
                scan_roots-Runs k visit good n (i + 1) r ds' ans e' (omega (arith, h))
                  (omega (arith, le, fewer, below)) in
              (
                r',
                ds₂,
                scan_roots-root visit n i loop ds d here new r ds' eq ∙ eq',
                e₂,
                omega (arith, le', le, fewer),
                ans',
              )
        ]
      ]
    where
      same_length : (ds : Devices) → map unmark ds ≡ b → length ds ≡ length b
      same_length ds e = sym (length-unmark ds) ∙ ap length e
