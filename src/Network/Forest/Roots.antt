-- ===== src/Network/Forest/Roots.antt =====
-- The outer loop of the loop search of controller.c, on a graph without loops.
use openflow_controller.Prelude.{
  ℕ, zero, suc, ◌+◌, ◌<◌, ◌≤◌, ◌≡◌, ◌≢◌, ◌⊎◌, inl, inr, refl, sym, ap, subst, ◌∙◌, List, map, some,
  true, false, arith, ◌==◌, ==→eq, eq→==, Bool-cases, get_elem?, length,
}
use mathlib.Core.Option.{some-injective}
use openflow_controller.Outcome.{done}
use openflow_controller.Network.{Node, Device, Devices, Network}
use openflow_controller.Network.Search.{
  index_of, mark, with_mark, unmark, recursive_loop_exists, scan_root, scan_roots, loop_exists,
}
use openflow_controller.Network.Marks.{unmarked, get_elem?-unmark, closed_in}
use openflow_controller.Network.Links.{has_node}
use openflow_controller.Network.Total.{WellFormed}
use openflow_controller.Network.Total.Runs.{unmarked-length, entry, scan_roots-root, length-unmark}
use openflow_controller.Network.Simple.{marked, IsSimple, Link, marked-entry}
use openflow_controller.Network.Forest.{IsForest, Away, here, step, Away-ne}
use openflow_controller.Network.Forest.Marks.{Marks, Marks-trans, Quiet, not_both}
use openflow_controller.Network.Forest.Found.{Behind, found_at, at_unmarked, Marks-mark}
use openflow_controller.Network.Forest.Search.{
  no_self, scan_root-Quiet, recursive_loop_exists-IsVisit,
}

-- What is linked to a marked device is marked.
IsSpread : (b ds : Devices) → Type 0
IsSpread b ds = (a c : ℕ) → Link b a c → marked a ds ≡ true → marked c ds ≡ true

-- In a graph without marks no device is marked.
clear_marked : (a : ℕ) (ds : Devices) → map unmark ds ≡ ds → marked a ds ≡ true → ⊥
clear_marked a ds e on =
    let (i, d, at, same, seen) = marked-entry a ds on in
    let at' = ap (λ t. get_elem? t i) (sym e) ∙ get_elem?-unmark ds i d at in
    let dd =
      some-injective d (with_mark false d)
        (some-injective (some d) (some (with_mark false d)) (sym at ∙ at')) in
    cc (seen, ap (λ x. x.node.discovered) dd)

module _ (b : Devices) (parent depth : ℕ → ℕ) (simple : IsSimple b)
    (forest : IsForest (Link b) parent depth) (closed : closed_in b b ≡ true) where
  back :
      (ds : Devices) (u v w : ℕ)
      → IsSpread b ds
      → Away (Link b) u v w
      → marked w ds ≡ true
      → marked v ds ≡ true
  unfolding IsSpread
  back ds u v _ spread here on = on
  back ds u v _ spread (step {x} y p next ne) on =
      back ds u v x spread p (spread y x (simple.both y x ∙ next) on)

  new_number :
      (ds : Devices) (i : ℕ) (d : Device)
      → map unmark ds ≡ b
      → get_elem? ds i ≡ some (some d)
      → d.node.discovered ≡ false
      → marked d.node.device_num ds ≡ true
      → ⊥
  new_number ds i d e at new on =
      let (j, d', at', same, on') = marked-entry d.node.device_num ds on in
      let index : index_of d.node.device_num b ≡ done i =
        simple.placed i (with_mark false d) (at_unmarked b simple closed ds i d e at) in
      let index' : index_of d.node.device_num b ≡ done j =
        ap (λ m. index_of m b) (sym same)
        ∙ simple.placed j (with_mark false d') (at_unmarked b simple closed ds j d' e at') in
      let ij : j ≡ i = cc in
      let dd : some (some d') ≡ some (some d) = sym at' ∙ ap (get_elem? ds) ij ∙ at in
      let same_device = some-injective d' d (some-injective (some d') (some d) dd) in
      cc (on', new, ap (λ x. x.node.discovered) same_device)

  abbrev Rest : ℕ → List Node → ℕ → Type 0
  Rest r ns w = Behind b r r ns w

  -- A root, and what lies behind its connections, keep the marks spread.
  root-IsSpread :
      (ds ds' : Devices) (r : ℕ) (ns : List Node)
      → IsSpread b ds
      → ((n : ℕ) → has_node n ns ≡ true → Link b r n)
      → ((n : ℕ) → Link b r n → has_node n ns ≡ true)
      → Marks b ds ds' (λ w. (w ≡ r) ⊎ Rest r ns w)
      → IsSpread b ds'
  unfolding IsSpread Behind
  root-IsSpread ds ds' r ns spread links all_links m a c link on = elim (m.only a on) [
    | inl before ↦ m.old c (spread a c link before)
    | inr (inl root) ↦
        let next = subst (λ x. Link b x c) root link in
        m.new c
          (inr (c, all_links c next, no_self b parent depth simple forest closed r c next, here))
    | inr (inr (n, has, ne, away)) ↦ elim (Bool-cases (c == r)) [
      | inl same ↦ m.new c (inl (==→eq c r same))
      | inr other ↦ m.new c (inr (n, has, ne, step c away link (λ x. cc (eq→== c r x))))
    ]
  ]

  Rest-clear :
      (ds : Devices) (r : ℕ) (ns : List Node) (w : ℕ)
      → IsSpread b ds
      → ((n : ℕ) → has_node n ns ≡ true → Link b r n)
      → (marked r ds ≡ true → ⊥)
      → Rest r ns w
      → marked w ds ≡ true
      → ⊥
  unfolding IsSpread Behind
  Rest-clear ds r ns w spread links new (n, has, ne, away) on =
      new (spread n r (simple.both n r ∙ links n has) (back ds r n w spread away on))

  Rest-ne :
      (r : ℕ) (ns : List Node) (w : ℕ)
      → ((n : ℕ) → has_node n ns ≡ true → Link b r n)
      → Rest r ns w
      → w ≢ r
  unfolding Behind
  Rest-ne r ns w links (n, has, ne, away) =
      Away-ne (Link b) parent depth forest r n w (links n has) away

  -- A root that no search has come to is marked with all that lies behind it.
  round :
      (k : ℕ) (ds : Devices) (i : ℕ) (d : Device)
      → map unmark ds ≡ b
      → IsSpread b ds
      → get_elem? ds i ≡ some (some d)
      → d.node.discovered ≡ false
      → unmarked ds < k
      → (ds' : Devices) × (scan_root
            (recursive_loop_exists k)
            d.node.device_num
            d.next
            0
            (mark i d ds)
          ≡ done (0, ds'))
        × (map unmark ds' ≡ b)
        × IsSpread b ds'
        × (unmarked ds' < k)
  unfolding Quiet found_at
  round k ds i d e spread at new below =
      let r = d.node.device_num in
      let f = found_at b simple closed ds i d e at in
      let unseen = new_number ds i d e at new in
      let m₀ = Marks-mark b simple closed r ds f e new in
      let (ds', eq, m) =
        scan_root-Quiet b parent depth simple forest closed k (recursive_loop_exists k)
          (recursive_loop_exists-IsVisit b parent depth simple forest closed k) r d.next
          (mark i d ds) m₀.same f.links f.apart
          (λ w x. not_both w (mark i d ds) (λ on. elim (m₀.only w on) [
            | inl before ↦ Rest-clear ds r d.next w spread f.links unseen x before
            | inr same ↦ Rest-ne r d.next w f.links x same
          ]))
          (omega (arith, m₀.fewer, below)) in
      let all =
        Marks-trans (λ w. w ≡ r) (Rest r d.next) (λ w. (w ≡ r) ⊎ Rest r d.next w) m₀ m
          (λ w x. inl x) (λ w x. inr x) (λ w x. x) in
      (
        ds',
        eq,
        m.same,
        root-IsSpread ds ds' r d.next spread f.links f.all_links all,
        omega (arith, all.fewer, below),
      )

  scan_roots-Quiet :
      (k n i : ℕ) (ds : Devices)
      → map unmark ds ≡ b
      → IsSpread b ds
      → i + n ≤ length b
      → unmarked ds < k
      → (ds' : Devices) × (scan_roots (recursive_loop_exists k) n i 0 ds ≡ done (0, ds'))
        × (map unmark ds' ≡ b)
  unfolding scan_roots
  scan_roots-Quiet k zero i ds e spread h below = (ds, refl, e)
  scan_roots-Quiet k (suc n) i ds e spread h below =
      let next : i + 1 + n ≤ length b = omega (arith, h) in
      elim (entry ds i (omega (arith, h, sym (length-unmark ds) ∙ ap length e))) [
        | inl hole ↦
            let (ds', eq, e') = scan_roots-Quiet k n (i + 1) ds e spread next below in
            (ds', rw (hole, scan_roots) eq, e')
        | inr (d, at) ↦ elim (Bool-cases d.node.discovered) [
          | inl seen ↦
              let (ds', eq, e') = scan_roots-Quiet k n (i + 1) ds e spread next below in
              (ds', rw (at, scan_roots, seen) eq, e')
          | inr new ↦
              let (ds₁, eq, e₁, spread₁, below₁) = round k ds i d e spread at new below in
              let (ds', eq', e') = scan_roots-Quiet k n (i + 1) ds₁ e₁ spread₁ next below₁ in
              (ds', scan_roots-root (recursive_loop_exists k) n i 0 ds d at new 0 ds₁ eq ∙ eq', e')
        ]
      ]

-- In a well-formed graph whose connections form trees, each with its reverse and none there twice, the search
-- finds no loop, and leaves the graph, its marks included, as it was.
pub loop_exists-forest :
    (g : Network) (parent depth : ℕ → ℕ)
    → WellFormed g
    → IsSimple g.devices
    → IsForest (Link g.devices) parent depth
    → loop_exists g ≡ done (0, g)
unfolding loop_exists IsSpread
loop_exists-forest g parent depth p simple forest =
    let (ds', eq, e) =
      scan_roots-Quiet g.devices parent depth simple forest p.closed (suc (length g.devices))
        g.max_network_size 0 g.devices p.clear
        (λ a c link on. absurd (clear_marked a g.devices p.clear on)) (omega (arith, p.sized))
        (omega (arith, unmarked-length g.devices)) in
    rw (eq, e) refl
