-- ===== src/Network/Forest/Search.antt =====
-- The loop search of controller.c on a graph without loops.
use openflow_controller.Prelude.{
  ℕ, zero, suc, ◌<◌, ◌≡◌, ◌≢◌, inl, inr, refl, sym, ap, subst, ◌∙◌, List, [], ◌∷◌, map, true, false,
  arith, ◌==◌, ==→eq, eq→==, Bool-cases,
}
use openflow_controller.Network.{Node, Devices}
use openflow_controller.Network.Search.{mark, unmark, Visit, scan, recursive_loop_exists, scan_root}
use openflow_controller.Network.Marks.{unmarked, unmarked-mark, device_at-some, closed_in}
use openflow_controller.Network.Links.{has_node}
use openflow_controller.Network.Simple.{marked, AreApart, IsSimple, Link, marked-false}
use openflow_controller.Network.Forest.Marks.{Quiet, Marks-trans, Marks-refl, Marks-ext, not_both}
use openflow_controller.Network.Forest.Found.{
  found_by, Behind, Behind-tail, Behind-cases, has_node-head, has_node-tail, not_again, Marks-mark,
}
use openflow_controller.Network.Forest.{
  IsForest, Away, here, Away-apart, Away-ne, Away-next, Away-cases,
}

module _ (b : Devices) (parent depth : ℕ → ℕ) (simple : IsSimple b)
    (forest : IsForest (Link b) parent depth) (closed : closed_in b b ≡ true) where
  pub IsVisit : ℕ → Visit → Type 0
  IsVisit k visit =
      (v u : ℕ) (ds : Devices)
      → map unmark ds ≡ b
      → Link b u v
      → ((w : ℕ) → Away (Link b) u v w → marked w ds ≡ false)
      → unmarked ds < k
      → Quiet b ds (Away (Link b) u v) (visit v u ds)

  reverse-Link : (u v : ℕ) → Link b u v → Link b v u
  reverse-Link u v link = simple.both v u ∙ link

  scan-Quiet :
      (k : ℕ) (visit : Visit)
      → IsVisit k visit
      → (v u : ℕ) (ns : List Node) (ds : Devices) → map unmark ds ≡ b
      → ((n : ℕ) → has_node n ns ≡ true → Link b v n)
      → AreApart ns
      → ((w : ℕ) → Behind b v u ns w → marked w ds ≡ false)
      → unmarked ds < k
      → Quiet b ds (Behind b v u ns) (scan visit v u ns ds)
  unfolding scan Quiet Behind IsVisit
  scan-Quiet k visit good v u [] ds e links apart clear below =
      (ds, refl, Marks-refl (Behind b v u []) e (λ w x. cc (x.1)))
  scan-Quiet k visit good v u (n ∷ ns) ds e links apart clear below =
      elim (Bool-cases (n.device_num == u)) [
        | inl back ↦
            let (ds', eq, m) =
              scan-Quiet k visit good v u ns ds e (λ x h. links x (has_node-tail x n ns h)) apart.1
                (λ w x. clear w (x.0, has_node-tail x.0 n ns x.1, x.2, x.3)) below in
            let back_eq = ==→eq n.device_num u back in
            (
              ds',
              rw back eq,
              Marks-ext (Behind b v u ns) (Behind b v u (n ∷ ns)) m (Behind-tail b v u n ns) (λ w x.
                  elim (Behind-cases b v u n ns w x) [ inl p ↦ absurd (p.0 back_eq) | inr q ↦ q ]),
            )
        | inr ahead ↦
            let link = links n.device_num (has_node-head n ns) in
            let f = found_by b simple closed v n.device_num ds e link in
            let ne : n.device_num ≢ u = λ x. cc (eq→== n.device_num u x) in
            let here_clear : (w : ℕ) → Away (Link b) v n.device_num w → marked w ds ≡ false =
              λ w p. clear w (n.device_num, has_node-head n ns, ne, p) in
            let not_seen : f.device.node.discovered ≡ false =
              marked-false f.index f.device ds f.at
                (ap (λ x. marked x ds) f.number ∙ here_clear n.device_num here) in
            let (ds₁, eq, m) = good n.device_num v ds e link here_clear below in
            let (ds₂, eq', m') =
              scan-Quiet k visit good v u ns ds₁ m.same (λ x h. links x (has_node-tail x n ns h))
                apart.1
                (λ w x. not_both w ds₁ (λ on. elim (m.only w on) [
                  | inl before ↦ cc (before, clear w (Behind-tail b v u n ns w x))
                  | inr p ↦
                      Away-apart (Link b) parent depth forest v n.device_num x.0 w link
                        (links x.0 (has_node-tail x.0 n ns x.1)) (not_again x.0 n ns apart x.1) p
                        x.3
                ]))
                (omega (arith, m.fewer, below)) in
            (
              ds₂,
              rw (ahead, f.index_found, device_at-some ds f.index f.device f.at, not_seen, eq) eq',
              Marks-trans (Away (Link b) v n.device_num) (Behind b v u ns) (Behind b v u (n ∷ ns)) m
                  m' (λ w p. (n.device_num, has_node-head n ns, ne, p)) (Behind-tail b v u n ns)
                  (λ w x. elim (Behind-cases b v u n ns w x) [ inl p ↦ inl p.1 | inr q ↦ inr q ]),
            )
      ]

  pub recursive_loop_exists-IsVisit : (fuel : ℕ) → IsVisit fuel (recursive_loop_exists fuel)
  unfolding recursive_loop_exists IsVisit Quiet Behind
  recursive_loop_exists-IsVisit zero v u ds e link clear below = absurd (omega (arith, below))
  recursive_loop_exists-IsVisit (suc fuel) v u ds e link clear below =
      let f = found_by b simple closed u v ds e link in
      let not_seen : f.device.node.discovered ≡ false =
        marked-false f.index f.device ds f.at (ap (λ x. marked x ds) f.number ∙ clear v here) in
      let m₀ = Marks-mark b simple closed v ds f e not_seen in
      let ahead =
        λ (w n : ℕ) (h : has_node n f.device.next ≡ true) (ne : n ≢ u) (p : Away (Link b) v n w).
          Away-next (Link b) parent depth forest u v n w link (f.links n h) ne p in
      let (ds', eq, m) =
        scan-Quiet fuel (recursive_loop_exists fuel) (recursive_loop_exists-IsVisit fuel) v u
          f.device.next (mark f.index f.device ds) m₀.same f.links f.apart
          (λ w x. not_both w (mark f.index f.device ds) (λ on. elim (m₀.only w on) [
            | inl before ↦ cc (before, clear w (ahead w x.0 x.1 x.2 x.3))
            | inr same ↦ Away-ne (Link b) parent depth forest v x.0 w (f.links x.0 x.1) x.3 same
          ]))
          (omega (arith, unmarked-mark ds f.index f.device f.at not_seen, below)) in
      (
        ds',
        rw (f.index_found, device_at-some ds f.index f.device f.at, not_seen) eq,
        Marks-trans (λ w. w ≡ v) (Behind b v u f.device.next) (Away (Link b) u v) m₀ m
            (λ w same. subst (Away (Link b) u v) (sym same) here) (λ w x. ahead w x.0 x.1 x.2 x.3)
            (λ w p. elim (Away-cases (Link b) u v w p) [
              | inl same ↦ inl same
              | inr (n, next, ne, q) ↦ inr (n, f.all_links n next, ne, q)
            ]),
      )

  pub no_self : (r n : ℕ) → Link b r n → n ≢ r
  no_self r n link e = elim (forest.joined r n link) [
    | inl down ↦ omega (arith, forest.up n down.0, ap depth down.1, ap depth e)
    | inr up ↦ omega (arith, forest.up r up.0, ap depth up.1, ap depth e)
  ]

  pub scan_root-Quiet :
      (k : ℕ) (visit : Visit)
      → IsVisit k visit
      → (r : ℕ) (ns : List Node) (ds : Devices) → map unmark ds ≡ b
      → ((n : ℕ) → has_node n ns ≡ true → Link b r n)
      → AreApart ns
      → ((w : ℕ) → Behind b r r ns w → marked w ds ≡ false)
      → unmarked ds < k
      → Quiet b ds (Behind b r r ns) (scan_root visit r ns 0 ds)
  unfolding scan_root Quiet Behind IsVisit
  scan_root-Quiet k visit good r [] ds e links apart clear below =
      (ds, refl, Marks-refl (Behind b r r []) e (λ w x. cc (x.1)))
  scan_root-Quiet k visit good r (n ∷ ns) ds e links apart clear below =
      let link = links n.device_num (has_node-head n ns) in
      let ne = no_self r n.device_num link in
      let here_clear : (w : ℕ) → Away (Link b) r n.device_num w → marked w ds ≡ false =
        λ w p. clear w (n.device_num, has_node-head n ns, ne, p) in
      let (ds₁, eq, m) = good n.device_num r ds e link here_clear below in
      let (ds₂, eq', m') =
        scan_root-Quiet k visit good r ns ds₁ m.same (λ x h. links x (has_node-tail x n ns h))
          apart.1
          (λ w x. not_both w ds₁ (λ on. elim (m.only w on) [
            | inl before ↦ cc (before, clear w (Behind-tail b r r n ns w x))
            | inr p ↦
                Away-apart (Link b) parent depth forest r n.device_num x.0 w link
                  (links x.0 (has_node-tail x.0 n ns x.1)) (not_again x.0 n ns apart x.1) p x.3
          ]))
          (omega (arith, m.fewer, below)) in
      (
        ds₂,
        rw eq eq',
        Marks-trans (Away (Link b) r n.device_num) (Behind b r r ns) (Behind b r r (n ∷ ns)) m m'
            (λ w p. (n.device_num, has_node-head n ns, ne, p)) (Behind-tail b r r n ns)
            (λ w x. elim (Behind-cases b r r n ns w x) [ inl p ↦ inl p.1 | inr q ↦ inr q ]),
      )
