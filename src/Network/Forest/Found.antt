-- ===== src/Network/Forest/Found.antt =====
-- The devices and connections that the loop search of controller.c looks up.
use openflow_controller.Prelude.{
  ℕ, ◌≡◌, ◌≢◌, ◌⊎◌, inl, inr, refl, sym, ap, subst, ◌∙◌, List, ◌∷◌, map, some, true, false, arith,
  ◌==◌, ◌||◌, ==→eq, Bool-cases, get_elem?,
}
use mathlib.Core.Option.{some-injective}
use openflow_controller.Outcome.{done}
use openflow_controller.Network.{Node, Device, Devices}
use openflow_controller.Network.Search.{index_of, mark, with_mark, unmark}
use openflow_controller.Network.Marks.{
  known, known-unmark, known-index_of, unmarked-mark, unmark-mark, get_elem?-unmark, closed_in,
  closed_in-get_elem?,
}
use openflow_controller.Network.Links.{has_node}
use openflow_controller.Network.Simple.{
  marked, AreApart, IsSimple, Link, index_of-unmark, marked-mark, linked-entry, linked-has_node,
  all_known-has_node,
}
use openflow_controller.Network.Forest.Marks.{Marks}
use openflow_controller.Network.Forest.{Away}

pub has_node-head : (n : Node) (ns : List Node) → has_node n.device_num (n ∷ ns) ≡ true
has_node-head n ns = ground arith

pub has_node-tail :
    (m : ℕ) (n : Node) (ns : List Node) → has_node m ns ≡ true → has_node m (n ∷ ns) ≡ true
has_node-tail m n ns h = ground (arith, h)

has_node-cases :
    (m : ℕ) (n : Node) (ns : List Node)
    → has_node m (n ∷ ns) ≡ true
    → (n.device_num ≡ m) ⊎ (has_node m ns ≡ true)
has_node-cases m n ns h = elim (Bool-cases (n.device_num == m)) [
  | inl first ↦ inl (==→eq n.device_num m first)
  | inr behind ↦ inr (ap (λ x. x || has_node m ns) (sym behind) ∙ h)
]

pub not_again :
    (m : ℕ) (n : Node) (ns : List Node)
    → AreApart (n ∷ ns)
    → has_node m ns ≡ true
    → n.device_num ≢ m
not_again m n ns apart h e = cc (apart.0, h, e)

module _ (b : Devices) where
  -- The links of a list, other than the one to `u`.
  unfoldable pub Behind : ℕ → ℕ → List Node → ℕ → Type 0
  Behind v u ns w = (n : ℕ) × (has_node n ns ≡ true) × (n ≢ u) × Away (Link b) v n w

  pub Behind-tail :
      (v u : ℕ) (n : Node) (ns : List Node) (w : ℕ) → Behind v u ns w → Behind v u (n ∷ ns) w
  unfolding Behind
  Behind-tail v u n ns w x = (x.0, has_node-tail x.0 n ns x.1, x.2, x.3)

  pub Behind-cases :
      (v u : ℕ) (n : Node) (ns : List Node) (w : ℕ)
      → Behind v u (n ∷ ns) w
      → ((n.device_num ≢ u) × Away (Link b) v n.device_num w) ⊎ Behind v u ns w
  unfolding Behind
  Behind-cases v u n ns w x = elim (has_node-cases x.0 n ns x.1) [
    | inl same ↦ inl ((λ e. x.2 (sym same ∙ e)), subst (λ m. Away (Link b) v m w) (sym same) x.3)
    | inr behind ↦ inr (x.0, behind, x.2, x.3)
  ]

module _ (b : Devices) (simple : IsSimple b) (closed : closed_in b b ≡ true) where
  -- The entry of a device that a link leads to.
  pub record Found (v : ℕ) (ds : Devices) : Type 0 where
    pub index : ℕ
    pub device : Device
    pub index_found : index_of v ds ≡ done index
    pub at : get_elem? ds index ≡ some (some device)
    pub number : device.node.device_num ≡ v
    pub links : (n : ℕ) → has_node n device.next ≡ true → Link b v n
    pub all_links : (n : ℕ) → Link b v n → has_node n device.next ≡ true
    pub apart : AreApart device.next

  pub at_unmarked :
      (ds : Devices) (i : ℕ) (d : Device)
      → map unmark ds ≡ b
      → get_elem? ds i ≡ some (some d)
      → get_elem? b i ≡ some (some (with_mark false d))
  at_unmarked ds i d e at = ap (λ t. get_elem? t i) (sym e) ∙ get_elem?-unmark ds i d at

  unfoldable pub found_at :
      (ds : Devices) (i : ℕ) (d : Device)
      → map unmark ds ≡ b
      → get_elem? ds i ≡ some (some d)
      → Found d.node.device_num ds
  found_at ds i d e at =
      let here_b = at_unmarked ds i d e at in
      let index = simple.placed i (with_mark false d) here_b in
      record {
        index = i;
        device = d;
        index_found =
            sym (index_of-unmark d.node.device_num ds) ∙ ap (index_of d.node.device_num) e ∙ index;
        at = at;
        number = refl;
        links = λ n h. linked-has_node i n (with_mark false d) b here_b h;
        all_links = λ n link.
            let (j, d', at', same, has) = linked-entry d.node.device_num n b link in
            let index' : index_of d.node.device_num b ≡ done j =
              ap (λ m. index_of m b) (sym same) ∙ simple.placed j d' at' in
            let ij : j ≡ i = cc in
            let dd : some (some d') ≡ some (some (with_mark false d)) =
              sym at' ∙ ap (get_elem? b) ij ∙ here_b in
            subst (λ x. has_node n x.next ≡ true)
              (some-injective d' (with_mark false d)
                (some-injective (some d') (some (with_mark false d)) dd))
              has;
        apart = simple.apart i (with_mark false d) here_b;
      }

  known_target : (u v : ℕ) → Link b u v → known v b ≡ true
  known_target u v link =
      let (i, d, at, same, has) = linked-entry u v b link in
      all_known-has_node v d.next b (closed_in-get_elem? b b i d closed at) has

  pub found_by : (u v : ℕ) (ds : Devices) → map unmark ds ≡ b → Link b u v → Found v ds
  found_by u v ds e link =
      let (i, d, index, at, same) =
        known-index_of v ds (sym (known-unmark v ds) ∙ ap (known v) e ∙ known_target u v link) in
      subst (λ x. Found x ds) same (found_at ds i d e at)

  -- A device is marked.
  pub Marks-mark :
      (v : ℕ) (ds : Devices) (f : Found v ds)
      → map unmark ds ≡ b
      → f.device.node.discovered ≡ false
      → Marks b ds (mark f.index f.device ds) (λ w. w ≡ v)
  Marks-mark v ds f e not_seen =
      let marks = λ (w : ℕ). marked-mark v f.index f.device ds w f.at f.number in
      record {
        same = unmark-mark ds f.index f.device f.at ∙ e;
        fewer = omega (arith, unmarked-mark ds f.index f.device f.at not_seen);
        old = λ w h. marks w ∙ ground (arith, h);
        new = λ w same. marks w ∙ ground (arith, same);
        only = λ w h. elim (Bool-cases (v == w)) [
          | inl same ↦ inr (sym (==→eq v w same))
          | inr other ↦ inl (ap (λ x. x || marked w ds) (sym other) ∙ sym (marks w) ∙ h)
        ];
      }
