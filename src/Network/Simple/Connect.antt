-- ===== src/Network/Simple/Connect.antt =====
-- What `add_connection` of controller.c keeps of a graph in which nothing is there twice.
use openflow_controller.Prelude.{
  ℕ, zero, suc, ◌≡◌, ◌≢◌, refl, sym, ap, subst, ◌∙◌, List, [], ◌∷◌, ◌++◌, map, none, some, Bool,
  true, false, not, ◌&&◌, ◌||◌, arith, ◌==◌, Bool-cases, inl, inr, get_elem?, ==→eq,
}
use mathlib.Core.Path.{ap₂}
use mathlib.Core.Option.{some-injective}
use openflow_controller.Network.{
  Node, Device, Devices, Network, is_end, has_end, connection, connect_device, connect,
}
use openflow_controller.Network.Search.{index_of}
use openflow_controller.Network.Marks.{known}
use openflow_controller.Network.Links.{
  linked, present, has_node, linked-connect, has_node-append, has_end-has_node, added, unchanged,
}
use openflow_controller.Network.Kept.{round-cases, round-none, round}
use openflow_controller.Network.Simple.{AreApart, IsSimple}

known-present : (n : ℕ) (ds : Devices) → known n ds ≡ true → present n ds ≡ true
known-present n [] h = absurd cc
known-present n (none ∷ ds) h = absurd cc
known-present n (some d ∷ ds) h = ground (arith, known-present n ds)

AreApart-append :
    (ns : List Node) (n : Node)
    → AreApart ns
    → has_node n.device_num ns ≡ false
    → AreApart (ns ++ n ∷ [])
AreApart-append [] n h new = (refl, tt)
AreApart-append (x ∷ ns) n h new = (
  has_node-append x.device_num ns n ∙ ground (arith, h.0),
  AreApart-append ns n h.1 (ground arith),
)

-- A device that is an end is there, so the test for it can be left out.
end_there :
    (there x w y z : Bool)
    → (x ≡ true → there ≡ true)
    → (y ≡ true → there ≡ true)
    → (there && ((x && w) || (y && z))) ≡ ((x && w) || (y && z))
end_there there true w y z at_x at_y = rw (at_x refl) refl
end_there there false w true z at_x at_y = rw (at_y refl) refl
end_there there false w false z at_x at_y = ground arith

both_ends : (x w y z : Bool) → ((x && w) || (y && z)) ≡ ((z && y) || (w && x))
both_ends x w y z = ground arith

module _ (dest src p q : ℕ) where
  index_of-round : (n : ℕ) (ds : Devices) → index_of n (map (round dest src p q) ds) ≡ index_of n ds
  unfolding index_of
  index_of-round n [] = refl
  index_of-round n (none ∷ ds) = rw (round-none dest src p q) refl
  index_of-round n (some d ∷ ds) = elim (round-cases dest src p q d) [
    | inl e ↦ rw (e, index_of-round n ds) refl
    | inr e ↦ rw (e, index_of-round n ds) refl
  ]

  round-hole : (d' : Device) → round dest src p q none ≡ some d' → ⊥
  unfolding connect_device
  round-hole d' e = cc

  -- An entry of the new graph comes from one of the same number, whose connections it has, or one more.
  round-entry :
      (ds : Devices) (i : ℕ) (d' : Device)
      → get_elem? (map (round dest src p q) ds) i ≡ some (some d')
      → (d : Device) × (get_elem? ds i ≡ some (some d)) × (round dest src p q (some d) ≡ some d')
  round-entry [] i d' at = absurd cc
  round-entry (none ∷ ds) zero d' at =
      absurd (round-hole d' (some-injective (round dest src p q none) (some d') at))
  round-entry (some d ∷ ds) zero d' at =
      (d, refl, some-injective (round dest src p q (some d)) (some d') at)
  round-entry (o ∷ ds) (suc i) d' at = round-entry ds i d' at

  connection_new :
      (match : ℕ) (ns : List Node)
      → has_end dest src ns ≡ false
      → has_node (connection match dest src p q).device_num ns ≡ false
  connection_new match ns h = elim (Bool-cases (match == dest)) [
    | inl e ↦ rw e (ground (arith, has_end-has_node dest src ns, h))
    | inr e ↦ rw e (ground (arith, has_end-has_node dest src ns, h))
  ]

  next_apart :
      (d d' : Device)
      → AreApart d.next
      → round dest src p q (some d) ≡ some d'
      → (d.node.device_num ≡ d'.node.device_num) × AreApart d'.next
  next_apart d d' apart e =
      elim (Bool-cases (is_end dest src d.node && not (has_end dest src d.next))) [
        | inl more ↦
            let same =
              some-injective
                (record d { next = d.next ++ connection d.node.device_num dest src p q ∷ [] }) d'
                (sym (added dest src p q d more) ∙ e) in
            subst (λ x. (d.node.device_num ≡ x.node.device_num) × AreApart x.next) same
              (
                refl,
                AreApart-append d.next (connection d.node.device_num dest src p q) apart
                    (connection_new d.node.device_num d.next (ground arith)),
              )
        | inr kept ↦
            let same = some-injective d d' (sym (unchanged dest src p q d kept) ∙ e) in
            subst (λ x. (d.node.device_num ≡ x.node.device_num) × AreApart x.next) same
              (refl, apart)
      ]

-- A report of a link between two different known devices keeps the graph simple: no device and no connection is
-- there twice, each connection has its reverse, and no device is linked to itself.
pub connect-IsSimple :
    (dest src dst_port src_port : ℕ) (g : Network)
    → dest ≢ src
    → known dest g.devices ≡ true
    → known src g.devices ≡ true
    → ((a : ℕ) → linked a a g.devices ≡ false)
    → IsSimple g.devices
    → let g' = connect dest src dst_port src_port g in
      IsSimple g'.devices × ((a : ℕ) → linked a a g'.devices ≡ false)
unfolding connect
connect-IsSimple dest src p q g apart kd ks no_self simple =
    let (links, no_self') = linked-connect dest src p q g apart no_self in
    let at_round =
      λ (i : ℕ) (d' : Device)
          (at : get_elem? (map (round dest src p q) g.devices) i ≡ some (some d')).
        round-entry dest src p q g.devices i d' at in
    (
      record {
        placed = λ i d' at.
            let (d, at_old, e) = at_round i d' at in
            let (same, _) = next_apart dest src p q d d' (simple.apart i d at_old) e in
            index_of-round dest src p q d'.node.device_num g.devices
            ∙ ap (λ n. index_of n g.devices) (sym same)
            ∙ simple.placed i d at_old;
        apart = λ i d' at.
            let (d, at_old, e) = at_round i d' at in
            (next_apart dest src p q d d' (simple.apart i d at_old) e).1;
        both = λ a b.
            links a b
            ∙ ap₂ (λ x y. x || y) (simple.both a b)
                (end_there (present a g.devices) (a == dest) (b == src) (a == src) (b == dest)
                    (at_end a dest kd) (at_end a src ks)
                  ∙ both_ends (a == dest) (b == src) (a == src) (b == dest)
                  ∙ sym (
                      end_there (present b g.devices) (b == dest) (a == src) (b == src) (a == dest)
                        (at_end b dest kd) (at_end b src ks)))
            ∙ sym (links b a);
      },
      no_self',
    )
  where
    at_end : (a n : ℕ) → known n g.devices ≡ true → (a == n) ≡ true → present a g.devices ≡ true
    at_end a n k h =
        subst (λ x. present x g.devices ≡ true) (sym (==→eq a n h)) (known-present n g.devices k)
