-- ===== src/Network/Kept.antt =====
-- What a report of a link, `connect`, keeps of the graph of controller.c.
use mathlib.Core.Logic.{◌⊎◌}
use mathlib.Core.Option.{some-injective}
use mathlib.Core.Path.{ap₂}
use openflow_controller.Prelude.{
  ℕ, suc, ◌≡◌, refl, ap, ◌∙◌, List, [], ◌∷◌, ◌++◌, map, Option, none, some, true, false, arith,
  ◌==◌, Bool-cases, inl, inr, length,
}
use openflow_controller.Network.{
  Node, Device, Devices, Network, is_end, has_end, connection, connect_device, connect,
}
use openflow_controller.Network.Search.{unmark, with_mark}
use openflow_controller.Network.Marks.{known, all_known, closed_in}
use openflow_controller.Network.Total.{WellFormed}

all_known-append :
    (ns : List Node) (n : Node) (b : Devices)
    → all_known ns b ≡ true
    → known n.device_num b ≡ true
    → all_known (ns ++ n ∷ []) b ≡ true
all_known-append [] n b h k = rw k refl
all_known-append (x ∷ ns) n b h k = ground (arith, all_known-append ns n b)

cons-head : (x y : Option Device) (xs ys : Devices) → x ∷ xs ≡ y ∷ ys → x ≡ y
cons-head x y xs ys e = cc

cons-tail : (x y : Option Device) (xs ys : Devices) → x ∷ xs ≡ y ∷ ys → xs ≡ ys
cons-tail x y xs ys e = cc

closed-tail :
    (b : Devices) (d : Device) (ds : Devices)
    → closed_in (some d ∷ ds) b ≡ true
    → closed_in ds b ≡ true
closed-tail b d ds h = ground arith

module _ (dest src p q : ℕ) where
  abbrev pub round : Option Device → Option Device
  round = connect_device dest src p q

  -- Either the entry stays, or it gets a connection to one of the two ends.
  pub round-cases :
      (d : Device)
      → (round (some d) ≡ some d)
        ⊎ (round (some d)
            ≡ some (record d { next = d.next ++ connection d.node.device_num dest src p q ∷ [] }))
  unfolding connect_device
  round-cases d = elim (Bool-cases (is_end dest src d.node)) [
    | inl e ↦ elim (Bool-cases (has_end dest src d.next)) [
      | inl e' ↦ inl (rw (e, e') refl)
      | inr e' ↦ inr (rw (e, e') refl)
    ]
    | inr e ↦ inl (rw e refl)
  ]

  pub round-none : round none ≡ none
  unfolding connect_device
  round-none = refl

  known-round : (n : ℕ) (ds : Devices) → known n (map round ds) ≡ known n ds
  known-round n [] = refl
  known-round n (none ∷ ds) = rw round-none refl
  known-round n (some d ∷ ds) = elim (round-cases d) [
    | inl e ↦ rw (e, known-round n ds) refl
    | inr e ↦ rw (e, known-round n ds) refl
  ]

  all_known-round : (ns : List Node) (ds : Devices) → all_known ns (map round ds) ≡ all_known ns ds
  all_known-round [] ds = refl
  all_known-round (n ∷ ns) ds = rw (known-round n.device_num ds, all_known-round ns ds) refl

  length-round : (ds : Devices) → length (map round ds) ≡ length ds
  length-round [] = refl
  length-round (o ∷ ds) = ap suc (length-round ds)

  unmark-round : (o : Option Device) → unmark o ≡ o → unmark (round o) ≡ round o
  unmark-round none e = rw round-none refl
  unmark-round (some d) e = elim (round-cases d) [
    | inl same ↦ rw same e
    | inr more ↦ rw more (
        ap
          (λ (t : Device).
            some (record t { next = d.next ++ connection d.node.device_num dest src p q ∷ [] }))
          (some-injective (with_mark false d) d e))
  ]

  known-connection :
      (b : Devices) (match : ℕ)
      → known dest b ≡ true
      → known src b ≡ true
      → known (connection match dest src p q).device_num b ≡ true
  known-connection b match kd ks = elim (Bool-cases (match == dest)) [
    | inl e ↦ rw e ks
    | inr e ↦ rw e kd
  ]

  closed_in-round :
      (b ds : Devices)
      → known dest b ≡ true
      → known src b ≡ true
      → closed_in ds b ≡ true
      → closed_in (map round ds) b ≡ true
  closed_in-round b [] kd ks h = refl
  closed_in-round b (none ∷ ds) kd ks h = rw round-none (closed_in-round b ds kd ks h)
  closed_in-round b (some d ∷ ds) kd ks h = elim (round-cases d) [
    | inl same ↦ rw same (ground (arith, closed_in-round b ds kd ks (closed-tail b d ds h)))
    | inr more ↦
        rw
          (
            more,
            all_known-append d.next (connection d.node.device_num dest src p q) b (ground arith)
                (known-connection b d.node.device_num kd ks),
          )
          (closed_in-round b ds kd ks (ground arith))
  ]

  closed_in-map : (ds b : Devices) → closed_in ds (map round b) ≡ closed_in ds b
  closed_in-map [] b = refl
  closed_in-map (none ∷ ds) b = closed_in-map ds b
  closed_in-map (some d ∷ ds) b = rw (all_known-round d.next b, closed_in-map ds b) refl

  unmark-map : (ds : Devices) → map unmark ds ≡ ds → map unmark (map round ds) ≡ map round ds
  unmark-map [] e = refl
  unmark-map (o ∷ ds) e =
      ap₂ (λ x xs. x ∷ xs) (unmark-round o (cons-head (unmark o) o (map unmark ds) ds e))
        (unmark-map ds (cons-tail (unmark o) o (map unmark ds) ds e))

-- A report of a link between two known devices keeps the graph well-formed, and every device known.
pub connect-WellFormed :
    (dest src dst_port src_port : ℕ) (g : Network)
    → known dest g.devices ≡ true
    → known src g.devices ≡ true
    → WellFormed g
    → let g' = connect dest src dst_port src_port g in
      WellFormed g' × ((n : ℕ) → known n g'.devices ≡ known n g.devices)
unfolding connect
connect-WellFormed dest src p q g kd ks w = (
  record {
    closed =
        closed_in-map dest src p q (map (connect_device dest src p q) g.devices) g.devices
        ∙ closed_in-round dest src p q g.devices g.devices kd ks w.closed;
    clear = unmark-map dest src p q g.devices w.clear;
    sized = omega (arith, w.sized, length-round dest src p q g.devices);
  },
  λ n. known-round dest src p q n g.devices,
)
