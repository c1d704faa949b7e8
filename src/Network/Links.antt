-- ===== src/Network/Links.antt =====
-- The links that the graph of controller.c holds, and what `connect` adds to them.
use openflow_controller.Prelude.{
  ℕ, ◌≡◌, ◌≢◌, refl, sym, ap, ◌∙◌, List, [], ◌∷◌, ◌++◌, map, Option, none, some, Bool, true, false,
  not, ◌||◌, ◌&&◌, arith, ◌==◌, Bool-cases, inl, inr,
}
use openflow_controller.Network.{
  Node, Device, Devices, Network, is_end, has_end, connection, connect_device, connect,
}

-- Whether a list of connections leads to `b`.
abbrev pub has_node : ℕ → List Node → Bool
has_node b [] = false
has_node b (n ∷ ns) = (n.device_num == b) || has_node b ns

-- Whether a device of number `a` is in the table, and whether one has a connection to `b`.
abbrev pub present : ℕ → Devices → Bool
present a [] = false
present a (none ∷ ds) = present a ds
present a (some d ∷ ds) = (d.node.device_num == a) || present a ds

abbrev pub linked : ℕ → ℕ → Devices → Bool
linked a b [] = false
linked a b (none ∷ ds) = linked a b ds
linked a b (some d ∷ ds) = ((d.node.device_num == a) && has_node b d.next) || linked a b ds

pub has_node-append :
    (b : ℕ) (ns : List Node) (n : Node)
    → has_node b (ns ++ n ∷ []) ≡ (has_node b ns || (n.device_num == b))
has_node-append b [] n = ground arith
has_node-append b (x ∷ ns) n = ground (arith, has_node-append b ns n)

pub has_end-has_node :
    (dest src : ℕ) (ns : List Node) → has_end dest src ns ≡ (has_node dest ns || has_node src ns)
has_end-has_node dest src [] = refl
has_end-has_node dest src (n ∷ ns) = ground (arith, has_end-has_node dest src ns)

-- The other end, for one that is an end.
abbrev pub joins : (dest src a b : ℕ) → Bool
joins dest src a b = ((a == dest) && (b == src)) || ((a == src) && (b == dest))

next_of : Option Device → List Node
next_of none = []
next_of (some d) = d.next

connect_device-has_node :
    (dest src p q b : ℕ) (d : Device)
    → dest ≢ src
    → has_node d.node.device_num d.next ≡ false
    → has_node b (next_of (connect_device dest src p q (some d)))
      ≡ (has_node b d.next || joins dest src d.node.device_num b)
unfolding connect_device next_of
connect_device-has_node dest src p q b d apart no_self = ground (
  arith,
  has_end-has_node dest src d.next,
  has_node-append b d.next (connection d.node.device_num dest src p q),
)

no_self-head :
    (d : Device) (ds : Devices)
    → linked d.node.device_num d.node.device_num (some d ∷ ds) ≡ false
    → has_node d.node.device_num d.next ≡ false
no_self-head d ds h = ground arith

no_self-tail :
    (a : ℕ) (o : Option Device) (ds : Devices) → linked a a (o ∷ ds) ≡ false → linked a a ds ≡ false
no_self-tail a none ds h = h
no_self-tail a (some d) ds h = ground arith

linked-some :
    (dest src p q a b : ℕ) (d : Device) (ds : Devices)
    → linked a b (connect_device dest src p q (some d) ∷ ds) ≡ (
        ((d.node.device_num == a) && has_node b (next_of (connect_device dest src p q (some d))))
        || linked a b ds)
unfolding connect_device next_of
linked-some dest src p q a b d ds = ground arith

linked-map :
    (dest src p q : ℕ)
    → dest ≢ src
    → (ds : Devices) → ((a : ℕ) → linked a a ds ≡ false)
    → (a b : ℕ)
    → linked a b (map (connect_device dest src p q) ds)
      ≡ (linked a b ds || (present a ds && joins dest src a b))
unfolding connect_device
linked-map dest src p q apart [] no_self a b = refl
linked-map dest src p q apart (none ∷ ds) no_self a b = linked-map dest src p q apart ds no_self a b
linked-map dest src p q apart (some d ∷ ds) no_self a b =
    let rest = linked-map dest src p q apart ds (λ x. no_self-tail x (some d) ds (no_self x)) a b in
    let here =
      connect_device-has_node dest src p q b d apart
        (no_self-head d ds (no_self d.node.device_num)) in
    linked-some dest src p q a b d (map (connect_device dest src p q) ds)
    ∙ rw (here, rest) (ground arith)

-- In a graph where no device is linked to itself, a report of a link between two different devices adds
-- exactly that link: from each of its ends that is in the table to the other. All other links stay,
-- and no device is linked to itself afterwards.
pub linked-connect :
    (dest src dst_port src_port : ℕ) (g : Network)
    → dest ≢ src
    → ((a : ℕ) → linked a a g.devices ≡ false)
    → ((a b : ℕ)
        → linked a b (connect dest src dst_port src_port g).devices
          ≡ (linked a b g.devices || (present a g.devices && joins dest src a b)))
      × ((a : ℕ) → linked a a (connect dest src dst_port src_port g).devices ≡ false)
unfolding connect
linked-connect dest src p q g apart no_self = (
  linked-map dest src p q apart g.devices no_self,
  λ a. linked-map dest src p q apart g.devices no_self a a ∙ rw (no_self a) (ground arith),
)

pub unchanged :
    (dest src p q : ℕ) (d : Device)
    → (is_end dest src d.node && not (has_end dest src d.next)) ≡ false
    → connect_device dest src p q (some d) ≡ some d
unfolding connect_device
unchanged dest src p q d h = elim (Bool-cases (is_end dest src d.node)) [
  | inl e ↦ rw (e, is_true (has_end dest src d.next) (rw e at h)) refl
  | inr e ↦ rw e refl
]
  where
    is_true : (b : Bool) → (true && not b) ≡ false → b ≡ true
    is_true true h = refl
    is_true false h = absurd cc

has_end-connection :
    (dest src match p q : ℕ) (ns : List Node)
    → (has_end dest src (ns ++ connection match dest src p q ∷ []) ≡ true)
      × (has_end src dest (ns ++ connection match dest src p q ∷ []) ≡ true)
has_end-connection dest src match p q [] = (ground arith, ground arith)
has_end-connection dest src match p q (n ∷ ns) =
    let rest = has_end-connection dest src match p q ns in
    (ground (arith, rest.0), ground (arith, rest.1))

has_end-swap : (dest src : ℕ) (ns : List Node) → has_end dest src ns ≡ has_end src dest ns
has_end-swap dest src [] = refl
has_end-swap dest src (n ∷ ns) = ground (arith, has_end-swap dest src ns)

pub added :
    (dest src p q : ℕ) (d : Device)
    → (is_end dest src d.node && not (has_end dest src d.next)) ≡ true
    → connect_device dest src p q (some d)
      ≡ some (record d { next = d.next ++ connection d.node.device_num dest src p q ∷ [] })
unfolding connect_device
added dest src p q d h = elim (Bool-cases (is_end dest src d.node)) [
  | inl e ↦ elim (Bool-cases (has_end dest src d.next)) [
    | inl e' ↦ absurd (contradiction (rw (e, e') at h))
    | inr e' ↦ rw (e, e') refl
  ]
  | inr e ↦ absurd (contradiction (rw e at h))
]
  where
    contradiction : false ≡ true → ⊥
    contradiction h = cc

-- Where the entry becomes `d'`, and no end of the link misses in `d'`, a second report changes nothing.
settled_as :
    (x y p' q' : ℕ) (o' : Option Device) (d' : Device)
    → o' ≡ some d'
    → (is_end x y d'.node && not (has_end x y d'.next)) ≡ false
    → connect_device x y p' q' o' ≡ o'
settled_as x y p' q' o' d' same h =
    ap (connect_device x y p' q') same ∙ unchanged x y p' q' d' h ∙ sym same

none_settled :
    (dest src p q p' q' : ℕ)
    → (connect_device dest src p' q' (connect_device dest src p q none)
        ≡ connect_device dest src p q none)
      × (connect_device src dest p' q' (connect_device dest src p q none)
          ≡ connect_device dest src p q none)
unfolding connect_device
none_settled dest src p q p' q' = (refl, refl)

settled :
    (dest src p q p' q' : ℕ) (o : Option Device)
    → (connect_device dest src p' q' (connect_device dest src p q o)
        ≡ connect_device dest src p q o)
      × (connect_device src dest p' q' (connect_device dest src p q o)
          ≡ connect_device dest src p q o)
settled dest src p q p' q' none = none_settled dest src p q p' q'
settled dest src p q p' q' (some d) =
    elim (Bool-cases (is_end dest src d.node && not (has_end dest src d.next))) [
      | inl e ↦
          let d' : Device = record d {
            next = d.next ++ connection d.node.device_num dest src p q ∷ [];
          } in
          let same = added dest src p q d e in
          let there = has_end-connection dest src d.node.device_num p q d.next in
          (
            settled_as dest src p' q' _ d' same (rw (there.0) (ground arith)),
            settled_as src dest p' q' _ d' same (rw (there.1) (ground arith)),
          )
      | inr e ↦
          let same = unchanged dest src p q d e in
          (
            settled_as dest src p' q' _ d same e,
            settled_as src dest p' q' _ d same (ground (arith, has_end-swap dest src d.next)),
          )
    ]

map-settled :
    (dest src p q p' q' : ℕ) (ds : Devices)
    → let ds' = map (connect_device dest src p q) ds in
      (map (connect_device dest src p' q') ds' ≡ ds')
      × (map (connect_device src dest p' q') ds' ≡ ds')
map-settled dest src p q p' q' [] = (refl, refl)
map-settled dest src p q p' q' (o ∷ ds) =
    let (a, b) = settled dest src p q p' q' o in
    let (c, d) = map-settled dest src p q p' q' ds in (rw (a, c) refl, rw (b, d) refl)

-- A link that was reported is not put in again: a second report of it, from either end and whatever
-- its ports, leaves the graph as it is.
pub connect-connect :
    (dest src p q p' q' : ℕ) (g : Network)
    → (connect dest src p' q' (connect dest src p q g) ≡ connect dest src p q g)
      × (connect src dest p' q' (connect dest src p q g) ≡ connect dest src p q g)
unfolding connect
connect-connect dest src p q p' q' g = (
  ap (λ ds. record g { devices = ds }) (map-settled dest src p q p' q' g.devices).0,
  ap (λ ds. record g { devices = ds }) (map-settled dest src p q p' q' g.devices).1,
)
