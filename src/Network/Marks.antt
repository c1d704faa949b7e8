-- ===== src/Network/Marks.antt =====
-- The marks that the loop search of controller.c sets in the graph, and its search for a device.
use mathlib.Core.Option.{some-injective}
use openflow_controller.Prelude.{
  ℕ, zero, suc, ◌≡◌, refl, ap, subst, List, [], ◌∷◌, map, none, some, Bool, true, false, arith,
  ◌==◌, ==→eq, Bool-cases, inl, inr, if◌then◌else◌, get_elem?,
}
use openflow_controller.Outcome.{done}
use openflow_controller.Network.{Node, Device, Devices}
use openflow_controller.Network.Search.{index_of, device_at, with_mark, mark, unmark}

-- Whether a device of that number stands in front of the first hole of the table.
abbrev pub known : ℕ → Devices → Bool
known n [] = false
known n (none ∷ ds) = false
known n (some d ∷ ds) = if d.node.device_num == n then true else known n ds

-- Whether all connections of a list lead to known devices.
abbrev pub all_known : List Node → Devices → Bool
all_known [] ds = true
all_known (n ∷ ns) ds = if known n.device_num ds then all_known ns ds else false

-- The number of devices that are not marked.
abbrev pub unmarked : Devices → ℕ
unmarked [] = 0
unmarked (none ∷ ds) = unmarked ds
unmarked (some d ∷ ds) = let n = unmarked ds in if d.node.discovered then n else suc n

pub known-unmark : (n : ℕ) (ds : Devices) → known n (map unmark ds) ≡ known n ds
known-unmark n [] = refl
known-unmark n (none ∷ ds) = refl
known-unmark n (some d ∷ ds) =
    ap (λ b. if d.node.device_num == n then true else b) (known-unmark n ds)

pub known-index_of :
    (n : ℕ) (ds : Devices)
    → known n ds ≡ true
    → (i : ℕ) × (d : Device) × (index_of n ds ≡ done i)
      × (get_elem? ds i ≡ some (some d))
      × (d.node.device_num ≡ n)
unfolding index_of
known-index_of n [] h = absurd cc
known-index_of n (none ∷ ds) h = absurd cc
known-index_of n (some d ∷ ds) h = elim (Bool-cases (d.node.device_num == n)) [
  | inl e ↦ (0, d, rw e refl, refl, ==→eq d.node.device_num n e)
  | inr e ↦
      let (i, d', found, at, same) = known-index_of n ds (rw e at h) in
      (suc i, d', rw (e, found) refl, at, same)
]

pub unmarked-mark :
    (ds : Devices) (i : ℕ) (d : Device)
    → get_elem? ds i ≡ some (some d)
    → d.node.discovered ≡ false
    → suc (unmarked (mark i d ds)) ≡ unmarked ds
unmarked-mark [] i d h e = absurd cc
unmarked-mark (x ∷ ds) zero d h e = rw (some-injective x (some d) h, e) refl
unmarked-mark (none ∷ ds) (suc i) d h e = unmarked-mark ds i d h e
unmarked-mark (some x ∷ ds) (suc i) d h e = ground (arith, unmarked-mark ds i d h e)

pub unmark-mark :
    (ds : Devices) (i : ℕ) (d : Device)
    → get_elem? ds i ≡ some (some d)
    → map unmark (mark i d ds) ≡ map unmark ds
unmark-mark [] i d h = refl
unmark-mark (x ∷ ds) zero d h = rw (some-injective x (some d) h) refl
unmark-mark (x ∷ ds) (suc i) d h = ap (λ t. unmark x ∷ t) (unmark-mark ds i d h)

pub get_elem?-unmark :
    (ds : Devices) (i : ℕ) (d : Device)
    → get_elem? ds i ≡ some (some d)
    → get_elem? (map unmark ds) i ≡ some (some (with_mark false d))
get_elem?-unmark [] i d h = absurd cc
get_elem?-unmark (x ∷ ds) zero d h = ap (λ t. some (unmark t)) (some-injective x (some d) h)
get_elem?-unmark (x ∷ ds) (suc i) d h = get_elem?-unmark ds i d h

pub device_at-some :
    (ds : Devices) (i : ℕ) (d : Device) → get_elem? ds i ≡ some (some d) → device_at i ds ≡ done d
unfolding device_at
device_at-some ds i d h = rw (h, device_at) refl

-- Whether all connections of all devices lead to devices that are known in `b`.
abbrev pub closed_in : Devices → Devices → Bool
closed_in [] b = true
closed_in (none ∷ ds) b = closed_in ds b
closed_in (some d ∷ ds) b = if all_known d.next b then closed_in ds b else false

pub closed_in-get_elem? :
    (ds b : Devices) (i : ℕ) (d : Device)
    → closed_in ds b ≡ true
    → get_elem? ds i ≡ some (some d)
    → all_known d.next b ≡ true
closed_in-get_elem? [] b i d c h = absurd cc
closed_in-get_elem? (none ∷ ds) b zero d c h = absurd cc
closed_in-get_elem? (none ∷ ds) b (suc i) d c h = closed_in-get_elem? ds b i d c h
closed_in-get_elem? (some x ∷ ds) b zero d c h =
    subst (λ t. all_known t.next b ≡ true) (some-injective x d (some-injective (some x) (some d) h))
      (ground arith)
closed_in-get_elem? (some x ∷ ds) b (suc i) d c h = closed_in-get_elem? ds b i d (ground arith) h
