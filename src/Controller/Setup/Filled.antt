-- ===== src/Controller/Setup/Filled.antt =====
-- controller.c: what `setup_new_switch` puts in the table of devices.
use mathlib.Core.Path.{ap₂}
use openflow_controller.Prelude.{
  ℕ, suc, ◌≡◌, refl, ap, List, [], ◌∷◌, map, Option, none, some, Bool, true, false, arith, ◌==◌,
  if◌then◌else◌, length,
}
use openflow_controller.Outcome.{done}
use openflow_controller.Switch.{u8}
use openflow_controller.Network.{Node, Device, Devices, blank_node}
use openflow_controller.Network.Search.{unmark}
use openflow_controller.Network.Marks.{known, all_known, closed_in}
use openflow_controller.Controller.Setup.{add_device}

-- Whether all entries are empty, and whether no device stands behind an empty entry.
abbrev pub all_empty : Devices → Bool
all_empty [] = true
all_empty (none ∷ ds) = all_empty ds
all_empty (some d ∷ ds) = false

abbrev pub is_compact : Devices → Bool
is_compact [] = true
is_compact (none ∷ ds) = all_empty ds
is_compact (some d ∷ ds) = is_compact ds

abbrev pub has_hole : Devices → Bool
has_hole [] = false
has_hole (none ∷ ds) = true
has_hole (some d ∷ ds) = has_hole ds

abbrev new_entry : ℕ → Option Device
new_entry fd =
    some (record { node = record blank_node { device_num = u8 fd; is_switch = true }; next = [] })

-- The table with the device in the first empty entry.
abbrev pub filled : ℕ → Devices → Devices
filled fd [] = []
filled fd (none ∷ ds) = new_entry fd ∷ ds
filled fd (some d ∷ ds) = some d ∷ filled fd ds

pub add_device-filled :
    (fd : ℕ) (ds : Devices) → has_hole ds ≡ true → add_device fd ds ≡ done (filled fd ds)
unfolding add_device
add_device-filled fd [] h = absurd cc
add_device-filled fd (none ∷ ds) h = refl
add_device-filled fd (some d ∷ ds) h = rw (add_device-filled fd ds h) refl

known-empty : (n : ℕ) (ds : Devices) → all_empty ds ≡ true → known n ds ≡ false
known-empty n [] h = refl
known-empty n (none ∷ ds) h = refl
known-empty n (some d ∷ ds) h = absurd cc

empty-is_compact : (ds : Devices) → all_empty ds ≡ true → is_compact ds ≡ true
empty-is_compact [] h = refl
empty-is_compact (none ∷ ds) h = h
empty-is_compact (some d ∷ ds) h = absurd cc

pub known-filled :
    (fd n : ℕ) (ds : Devices)
    → is_compact ds ≡ true
    → has_hole ds ≡ true
    → known n (filled fd ds) ≡ (if u8 fd == n then true else known n ds)
known-filled fd n [] c h = absurd cc
known-filled fd n (none ∷ ds) c h = ap (λ b. if u8 fd == n then true else b) (known-empty n ds c)
known-filled fd n (some d ∷ ds) c h = rw (known-filled fd n ds c h) (ground arith)

all_known-filled :
    (fd : ℕ) (ns : List Node) (ds : Devices)
    → is_compact ds ≡ true
    → has_hole ds ≡ true
    → all_known ns ds ≡ true
    → all_known ns (filled fd ds) ≡ true
all_known-filled fd [] ds c h k = refl
all_known-filled fd (n ∷ ns) ds c h k =
    rw (known-filled fd n.device_num ds c h) (ground (arith, all_known-filled fd ns ds c h))

closed_in-kept :
    (fd : ℕ) (ds b : Devices)
    → is_compact b ≡ true
    → has_hole b ≡ true
    → closed_in ds b ≡ true
    → closed_in ds (filled fd b) ≡ true
closed_in-kept fd [] b c h k = refl
closed_in-kept fd (none ∷ ds) b c h k = closed_in-kept fd ds b c h k
closed_in-kept fd (some d ∷ ds) b c h k =
    rw (all_known-filled fd d.next b c h (ground arith)) (closed_in-kept fd ds b c h (ground arith))

-- The entries of `ds` in a table that knows all that `b` knows.
pub closed_in-filled :
    (fd : ℕ) (ds b : Devices)
    → is_compact b ≡ true
    → has_hole b ≡ true
    → closed_in ds b ≡ true
    → closed_in (filled fd ds) (filled fd b) ≡ true
closed_in-filled fd [] b c h k = refl
closed_in-filled fd (none ∷ ds) b c h k = closed_in-kept fd ds b c h k
closed_in-filled fd (some d ∷ ds) b c h k =
    rw (all_known-filled fd d.next b c h (ground arith))
      (closed_in-filled fd ds b c h (ground arith))

pub is_compact-filled :
    (fd : ℕ) (ds : Devices) → is_compact ds ≡ true → is_compact (filled fd ds) ≡ true
is_compact-filled fd [] c = refl
is_compact-filled fd (none ∷ ds) c = empty-is_compact ds c
is_compact-filled fd (some d ∷ ds) c = is_compact-filled fd ds c

pub length-filled : (fd : ℕ) (ds : Devices) → length (filled fd ds) ≡ length ds
length-filled fd [] = refl
length-filled fd (none ∷ ds) = refl
length-filled fd (some d ∷ ds) = ap suc (length-filled fd ds)

cons-head : (x y : Option Device) (xs ys : Devices) → x ∷ xs ≡ y ∷ ys → x ≡ y
cons-head x y xs ys e = cc

cons-tail : (x y : Option Device) (xs ys : Devices) → x ∷ xs ≡ y ∷ ys → xs ≡ ys
cons-tail x y xs ys e = cc

pub unmark-filled :
    (fd : ℕ) (ds : Devices) → map unmark ds ≡ ds → map unmark (filled fd ds) ≡ filled fd ds
unmark-filled fd [] e = refl
unmark-filled fd (none ∷ ds) e =
    ap (λ t. unmark (new_entry fd) ∷ t) (cons-tail none none (map unmark ds) ds e)
unmark-filled fd (some d ∷ ds) e =
    ap₂ (λ x xs. x ∷ xs) (cons-head (unmark (some d)) (some d) (map unmark ds) ds e)
      (unmark-filled fd ds (cons-tail (unmark (some d)) (some d) (map unmark ds) ds e))
