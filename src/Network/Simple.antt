-- ===== src/Network/Simple.antt =====
-- Graphs in which no device and no link is there twice, and their marks, controller.c.
pub mod Connect
use openflow_controller.Prelude.{
  ℕ, zero, suc, ◌+◌, ◌<◌, ◌≤◌, ◌≡◌, ◌≢◌, ◌⊎◌, ◌↔◌, inl, inr, refl, sym, ap, subst, ◌∙◌, List, [],
  ◌∷◌, map, none, some, Bool, true, false, arith, ◌==◌, ◌||◌, ◌&&◌, ==→eq, eq→==, and_both,
  Bool-cases, get_elem?, length,
}
use mathlib.Core.Option.{some-injective}
use openflow_controller.Outcome.{Outcome, done}
use openflow_controller.Network.{Node, Device, Devices, Network}
use openflow_controller.Network.Search.{
  index_of, device_at, mark, with_mark, unmark, Visit, scan, recursive_loop_exists, scan_root,
  scan_roots, loop_exists,
}
use openflow_controller.Network.Marks.{
  known, all_known, unmarked, known-unmark, known-index_of, unmarked-mark, unmark-mark,
  get_elem?-unmark, device_at-some, closed_in, closed_in-get_elem?,
}
use openflow_controller.Network.Links.{linked, has_node}
use openflow_controller.Network.Total.{WellFormed}
use openflow_controller.Network.Total.Runs.{unmarked-length}

-- Whether a device of that number is marked.
abbrev pub marked : ℕ → Devices → Bool
marked n [] = false
marked n (none ∷ ds) = marked n ds
marked n (some d ∷ ds) = ((d.node.device_num == n) && d.node.discovered) || marked n ds

-- No connection is there twice.
abbrev pub AreApart : List Node → Type 0
AreApart [] = Unit {0}
AreApart (n ∷ ns) = (has_node n.device_num ns ≡ false) × AreApart ns

-- No two devices have the same number, none stands behind a hole, and no connection is there twice.
pub record IsSimple (ds : Devices) : Type 0 where
  pub placed :
      (i : ℕ) (d : Device) → get_elem? ds i ≡ some (some d) → index_of d.node.device_num ds ≡ done i
  pub apart : (i : ℕ) (d : Device) → get_elem? ds i ≡ some (some d) → AreApart d.next
  pub both : (a b : ℕ) → linked a b ds ≡ linked b a ds

abbrev pub Link : Devices → ℕ → ℕ → Type 0
Link ds a b = linked a b ds ≡ true

pub index_of-unmark : (n : ℕ) (ds : Devices) → index_of n (map unmark ds) ≡ index_of n ds
unfolding index_of
index_of-unmark n [] = refl
index_of-unmark n (none ∷ ds) = refl
index_of-unmark n (some d ∷ ds) = rw (index_of-unmark n ds) refl

-- What marking the device that `index_of` finds does to the marks.
pub marked-mark :
    (n i : ℕ) (d : Device) (ds : Devices) (w : ℕ)
    → get_elem? ds i ≡ some (some d)
    → d.node.device_num ≡ n
    → marked w (mark i d ds) ≡ ((n == w) || marked w ds)
marked-mark n i d [] w at e = absurd cc
marked-mark n zero d (x ∷ ds) w at e = rw (some-injective x (some d) at, e) (ground arith)
marked-mark n (suc i) d (none ∷ ds) w at e = marked-mark n i d ds w at e
marked-mark n (suc i) d (some x ∷ ds) w at e = ground (arith, marked-mark n i d ds w at e)

pub marked-false :
    (i : ℕ) (d : Device) (ds : Devices)
    → get_elem? ds i ≡ some (some d)
    → marked d.node.device_num ds ≡ false
    → d.node.discovered ≡ false
marked-false i d [] at h = absurd cc
marked-false zero d (x ∷ ds) at h =
    head (subst (λ y. marked d.node.device_num (y ∷ ds) ≡ false) (some-injective x (some d) at) h)
  where
    head : marked d.node.device_num (some d ∷ ds) ≡ false → d.node.discovered ≡ false
    head e = ground arith
marked-false (suc i) d (none ∷ ds) at h = marked-false i d ds at h
marked-false (suc i) d (some x ∷ ds) at h = marked-false i d ds at (ground arith)

pub marked-entry :
    (n : ℕ) (ds : Devices)
    → marked n ds ≡ true
    → (i : ℕ) × (d : Device) × (get_elem? ds i ≡ some (some d))
      × (d.node.device_num ≡ n)
      × (d.node.discovered ≡ true)
marked-entry n [] h = absurd cc
marked-entry n (none ∷ ds) h =
    let (i, d, at, same, on) = marked-entry n ds h in (suc i, d, at, same, on)
marked-entry n (some d ∷ ds) h = elim (Bool-cases ((d.node.device_num == n) && d.node.discovered)) [
  | inl first ↦
      let (same, on) = and_both (d.node.device_num == n) d.node.discovered first in
      (0, d, refl, ==→eq d.node.device_num n same, on)
  | inr behind ↦
      let (i, d', at, same, on) = marked-entry n ds (ground arith) in (suc i, d', at, same, on)
]

pub linked-entry :
    (a n : ℕ) (ds : Devices)
    → linked a n ds ≡ true
    → (i : ℕ) × (d : Device) × (get_elem? ds i ≡ some (some d))
      × (d.node.device_num ≡ a)
      × (has_node n d.next ≡ true)
linked-entry a n [] h = absurd cc
linked-entry a n (none ∷ ds) h =
    let (i, d, at, same, on) = linked-entry a n ds h in (suc i, d, at, same, on)
linked-entry a n (some d ∷ ds) h =
    elim (Bool-cases ((d.node.device_num == a) && has_node n d.next)) [
      | inl first ↦
          let (same, on) = and_both (d.node.device_num == a) (has_node n d.next) first in
          (0, d, refl, ==→eq d.node.device_num a same, on)
      | inr behind ↦
          let (i, d', at, same, on) = linked-entry a n ds (ground arith) in
          (suc i, d', at, same, on)
    ]

pub linked-has_node :
    (i n : ℕ) (d : Device) (ds : Devices)
    → get_elem? ds i ≡ some (some d)
    → has_node n d.next ≡ true
    → linked d.node.device_num n ds ≡ true
linked-has_node i n d [] at h = absurd cc
linked-has_node zero n d (x ∷ ds) at h = rw (some-injective x (some d) at) (ground (arith, h))
linked-has_node (suc i) n d (none ∷ ds) at h = linked-has_node i n d ds at h
linked-has_node (suc i) n d (some x ∷ ds) at h = ground (arith, linked-has_node i n d ds at h)

pub all_known-has_node :
    (n : ℕ) (ns : List Node) (b : Devices)
    → all_known ns b ≡ true
    → has_node n ns ≡ true
    → known n b ≡ true
all_known-has_node n [] b h e = absurd cc
all_known-has_node n (x ∷ ns) b h e = elim (Bool-cases (x.device_num == n)) [
  | inl first ↦ subst (λ y. known y b ≡ true) (==→eq x.device_num n first) (ground arith)
  | inr behind ↦ all_known-has_node n ns b (ground arith) (ground arith)
]
