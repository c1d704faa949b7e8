-- ===== src/Tests/Trees.antt =====
-- Runs of the graph operations on three switches whose links form trees.
use openflow_controller.Prelude.{
  ℕ, zero, suc, ◌≡◌, ◌≢◌, ◌⊎◌, refl, sym, subst, ◌∙◌, [], ◌∷◌, none, some, true, false, arith, ◌==◌,
  ◌&&◌, ◌||◌, if◌then◌else◌, get_elem?,
}
use mathlib.Core.Option.{some-injective}
use openflow_controller.Outcome.{done}
use openflow_controller.Switch.{u8, u32}
use openflow_controller.Network.{Network, Device, connect, connect_device}
use openflow_controller.Network.Search.{index_of}
use openflow_controller.Network.Links.{linked}
use openflow_controller.Network.Total.{WellFormed}
use openflow_controller.Network.Simple.{IsSimple, Link, AreApart}
use openflow_controller.Network.Simple.Connect.{connect-IsSimple}
use openflow_controller.Network.Forest.{IsForest}
use openflow_controller.Controller.{Controller, add_connection}
use openflow_controller.Controller.Links.Trees.{add_connection-forest}
use openflow_controller.Tests.Graphs.{node, device, network, three_switches}

-- Two linked switches, and one alone.
abbrev pair : Network
pair = network (device 5 (6 ∷ []) ∷ device 6 (5 ∷ []) ∷ device 7 [] ∷ none ∷ [])

pair-WellFormed : WellFormed pair
pair-WellFormed = record { closed = refl; clear = refl; sized = omega arith }

pair_no_self : (a : ℕ) → linked a a pair.devices ≡ false
pair_no_self a = ground arith

unfoldable IsPlaced : ℕ → Device → Type 0
IsPlaced i d = (index_of d.node.device_num pair.devices ≡ done i) × AreApart d.next

entry_is :
    (i : ℕ) (d₀ d : Device)
    → IsPlaced i d₀
    → get_elem? pair.devices i ≡ some (some d₀)
    → get_elem? pair.devices i ≡ some (some d)
    → IsPlaced i d
entry_is i d₀ d p at₀ at =
    subst (IsPlaced i) (some-injective d₀ d (some-injective (some d₀) (some d) (sym at₀ ∙ at))) p

pair-IsPlaced : (i : ℕ) (d : Device) → get_elem? pair.devices i ≡ some (some d) → IsPlaced i d
unfolding index_of IsPlaced
pair-IsPlaced zero d at =
    entry_is 0 (record { node = node 5; next = node 6 ∷ [] }) d (refl, (refl, tt)) refl at
pair-IsPlaced (suc zero) d at =
    entry_is 1 (record { node = node 6; next = node 5 ∷ [] }) d (refl, (refl, tt)) refl at
pair-IsPlaced (suc (suc zero)) d at =
    entry_is 2 (record { node = node 7; next = [] }) d (refl, tt) refl at
pair-IsPlaced (suc (suc (suc zero))) d at = absurd cc
pair-IsPlaced (suc (suc (suc (suc i)))) d at = absurd cc

abbrev parent : ℕ → ℕ
parent n = if n == 6 then 5 else 6

abbrev depth : ℕ → ℕ
depth n = if n == 6 then 1 else if n == 7 then 2 else 0

abbrev joined_pair : Network
joined_pair = connect (u8 7) (u8 6) (u32 1) (u32 2) pair

pair-IsSimple : IsSimple pair.devices
unfolding IsPlaced
pair-IsSimple = record {
  placed = λ i d at. (pair-IsPlaced i d at).0;
  apart = λ i d at. (pair-IsPlaced i d at).1;
  both = λ a b. ground arith;
}

joined_up : (a : ℕ) → depth a ≢ 0 → depth a ≡ suc (depth (parent a))
joined_up a h = ground arith

-- The four links of the row.
linked_cases :
    (a b : ℕ)
    → Link joined_pair.devices a b
    → (((a == 5) && (b == 6)) || ((a == 6) && ((b == 5) || (b == 7))) || ((a == 7) && (b == 6)))
      ≡ true
unfolding connect connect_device
linked_cases a b link = ground (arith, link)

joined_links :
    (a b : ℕ)
    → Link joined_pair.devices a b
    → ((depth b ≢ 0) × (parent b ≡ a)) ⊎ ((depth a ≢ 0) × (parent a ≡ b))
joined_links a b link = ground (arith, linked_cases a b link)

joined_pair-IsForest : IsForest (Link joined_pair.devices) parent depth
joined_pair-IsForest = record { up = joined_up; joined = joined_links }

connect-IsSimple_example :
    IsSimple joined_pair.devices × ((a : ℕ) → linked a a joined_pair.devices ≡ false)
connect-IsSimple_example =
    connect-IsSimple 7 6 1 2 pair (λ e. absurd (omega arith)) refl refl pair_no_self pair-IsSimple

abbrev pair_connected : Controller
pair_connected = record three_switches { network_graph = pair }

add_connection-forest_example :
    add_connection 7 6 1 2 pair_connected
    ≡ done (record pair_connected { network_graph = joined_pair })
add_connection-forest_example =
    add_connection-forest 7 6 1 2 pair_connected parent depth (λ e. absurd (omega arith)) refl refl
      pair-WellFormed pair-IsSimple pair_no_self joined_pair-IsForest
