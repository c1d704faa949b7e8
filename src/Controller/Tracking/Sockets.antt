-- ===== src/Controller/Tracking/Sockets.antt =====
-- Changes of the list of switches, and who is found in it by descriptor.
use mathlib.Core.Option.{some-injective}
use mathlib.Core.Path.{ap₂}
use openflow_controller.Prelude.{
  ℕ, zero, suc, ◌<◌, ◌≡◌, ◌⊎◌, refl, sym, ap, ◌∙◌, List, [], ◌∷◌, map, none, some, true, false,
  arith, ◌==◌, inl, inr, if◌then◌else◌, length, get_elem?, set,
}
use openflow_controller.Switch.{OfSwitch}
use openflow_controller.Network.{Devices, connect_device}
use openflow_controller.Packets.PortMod.{change_port_behavior}
use openflow_controller.Controller.Links.{has_socket}
use openflow_controller.Controller.Setup.Filled.{all_empty, is_compact}

pub entry :
    (ss : List OfSwitch) (k : ℕ) → k < length ss → (s : OfSwitch) × (get_elem? ss k ≡ some s)
entry [] k h = absurd (omega arith)
entry (s ∷ ss) zero h = (s, refl)
entry (s ∷ ss) (suc k) h = entry ss k (omega arith)

pub has_socket-set :
    (fd k : ℕ) (ss : List OfSwitch) (s : OfSwitch)
    → k < length ss
    → has_socket fd (suc k) (set ss k s) ≡ (if s.socket_fd == fd then true else has_socket fd k ss)
has_socket-set fd k [] s h = absurd (omega arith)
has_socket-set fd zero (x ∷ ss) s h = refl
has_socket-set fd (suc k) (x ∷ ss) s h = rw (has_socket-set fd k ss s (omega arith)) (ground arith)

pub all_empty-connect :
    (dest src p q : ℕ) (ds : Devices)
    → all_empty (map (connect_device dest src p q) ds) ≡ all_empty ds
unfolding connect_device
all_empty-connect dest src p q [] = refl
all_empty-connect dest src p q (none ∷ ds) = all_empty-connect dest src p q ds
all_empty-connect dest src p q (some d ∷ ds) = refl

pub is_compact-connect :
    (dest src p q : ℕ) (ds : Devices)
    → is_compact (map (connect_device dest src p q) ds) ≡ is_compact ds
unfolding connect_device
is_compact-connect dest src p q [] = refl
is_compact-connect dest src p q (none ∷ ds) = all_empty-connect dest src p q ds
is_compact-connect dest src p q (some d ∷ ds) = is_compact-connect dest src p q ds

pub has_socket-put :
    (fd k i : ℕ) (s t : OfSwitch) (ss : List OfSwitch)
    → get_elem? ss i ≡ some s
    → t.socket_fd ≡ s.socket_fd
    → has_socket fd k (set ss i t) ≡ has_socket fd k ss
has_socket-put fd zero i s t ss at e = refl
has_socket-put fd (suc k) i s t [] at e = refl
has_socket-put fd (suc k) zero s t (x ∷ ss) at e =
    ap (λ a. if a == fd then true else has_socket fd k ss)
      (e ∙ ap (λ (y : OfSwitch). y.socket_fd) (sym (some-injective x s at)))
has_socket-put fd (suc k) (suc i) s t (x ∷ ss) at e =
    ap (λ b. if x.socket_fd == fd then true else b) (has_socket-put fd k i s t ss at e)

pub has_socket-blocked :
    (fd k i : ℕ) (s : OfSwitch) (ss : List OfSwitch) (port : ℕ)
    → get_elem? ss i ≡ some s
    → has_socket fd k (set ss i (change_port_behavior s port false)) ≡ has_socket fd k ss
unfolding change_port_behavior
has_socket-blocked fd k i s ss port at =
    has_socket-put fd k i s (change_port_behavior s port false) ss at refl

pub has_socket-after :
    (fd port k k' : ℕ) (ss ss' : List OfSwitch)
    → k' ≡ k
    → (ss' ≡ ss)
      ⊎ ((i : ℕ) × (s : OfSwitch) × (get_elem? ss i ≡ some s)
          × (ss' ≡ set ss i (change_port_behavior s port false)))
    → has_socket fd k' ss' ≡ has_socket fd k ss
has_socket-after fd port k k' ss ss' e (inl same) = ap₂ (λ x y. has_socket fd x y) e same
has_socket-after fd port k k' ss ss' e (inr (i, s, at, one)) =
    ap₂ (λ x y. has_socket fd x y) e one ∙ has_socket-blocked fd k i s ss port at
