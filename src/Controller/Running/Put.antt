-- ===== src/Controller/Running/Put.antt =====
-- What changes of single switches keep of a running controller.
use mathlib.Core.Option.{some-injective}
use openflow_controller.Prelude.{
  ℕ, zero, suc, ◌<◌, ◌≡◌, ◌≢◌, refl, sym, subst, ap, ◌∙◌, List, [], ◌∷◌, some, true, false, ◌==◌,
  ==→eq, arith, get_elem?, set, length, length-set, get_elem?-set_self, get_elem?-set_ne,
  Bool-cases, ◌⊎◌, inl, inr,
}
use openflow_controller.Memory.{release}
use openflow_controller.Switch.{OfSwitch}
use openflow_controller.Transfer.Kept.{Kept}
use openflow_controller.Network.{Devices}
use openflow_controller.Network.Marks.{known}
use openflow_controller.Controller.{Controller, put_switch, free_buffers}
use openflow_controller.Controller.Links.{has_socket}
use openflow_controller.Controller.Tracking.Sockets.{has_socket-put}
use openflow_controller.Controller.Read.Failure.{freed, length-freed}
use openflow_controller.Controller.Running.{IsConnected, AllConnected, IsRunning}

IsConnected-Kept : {ds : Devices} {s t : OfSwitch} → IsConnected ds s → Kept s t → IsConnected ds t
IsConnected-Kept {ds} p k = record {
  device = subst (λ n. known n ds ≡ true) (sym k.same_fd) p.device;
  small = omega (arith, k.same_fd, p.small);
  bytes = k.bytes;
}

pub lt_of_get_elem? :
    (ss : List OfSwitch) (i : ℕ) (s : OfSwitch) → get_elem? ss i ≡ some s → i < length ss
lt_of_get_elem? [] i s at = absurd cc
lt_of_get_elem? (x ∷ ss) zero s at = omega arith
lt_of_get_elem? (x ∷ ss) (suc i) s at = omega (arith, lt_of_get_elem? ss i s at)

pub ne_of_== : (k i : ℕ) → (k == i) ≡ false → k ≢ i
ne_of_== k i h = ground arith

pub set-AllConnected :
    (ds : Devices) (n k : ℕ) (s t : OfSwitch) (ss : List OfSwitch)
    → AllConnected ds n ss
    → get_elem? ss k ≡ some s
    → (IsConnected ds s → Kept s t)
    → AllConnected ds n (set ss k t)
set-AllConnected ds n k s t ss all at kept i s' low at' = elim (Bool-cases (k == i)) [
  | inl same ↦
      let e : k ≡ i = ==→eq k i same in
      let it : some t ≡ some s' =
        sym (get_elem?-set_self ss k t (lt_of_get_elem? ss k s at))
        ∙ ap (λ j. get_elem? (set ss k t) j) e
        ∙ at' in
      let before = all i s low (ap (λ j. get_elem? ss j) (sym e) ∙ at) in
      subst (λ x. IsConnected ds x) (some-injective t s' it) (IsConnected-Kept before (kept before))
  | inr other ↦ all i s' low (sym (get_elem?-set_ne ss t (ne_of_== k i other)) ∙ at')
]

pub put-IsRunning :
    (c : Controller) (k : ℕ) (s t : OfSwitch)
    → IsRunning c
    → get_elem? c.switch_list k ≡ some s
    → Kept s t
    → IsRunning (put_switch k t c)
put-IsRunning c k s t p at kept = record {
  tracked = record {
    graph = p.tracked.graph;
    compact = p.tracked.compact;
    listed = λ n h.
        has_socket-put n c.num_connected_switches k s t c.switch_list at kept.same_fd
        ∙ p.tracked.listed n h;
  };
  room = omega (arith, p.room, length-set c.switch_list k t);
  switches =
      set-AllConnected c.network_graph.devices c.num_connected_switches k s t c.switch_list
        p.switches at (λ _. kept);
}

-- Freeing buffers keeps descriptors and bytes.
free_buffers-Kept : (s : OfSwitch) {ds : Devices} → IsConnected ds s → Kept s (free_buffers s)
unfolding release
free_buffers-Kept s p = record { same_fd = ground arith; bytes = λ j. ground (arith, p.bytes j) }

same_fd-free_buffers : (s : OfSwitch) → (free_buffers s).socket_fd ≡ s.socket_fd
same_fd-free_buffers s = ground arith

has_socket-freed :
    (fd m n k : ℕ) (ss : List OfSwitch) → has_socket fd m (freed n k ss) ≡ has_socket fd m ss
unfolding freed
has_socket-freed fd m zero k ss = refl
has_socket-freed fd m (suc n) k [] = refl
has_socket-freed fd zero (suc n) zero (s ∷ ss) = refl
has_socket-freed fd (suc m) (suc n) zero (s ∷ ss) =
    rw (same_fd-free_buffers s, has_socket-freed fd m n zero ss) refl
has_socket-freed fd zero (suc n) (suc k) (s ∷ ss) = refl
has_socket-freed fd (suc m) (suc n) (suc k) (s ∷ ss) = rw (has_socket-freed fd m (suc n) k ss) refl

-- An entry of the list comes from the same entry before, freed or not.
entry-freed :
    (n k i : ℕ) (ss : List OfSwitch) (t : OfSwitch)
    → get_elem? (freed n k ss) i ≡ some t
    → (s : OfSwitch) × (get_elem? ss i ≡ some s) × ((t ≡ s) ⊎ (t ≡ free_buffers s))
unfolding freed
entry-freed zero k i ss t h = (t, h, inl refl)
entry-freed (suc n) k i [] t h = absurd cc
entry-freed (suc n) zero zero (s ∷ ss) t h =
    (s, refl, inr (sym (some-injective (free_buffers s) t h)))
entry-freed (suc n) zero (suc i) (s ∷ ss) t h = entry-freed n zero i ss t h
entry-freed (suc n) (suc k) zero (s ∷ ss) t h = (s, refl, inl (sym (some-injective s t h)))
entry-freed (suc n) (suc k) (suc i) (s ∷ ss) t h = entry-freed (suc n) k i ss t h

pub freed-IsRunning :
    (n k : ℕ) (c : Controller)
    → IsRunning c
    → IsRunning (record c { switch_list = freed n k c.switch_list })
freed-IsRunning n k c p = record {
  tracked = record {
    graph = p.tracked.graph;
    compact = p.tracked.compact;
    listed =
        λ m h. has_socket-freed m c.num_connected_switches n k c.switch_list ∙ p.tracked.listed m h;
  };
  room = omega (arith, p.room, length-freed n k c.switch_list);
  switches = λ i t low at.
      let (s, at', from_s) = entry-freed n k i c.switch_list t at in
      let before = p.switches i s low at' in
      elim from_s [
        | inl e ↦ subst (λ x. IsConnected c.network_graph.devices x) (sym e) before
        | inr e ↦
            subst (λ x. IsConnected c.network_graph.devices x) (sym e)
              (IsConnected-Kept before (free_buffers-Kept s before))
      ];
}
