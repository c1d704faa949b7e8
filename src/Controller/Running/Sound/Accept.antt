-- ===== src/Controller/Running/Sound/Accept.antt =====
-- controller.c: the buffers of the connected switches when a connection is taken in.
use mathlib.Core.Option.{some-injective}
use openflow_controller.Prelude.{
  ℕ, ◌+◌, ◌<◌, refl, sym, subst, ap, ◌∙◌, List, Option, ◌==◌, ==→eq, arith, get_elem?, set, length,
  get_elem?-set_self, get_elem?-set_ne, Bool-cases, inl, inr,
}
use openflow_controller.Memory.Fields.{extent}
use openflow_controller.Memory.Safe.{IsSafe, store_fields-IsSafe, fresh-IsSafe}
use openflow_controller.Outcome.{Gives}
use openflow_controller.Switch.{OfSwitch, u16, u32}
use openflow_controller.Packets.Requests.{write_openflow_hello}
use openflow_controller.Packets.Sound.{IsSound, busy}
use openflow_controller.Controller.{Controller}
use openflow_controller.Controller.Setup.{accepted, create_new_connection, new_switch}
use openflow_controller.Controller.Tracking.{entered, create-entered}
use openflow_controller.Controller.Tracking.Sockets.{entry}
use openflow_controller.Controller.Running.{Event, IsEnabled}
use openflow_controller.Controller.Running.Put.{ne_of_==}
use openflow_controller.Controller.Running.Sound.{AllSound}

new_switch-IsSound :
    (fd xid : ℕ) (old : OfSwitch)
    → IsSafe 3200 old.connected_ports
    → IsSound (write_openflow_hello (new_switch fd xid old))
unfolding write_openflow_hello new_switch extent
new_switch-IsSound fd xid old ports = record {
  read_safe = fresh-IsSafe 1500;
  write_safe = store_fields-IsSafe (fresh-IsSafe 1500) _ 0 (omega arith);
  ports_safe = ports;
  read_size = refl;
  write_size = refl;
  in_flight = λ _. omega arith;
  at_rest = λ e. absurd (busy e);
  awaited = λ e. absurd (busy e);
}

more-AllSound :
    (n : ℕ) (s : OfSwitch) (ss : List OfSwitch)
    → AllSound n ss
    → n < length ss
    → IsSound s
    → AllSound (n + 1) (set ss n s)
more-AllSound n s ss all inside sound i t at = elim (Bool-cases (n == i)) [
  | inl last ↦
      let it = some-injective s t (
        sym (get_elem?-set_self ss n s inside)
        ∙ ap (λ j. get_elem? (set ss n s) j) (==→eq n i last)
        ∙ at) in
      let q = subst IsSound it sound in (q.ports_safe, λ _. q)
  | inr other ↦
      let ne = ne_of_== n i other in
      let before = all i t (sym (get_elem?-set_ne ss s ne) ∙ at) in
      (before.0, λ low. before.1 (omega (arith, low, ne)))
]

pub accept-AllSound :
    (new_entry : Option OfSwitch) (fd : ℕ) (c : Controller)
    → AllSound c.num_connected_switches c.switch_list
    → IsEnabled (Event.accept new_entry fd) c
    → Gives
        (create_new_connection new_entry (accepted fd) c)
        (λ c'. AllSound c'.num_connected_switches c'.switch_list)
unfolding entered
accept-AllSound new_entry fd c all (small, hole, room, inside) =
    let (old, at) = entry c.switch_list c.num_connected_switches inside in
    rw (create-entered new_entry fd c old at hole room) (
      more-AllSound c.num_connected_switches
        (write_openflow_hello (new_switch (u16 fd) (u32 c.xid_generator) old)) c.switch_list all
        inside
        (new_switch-IsSound (u16 fd) (u32 c.xid_generator) old
          (all c.num_connected_switches old at).0))
