-- ===== src/Controller/Running/Sound.antt =====
-- controller.c: the buffers of the connected switches while a message is dispatched.
pub mod Reads
pub mod Sockets
pub mod Accept
pub mod Rounds
use mathlib.Core.Option.{some-injective}
use openflow_controller.Prelude.{
  ℕ, ◌+◌, ◌<◌, ◌≤◌, ◌≡◌, ◌≢◌, refl, sym, subst, ap, ◌∙◌, List, Option, none, some, true, false,
  ◌==◌, ==→eq, arith, get_elem?, set, length, get_elem?-set_self, get_elem?-set_ne, Bool-cases, ◌⊎◌,
  inl, inr,
}
use openflow_controller.Memory.{peek_be}
use openflow_controller.Memory.Safe.{IsSafe}
use openflow_controller.Outcome.{done, ◌>>=◌, Gives, Gives-bind, Gives-both}
use openflow_controller.Switch.{OfSwitch, RwStatus, u8}
use openflow_controller.Network.Marks.{known, known-index_of}
use openflow_controller.Transfer.Kept.{Kept}
use openflow_controller.Packets.Echo.{make_echo_reply, received_length}
use openflow_controller.Packets.Requests.{read_openflow_hello, read_features}
use openflow_controller.Packets.PacketOut.{send_probe_packet}
use openflow_controller.Packets.PacketIn.{read_packet_in}
use openflow_controller.Packets.PacketIn.Kept.{Links, read_packet_in-Kept}
use openflow_controller.Packets.PortMod.{change_port_behavior}
use openflow_controller.Packets.Ports.{handle_multipart_reply, port_count}
use openflow_controller.Packets.Sound.{
  IsSound, make_echo_reply-IsSound, send_probe_packet-IsSound, change_port_behavior-IsSound,
  change_port_behavior-ports,
}
use openflow_controller.Packets.Sound.Ports.{AreListed, handle_multipart_reply-IsSound}
use openflow_controller.Packets.Sound.Heard.{IsHeard, HasEntry, read_packet_in-IsSound}
use openflow_controller.Controller.{Controller, put_switch, add_connection}
use openflow_controller.Controller.Tracking.{add_connection-after}
use openflow_controller.Controller.Read.{dispatch, link, close_fd, read_port_change}
use openflow_controller.Controller.Read.Failure.{is_known}
use openflow_controller.Controller.Running.{IsConnected, IsRunning, IsBenign}
use openflow_controller.Controller.Running.Put.{put-IsRunning, ne_of_==, lt_of_get_elem?}

-- The first `n` switches of the list have sound buffers, and all entries have their table of ports.
abbrev pub AllSound : ℕ → List OfSwitch → Type 0
AllSound n ss =
    (i : ℕ) (s : OfSwitch)
    → get_elem? ss i ≡ some s
    → IsSafe 3200 s.connected_ports × (i < n → IsSound s)

-- A whole message of a known type, which is as long as its type wants and not longer than the buffers, and names only ports
-- that the table has entries for.
pub record IsFit (s : OfSwitch) : Type 0 where
  pub understood : is_known s.of_status ≡ true
  pub echoed : s.of_status ≡ 2 → (8 ≤ received_length s) × (received_length s ≤ 1500)
  pub heard : s.of_status ≡ 10 → peek_be 1 14 s.read_buffer.byte ≡ 0 → IsHeard s
  pub counted :
      s.of_status ≡ 19
      → peek_be 2 8 s.read_buffer.byte ≡ 4
      → (16 ≤ received_length s) × (received_length s ≤ 1500)
  pub described :
      s.of_status ≡ 19
      → peek_be 2 8 s.read_buffer.byte ≡ 13
      → (16 ≤ received_length s)
        × (received_length s ≤ 1500)
        × AreListed s.read_buffer.byte (port_count (received_length s)) 16

-- While a packet-in message of entry `k` is handled, no other connected switch has sent a part of a message.
abbrev pub IsCalm : ℕ → Controller → OfSwitch → Type 0
IsCalm k c s =
    s.of_status ≡ 10
    → (i : ℕ) (u : OfSwitch) → i < c.num_connected_switches
    → i ≢ k
    → get_elem? c.switch_list i ≡ some u
    → u.bytes_written ≡ 0

pub put-IsCalm :
    (k : ℕ) (s : OfSwitch) (c : Controller) → IsCalm k c s → IsCalm k (put_switch k s c) s
put-IsCalm k s c calm type i u inside ne at =
    calm type i u inside ne (sym (get_elem?-set_ne c.switch_list s (λ e. ne (sym e))) ∙ at)

pub set-AllSound :
    (n k : ℕ) (t : OfSwitch) (ss : List OfSwitch)
    → AllSound n ss
    → k < length ss
    → IsSafe 3200 t.connected_ports × (k < n → IsSound t)
    → AllSound n (set ss k t)
set-AllSound n k t ss all inside sound i s at = elim (Bool-cases (k == i)) [
  | inl same ↦
      let e : k ≡ i = ==→eq k i same in
      let it : some t ≡ some s =
        sym (get_elem?-set_self ss k t inside) ∙ ap (λ j. get_elem? (set ss k t) j) e ∙ at in
      subst (λ j. IsSafe 3200 s.connected_ports × (j < n → IsSound s)) e
        (subst (λ x. IsSafe 3200 x.connected_ports × (k < n → IsSound x)) (some-injective t s it)
          sound)
  | inr other ↦ all i s (sym (get_elem?-set_ne ss t (ne_of_== k i other)) ∙ at)
]

after-AllSound :
    (n port : ℕ) (ss ss' : List OfSwitch)
    → port < 50
    → AllSound n ss
    → ((i : ℕ) (u : OfSwitch) → i < n → get_elem? ss i ≡ some u → u.bytes_written ≡ 0)
    → (ss' ≡ ss)
      ⊎ ((i : ℕ) × (s : OfSwitch) × (get_elem? ss i ≡ some s)
          × (ss' ≡ set ss i (change_port_behavior s port false)))
    → AllSound n ss'
after-AllSound n port ss ss' low all rest (inl same) = subst (AllSound n) (sym same) all
after-AllSound n port ss ss' low all rest (inr (i, s, at, one)) = subst (AllSound n) (sym one) (
    set-AllSound n i (change_port_behavior s port false) ss all (lt_of_get_elem? ss i s at) (
      change_port_behavior-ports s port false low (all i s at).0,
      λ inside.
          change_port_behavior-IsSound s port false low (rest i s inside at)
            ((all i s at).1 inside),
    ))

module _ (k : ℕ) (s : OfSwitch) (c : Controller) (p : IsRunning c)
    (inside : k < c.num_connected_switches) (at : get_elem? c.switch_list k ≡ some s)
    (all : AllSound c.num_connected_switches c.switch_list) where
  connected : IsConnected c.network_graph.devices s
  connected = p.switches k s inside at

  sound : IsSound s
  sound = (all k s at).1 inside

  put-AllSound :
      (t : OfSwitch) → IsSound t → AllSound c.num_connected_switches (put_switch k t c).switch_list
  put-AllSound t good =
      set-AllSound c.num_connected_switches k t c.switch_list all (omega (arith, p.room, inside))
        (good.ports_safe, λ _. good)

  probed : s.bytes_written ≡ 0 → IsSound (send_probe_packet (read_features s))
  unfolding read_features
  probed rest = send_probe_packet-IsSound s rest sound

  closed-AllSound :
      (o : Option ℕ) → AllSound c.num_connected_switches (close_fd k s c o).switch_list
  unfolding close_fd
  closed-AllSound none = all
  closed-AllSound (some fd) = all

  port_change-AllSound :
      Gives
        (read_port_change s c.network_graph >>= λ s'. done (put_switch k s' c))
        (λ c'. AllSound c.num_connected_switches c'.switch_list)
  unfolding read_port_change
  port_change-AllSound =
      let (i, d, found, _, _) =
        known-index_of s.socket_fd c.network_graph.devices connected.device in
      rw found (put-AllSound s sound)

  link-AllSound :
      (o : Option (ℕ × ℕ)) (s' : OfSwitch)
      → s.of_status ≡ 10
      → IsBenign c k s
      → Kept s s'
      → Links s o
      → IsSound s'
      → HasEntry o
      → s'.bytes_written ≡ 0
      → IsCalm k c s
      → Gives (link k s c (s', o)) (λ c'. AllSound c.num_connected_switches c'.switch_list)
  unfolding link
  link-AllSound none s' type benign kept links good low rest calm = put-AllSound s' good
  link-AllSound (some (nextdoor_fd, port)) s' type benign kept links good low rest calm =
      let (c', e, _, _, _, after) =
        add_connection-after s'.socket_fd nextdoor_fd 0 port (put_switch k s' c)
          (put-IsRunning c k s s' p at kept).tracked
          (subst (λ n. known n c.network_graph.devices ≡ true) fd connected.device)
          (ap (λ n. known (u8 n) c.network_graph.devices) links.found
            ∙ benign.heard type links.missed (ap (λ n. n == 0) (sym links.found) ∙ links.shown)) in
      rw e (
        after-AllSound c.num_connected_switches port (put_switch k s' c).switch_list c'.switch_list
          low (put-AllSound s' good) (at_rest) after)
    where
      at_rest :
          (i : ℕ) (u : OfSwitch)
          → i < c.num_connected_switches
          → get_elem? (set c.switch_list k s') i ≡ some u
          → u.bytes_written ≡ 0
      at_rest i u below found = elim (Bool-cases (k == i)) [
        | inl same ↦
            let it = some-injective s' u (
              sym (get_elem?-set_self c.switch_list k s' (omega (arith, p.room, inside)))
              ∙ ap (λ j. get_elem? (set c.switch_list k s') j) (==→eq k i same)
              ∙ found) in
            subst (λ x. x.bytes_written ≡ 0) it rest
        | inr other ↦
            let ne = ne_of_== k i other in
            calm type i u below (λ e. ne (sym e))
              (sym (get_elem?-set_ne c.switch_list s' ne) ∙ found)
      ]

      fd : s.socket_fd ≡ u8 s'.socket_fd
      fd = omega (arith, kept.same_fd, connected.small)

  packet_in-AllSound :
      s.of_status ≡ 10
      → IsBenign c k s
      → s.bytes_expected ≡ 0
      → s.bytes_written ≡ 0
      → IsFit s
      → IsCalm k c s
      → Gives
          (read_packet_in s >>= link k s c)
          (λ c'. AllSound c.num_connected_switches c'.switch_list)
  packet_in-AllSound type benign idle rest fit calm =
      Gives-bind
        (λ r. (Kept s r.0 × Links s r.1) × (IsSound r.0 × (HasEntry r.1 × (r.0.bytes_written ≡ 0))))
        (λ c'. AllSound c.num_connected_switches c'.switch_list) (read_packet_in s) (link k s c)
        (Gives-both (λ r. Kept s r.0 × Links s r.1)
          (λ r. IsSound r.0 × (HasEntry r.1 × (r.0.bytes_written ≡ 0))) (read_packet_in s)
          (read_packet_in-Kept s connected.bytes)
          (read_packet_in-IsSound s connected.bytes idle rest (fit.heard type) sound))
        (λ r h. link-AllSound r.1 r.0 type benign h.0.0 h.0.1 h.1.0 h.1.1.0 h.1.1.1 calm)

  -- The dispatch of a fit message, whatever its type.
  pub dispatch-AllSound :
      IsBenign c k s
      → s.bytes_expected ≡ 0
      → s.bytes_written ≡ 0
      → IsFit s
      → IsCalm k c s
      → Gives (dispatch k s c) (λ c'. AllSound c.num_connected_switches c'.switch_list)
  unfolding dispatch
  dispatch-AllSound benign idle rest fit calm = elim (Bool-cases (s.of_status == 2)) [
    | inl echo ↦
        let (low, high) = fit.echoed (==→eq s.of_status 2 echo) in
        rw echo (put-AllSound (make_echo_reply s) (make_echo_reply-IsSound s low high rest sound))
    | inr a ↦ elim (Bool-cases (s.of_status == 0)) [
      | inl hello ↦ rw (a, hello) (closed-AllSound (read_openflow_hello s))
      | inr b ↦ elim (Bool-cases (s.of_status == 6)) [
        | inl features ↦
            rw (a, b, features) (put-AllSound (send_probe_packet (read_features s)) (probed rest))
        | inr d ↦ elim (Bool-cases (s.of_status == 10)) [
          | inl packet_in ↦
              rw (a, b, d, packet_in)
                (packet_in-AllSound (==→eq s.of_status 10 packet_in) benign idle rest fit calm)
          | inr e ↦ elim (Bool-cases (s.of_status == 19)) [
            | inl multipart ↦
                rw (a, b, d, e, multipart)
                  (put-AllSound (handle_multipart_reply s) (
                    handle_multipart_reply-IsSound s (fit.counted (==→eq s.of_status 19 multipart))
                      (fit.described (==→eq s.of_status 19 multipart)) sound))
            | inr f ↦ elim (Bool-cases (s.of_status == 12)) [
              | inl status ↦ rw (a, b, d, e, f, status) port_change-AllSound
              | inr g ↦ elim (Bool-cases (s.of_status == 11)) [
                | inl removed ↦ rw (a, b, d, e, f, g, removed) all
                | inr h ↦ absurd (ground (arith, fit.understood))
              ]
            ]
          ]
        ]
      ]
    ]
  ]
