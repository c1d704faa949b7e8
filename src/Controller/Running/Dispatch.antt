-- ===== src/Controller/Running/Dispatch.antt =====
-- The dispatch of a message by a running controller.
use openflow_controller.Prelude.{
  ℕ, ◌+◌, ◌<◌, ◌≤◌, ◌≡◌, refl, sym, subst, ap, ◌∙◌, List, Option, none, some, true, false, ◌==◌,
  ==→eq, arith, get_elem?, set, length, length-set, Bool-cases, ◌⊎◌, inl, inr,
}
use openflow_controller.Memory.Words.{AreBytes}
use openflow_controller.Outcome.{done, ◌>>=◌, Gives, Gives-bind}
use openflow_controller.Switch.{OfSwitch, RwStatus, u8}
use openflow_controller.Transfer.Kept.{Kept}
use openflow_controller.Network.{Devices}
use openflow_controller.Network.Marks.{known, known-index_of}
use openflow_controller.Packets.Echo.{make_echo_reply}
use openflow_controller.Packets.Requests.{read_openflow_hello, read_features}
use openflow_controller.Packets.PacketOut.{send_probe_packet}
use openflow_controller.Packets.PacketIn.{read_packet_in}
use openflow_controller.Packets.PacketIn.Kept.{Links, read_packet_in-Kept}
use openflow_controller.Packets.PortMod.{change_port_behavior}
use openflow_controller.Packets.Ports.{handle_multipart_reply}
use openflow_controller.Packets.Ports.Kept.{handle_multipart_reply-Kept}
use openflow_controller.Controller.{Controller, put_switch, free_switch_buffers, add_connection}
use openflow_controller.Controller.EchoExchange.Parts.{byte-make_echo_reply}
use openflow_controller.Controller.Tracking.{add_connection-after}
use openflow_controller.Controller.Read.{dispatch, link, close_fd, read_port_change}
use openflow_controller.Controller.Read.Failure.{free_from_lem}
use openflow_controller.Controller.Running.{IsConnected, AllConnected, IsRunning, IsBenign, Runs}
use openflow_controller.Controller.Running.Put.{set-AllConnected, put-IsRunning, freed-IsRunning}

reply-Kept : (s : OfSwitch) → AreBytes s.read_buffer.byte → Kept s (make_echo_reply s)
unfolding make_echo_reply
reply-Kept s h = record { same_fd = refl; bytes = subst AreBytes (sym (byte-make_echo_reply s)) h }

probe-Kept :
    (s : OfSwitch) → AreBytes s.read_buffer.byte → Kept s (send_probe_packet (read_features s))
unfolding send_probe_packet read_features
probe-Kept s h = record { same_fd = refl; bytes = h }

blocked-Kept :
    (s : OfSwitch) (port : ℕ)
    → AreBytes s.read_buffer.byte
    → Kept s (change_port_behavior s port false)
unfolding change_port_behavior
blocked-Kept s port h = record { same_fd = refl; bytes = h }

-- What `add_connection` leaves of the switches.
after-AllConnected :
    (ds : Devices) (n port : ℕ) (ss ss' : List OfSwitch)
    → AllConnected ds n ss
    → (ss' ≡ ss)
      ⊎ ((i : ℕ) × (s : OfSwitch) × (get_elem? ss i ≡ some s)
          × (ss' ≡ set ss i (change_port_behavior s port false)))
    → AllConnected ds n ss' × (length ss' ≡ length ss)
after-AllConnected ds n port ss ss' all (inl same) =
    (subst (λ x. AllConnected ds n x) (sym same) all, ap (λ x. length x) same)
after-AllConnected ds n port ss ss' all (inr (i, s, at, one)) = (
  subst (λ x. AllConnected ds n x) (sym one)
      (set-AllConnected ds n i s (change_port_behavior s port false) ss all at
        (λ q. blocked-Kept s port q.bytes)),
  ap (λ x. length x) one ∙ length-set ss i (change_port_behavior s port false),
)

IsConnected-known :
    (ds ds' : Devices)
    → ((n : ℕ) → known n ds' ≡ known n ds)
    → (s : OfSwitch) → IsConnected ds s
    → IsConnected ds' s
IsConnected-known ds ds' same s p = record {
  device = same s.socket_fd ∙ p.device;
  small = p.small;
  bytes = p.bytes;
}

add_connection-Runs :
    (dest src p q : ℕ) (c : Controller)
    → IsRunning c
    → known (u8 dest) c.network_graph.devices ≡ true
    → known (u8 src) c.network_graph.devices ≡ true
    → Gives (add_connection dest src p q c) (λ c'. Runs c.num_connected_switches c')
add_connection-Runs dest src p q c r kd ks =
    let (c', e, tracked, num, same, ss) = add_connection-after dest src p q c r.tracked kd ks in
    let (all, size) =
      after-AllConnected c.network_graph.devices c.num_connected_switches q c.switch_list
        c'.switch_list r.switches ss in
    rw e (record {
      running = record {
        tracked = tracked;
        room = omega (arith, num, size, r.room);
        switches = λ i s low at.
            IsConnected-known c.network_graph.devices c'.network_graph.devices same s
              (all i s (omega (arith, num, low)) at);
      };
      count = num;
    })

module _ (k : ℕ) (s : OfSwitch) (c : Controller) (p : IsRunning c)
    (inside : k < c.num_connected_switches) (at : get_elem? c.switch_list k ≡ some s) where
  connected : IsConnected c.network_graph.devices s
  connected = p.switches k s inside at

  put-Runs : (t : OfSwitch) → Kept s t → Runs c.num_connected_switches (put_switch k t c)
  put-Runs t kept = record { running = put-IsRunning c k s t p at kept; count = refl }

  closed-Runs : (o : Option ℕ) → Runs c.num_connected_switches (close_fd k s c o)
  unfolding close_fd
  closed-Runs none = record { running = p; count = refl }
  closed-Runs (some fd) = record {
    running = record {
      tracked = record {
        graph = p.tracked.graph;
        compact = p.tracked.compact;
        listed = p.tracked.listed;
      };
      room = p.room;
      switches = p.switches;
    };
    count = refl;
  }

  freed-Runs :
      k + c.num_connected_switches ≤ length c.switch_list
      → Gives
          (free_switch_buffers k (put_switch k (record s { rw = RwStatus.disconnected }) c))
          (λ c'. Runs c.num_connected_switches c')
  unfolding free_switch_buffers
  freed-Runs room =
      let failed : OfSwitch = record s { rw = RwStatus.disconnected } in
      let p' =
        put-IsRunning c k s failed p at (record { same_fd = refl; bytes = connected.bytes }) in
      rw
        (free_from_lem c.num_connected_switches k (set c.switch_list k failed)
          (omega (arith, length-set c.switch_list k failed)))
        (record {
          running = freed-IsRunning c.num_connected_switches k (put_switch k failed c) p';
          count = refl;
        })

  port_change-Runs :
      Gives
        (read_port_change s c.network_graph >>= λ s'. done (put_switch k s' c))
        (λ c'. Runs c.num_connected_switches c')
  unfolding read_port_change
  port_change-Runs =
      let (i, d, found, _, _) =
        known-index_of s.socket_fd c.network_graph.devices connected.device in
      rw found (put-Runs s (record { same_fd = refl; bytes = connected.bytes }))

  -- what `add_connection` leaves of the switches
  link-Runs :
      (s' : OfSwitch) (port nextdoor_fd : ℕ)
      → Kept s s'
      → known (u8 nextdoor_fd) c.network_graph.devices ≡ true
      → Gives (link k s c (s', some (nextdoor_fd, port))) (λ c'. Runs c.num_connected_switches c')
  unfolding link
  link-Runs s' port nextdoor_fd kept heard =
      let c' = put_switch k s' c in
      add_connection-Runs s'.socket_fd nextdoor_fd 0 port c' (put-IsRunning c k s s' p at kept)
        (subst (λ n. known n c.network_graph.devices ≡ true) fd connected.device) heard
    where
      fd : s.socket_fd ≡ u8 s'.socket_fd
      fd = omega (arith, kept.same_fd, connected.small)

  linked-Runs :
      (o : Option (ℕ × ℕ)) (s' : OfSwitch)
      → s.of_status ≡ 10
      → IsBenign c k s
      → Kept s s'
      → Links s o
      → Gives (link k s c (s', o)) (λ c'. Runs c.num_connected_switches c')
  unfolding link
  linked-Runs none s' type benign kept links = put-Runs s' kept
  linked-Runs (some (nextdoor_fd, port)) s' type benign kept links =
      link-Runs s' port nextdoor_fd kept (
        ap (λ n. known (u8 n) c.network_graph.devices) links.found
        ∙ benign.heard type links.missed (ap (λ n. n == 0) (sym links.found) ∙ links.shown))

  packet_in-Runs :
      s.of_status ≡ 10
      → IsBenign c k s
      → Gives (read_packet_in s >>= link k s c) (λ c'. Runs c.num_connected_switches c')
  packet_in-Runs type benign =
      Gives-bind (λ r. Kept s r.0 × Links s r.1) (λ c'. Runs c.num_connected_switches c')
        (read_packet_in s) (link k s c) (read_packet_in-Kept s connected.bytes)
        (λ r kept. linked-Runs r.1 r.0 type benign kept.0 kept.1)

  pub dispatch-Runs :
      IsBenign c k s → Gives (dispatch k s c) (λ c'. Runs c.num_connected_switches c')
  unfolding dispatch
  dispatch-Runs benign = elim (Bool-cases (s.of_status == 2)) [
    | inl echo ↦ rw echo (put-Runs (make_echo_reply s) (reply-Kept s connected.bytes))
    | inr a ↦ elim (Bool-cases (s.of_status == 0)) [
      | inl hello ↦ rw (a, hello) (closed-Runs (read_openflow_hello s))
      | inr b ↦ elim (Bool-cases (s.of_status == 6)) [
        | inl features ↦
            rw (a, b, features)
              (put-Runs (send_probe_packet (read_features s)) (probe-Kept s connected.bytes))
        | inr d ↦ elim (Bool-cases (s.of_status == 10)) [
          | inl packet_in ↦
              rw (a, b, d, packet_in) (packet_in-Runs (==→eq s.of_status 10 packet_in) benign)
          | inr e ↦ elim (Bool-cases (s.of_status == 19)) [
            | inl multipart ↦
                rw (a, b, d, e, multipart)
                  (put-Runs (handle_multipart_reply s)
                    (handle_multipart_reply-Kept s connected.bytes))
            | inr f ↦ elim (Bool-cases (s.of_status == 12)) [
              | inl status ↦ rw (a, b, d, e, f, status) port_change-Runs
              | inr g ↦ elim (Bool-cases (s.of_status == 11)) [
                | inl removed ↦
                    rw (a, b, d, e, f, g, removed) (record { running = p; count = refl })
                | inr h ↦
                    rw (a, b, d, e, f, g, h)
                      (freed-Runs (benign.understood (rw (a, b, d, e, f, g, h) refl)))
              ]
            ]
          ]
        ]
      ]
    ]
  ]
