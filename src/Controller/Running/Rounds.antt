-- ===== src/Controller/Running/Rounds.antt =====
-- controller.c: the rounds of `select_loop`, from `initialize_controller` on.
use openflow_controller.Prelude.{
  ℕ, ◌<◌, ◌≡◌, refl, List, [], some, true, arith, get_elem?, Bool-cases, inl, inr, if◌then◌else◌,
}
use openflow_controller.Memory.{Bytes}
use openflow_controller.Memory.Words.{AreBytes}
use openflow_controller.Outcome.{Outcome, done, ◌>>=◌, Gives, Gives-bind}
use openflow_controller.Switch.{OfSwitch, RwStatus}
use openflow_controller.Transfer.Kept.{Kept}
use openflow_controller.Controller.{Controller, put_switch}
use openflow_controller.Controller.Links.{switch_at-some}
use openflow_controller.Controller.Read.{handle_read_socket}
use openflow_controller.Controller.Write.{handle_write_socket}
use openflow_controller.Controller.Write.Kept.{handle_write_socket-Kept}
use openflow_controller.Controller.Tracking.Sockets.{entry}
use openflow_controller.Controller.Select.{
  is_set, remake_select_sets, Answers, handle_socket, polled,
}
use openflow_controller.Controller.Running.{handle, IsUnderstood, IsRunning, Runs}
use openflow_controller.Controller.Running.Put.{put-IsRunning}
use openflow_controller.Controller.Running.Safety.{read-Runs}

-- A controller with other sets.
pub polled-IsRunning :
    (r w e : List ℕ) (c : Controller)
    → IsRunning c
    → IsRunning (polled r w e (remake_select_sets c))
unfolding remake_select_sets
polled-IsRunning r w e c p = record {
  tracked = record {
    graph = p.tracked.graph;
    compact = p.tracked.compact;
    listed = p.tracked.listed;
  };
  room = p.room;
  switches = p.switches;
}

-- The call for an entry that is not disconnected.
unfoldable pub read_or_written : Answers → ℕ → Controller → OfSwitch → Outcome (Controller × List ℕ)
read_or_written a k c s =
    if is_set s.socket_fd c.read_sockets
    then (handle_read_socket a.junk (a.recv k) k c >>= λ c'. done (c', []))
    else if is_set s.socket_fd c.write_sockets
    then (handle_write_socket a.junk (a.send k) s >>= λ r. done (put_switch k r.0 c, r.1))
    else done (c, [])

unfoldable pub turn : RwStatus → Answers → ℕ → Controller → OfSwitch → Outcome (Controller × List ℕ)
turn rw a k c s = elim rw [ RwStatus.disconnected ↦ done (c, []) | _ ↦ read_or_written a k c s ]

turn-Runs :
    (rw : RwStatus) (n : ℕ) (a : Answers) (k : ℕ) (c : Controller) (s : OfSwitch)
    → Runs n c
    → Gives (read_or_written a k c s) (λ r. Runs n r.0)
    → Gives (turn rw a k c s) (λ r. Runs n r.0)
unfolding turn
turn-Runs RwStatus.read n a k c s idle served = served
turn-Runs RwStatus.write n a k c s idle served = served
turn-Runs RwStatus.disconnected n a k c s idle served = idle

module _ (a : Answers) (junk : Bytes) (memory : a.junk ≡ some junk) (bytes : AreBytes junk) where
  read_or_written-Runs :
      (k : ℕ) (c : Controller) (s : OfSwitch)
      → IsRunning c
      → k < c.num_connected_switches
      → get_elem? c.switch_list k ≡ some s
      → (is_set s.socket_fd c.read_sockets ≡ true → IsUnderstood junk (a.recv k) k c)
      → Gives (read_or_written a k c s) (λ r. Runs c.num_connected_switches r.0)
  unfolding read_or_written handle
  read_or_written-Runs k c s p inside at benign =
      elim (Bool-cases (is_set s.socket_fd c.read_sockets)) [
        | inl read ↦
            rw (read, memory)
              (Gives-bind (λ c'. Runs c.num_connected_switches c')
                (λ r. Runs c.num_connected_switches r.0)
                (handle_read_socket (some junk) (a.recv k) k c) (λ c'. done (c', []))
                (reading (benign read)) (λ c' q. q))
        | inr not_read ↦ elim (Bool-cases (is_set s.socket_fd c.write_sockets)) [
          | inl write ↦
              rw (not_read, write, memory)
                (Gives-bind (λ r. Kept s r.0) (λ r. Runs c.num_connected_switches r.0)
                  (handle_write_socket (some junk) (a.send k) s)
                  (λ r. done (put_switch k r.0 c, r.1))
                  (handle_write_socket-Kept junk (a.send k) s (p.switches k s inside at).bytes)
                  (λ r kept. record { running = put-IsRunning c k s r.0 p at kept; count = refl }))
          | inr neither ↦ rw (not_read, neither) (record { running = p; count = refl })
        ]
      ]
    where
      reading :
          IsUnderstood junk (a.recv k) k c
          → Gives
              (handle_read_socket (some junk) (a.recv k) k c)
              (λ c'. Runs c.num_connected_switches c')
      reading understood = read-Runs junk (a.recv k) k c p (bytes, inside, understood)

  pub handle_socket-Runs :
      (k : ℕ) (c : Controller)
      → IsRunning c
      → k < c.num_connected_switches
      → ((s : OfSwitch)
          → get_elem? c.switch_list k ≡ some s
          → is_set s.socket_fd c.read_sockets ≡ true
          → IsUnderstood junk (a.recv k) k c)
      → Gives (handle_socket a k c) (λ r. Runs c.num_connected_switches r.0)
  unfolding handle_socket read_or_written turn
  handle_socket-Runs k c p inside benign =
      let (s, at) = entry c.switch_list k (omega (arith, p.room, inside)) in
      rw (switch_at-some k s c.switch_list at) (
        turn-Runs s.rw c.num_connected_switches a k c s (record { running = p; count = refl })
          (read_or_written-Runs k c s p inside at (benign s at)))
