-- ===== src/Controller/Running/Safety.antt =====
-- What holds of the controller after any sequence of events that the environment may cause.
use mathlib.Core.Option.{some-injective}
use openflow_controller.Prelude.{
  ℕ, ◌+◌, ◌<◌, ◌≡◌, inl, inr, refl, sym, subst, ap, ◌∙◌, List, Option, some, Bool, true, false,
  ◌==◌, ==→eq, arith, get_elem?, set, length, length-set, get_elem?-set_self, get_elem?-set_ne,
  Bool-cases, if◌then◌else◌,
}
use openflow_controller.Memory.{Bytes}
use openflow_controller.Memory.Words.{AreBytes}
use openflow_controller.Outcome.{Outcome, done, ◌>>=◌, Gives, Gives-bind, Gives-done}
use openflow_controller.Switch.{OfSwitch}
use openflow_controller.Transfer.{Received}
use openflow_controller.Transfer.Kept.{Kept}
use openflow_controller.Network.{Devices}
use openflow_controller.Network.Marks.{known}
use openflow_controller.Controller.{Controller, switch_at, put_switch}
use openflow_controller.Controller.Links.{switch_at-some}
use openflow_controller.Controller.Read.{receive, dispatch, reset_read, handle_read_socket}
use openflow_controller.Controller.Read.Kept.{receive-Kept, reset_read-Kept}
use openflow_controller.Controller.Tracking.{create_new_connection-IsTracked}
use openflow_controller.Controller.Tracking.Sockets.{entry}
use openflow_controller.Controller.Running.{
  Event, handle, IsBenign, IsEnabled, IsConnected, AllConnected, IsRunning, Runs,
}
use openflow_controller.Controller.Running.Put.{put-IsRunning, ne_of_==}
use openflow_controller.Controller.Running.Dispatch.{dispatch-Runs}

-- A new entry behind the connected ones.
more-AllConnected :
    (ds ds' : Devices) (fd n : ℕ) (s : OfSwitch) (ss : List OfSwitch)
    → AllConnected ds n ss
    → n < length ss
    → fd < 256
    → s.socket_fd ≡ fd
    → AreBytes s.read_buffer.byte
    → ((m : ℕ) → known m ds' ≡ (if fd == m then true else known m ds))
    → AllConnected ds' (n + 1) (set ss n s)
more-AllConnected ds ds' fd n s ss all inside small same bytes grown i t low at =
    elim (Bool-cases (n == i)) [
      | inl last ↦
          let e : n ≡ i = ==→eq n i last in
          let it : s ≡ t =
            some-injective s t (
              sym (get_elem?-set_self ss n s inside) ∙ ap (λ j. get_elem? (set ss n s) j) e ∙ at) in
          subst (λ x. IsConnected ds' x) it
            (record {
              device = grown s.socket_fd ∙ self (s.socket_fd) same;
              small = omega (arith, same, small);
              bytes = bytes;
            })
      | inr front ↦
          let before =
            all i t (omega (arith, ne_of_== n i front, low))
              (sym (get_elem?-set_ne ss s (ne_of_== n i front)) ∙ at) in
          record {
            device = grown t.socket_fd ∙ rest t.socket_fd before.device;
            small = before.small;
            bytes = before.bytes;
          }
    ]
  where
    self : (m : ℕ) → m ≡ fd → (if fd == m then true else known m ds) ≡ true
    self m e = ground arith

    rest : (m : ℕ) → known m ds ≡ true → (if fd == m then true else known m ds) ≡ true
    rest m e = ground arith

pub accept-IsRunning :
    (new_entry : Option OfSwitch) (fd : ℕ) (c : Controller)
    → IsRunning c
    → IsEnabled (Event.accept new_entry fd) c
    → Gives (handle (Event.accept new_entry fd) c) (λ c'. IsRunning c')
unfolding handle
accept-IsRunning new_entry fd c p (small, hole, room, inside) =
    let (c', e, tracked, num, grown, added) =
      create_new_connection-IsTracked new_entry fd c p.tracked small hole room inside in
    let (s, list, same, bytes) = added in
    rw e (record {
      tracked = tracked;
      room = omega (
        arith,
        num,
        inside,
        ap (λ x. length x) list,
        length-set c.switch_list c.num_connected_switches s,
      );
      switches = λ i t low at.
          more-AllConnected c.network_graph.devices c'.network_graph.devices fd
            c.num_connected_switches s c.switch_list p.switches inside small same bytes grown i t
            (omega (arith, num, low)) (ap (λ x. get_elem? x i) (sym list) ∙ at);
    })

-- What follows the dispatch.
unfoldable pub settle : ℕ → Controller → Outcome Controller
settle k c = do s ← switch_at k c.switch_list; done (put_switch k (reset_read s) c)

settle-Runs : (n k : ℕ) (c : Controller) → k < n → Runs n c → Gives (settle k c) (λ c'. Runs n c')
unfolding settle
settle-Runs n k c inside p =
    let (s, at) = entry c.switch_list k (omega (arith, p.running.room, p.count, inside)) in
    rw (switch_at-some k s c.switch_list at) (record {
      running =
          put-IsRunning c k s (reset_read s) p.running at
            (reset_read-Kept s (p.running.switches k s (omega (arith, p.count, inside)) at).bytes);
      count = p.count;
    })

-- What follows the receipt.
unfoldable pub framed : ℕ → Controller → OfSwitch × Bool → Outcome Controller
framed k c (s, whole) =
    if whole then dispatch k s (put_switch k s c) >>= settle k else done (put_switch k s c)

framed-Runs :
    (k : ℕ) (c : Controller) (s t : OfSwitch) (whole : Bool)
    → IsRunning c
    → k < c.num_connected_switches
    → get_elem? c.switch_list k ≡ some s
    → Kept s t
    → (whole ≡ true → IsBenign c k t)
    → Gives (framed k c (t, whole)) (λ c'. Runs c.num_connected_switches c')
unfolding framed
framed-Runs k c s t false p inside at kept benign = record {
  running = put-IsRunning c k s t p at kept;
  count = refl;
}
framed-Runs k c s t true p inside at kept benign =
    let c₁ = put_switch k t c in
    let b = benign refl in
    Gives-bind (λ c'. Runs c.num_connected_switches c') (λ c'. Runs c.num_connected_switches c')
      (dispatch k t c₁) (settle k)
      (dispatch-Runs k t c₁ (put-IsRunning c k s t p at kept) inside
        (get_elem?-set_self c.switch_list k t (omega (arith, p.room, inside)))
        (record {
          heard = b.heard;
          understood = λ h. omega (arith, b.understood h, length-set c.switch_list k t);
        }))
      (λ c' runs. settle-Runs c.num_connected_switches k c' inside runs)

pub read-Runs :
    (junk : Bytes) (answer : Received) (k : ℕ) (c : Controller)
    → IsRunning c
    → IsEnabled (Event.read junk answer k) c
    → Gives (handle (Event.read junk answer k) c) (λ c'. Runs c.num_connected_switches c')
unfolding handle handle_read_socket framed settle
read-Runs junk answer k c p (hj, inside, benign) =
    let (s, at) = entry c.switch_list k (omega (arith, p.room, inside)) in
    let ((t, whole), e, kept) =
      Gives-done (λ r. Kept s r.0) (receive (some junk) answer s)
        (receive-Kept junk answer s hj (p.switches k s inside at).bytes) in
    rw (switch_at-some k s c.switch_list at, e)
      (framed-Runs k c s t whole p inside at kept
        (λ yes. benign s t at (e ∙ ap (λ b. done (t, b)) yes)))
