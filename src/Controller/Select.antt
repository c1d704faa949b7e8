-- ===== src/Controller/Select.antt =====
-- controller.c: the descriptor sets and the loop around `select`.
pub mod Sets
use openflow_controller.Prelude.{
  ℕ, zero, suc, ◌+◌, List, [], ◌∷◌, Option, Bool, false, ◌||◌, ◌==◌, if◌then◌else◌,
}
use openflow_controller.Memory.{Bytes}
use openflow_controller.Switch.{OfSwitch, RwStatus}
use openflow_controller.Outcome.{Outcome, done, ◌>>=◌}
use openflow_controller.Transfer.{Sent, Received}
use openflow_controller.Controller.{Controller, switch_at, put_switch}
use openflow_controller.Controller.Setup.{Accepted, create_new_connection, initialize_controller}
use openflow_controller.Controller.Read.{handle_read_socket}
use openflow_controller.Controller.Write.{handle_write_socket}

-- A descriptor set is the list of its members.
abbrev pub is_set : ℕ → List ℕ → Bool
is_set fd [] = false
is_set fd (x ∷ xs) = (x == fd) || is_set fd xs

-- The descriptors of the entries that are to be read, and of those to be written. The loop goes over
-- all `max_connected_switches` entries, connected or not.
pub readers : List OfSwitch → List ℕ
readers [] = []
readers (s ∷ ss) =
    let rest = readers ss in elim s.rw [ RwStatus.read ↦ s.socket_fd ∷ rest | _ ↦ rest ]

pub writers : List OfSwitch → List ℕ
writers [] = []
writers (s ∷ ss) =
    let rest = writers ss in elim s.rw [ RwStatus.write ↦ s.socket_fd ∷ rest | _ ↦ rest ]

unfoldable pub remake_select_sets : Controller → Controller
unfolding readers writers
remake_select_sets c = record c {
  read_sockets = c.listening_socket_fd ∷ readers c.switch_list;
  write_sockets = writers c.switch_list;
  error_sockets = c.listening_socket_fd ∷ [];
}

-- What the system answers in a round: to `accept`, and for each entry to `recv` and `send`, with what
-- `realloc` leaves.
pub record Answers : Type 0 where
  pub accept : Accepted
  pub new_entry : Option OfSwitch
  pub junk : Option Bytes
  pub recv : ℕ → Received
  pub send : ℕ → Sent

-- The call for entry `k`, with the bytes that go out.
unfoldable pub handle_socket : Answers → ℕ → Controller → Outcome (Controller × List ℕ)
unfolding switch_at
handle_socket a k c = do
  s ← switch_at k c.switch_list
  elim s.rw [
    | RwStatus.disconnected ↦ done (c, [])
    | _ ↦
        if is_set s.socket_fd c.read_sockets
        then (handle_read_socket a.junk (a.recv k) k c >>= λ c'. done (c', []))
        else if is_set s.socket_fd c.write_sockets
        then (handle_write_socket a.junk (a.send k) s >>= λ r. done (put_switch k r.0 c, r.1))
        else done (c, [])
  ]

-- The loop over the connected switches from entry `k` on, `n` of them.
unfoldable pub handle_from : Answers → ℕ → ℕ → Controller → Outcome Controller
unfolding handle_socket
handle_from a zero k c = done c
handle_from a (suc n) k c = handle_socket a k c >>= λ r. handle_from a n (k + 1) r.0

unfoldable pub accept_waiting : Answers → Controller → Outcome Controller
accept_waiting a c =
    if is_set c.listening_socket_fd c.read_sockets
    then create_new_connection a.new_entry a.accept c
    else done c

-- A connection that is accepted counts in the loop behind it.
unfoldable pub handle_all_sockets : Answers → Controller → Outcome Controller
unfolding handle_from accept_waiting
handle_all_sockets a c = do c' ← accept_waiting a c; handle_from a c'.num_connected_switches 0 c'

-- The answer of `select`: -1, no descriptor, or the sets that it leaves.
pub data Selected : Type 0 where
  select_failed timed_out : Selected
  selected : (read_set write_set error_set : List ℕ) → Answers → Selected

-- The sets behind `select`.
abbrev pub polled : (read_set write_set error_set : List ℕ) → Controller → Controller
polled read_set write_set error_set c = record c {
  read_sockets = read_set;
  write_sockets = write_set;
  error_sockets = error_set;
}

-- A round of the loop.
unfoldable pub select_round : Selected → Controller → Outcome Controller
unfolding handle_all_sockets remake_select_sets
select_round select_failed c = done (remake_select_sets c)
select_round timed_out c = done (remake_select_sets c)
select_round (selected read_set write_set error_set a) c =
    handle_all_sockets a (polled read_set write_set error_set (remake_select_sets c))

-- The controller as `main` leaves it ahead of the loop: SIGINT may have come, and descriptors may be closed.
abbrev pub at_loop : (listening_socket_fd : ℕ) (sigint : Bool) (closed : List ℕ) → Controller
at_loop listening_socket_fd sigint closed = record (initialize_controller listening_socket_fd) {
  interrupt = sigint;
  closed = closed;
}

-- The rounds until the interrupt: one answer and whether SIGINT came during each.
unfoldable pub select_loop : List (Selected × Bool) → Controller → Outcome Controller
select_loop [] c = done c
select_loop ((answer, sigint) ∷ rest) c =
    let next = select_round answer c >>= λ c'.
    select_loop rest (record c' { interrupt = c'.interrupt || sigint }) in
    if c.interrupt then done c else next
