-- ===== src/Controller/Running/Sound/Rounds.antt =====
-- controller.c: the buffers of the connected switches over the rounds of `select_loop`.
use openflow_controller.Prelude.{ℕ, ◌≡◌, List, [], ◌∷◌, some, Bool, true, false, ◌||◌}
use openflow_controller.Memory.{Bytes}
use openflow_controller.Memory.Words.{AreBytes}
use openflow_controller.Outcome.{done}
use openflow_controller.Controller.{Controller}
use openflow_controller.Controller.Setup.{accepted}
use openflow_controller.Controller.Select.{
  is_set, Answers, accept_waiting, Selected, select_failed, timed_out, selected, polled,
  remake_select_sets, select_round,
}
use openflow_controller.Controller.Running.{Event, IsEnabled, IsRunning}
use openflow_controller.Controller.Running.Sound.{AllSound}
use openflow_controller.Controller.Running.Sound.Sockets.{ServesFrom}

-- A running controller with sound buffers.
pub record IsHealthy (c : Controller) : Type 0 where
  pub running : IsRunning c
  pub sound : AllSound c.num_connected_switches c.switch_list

-- What the environment may answer in a round, with the sets as `select` leaves them: memory can be had, a connection that
-- is reported can be accepted and has room, and what the sockets answer is in bounds and fit.
pub record FitRound (a : Answers) (c : Controller) : Type 0 where
  pub junk : Bytes
  pub memory : a.junk ≡ some junk
  pub bytes : AreBytes junk
  pub arrival :
      is_set c.listening_socket_fd c.read_sockets ≡ true
      → (fd : ℕ) × (a.accept ≡ accepted fd) × IsEnabled (Event.accept a.new_entry fd) c
  pub serves :
      (c' : Controller)
      → accept_waiting a c ≡ done c'
      → ServesFrom junk a c'.num_connected_switches 0 c'

abbrev pub IsFitRound : Selected → Controller → Type 0
IsFitRound select_failed c = Unit {0}
IsFitRound timed_out c = Unit {0}
IsFitRound (selected read_set write_set error_set a) c =
    FitRound a (polled read_set write_set error_set (remake_select_sets c))

-- The rounds that the environment may answer, until the interrupt.
abbrev pub FitLoop : List (Selected × Bool) → Controller → Type 0
FitLoop [] c = Unit {0}
FitLoop ((answer, sigint) ∷ rest) c =
    c.interrupt ≡ false
    → IsFitRound answer c
      × ((c' : Controller)
          → select_round answer c ≡ done c'
          → FitLoop rest (record c' { interrupt = c'.interrupt || sigint }))
