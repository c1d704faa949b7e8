-- ===== src/Tests/Bounds.antt =====
-- A run of the controller in which every answer is in bounds and fit: a switch connects, and takes the hello.
use mathlib.Core.Option.{some-injective}
use openflow_controller.Prelude.{
  ◌≡◌, refl, sym, subst, ap, ◌∙◌, List, [], ◌∷◌, some, Bool, true, false, ◌||◌, arith,
}
use openflow_controller.Transfer.{sent}
use openflow_controller.Packets.Requests.{write_openflow_hello}
use openflow_controller.Controller.{Controller}
use openflow_controller.Controller.Setup.{create_new_connection, initialize_controller, new_switch}
use openflow_controller.Controller.Select.{
  is_set, Answers, Selected, selected, polled, accept_waiting, remake_select_sets,
}
use openflow_controller.Controller.Running.Sound.Sockets.{ServesFit, ServesFrom, WritesFit}
use openflow_controller.Controller.Running.Sound.Rounds.{IsFitRound, FitLoop}
use openflow_controller.Tests.Data.{zeros}
use openflow_controller.Tests.Runs.{
  greeting, arriving, at_start, zeros-AreBytes, accept_enabled, result, arrival, connected,
  connected_round,
}

fits_arrival : ServesFit zeros arriving 0 connected
unfolding initialize_controller write_openflow_hello new_switch
fits_arrival = record {
  reads = λ s at waiting.
      let same : some greeting ≡ some s = at in
      let fd : 5 ≡ s.socket_fd = ap (λ t. t.socket_fd) (some-injective greeting s same) in
      let absent : is_set 5 (3 ∷ []) ≡ true = ap (λ n. is_set n (3 ∷ [])) fd ∙ waiting in absurd cc;
  writes = λ s at waiting. absurd cc;
}

arrival-IsFitRound : IsFitRound arrival at_start
unfolding accept_waiting create_new_connection initialize_controller remake_select_sets result
    write_openflow_hello new_switch
arrival-IsFitRound = record {
  junk = zeros;
  memory = refl;
  bytes = zeros-AreBytes;
  arrival = λ _. (5, refl, accept_enabled);
  serves = λ c' e.
      subst (λ c. ServesFrom zeros arriving c.num_connected_switches 0 c) (ap (result connected) e)
        (fits_arrival, λ r _. tt);
}

-- the hello goes out, and SIGINT comes in the same round
abbrev taking : Answers
taking = record arriving { send = λ _. sent 16 }

abbrev hello_out : Selected
hello_out = selected [] (5 ∷ []) [] taking

greeting-WritesFit : WritesFit (sent 16) greeting
unfolding write_openflow_hello new_switch
greeting-WritesFit = record { count = 16; taken = refl; few = omega arith; writes = refl }

fits_hello : ServesFit zeros taking 0 (polled [] (5 ∷ []) [] (remake_select_sets connected))
unfolding initialize_controller remake_select_sets
fits_hello = record {
  reads = λ s at waiting. absurd cc;
  writes = λ s at waiting.
      let same : some greeting ≡ some s = at in
      subst (WritesFit (sent 16)) (some-injective greeting s same) greeting-WritesFit;
}

hello_out-IsFitRound : IsFitRound hello_out connected
unfolding accept_waiting initialize_controller remake_select_sets result
hello_out-IsFitRound = record {
  junk = zeros;
  memory = refl;
  bytes = zeros-AreBytes;
  arrival = λ waiting. absurd cc;
  serves = λ c' e.
      subst (λ c. ServesFrom zeros taking c.num_connected_switches 0 c) (ap (result connected) e)
        (fits_hello, λ r _. tt);
}

abbrev pub rounds : List (Selected × Bool)
rounds = (arrival, false) ∷ (hello_out, true) ∷ []

pub rounds-FitLoop : FitLoop rounds at_start
unfolding result
rounds-FitLoop = λ _. (
  arrival-IsFitRound,
  λ c' e.
      subst (λ c. FitLoop ((hello_out, true) ∷ []) (record c { interrupt = c.interrupt || false }))
        (ap (result connected) (sym connected_round ∙ e))
        (λ _. (hello_out-IsFitRound, λ c'' _. tt)),
)
