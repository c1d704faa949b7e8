-- ===== src/Controller/Running/Loop.antt =====
-- controller.c: `select_loop` from `initialize_controller` on.
use openflow_controller.Prelude.{
  ℕ, ◌≡◌, refl, sym, ap, ◌∙◌, List, [], ◌∷◌, ◌++◌, Bool, true, false, ◌||◌, arith, Bool-cases, inl,
  inr, if◌then◌else◌,
}
use openflow_controller.Outcome.{Outcome, done, exited, crashed, out_of_fuel, ◌>>=◌, Gives}
use openflow_controller.Controller.{Controller}
use openflow_controller.Controller.Setup.{accepted, initialize_controller}
use openflow_controller.Controller.Tracking.{IsTracked, initialize_controller-IsTracked}
use openflow_controller.Controller.Select.{
  is_set, Answers, accept_waiting, Selected, at_loop, select_round, select_loop,
}
use openflow_controller.Controller.Running.{Event, handle, IsEnabled, IsRunning}
use openflow_controller.Controller.Running.Safety.{accept-IsRunning}

pub accept_waiting-IsRunning :
    (a : Answers) (c : Controller)
    → IsRunning c
    → (is_set c.listening_socket_fd c.read_sockets ≡ true
        → (fd : ℕ) × (a.accept ≡ accepted fd) × IsEnabled (Event.accept a.new_entry fd) c)
    → Gives (accept_waiting a c) (λ c'. IsRunning c')
unfolding accept_waiting handle
accept_waiting-IsRunning a c p arrival =
    elim (Bool-cases (is_set c.listening_socket_fd c.read_sockets)) [
      | inl waiting ↦
          let (fd, answer, enabled) = arrival waiting in
          rw (waiting, answer) (accept-IsRunning a.new_entry fd c p enabled)
      | inr none_waits ↦ rw none_waits p
    ]

pub interrupted-IsRunning :
    (b : Bool) (c : Controller) → IsRunning c → IsRunning (record c { interrupt = b })
interrupted-IsRunning b c p = record {
  tracked = record {
    graph = p.tracked.graph;
    compact = p.tracked.compact;
    listed = p.tracked.listed;
  };
  room = p.room;
  switches = p.switches;
}

pub at_loop-IsRunning :
    (fd : ℕ) (sigint : Bool) (closed : List ℕ) → IsRunning (at_loop fd sigint closed)
unfolding initialize_controller
at_loop-IsRunning fd sigint closed = record {
  tracked = record { graph = before.graph; compact = before.compact; listed = before.listed };
  room = omega arith;
  switches = λ i s low at. absurd (omega (arith, low));
}
  where
    before : IsTracked (initialize_controller fd)
    before = (initialize_controller-IsTracked fd).0

unfoldable pub interrupted : Bool → Controller → Controller
interrupted sigint c = record c { interrupt = c.interrupt || sigint }

-- A round, then the rest of the loop.
pub select_loop-round :
    (answer : Selected) (sigint : Bool) (rest : List (Selected × Bool)) (c : Controller)
    → c.interrupt ≡ false
    → select_loop ((answer, sigint) ∷ rest) c
      ≡ (select_round answer c >>= λ c'. select_loop rest (interrupted sigint c'))
unfolding select_loop interrupted
select_loop-round answer sigint rest c on =
    ap
      (λ b.
        if b
        then done c
        else (select_round answer c >>= λ c'. select_loop rest (interrupted sigint c')))
      on

-- A controller that is to stop handles no round.
pub stopped :
    (rounds : List (Selected × Bool)) (c : Controller)
    → c.interrupt ≡ true
    → select_loop rounds c ≡ done c
unfolding select_loop
stopped [] c off = refl
stopped ((answer, sigint) ∷ rest) c off =
    ap
      (λ b.
        if b
        then done c
        else (select_round answer c >>= λ c'.
            select_loop rest (record c' { interrupt = c'.interrupt || sigint })))
      off

>>=-ext :
    {A B : Type 0} (m : Outcome A) (f g : A → Outcome B)
    → ((a : A) → f a ≡ g a)
    → (m >>= f) ≡ (m >>= g)
>>=-ext (done a) f g h = h a
>>=-ext exited f g h = refl
>>=-ext crashed f g h = refl
>>=-ext out_of_fuel f g h = refl

-- Rounds that agree behind the first one.
same_rounds :
    (answer : Selected) (sigint : Bool) (rest rest' : List (Selected × Bool)) (c : Controller)
    → ((c' : Controller)
        → select_loop rest (interrupted sigint c') ≡ select_loop rest' (interrupted sigint c'))
    → select_loop ((answer, sigint) ∷ rest) c ≡ select_loop ((answer, sigint) ∷ rest') c
same_rounds answer sigint rest rest' c same = elim (Bool-cases c.interrupt) [
  | inl off ↦
      stopped ((answer, sigint) ∷ rest) c off ∙ sym (stopped ((answer, sigint) ∷ rest') c off)
  | inr on ↦
      select_loop-round answer sigint rest c on
      ∙ >>=-ext (select_round answer c) _ _ same
      ∙ sym (select_loop-round answer sigint rest' c on)
]

interrupt-interrupted : (c : Controller) → (interrupted true c).interrupt ≡ true
unfolding interrupted
interrupt-interrupted c = ground arith

-- Whatever the answers behind the round in which SIGINT arrives, the loop ends as if they did not come.
pub select_loop-interrupt :
    (before rest : List (Selected × Bool)) (answer : Selected) (c : Controller)
    → select_loop (before ++ (answer, true) ∷ rest) c
      ≡ select_loop (before ++ (answer, true) ∷ []) c
select_loop-interrupt [] rest answer c = same_rounds answer true rest [] c (λ c'.
    stopped rest (interrupted true c') (interrupt-interrupted c')
    ∙ sym (stopped [] (interrupted true c') (interrupt-interrupted c')))
select_loop-interrupt ((first, sigint) ∷ before) rest answer c =
    same_rounds first sigint (before ++ (answer, true) ∷ rest) (before ++ (answer, true) ∷ []) c
      (λ c'. select_loop-interrupt before rest answer (interrupted sigint c'))
