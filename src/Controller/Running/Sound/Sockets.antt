-- ===== src/Controller/Running/Sound/Sockets.antt =====
-- controller.c: the buffers of the connected switches while the loop of `handle_all_sockets` serves them.
use mathlib.Core.Option.{some-injective}
use openflow_controller.Prelude.{
  ℕ, zero, suc, ◌+◌, ◌<◌, ◌≤◌, ◌≡◌, ◌⊎◌, refl, sym, subst, ap, ◌∙◌, List, [], some, true, arith,
  get_elem?, Bool-cases, inl, inr, length,
}
use openflow_controller.Memory.{Bytes}
use openflow_controller.Memory.Words.{AreBytes}
use openflow_controller.Outcome.{done, Gives, Gives-bind, Gives-both, Gives-done}
use openflow_controller.Switch.{OfSwitch, RwStatus}
use openflow_controller.Transfer.{Received, received, Sent, sent}
use openflow_controller.Transfer.Chunks.{got}
use openflow_controller.Packets.Sound.{IsSound}
use openflow_controller.Controller.{Controller, put_switch}
use openflow_controller.Controller.Links.{switch_at-some}
use openflow_controller.Controller.Read.{receive, handle_read_socket}
use openflow_controller.Controller.Write.{handle_write_socket}
use openflow_controller.Controller.Write.Sound.{handle_write_socket-IsSound}
use openflow_controller.Controller.Tracking.Sockets.{entry}
use openflow_controller.Controller.Select.{is_set, Answers, handle_socket, handle_from}
use openflow_controller.Controller.Running.{IsRunning, IsBenign, IsUnderstood, Runs}
use openflow_controller.Controller.Running.Rounds.{read_or_written, turn, handle_socket-Runs}
use openflow_controller.Controller.Running.Sound.{AllSound, IsFit, IsCalm, set-AllSound}
use openflow_controller.Controller.Running.Sound.Reads.{
  Settled, IsAnnounced, handle_read_socket-AllSound,
}

-- A switch that reads is served: `recv` delivers at most the bytes that the switch waits for, a header that is complete
-- announces a message of 8 to 1500 bytes, and a message that they complete is one that the environment may send, and fit. No link is reported while another switch has sent a part of a message.
pub record ReadsFit (junk : Bytes) (answer : Received) (k : ℕ) (c : Controller) (s : OfSwitch)
    : Type 0 where
  pub piece : List ℕ
  pub delivered : answer ≡ received piece
  pub reads : s.rw ≡ RwStatus.read
  pub few : length piece ≤ s.bytes_expected
  pub announced : (t : OfSwitch) → (t ≡ s) ⊎ (t ≡ got piece s) → IsAnnounced t
  pub fit :
      (t : OfSwitch)
      → receive (some junk) (received piece) s ≡ done (t, true)
      → IsBenign c k t × (IsFit t × IsCalm k c t)

-- A switch that writes is served, and `send` takes at most the bytes offered.
pub record WritesFit (answer : Sent) (s : OfSwitch) : Type 0 where
  pub count : ℕ
  pub taken : answer ≡ sent count
  pub few : count ≤ s.bytes_expected
  pub writes : s.rw ≡ RwStatus.write

-- The answers for entry `k`.
pub record ServesFit (junk : Bytes) (a : Answers) (k : ℕ) (c : Controller) : Type 0 where
  pub reads :
      (s : OfSwitch)
      → get_elem? c.switch_list k ≡ some s
      → is_set s.socket_fd c.read_sockets ≡ true
      → ReadsFit junk (a.recv k) k c s
  pub writes :
      (s : OfSwitch)
      → get_elem? c.switch_list k ≡ some s
      → is_set s.socket_fd c.write_sockets ≡ true
      → WritesFit (a.send k) s

turn-AllSound :
    (rw : RwStatus) (n : ℕ) (a : Answers) (k : ℕ) (c : Controller) (s : OfSwitch)
    → AllSound n c.switch_list
    → Gives (read_or_written a k c s) (λ r. AllSound n r.0.switch_list)
    → Gives (turn rw a k c s) (λ r. AllSound n r.0.switch_list)
unfolding turn
turn-AllSound RwStatus.read n a k c s idle served = served
turn-AllSound RwStatus.write n a k c s idle served = served
turn-AllSound RwStatus.disconnected n a k c s idle served = idle

module _ (a : Answers) (junk : Bytes) (memory : a.junk ≡ some junk) (bytes : AreBytes junk) where
  read_or_written-AllSound :
      (k : ℕ) (c : Controller) (s : OfSwitch)
      → IsRunning c
      → AllSound c.num_connected_switches c.switch_list
      → k < c.num_connected_switches
      → get_elem? c.switch_list k ≡ some s
      → ServesFit junk a k c
      → Gives (read_or_written a k c s) (λ r. AllSound c.num_connected_switches r.0.switch_list)
  unfolding read_or_written
  read_or_written-AllSound k c s p all inside at fits =
      elim (Bool-cases (is_set s.socket_fd c.read_sockets)) [
        | inl read ↦
            let f = fits.reads s at read in
            rw (read, memory, f.delivered)
              (Gives-bind (λ c'. AllSound n c'.switch_list) (λ r. AllSound n r.0.switch_list)
                (handle_read_socket (some junk) (received f.piece) k c) (λ c'. done (c', []))
                (handle_read_socket-AllSound junk f.piece k s c p all bytes inside at f.reads
                  f.announced f.few f.fit)
                (λ c' q. q))
        | inr not_read ↦ elim (Bool-cases (is_set s.socket_fd c.write_sockets)) [
          | inl write ↦
              let f = fits.writes s at write in
              rw (not_read, write, memory, f.taken)
                (Gives-bind (λ r. IsSound r.0) (λ r. AllSound n r.0.switch_list)
                  (handle_write_socket (some junk) (sent f.count) s)
                  (λ r. done (put_switch k r.0 c, r.1))
                  (handle_write_socket-IsSound junk f.count s ((all k s at).1 inside) f.writes
                    f.few)
                  (λ r sound.
                    set-AllSound n k r.0 c.switch_list all (omega (arith, p.room, inside))
                      (sound.ports_safe, λ _. sound)))
          | inr neither ↦ rw (not_read, neither) all
        ]
      ]
    where
      n : ℕ
      n = c.num_connected_switches

  handle_socket-AllSound :
      (k : ℕ) (c : Controller)
      → IsRunning c
      → AllSound c.num_connected_switches c.switch_list
      → k < c.num_connected_switches
      → ServesFit junk a k c
      → Gives (handle_socket a k c) (λ r. AllSound c.num_connected_switches r.0.switch_list)
  unfolding handle_socket read_or_written turn
  handle_socket-AllSound k c p all inside fits =
      let (s, at) = entry c.switch_list k (omega (arith, p.room, inside)) in
      rw (switch_at-some k s c.switch_list at) (
        turn-AllSound s.rw c.num_connected_switches a k c s all
          (read_or_written-AllSound k c s p all inside at fits))

-- The answers for the entries from `k` on, `n` of them, each for the controller that its turn finds.
abbrev pub ServesFrom : Bytes → Answers → ℕ → ℕ → Controller → Type 0
ServesFrom junk a zero k c = Unit {0}
ServesFrom junk a (suc n) k c =
    ServesFit junk a k c
    × ((r : Controller × List ℕ) → handle_socket a k c ≡ done r → ServesFrom junk a n (k + 1) r.0)

understood :
    (junk : Bytes) (a : Answers) (k : ℕ) (c : Controller)
    → ServesFit junk a k c
    → (s : OfSwitch) → get_elem? c.switch_list k ≡ some s
    → is_set s.socket_fd c.read_sockets ≡ true
    → IsUnderstood junk (a.recv k) k c
understood junk a k c fits s at read u t at' e =
    let f = fits.reads s at read in
    let same = some-injective u s (sym at' ∙ at) in
    (f.fit t (
      ap (λ x. receive (some junk) x s) (sym f.delivered)
      ∙ ap (receive (some junk) (a.recv k)) (sym same)
      ∙ e)).0

-- The loop over the connected switches, where what `recv` and `send` answer for each of them is in bounds and fit: it ends
-- without an exit or a crash, and without an access out of the bounds of a buffer, with the controller running, as many
-- switches connected, and their buffers sound.
pub handle_from-AllSound :
    (a : Answers) (junk : Bytes) (n k : ℕ) (c : Controller)
    → a.junk ≡ some junk
    → AreBytes junk
    → IsRunning c
    → AllSound c.num_connected_switches c.switch_list
    → k + n ≤ c.num_connected_switches
    → ServesFrom junk a n k c
    → Gives
        (handle_from a n k c)
        (λ c'. Runs c.num_connected_switches c' × AllSound c.num_connected_switches c'.switch_list)
unfolding handle_from
handle_from-AllSound a junk zero k c memory bytes p all inside fits =
    (record { running = p; count = refl }, all)
handle_from-AllSound a junk (suc n) k c memory bytes p all inside (first, rest) =
    let m = c.num_connected_switches in
    let below : k < m = omega (arith, inside) in
    let (r, e, (runs, sound)) =
      Gives-done (λ r. Runs m r.0 × AllSound m r.0.switch_list) (handle_socket a k c)
        (Gives-both (λ r. Runs m r.0) (λ r. AllSound m r.0.switch_list) (handle_socket a k c)
          (handle_socket-Runs a junk memory bytes k c p below (understood junk a k c first))
          (handle_socket-AllSound a junk memory bytes k c p all below first)) in
    let all' = subst (λ j. AllSound j r.0.switch_list) (sym runs.count) sound in
    rw e (
      subst (λ j. Gives (handle_from a n (k + 1) r.0) (λ c'. Settled j c')) runs.count
        (handle_from-AllSound a junk n (k + 1) r.0 memory bytes runs.running all'
          (omega (arith, inside, runs.count)) (rest r e)))
