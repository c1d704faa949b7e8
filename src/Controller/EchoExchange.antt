-- ===== src/Controller/EchoExchange.antt =====
-- An echo request from the first byte read to the last byte of its reply, controller.c and rw_packets.c.
pub mod Parts
pub mod Request
use openflow_controller.Controller.EchoExchange.Parts.{
  first_bytes, resting, message_sent-resting, size-make_echo_reply, size-make_echo_reply_read,
  byte-make_echo_reply, slice_two, drop_two,
}
use mathlib.Core.Path.{ap₂}
use openflow_controller.Prelude.{
  ℕ, zero, suc, ◌+◌, ◌-◌, ◌*◌, ◌^◌, ◌<◌, ◌≤◌, ◌≡◌, refl, sym, subst, ap, ◌∙◌, List, [], ◌∷◌, ◌++◌,
  Option, Bool, true, false, arith, length, length-append, if◌then◌else◌, ◌==◌, eq→==, set,
  length-set, get_elem?-set_self,
}
use openflow_controller.Memory.{Bytes, Buffer, deliver, poke, peek_be, touch, zero_fill}
use openflow_controller.Memory.Fields.{store_fields}
use openflow_controller.Memory.Safe.{IsSafe, zero_fill-IsSafe, IsSafe-weaken}
use openflow_controller.Memory.Words.{AreBytes, AreBytes-deliver}
use openflow_controller.Outcome.{Outcome, done, ◌>>=◌}
use openflow_controller.Switch.{OfSwitch, RwStatus}
use openflow_controller.Transfer.{slice}
use openflow_controller.Transfer.Chunks.{got, Awaiting, wrote, Pending, Splits, deliver-append}
use openflow_controller.Transfer.Delivered.{ByteList, slice-ext, slice-deliver, deliver-below}
use openflow_controller.Packets.Echo.{make_echo_reply, received_length}
use openflow_controller.Packets.Echoed.{make_echo_reply_lem, make_echo_reply-IsSafe}
use openflow_controller.Controller.{Controller, put_switch}
use openflow_controller.Controller.Links.{switch_at-some}
use openflow_controller.Controller.Running.Safety.{framed, settle}
use openflow_controller.Controller.Read.{read_header, dispatch, reset_read}
use openflow_controller.Controller.Read.Receives.{receives, concat, Pieces, length-concat}
use openflow_controller.Controller.Read.Frames.{Body, receives-whole}
use openflow_controller.Controller.Write.{message_sent}
use openflow_controller.Controller.Write.Sends.{sends, sends-message}
use openflow_controller.Controller.Write.Handshake.{IsReading}
use openflow_controller.Controller.EchoExchange.Request.{
  IsServing, EchoRequest, AreBytes-whole, at_body, buffer, bytes-whole, length-message, message,
  received-whole, receives_all, size, type-at_body, whole,
}

set-set : {A : Type 0} (xs : List A) (k : ℕ) (x y : A) → set (set xs k x) k y ≡ set xs k y
set-set [] k x y = refl
set-set (z ∷ zs) zero x y = refl
set-set (z ∷ zs) (suc k) x y = ap (λ ys. z ∷ ys) (set-set zs k x y)

reset_read-writing : (s : OfSwitch) → s.rw ≡ RwStatus.write → reset_read s ≡ s
unfolding reset_read
reset_read-writing s e = rw e refl

-- What follows the dispatch leaves a switch alone that is to write.
settle-writing :
    (k : ℕ) (c : Controller) (s : OfSwitch)
    → k < length c.switch_list
    → s.rw ≡ RwStatus.write
    → settle k (put_switch k s c) ≡ done (put_switch k s c)
unfolding settle
settle-writing k c s inside writing =
    let ss = set c.switch_list k s in
    rw (switch_at-some k s ss (get_elem?-set_self c.switch_list k s inside)) (
      ap (λ t. done (put_switch k t (put_switch k s c))) (reset_read-writing s writing)
      ∙ ap (λ ts. done (record c { switch_list = ts })) (set-set c.switch_list k s s))

module _ (s : OfSwitch) (serving : IsServing s) {hss bss : List (List ℕ)} {v high low : ℕ}
    {xid payload : List ℕ} (request : EchoRequest hss bss v high low xid payload) where
  reply : OfSwitch
  reply = make_echo_reply (whole s serving request)

  reply_facts :
      (reply.write_buffer.byte 0 ≡ 4)
      × (reply.write_buffer.byte 1 ≡ 3)
      × ((j : ℕ)
          → 2 ≤ j
          → j < 8 + (size s serving request)
          → reply.write_buffer.byte j ≡ (whole s serving request).read_buffer.byte j)
      × (reply.bytes_expected ≡ 8 + (size s serving request))
      × (reply.rw ≡ RwStatus.write)
  unfolding reply
  reply_facts =
      make_echo_reply_lem (whole s serving request) (size s serving request)
        (AreBytes-whole s serving request) (received-whole s serving request)

  reply-IsSafe :
      IsSafe (8 + (size s serving request)) reply.read_buffer
      × IsSafe (8 + (size s serving request)) reply.write_buffer
  unfolding reply whole at_body read_header size
  reply-IsSafe =
      let r = serving.reading.read_safe in
      let w = serving.reading.write_safe in
      make_echo_reply-IsSafe (whole s serving request) (size s serving request)
        (AreBytes-whole s serving request) (received-whole s serving request)
        (record { alive = r.alive; sound = r.sound; room = omega (arith, r.room, request.room) })
        (record { alive = w.alive; sound = w.sound; room = omega (arith, w.room, request.room) })

  reply_written : (reply.bytes_written ≡ 0) × (reply.write_buffer_size ≡ 1500)
  unfolding reply make_echo_reply whole at_body read_header
  reply_written = (serving.reading.none_written, serving.write_size)

  reply_size : 1500 ≤ reply.write_buffer.size
  unfolding reply whole at_body read_header
  reply_size =
      omega (arith, size-make_echo_reply (whole s serving request), serving.reading.write_safe.room)

  reply-Pending : Pending reply
  unfolding size
  reply-Pending = record {
    safe = record {
      alive = reply-IsSafe.1.alive;
      sound = reply-IsSafe.1.sound;
      room = omega (arith, reply_size, reply_written.1);
    };
    inside = omega (arith, reply_written, reply_facts.3, request.room);
    word = omega (arith, reply_written.1);
  }

  -- what goes out
  reply_bytes : List ℕ
  reply_bytes = (4 ∷ 3 ∷ high ∷ low ∷ xid) ++ payload

  reply_sent : slice reply.bytes_expected reply.bytes_written reply.write_buffer.byte ≡ reply_bytes
  unfolding slice reply_bytes buffer message
  reply_sent =
      let (four, three, kept, count, _) = reply_facts in
      let n : ℕ = 6 + (size s serving request) in
      let tail : slice n 2 reply.write_buffer.byte ≡ slice n 2 (buffer s serving request) =
        slice-ext n 2 reply.write_buffer.byte (buffer s serving request) (λ j low_j high_j.
          kept j low_j (omega (arith, high_j)) ∙ ap (λ m. m j) (bytes-whole s serving request)) in
      let all : slice (8 + (size s serving request)) 0 (buffer s serving request)
          ≡ (message s serving request) =
        ap (λ k. slice k 0 (buffer s serving request)) (sym (length-message s serving request))
        ∙ slice-deliver (message s serving request) 0 s.read_buffer.byte request.bytes in
      ap₂ (λ k i. slice k i reply.write_buffer.byte) count reply_written.0
      ∙ slice_two (size s serving request) reply.write_buffer.byte
      ∙ ap₂ (λ x xs. x ∷ xs) four
          (ap₂ (λ x xs. x ∷ xs) three
            (tail
              ∙ drop_two ((buffer s serving request) 0) ((buffer s serving request) 1) v 2
                  (slice n 2 (buffer s serving request)) (high ∷ low ∷ (xid ++ payload))
                  (sym (slice_two (size s serving request) (buffer s serving request)) ∙ all)))

  reply_kept :
      (reply.read_buffer_size ≡ 1500)
      × (reply.features_requested ≡ true)
      × (reply.config_set ≡ true)
      × (reply.ports_requested ≡ true)
      × (reply.default_flow_set ≡ true)
  unfolding reply make_echo_reply whole at_body read_header
  reply_kept = (serving.read_size, serving.features, serving.config, serving.ports, serving.rules)

  reply_read : (1500 ≤ reply.read_buffer.size) × AreBytes reply.read_buffer.byte
  unfolding reply whole at_body read_header
  reply_read = (
    omega (
      arith,
      size-make_echo_reply_read (whole s serving request),
      serving.reading.read_safe.room,
    ),
    subst AreBytes (sym (byte-make_echo_reply (whole s serving request)))
        (AreBytes-whole s serving request),
  )

  finished : OfSwitch
  finished = resting (wrote reply.bytes_expected reply)

  finished-sent : message_sent (wrote reply.bytes_expected reply) ≡ done finished
  unfolding finished reply make_echo_reply whole at_body read_header
  finished-sent =
      message_sent-resting (wrote reply.bytes_expected reply) serving.features serving.config
        serving.ports serving.rules

  finished-IsServing : IsServing finished
  unfolding finished resting
  finished-IsServing = record {
    reading = record {
      reads = refl;
      expects = refl;
      at_header = refl;
      none_read = refl;
      none_written = refl;
      read_safe = record {
        alive = reply-IsSafe.0.alive;
        sound = reply-IsSafe.0.sound;
        room = reply_read.0;
      };
      write_safe =
          zero_fill-IsSafe
            (record {
              alive = reply-IsSafe.1.alive;
              sound = reply-IsSafe.1.sound;
              room = reply_size;
            })
            reply.write_buffer_size (omega (arith, reply_written.1));
    };
    bytes = reply_read.1;
    read_size = reply_kept.0;
    write_size = reply_written.1;
    features = reply_kept.1;
    config = reply_kept.2;
    ports = reply_kept.3;
    rules = reply_kept.4;
  }

  dispatch-whole :
      (k : ℕ) (c : Controller)
      → dispatch k (whole s serving request) c ≡ done (put_switch k reply c)
  unfolding dispatch whole reply
  dispatch-whole k c = rw (type-at_body s serving request) refl

  answer-whole :
      (k : ℕ) (c : Controller)
      → k < length c.switch_list
      → framed k c (whole s serving request, true) ≡ done (put_switch k reply c)
  unfolding framed
  answer-whole k c inside =
      let t = whole s serving request in
      ap (λ o. o >>= settle k) (dispatch-whole k (put_switch k t c))
      ∙ settle-writing k (put_switch k t c) reply
          (omega (arith, inside, length-set c.switch_list k t)) reply_facts.4
      ∙ ap (λ ss. done (record c { switch_list = ss })) (set-set c.switch_list k t reply)

  -- A switch that is done with the handshake, in an entry of the list, is answered: however `send` splits the reply, and
  -- `recv` the request, as long as no piece spans header and payload, an echo request with up to 1492 bytes of
  -- payload is taken as one message, what `handle_read_socket` does with the message leaves the reply, all
  -- of it, to be sent, as the one change to the controller, and the reply goes out, which is the request with
  -- version 4 and type 3. Then the switch waits for the next message as before.
  pub echo_answered :
      (junk : Option Bytes) (ns : List ℕ) (k : ℕ) (c : Controller)
      → k < length c.switch_list
      → Splits (8 + length payload) ns
      → (t u : OfSwitch) × (receives junk (hss ++ bss) s ≡ done (t, true))
        × (framed k c (t, true) ≡ done (put_switch k (make_echo_reply t) c))
        × (sends junk ns (make_echo_reply t) ≡ done (u, (4 ∷ 3 ∷ high ∷ low ∷ xid) ++ payload))
        × IsServing u
  unfolding reply reply_bytes size
  echo_answered junk ns k c inside splits = (
    (whole s serving request),
    finished,
    (receives_all s serving request) junk,
    answer-whole k c inside,
    sends-message junk ns reply finished reply-Pending
          (subst (λ m. Splits m ns) (sym reply_facts.3) splits) finished-sent
        ∙ ap (λ xs. done (finished, xs)) reply_sent,
    finished-IsServing,
  )
