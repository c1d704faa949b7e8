-- ===== src/Controller/EchoExchange/Parts.antt =====
-- The bytes of a message and of the echo reply, and the switch at rest.
use openflow_controller.Prelude.{ℕ, suc, ◌+◌, ◌*◌, ◌<◌, ◌≡◌, refl, List, ◌∷◌, true, arith}
use openflow_controller.Memory.{Bytes, deliver, poke, peek_be, touch, zero_fill}
use openflow_controller.Memory.Fields.{store_fields}
use openflow_controller.Outcome.{done}
use openflow_controller.Switch.{OfSwitch, RwStatus}
use openflow_controller.Transfer.{slice}
use openflow_controller.Transfer.Delivered.{deliver-below}
use openflow_controller.Packets.Echo.{make_echo_reply}
use openflow_controller.Controller.Write.{message_sent}

-- The first bytes of a message that was delivered at the start of a buffer.
pub first_bytes :
    (v t high low : ℕ) (rest : List ℕ) (m : Bytes)
    → t < 256
    → high < 256
    → low < 256
    → let d = deliver (v ∷ t ∷ high ∷ low ∷ rest) 0 m in
      (peek_be 1 1 d ≡ t) × (peek_be 2 2 d ≡ high * 256 + low)
unfolding deliver peek_be poke
first_bytes v t high low rest m ht hh hl =
    let b = poke 3 low (poke 2 high (poke 1 t (poke 0 v m))) in
    let one = deliver-below rest 4 1 b (omega arith) in
    let two = deliver-below rest 4 2 b (omega arith) in
    let three = deliver-below rest 4 3 b (omega arith) in
    (omega (arith, one), omega (arith, two, three))

-- A switch with nothing left to send and the handshake behind it goes back to reading.
unfoldable pub resting : OfSwitch → OfSwitch
resting s = record s {
  rw = RwStatus.read;
  bytes_expected = 8;
  reading_header = true;
  bytes_read = 0;
  bytes_written = 0;
  write_buffer = zero_fill s.write_buffer_size s.write_buffer;
}

pub message_sent-resting :
    (s : OfSwitch)
    → s.features_requested ≡ true
    → s.config_set ≡ true
    → s.ports_requested ≡ true
    → s.default_flow_set ≡ true
    → message_sent s ≡ done (resting s)
unfolding message_sent resting
message_sent-resting s f c p r = rw (f, c, p, r) refl

pub size-make_echo_reply :
    (s : OfSwitch) → (make_echo_reply s).write_buffer.size ≡ s.write_buffer.size
unfolding make_echo_reply store_fields touch
size-make_echo_reply s = ground arith

pub size-make_echo_reply_read :
    (s : OfSwitch) → (make_echo_reply s).read_buffer.size ≡ s.read_buffer.size
unfolding make_echo_reply touch
size-make_echo_reply_read s = ground arith

pub byte-make_echo_reply :
    (s : OfSwitch) → (make_echo_reply s).read_buffer.byte ≡ s.read_buffer.byte
unfolding make_echo_reply touch
byte-make_echo_reply s = ground arith

pub slice_two : (n : ℕ) (m : Bytes) → slice (8 + n) 0 m ≡ m 0 ∷ m 1 ∷ slice (6 + n) 2 m
unfolding slice
slice_two n m = let e : 8 + n ≡ suc (suc (6 + n)) = omega arith in rw e refl

pub drop_two : (a b c d : ℕ) (xs ys : List ℕ) → a ∷ b ∷ xs ≡ c ∷ d ∷ ys → xs ≡ ys
drop_two a b c d xs ys e = cc
