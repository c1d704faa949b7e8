-- ===== src/Controller/EchoExchange/Request.antt =====
-- An echo request as it comes in, controller.c.
use openflow_controller.Controller.EchoExchange.Parts.{first_bytes}
use mathlib.Core.Path.{ap₂}
use openflow_controller.Prelude.{
  ℕ, ◌+◌, ◌*◌, ◌<◌, ◌≤◌, ◌≡◌, sym, subst, ap, ◌∙◌, List, ◌∷◌, ◌++◌, Option, true, arith, length,
  length-append,
}
use openflow_controller.Memory.{Bytes, deliver, peek_be}
use openflow_controller.Memory.Words.{AreBytes, AreBytes-deliver}
use openflow_controller.Outcome.{done}
use openflow_controller.Switch.{OfSwitch}
use openflow_controller.Transfer.Chunks.{got, Awaiting, deliver-append}
use openflow_controller.Transfer.Delivered.{ByteList}
use openflow_controller.Packets.Echo.{received_length}
use openflow_controller.Controller.Read.{read_header}
use openflow_controller.Controller.Read.Receives.{receives, concat, Pieces, length-concat}
use openflow_controller.Controller.Read.Frames.{Body, receives-whole}
use openflow_controller.Controller.Write.Handshake.{IsReading}

-- The handshake is over, and the switch waits for the header of a message.
pub record IsServing (s : OfSwitch) : Type 0 where
  pub reading : IsReading s
  pub bytes : AreBytes s.read_buffer.byte
  pub read_size : s.read_buffer_size ≡ 1500
  pub write_size : s.write_buffer_size ≡ 1500
  pub features : s.features_requested ≡ true
  pub config : s.config_set ≡ true
  pub ports : s.ports_requested ≡ true
  pub rules : s.default_flow_set ≡ true

-- An echo request, in pieces that do not span header and payload: its version, the high and low byte of its
-- length, its transaction id and its payload.
pub record EchoRequest (hss bss : List (List ℕ)) (v high low : ℕ) (xid payload : List ℕ)
    : Type 0 where
  pub header : concat hss ≡ v ∷ 2 ∷ high ∷ low ∷ xid
  pub payload_bytes : concat bss ≡ payload
  pub announced : high * 256 + low ≡ 8 + length payload
  pub room : 8 + length payload ≤ 1500
  pub header_pieces : Pieces 8 hss
  pub body_pieces : Body (length payload) bss
  pub bytes : ByteList ((v ∷ 2 ∷ high ∷ low ∷ xid) ++ payload)

module _ (s : OfSwitch) (serving : IsServing s) {hss bss : List (List ℕ)} {v high low : ℕ}
    {xid payload : List ℕ} (request : EchoRequest hss bss v high low xid payload) where
  unfoldable pub size : ℕ
  size = length payload

  unfoldable pub message : List ℕ
  message = (v ∷ 2 ∷ high ∷ low ∷ xid) ++ payload

  -- the switch behind the header, and with the whole message
  unfoldable pub at_body : OfSwitch
  at_body = read_header (got (concat hss) s)

  unfoldable pub whole : OfSwitch
  whole = got (concat bss) at_body

  unfoldable pub buffer : Bytes
  buffer = deliver message 0 s.read_buffer.byte

  header_length : length (concat hss) ≡ 8
  header_length = length-concat 8 hss request.header_pieces

  pub length-message : length message ≡ 8 + size
  unfolding message size
  length-message =
      length-append (v ∷ 2 ∷ high ∷ low ∷ xid) payload
      ∙ ap (λ k. k + length payload) (ap length (sym request.header) ∙ header_length)

  header_bytes :
      (got (concat hss) s).read_buffer.byte
      ≡ deliver (v ∷ 2 ∷ high ∷ low ∷ xid) 0 s.read_buffer.byte
  header_bytes =
      ap₂ (λ xs i. deliver xs i s.read_buffer.byte) request.header serving.reading.none_read

  pub bytes-whole : whole.read_buffer.byte ≡ buffer
  unfolding whole at_body buffer message read_header
  bytes-whole =
      sym (deliver-append (concat hss) (concat bss) s.bytes_read s.read_buffer.byte)
      ∙ ap₂ (λ xs i. deliver xs i s.read_buffer.byte)
          (ap₂ (λ xs ys. xs ++ ys) request.header request.payload_bytes) serving.reading.none_read

  high_low : (high < 256) × (low < 256)
  high_low = (request.bytes.1.1.0, request.bytes.1.1.1.0)

  pub type-at_body : at_body.of_status ≡ 2
  unfolding at_body read_header
  type-at_body =
      ap (peek_be 1 1) header_bytes
      ∙ (first_bytes v 2 high low xid s.read_buffer.byte (omega arith) high_low.0 high_low.1).0

  expected-at_body : at_body.bytes_expected ≡ size
  unfolding at_body read_header size
  expected-at_body =
      let e : peek_be 2 2 (got (concat hss) s).read_buffer.byte ≡ high * 256 + low =
        ap (peek_be 2 2) header_bytes
        ∙ (first_bytes v 2 high low xid s.read_buffer.byte (omega arith) high_low.0 high_low.1).1 in
      omega (arith, e, request.announced, request.room)

  pub received-whole : received_length whole ≡ 8 + size
  unfolding received_length size buffer message
  received-whole =
      ap (peek_be 2 2) bytes-whole
      ∙ (first_bytes v 2 high low (xid ++ payload) s.read_buffer.byte (omega arith) high_low.0
          high_low.1).1
      ∙ request.announced

  pub AreBytes-whole : AreBytes whole.read_buffer.byte
  unfolding buffer
  AreBytes-whole =
      subst AreBytes (sym bytes-whole) (AreBytes-deliver message 0 s.read_buffer.byte serving.bytes)

  awaiting : Awaiting s
  awaiting =
      let open_read = serving.reading.read_safe in
      record {
        safe = record {
          alive = open_read.alive;
          sound = open_read.sound;
          room = omega (arith, open_read.room, serving.read_size);
        };
        inside =
            omega (arith, serving.reading.none_read, serving.reading.expects, serving.read_size);
        word = omega (arith, serving.read_size);
      }

  pub receives_all : (junk : Option Bytes) → receives junk (hss ++ bss) s ≡ done (whole, true)
  unfolding whole at_body size
  receives_all junk =
      receives-whole junk hss bss size s awaiting serving.reading.expects serving.reading.none_read
        serving.reading.at_header request.header_pieces request.body_pieces
        (omega (arith, request.room, serving.read_size)) expected-at_body
