-- ===== src/Tests/Transfers.antt =====
-- Messages sent and received.
use openflow_controller.Prelude.{
  ℕ, ◌+◌, ◌-◌, ◌≤◌, ◌<◌, ◌≡◌, ◌≢◌, refl, List, [], ◌∷◌, ◌++◌, some, true, arith, ltb, leb, ◌&&◌,
  if◌then◌else◌, get_elem?, length,
}
use mathlib.Core.Option
use openflow_controller.Memory.{fresh, zero_fill, deliver, poke, peek_be}
use openflow_controller.Outcome.{done}
use openflow_controller.Switch.{OfSwitch, RwStatus}
use openflow_controller.Transfer.{sent, received, slice, write_to, read_from}
use openflow_controller.Transfer.Chunks.{wrote, got, Pending, Awaiting, write_to_lem, read_from_lem}
use openflow_controller.Packets.Requests.{write_openflow_hello}
use openflow_controller.Controller.{Controller, free_buffers}
use openflow_controller.Controller.Setup.{new_switch, initialize_controller, blank_switch}
use openflow_controller.Controller.Write.{message_sent, next_message}
use openflow_controller.Controller.Write.Sends.{sends, sends-message}
use openflow_controller.Controller.Write.Handshake.{
  handshake, exchange, handshake_messages, IsReading,
}
use openflow_controller.Controller.Read.{read_header, dispatch}
use openflow_controller.Controller.Read.Receives.{receives, concat}
use openflow_controller.Controller.Read.Frames.{receives-message, read_header-bytes_expected}
use openflow_controller.Controller.Read.Failure.{dispatch-unknown}
use openflow_controller.Tests.Data.{junk, idle, holding}

handshake_example :
    (t : OfSwitch) × (exchange junk
        ((16 ∷ []) ∷ (3 ∷ 5 ∷ []) ∷ (12 ∷ []) ∷ (0 ∷ 16 ∷ []) ∷ (100 ∷ 68 ∷ []) ∷ [])
        (write_openflow_hello (new_switch 5 1 blank_switch))
      ≡ done (t, handshake_messages 1))
    × IsReading t
handshake_example =
    handshake junk 5 1 blank_switch (16 ∷ []) (3 ∷ 5 ∷ []) (12 ∷ []) (0 ∷ 16 ∷ []) (100 ∷ 68 ∷ [])
      (omega arith)

abbrev sending : OfSwitch
sending = record idle {
  write_buffer = fresh 1500;
  bytes_expected = 8;
  bytes_written = 0;
  features_requested = true;
  config_set = true;
  ports_requested = true;
  default_flow_set = true;
}

sending-Pending : Pending sending
unfolding fresh
sending-Pending = record {
  safe = record { alive = refl; sound = refl; room = omega arith };
  inside = omega arith;
  word = omega arith;
}

-- behind the last message of the handshake
abbrev quiet : OfSwitch
quiet = record (wrote 8 sending) {
  rw = RwStatus.read;
  write_buffer = zero_fill 1500 (fresh 1500);
  bytes_expected = 8;
  reading_header = true;
  bytes_read = 0;
  bytes_written = 0;
}

quiet_after : message_sent (wrote 8 sending) ≡ done quiet
unfolding message_sent next_message
quiet_after = refl

sends-message_example :
    sends junk (5 ∷ 3 ∷ []) sending ≡ done (quiet, slice 8 0 sending.write_buffer.byte)
sends-message_example =
    sends-message junk (5 ∷ 3 ∷ []) sending quiet sending-Pending (omega arith) quiet_after

write_to_lem_example :
    write_to junk (sent 3) sending ≡ done (wrote 3 sending, slice 3 0 sending.write_buffer.byte)
write_to_lem_example = write_to_lem junk 3 sending sending-Pending (omega arith) (omega arith)

abbrev waiting : OfSwitch
waiting = record idle { bytes_expected = 8 }

waiting-Awaiting : Awaiting waiting
unfolding fresh
waiting-Awaiting = record {
  safe = record { alive = refl; sound = refl; room = omega arith };
  inside = omega arith;
  word = omega arith;
}

read_from_lem_example :
    read_from junk (received (4 ∷ 2 ∷ [])) waiting ≡ done (got (4 ∷ 2 ∷ []) waiting)
read_from_lem_example =
    read_from_lem junk (4 ∷ 2 ∷ []) waiting waiting-Awaiting (omega arith) (omega arith)

-- a header in three pieces and its body in two
abbrev header_pieces : List (List ℕ)
header_pieces = (4 ∷ []) ∷ (2 ∷ 0 ∷ 12 ∷ []) ∷ (1 ∷ 2 ∷ 3 ∷ 4 ∷ []) ∷ []

abbrev body_pieces : List (List ℕ)
body_pieces = (50 ∷ 60 ∷ 70 ∷ []) ∷ (80 ∷ []) ∷ []

announced : (read_header (got (concat header_pieces) waiting)).bytes_expected ≡ 4
unfolding read_header concat deliver poke peek_be
announced = refl

receives-message_example :
    receives junk (header_pieces ++ body_pieces) waiting
    ≡ done (got (concat body_pieces) (read_header (got (concat header_pieces) waiting)), true)
receives-message_example =
    receives-message junk header_pieces body_pieces 4 waiting waiting-Awaiting refl refl refl
      (omega arith) (omega arith) (omega arith) announced

-- the header of an echo request that gives a length of 3
abbrev short : OfSwitch
short = holding (4 ∷ 2 ∷ 0 ∷ 3 ∷ [])

short_length : peek_be 2 2 short.read_buffer.byte ≡ 3
unfolding deliver poke peek_be
short_length = refl

read_header-bytes_expected_example :
    (8 ≤ peek_be 2 2 short.read_buffer.byte
      → (read_header short).bytes_expected ≡ peek_be 2 2 short.read_buffer.byte - 8)
    × (peek_be 2 2 short.read_buffer.byte < 8
        → (read_header short).bytes_expected ≡ 65528 + peek_be 2 2 short.read_buffer.byte)
read_header-bytes_expected_example = read_header-bytes_expected short (omega (arith, short_length))

-- two connections, the first of which sends an error
abbrev failing : OfSwitch
failing = record idle { of_status = 1 }

abbrev controller : Controller
controller = record (initialize_controller 3) {
  num_connected_switches = 2;
  switch_list = failing ∷ idle ∷ blank_switch ∷ [];
}

dispatch-unknown_example :
    (c' : Controller) × (dispatch 0 failing controller ≡ done c')
    × ((j : ℕ)
        → j ≢ 0
        → get_elem? c'.switch_list j ≡ (
            if leb 0 j && ltb j 2
            then Option.map free_buffers (get_elem? controller.switch_list j)
            else get_elem? controller.switch_list j))
    × (get_elem? c'.switch_list 0 ≡ some (record failing { rw = RwStatus.disconnected }))
    × (c'.num_connected_switches ≡ controller.num_connected_switches)
    × (length c'.switch_list ≡ length controller.switch_list)
dispatch-unknown_example = dispatch-unknown 0 failing controller refl (omega arith) (omega arith)
