-- ===== src/Tests/Data.antt =====
-- Switches and messages for the tests.
use openflow_controller.Prelude.{ℕ, List, [], ◌∷◌, Option, some, true}
use openflow_controller.Memory.{Bytes, fresh, deliver}
use openflow_controller.Switch.{OfSwitch, RwStatus}
use openflow_controller.Controller.Setup.{blank_switch}

abbrev pub zeros : Bytes
zeros _ = 0

abbrev pub junk : Option Bytes
junk = some zeros

-- descriptor 5, about to send under transaction id 7
abbrev pub idle : OfSwitch
idle = record blank_switch {
  rw = RwStatus.read;
  xid = 7;
  socket_fd = 5;
  reading_header = true;
  read_buffer = fresh 1500;
  write_buffer = fresh 1500;
  read_buffer_size = 1500;
  write_buffer_size = 1500;
  bytes_expected = 0;
}

abbrev pub holding : List ℕ → OfSwitch
holding message = record idle {
  read_buffer = record (fresh 1500) { byte = deliver message 0 zeros };
}

-- An echo request of 12 bytes.
abbrev pub echo_request : List ℕ
echo_request = 4 ∷ 2 ∷ 0 ∷ 12 ∷ 1 ∷ 2 ∷ 3 ∷ 4 ∷ 50 ∷ 60 ∷ 70 ∷ 80 ∷ []

-- A packet-in of 56 bytes for a frame of 14 on port 3, held in buffer 9: its match of 12 bytes is padded to
-- 16, and two bytes stand between it and the frame. The ethertype is the argument.
abbrev pub packet_in : ℕ → ℕ → List ℕ
packet_in high low =
    4 ∷ 10 ∷ 0 ∷ 56 ∷ 0 ∷ 0 ∷ 0 ∷ 1 ∷ 0 ∷ 0 ∷ 0 ∷ 9 ∷ 0 ∷ 14 ∷ 0 ∷ 0 ∷ 0 ∷ 0 ∷ 0 ∷ 0 ∷ 0 ∷ 0 ∷ 0 ∷ 0
    ∷ 0 ∷ 1 ∷ 0 ∷ 12 ∷ 128 ∷ 0 ∷ 0 ∷ 4 ∷ 0 ∷ 0 ∷ 0 ∷ 3 ∷ 0 ∷ 0 ∷ 0 ∷ 0 ∷ 0 ∷ 0 ∷ 10 ∷ 11 ∷ 12 ∷ 13
    ∷ 14 ∷ 15 ∷ 20 ∷ 21 ∷ 22 ∷ 23 ∷ 24 ∷ 25 ∷ high ∷ low ∷ []
