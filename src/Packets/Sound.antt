-- ===== src/Packets/Sound.antt =====
-- rw_packets.c: the buffers of a switch while its messages are read and answered.
pub mod Rules
pub mod Ports
pub mod Heard
use openflow_controller.Prelude.{
  ℕ, zero, suc, ◌+◌, ◌-◌, ◌*◌, ◌^◌, ◌%◌, ◌<◌, ◌≤◌, ◌≡◌, ◌⊎◌, inl, inr, refl, ap, ◌∙◌, Bool, true,
  false, arith, ◌==◌, Bool-cases, eq→==, ==→eq, le→leb, if◌then◌else◌, ltb,
}
use openflow_controller.Memory.{Bytes, Buffer, peek_be, touch}
use openflow_controller.Memory.Fields.{store_fields, extent}
use openflow_controller.Memory.Safe.{IsSafe, store_fields-IsSafe, touch-IsSafe}
use openflow_controller.Switch.{OfSwitch, RwStatus}
use openflow_controller.Packets.Echo.{
  copy_bytes, received_length, echo_buffers, echo_fields, make_echo_reply,
}
use openflow_controller.Packets.Requests.{read_features}
use openflow_controller.Packets.PacketOut.{send_probe_packet}
use openflow_controller.Packets.PortMod.{change_port_behavior, port_mod_header, port_mod_config}
use openflow_controller.Packets.Ports.{
  save_port, save_ports, save_connected_ports, handle_multipart_reply, port_count,
}
use openflow_controller.Packets.FlowMod.{instructions_at, src_table, dst_table}
use openflow_controller.Packets.FlowMod.NewFlow.{
  write_flow_mod, write_new_flow, dst_flow_fields, src_match_fields, goto_fields,
  src_closing_fields, in_data_at,
}

-- Buffers of at least the size that a new switch gets, with no access out of bounds so far. What is still to be sent
-- lies in the write buffer, and a switch that reads has sent nothing yet, and waits for the rest of a header, or of a
-- message that the read buffer holds.
pub record IsSound (s : OfSwitch) : Type 0 where
  pub read_safe : IsSafe 1500 s.read_buffer
  pub write_safe : IsSafe 1500 s.write_buffer
  pub ports_safe : IsSafe 3200 s.connected_ports
  pub read_size : s.read_buffer_size ≡ 1500
  pub write_size : s.write_buffer_size ≡ 1500
  pub in_flight : s.rw ≡ RwStatus.write → s.bytes_written + s.bytes_expected ≤ 1500
  pub at_rest : s.rw ≡ RwStatus.read → s.bytes_written ≡ 0
  pub awaited :
      s.rw ≡ RwStatus.read
      → (s.bytes_read + s.bytes_expected ≤ 1500)
        × (s.reading_header ≡ true → s.bytes_read + s.bytes_expected ≡ 8)

pub busy : ¬ (RwStatus.write ≡ RwStatus.read)
busy e = absurd cc

pub copy_bytes-IsSafe :
    {m n : ℕ} {src dst : Buffer} (k i j : ℕ)
    → IsSafe m src
    → IsSafe n dst
    → i + k ≤ m
    → j + k ≤ n
    → IsSafe m (copy_bytes k i src j dst).0 × IsSafe n (copy_bytes k i src j dst).1
unfolding copy_bytes touch
copy_bytes-IsSafe k i j a b hi hj =
    let one = touch-IsSafe a i k hi in
    let two = touch-IsSafe b j k hj in
    (one, record { alive = two.alive; sound = two.sound; room = two.room })

-- What the reply copies behind the header.
abbrev payload : ℕ → ℕ
payload length = (length + 2 ^ 64 - 8) % 2 ^ 64

payload_room : (length : ℕ) → 8 ≤ length → length ≤ 1500 → 8 + payload length ≤ 1500
payload_room length low high = omega (arith, low, high)

pub make_echo_reply-IsSound :
    (s : OfSwitch)
    → 8 ≤ received_length s
    → received_length s ≤ 1500
    → s.bytes_written ≡ 0
    → IsSound s
    → IsSound (make_echo_reply s)
unfolding make_echo_reply echo_buffers extent
make_echo_reply-IsSound s low high rest p = elim (Bool-cases (received_length s == 8)) [
  | inl bare ↦ rw bare (record {
    read_safe = p.read_safe;
    write_safe = answered;
    ports_safe = p.ports_safe;
    read_size = p.read_size;
    write_size = p.write_size;
    in_flight = λ _. omega (arith, rest);
    at_rest = λ e. absurd (busy e);
    awaited = λ e. absurd (busy e);
  })
  | inr more ↦
      let (read, write) =
        copy_bytes-IsSafe (payload (received_length s)) 8 8 p.read_safe answered
          (payload_room (received_length s) low high) (payload_room (received_length s) low high) in
      rw more (record {
        read_safe = read;
        write_safe = write;
        ports_safe = p.ports_safe;
        read_size = p.read_size;
        write_size = p.write_size;
        in_flight = λ _. omega (arith, rest);
        at_rest = λ e. absurd (busy e);
        awaited = λ e. absurd (busy e);
      })
]
  where
    answered : IsSafe 1500 (store_fields (echo_fields s.read_buffer.byte) 0 s.write_buffer)
    answered = store_fields-IsSafe p.write_safe _ 0 (omega arith)

pub send_probe_packet-IsSound :
    (s : OfSwitch) → s.bytes_written ≡ 0 → IsSound s → IsSound (send_probe_packet s)
unfolding send_probe_packet extent
send_probe_packet-IsSound s rest p = record {
  read_safe = p.read_safe;
  write_safe = store_fields-IsSafe p.write_safe _ 0 (omega arith);
  ports_safe = p.ports_safe;
  read_size = p.read_size;
  write_size = p.write_size;
  in_flight = λ _. omega (arith, rest);
  at_rest = λ e. absurd (busy e);
  awaited = λ e. absurd (busy e);
}

-- The table of ports is read inside its bounds, whatever the write buffer.
pub change_port_behavior-ports :
    (s : OfSwitch) (port : ℕ) (enable : Bool)
    → port < 50
    → IsSafe 3200 s.connected_ports
    → IsSafe 3200 (change_port_behavior s port enable).connected_ports
unfolding change_port_behavior copy_bytes
change_port_behavior-ports s port enable low p =
    touch-IsSafe p (64 * port + 8) 6 (omega (arith, low))

pub change_port_behavior-IsSound :
    (s : OfSwitch) (port : ℕ) (enable : Bool)
    → port < 50
    → s.bytes_written ≡ 0
    → IsSound s
    → IsSound (change_port_behavior s port enable)
unfolding change_port_behavior extent
change_port_behavior-IsSound s port enable low rest p =
    let (ports, buffer) =
      copy_bytes-IsSafe 6 (64 * port + 8) 16 p.ports_safe
        (store_fields-IsSafe p.write_safe (port_mod_header s.xid port) 0 (omega arith))
        (omega (arith, low)) (omega arith) in
    record {
      read_safe = p.read_safe;
      write_safe = store_fields-IsSafe buffer (port_mod_config enable) 0 (omega arith);
      ports_safe = ports;
      read_size = p.read_size;
      write_size = p.write_size;
      in_flight = λ _. omega (arith, rest);
      at_rest = λ e. absurd (busy e);
      awaited = λ e. absurd (busy e);
    }
