-- ===== src/Packets/Sound/Heard.antt =====
-- rw_packets.c: the buffers of a switch when `read_packet_in` handles a packet-in message.
use openflow_controller.Prelude.{
  ℕ, ◌+◌, ◌<◌, ◌≤◌, ◌≡◌, ◌≢◌, refl, sym, ◌∙◌, subst, Option, none, some, ◌==◌, ==→eq, eq→==,
  Bool-cases, inl, inr, arith, ltb, if◌then◌else◌,
}
use openflow_controller.Memory.{Buffer, peek_be, touch}
use openflow_controller.Memory.Fields.{from}
use openflow_controller.Memory.Safe.{IsSafe, touch-IsSafe}
use openflow_controller.Memory.Words.{AreBytes}
use openflow_controller.Outcome.{Gives}
use openflow_controller.Switch.{OfSwitch}
use openflow_controller.Packets.FlowMod.{src_table, dst_table}
use openflow_controller.Packets.FlowMod.NewFlow.{
  write_new_flow, write_flow_mod, in_data_at, src_flow_length,
}
use openflow_controller.Packets.PacketIn.{read_packet_in, touch_frame, frame_offset}
use openflow_controller.Packets.PacketIn.Ports.{get_input_port_lem}
use openflow_controller.Packets.PacketIn.Learning.{neighbour, byte-touch_frame}
use openflow_controller.Packets.Sound.{IsSound}
use openflow_controller.Packets.Sound.Rules.{write_new_flow-IsSound}

-- The port that the message is taken to come from.
abbrev heard_port : OfSwitch → ℕ
heard_port s =
    let match = from 24 s.read_buffer.byte in
    if ltb 0 (peek_be 2 2 match) then peek_be 4 8 match else 0

-- The parts of the message that are read lie in the first 1500 bytes, and a neighbour was heard on a port that the table has
-- an entry for.
pub record IsHeard (s : OfSwitch) : Type 0 where
  pub frame : peek_be 2 12 s.read_buffer.byte ≤ peek_be 2 2 s.read_buffer.byte
  pub inside : frame_offset s.read_buffer.byte + 14 ≤ 1500
  pub learned : neighbour s ≡ 0 → in_data_at s.read_buffer.byte + 6 ≤ 1500
  pub near : neighbour s ≢ 0 → heard_port s < 50

touched : OfSwitch → OfSwitch
touched s = record s { read_buffer = touch_frame s.read_buffer }

touch_frame-IsSafe :
    (b : Buffer)
    → peek_be 2 12 b.byte ≤ peek_be 2 2 b.byte
    → frame_offset b.byte + 14 ≤ 1500
    → IsSafe 1500 b
    → IsSafe 1500 (touch_frame b)
unfolding touch_frame
touch_frame-IsSafe b frame inside p =
    elim (Bool-cases (ltb (peek_be 2 2 b.byte) (peek_be 2 12 b.byte))) [
      | inl short ↦ absurd (ground (arith, short, frame))
      | inr long ↦ rw long (touch-IsSafe p (frame_offset b.byte + 12) 2 (omega (arith, inside)))
    ]

touched-IsSound : (s : OfSwitch) → IsHeard s → IsSound s → IsSound (touched s)
unfolding touched
touched-IsSound s h p = record {
  read_safe = touch_frame-IsSafe s.read_buffer h.frame h.inside p.read_safe;
  write_safe = p.write_safe;
  ports_safe = p.ports_safe;
  read_size = p.read_size;
  write_size = p.write_size;
  in_flight = p.in_flight;
  at_rest = p.at_rest;
  awaited = p.awaited;
}

byte-write_new_flow :
    (s : OfSwitch) (table port : ℕ)
    → (write_new_flow s table port).read_buffer.byte ≡ s.read_buffer.byte
unfolding write_new_flow touch
byte-write_new_flow s table port = refl

bytes_expected-write_new_flow :
    (s : OfSwitch) (port : ℕ)
    → s.bytes_expected ≡ 0
    → (write_new_flow s src_table port).bytes_expected ≤ 1000
unfolding write_new_flow src_flow_length
bytes_expected-write_new_flow s port idle = omega (arith, idle)

bytes_written-write_new_flow :
    (s : OfSwitch) (table port : ℕ) → (write_new_flow s table port).bytes_written ≡ s.bytes_written
unfolding write_new_flow
bytes_written-write_new_flow s table port = refl

written_twice :
    (s : OfSwitch) (port : ℕ)
    → s.bytes_written ≡ 0
    → (write_new_flow (write_new_flow (touched s) src_table port) dst_table port).bytes_written ≡ 0
unfolding touched
written_twice s port rest =
    bytes_written-write_new_flow (write_new_flow (touched s) src_table port) dst_table port
    ∙ bytes_written-write_new_flow (touched s) src_table port
    ∙ rest

-- The two rules that a frame without a neighbour is learned by.
twice-IsSound :
    (s : OfSwitch) (port : ℕ)
    → s.bytes_expected ≡ 0
    → s.bytes_written ≡ 0
    → in_data_at s.read_buffer.byte + 6 ≤ 1500
    → IsSound s
    → IsSound (write_new_flow (write_new_flow s src_table port) dst_table port)
twice-IsSound s port idle rest room p =
    let one = write_new_flow-IsSound s src_table port room (omega (arith, idle)) rest p in
    write_new_flow-IsSound (write_new_flow s src_table port) dst_table port
      (subst (λ m. in_data_at m + 6 ≤ 1500) (sym (byte-write_new_flow s src_table port)) room)
      (bytes_expected-write_new_flow s port idle)
      (bytes_written-write_new_flow s src_table port ∙ rest) one

learned-IsSound :
    (s : OfSwitch) (port : ℕ)
    → s.bytes_expected ≡ 0
    → s.bytes_written ≡ 0
    → IsHeard s
    → neighbour s ≡ 0
    → IsSound s
    → IsSound (write_new_flow (write_new_flow (touched s) src_table port) dst_table port)
unfolding touched
learned-IsSound s port idle rest h nobody p =
    twice-IsSound (touched s) port idle rest
      (subst (λ m. in_data_at m + 6 ≤ 1500) (sym (byte-touch_frame s.read_buffer))
        (h.learned nobody))
      (touched-IsSound s h p)

-- The port of a link that is reported.
abbrev pub HasEntry : Option (ℕ × ℕ) → Type 0
HasEntry none = Unit {0}
HasEntry (some (nextdoor_fd, port)) = port < 50

pub read_packet_in-IsSound :
    (s : OfSwitch)
    → AreBytes s.read_buffer.byte
    → s.bytes_expected ≡ 0
    → s.bytes_written ≡ 0
    → (peek_be 1 14 s.read_buffer.byte ≡ 0 → IsHeard s)
    → IsSound s
    → Gives (read_packet_in s) (λ r. IsSound r.0 × (HasEntry r.1 × (r.0.bytes_written ≡ 0)))
unfolding read_packet_in write_flow_mod touched
read_packet_in-IsSound s bytes idle rest heard p =
    rw (get_input_port_lem (from 24 s.read_buffer.byte) (λ j. bytes (24 + j)))
      (elim (Bool-cases (peek_be 1 14 s.read_buffer.byte == 0)) [
        | inr other ↦ rw other (p, (tt, rest))
        | inl missed ↦
            let h = heard (==→eq (peek_be 1 14 s.read_buffer.byte) 0 missed) in
            elim (Bool-cases (neighbour s == 0)) [
              | inl nobody ↦
                  rw (missed, nobody)
                    (
                      learned-IsSound s (heard_port s) idle rest h (==→eq (neighbour s) 0 nobody) p,
                      (tt, written_twice s (heard_port s) rest),
                    )
              | inr somebody ↦
                  rw (missed, somebody)
                    (touched-IsSound s h p, (h.near (λ e. cc (eq→== (neighbour s) 0 e)), rest))
            ]
      ])
