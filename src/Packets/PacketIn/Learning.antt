-- ===== src/Packets/PacketIn/Learning.antt =====
-- The branches of `read_packet_in`.
use mathlib.Core.Path.{ap₂}
use openflow_controller.Prelude.{
  ℕ, ◌+◌, ◌-◌, ◌^◌, ◌<◌, ◌≤◌, ◌≡◌, ◌≢◌, ◌⊎◌, refl, ap, ◌∙◌, arith, none, some, lt→ltb, ne→==, ltb,
  leb, if◌then◌else◌, le→leb, ltb→lt, Bool-cases, inl, inr, true, false, not, ◌&&◌, ◌||◌, ◌*◌,
}
use openflow_controller.Memory.{Bytes, Buffer, peek_be, touch}
use openflow_controller.Memory.Fields.{from}
use openflow_controller.Memory.Words.{AreBytes}
use openflow_controller.Memory.Safe.{IsSafe}
use openflow_controller.Wire.Decode.{decode_flow_mod, source_mac}
use openflow_controller.Switch.{OfSwitch, RwStatus, u32}
use openflow_controller.Outcome.{done}
use openflow_controller.Packets.FlowMod.{src_table, dst_table}
use openflow_controller.Packets.FlowMod.NewFlow.{write_new_flow, write_flow_mod}
use openflow_controller.Packets.FlowMod.Rules.{src_rule, dst_rule}
use openflow_controller.Packets.FlowMod.Learned.{write_new_flow-src-dst}
use openflow_controller.Packets.PacketIn.{
  get_input_port, is_switch_connection, frame_offset, touch_frame, read_packet_in,
}
use openflow_controller.Packets.PacketIn.Ports.{get_input_port_lem}

pub byte-touch_frame : (b : Buffer) → (touch_frame b).byte ≡ b.byte
unfolding touch_frame touch
byte-touch_frame b = ground arith

-- A packet-in message for a packet that matched no rule, with a match that is not empty, in a read
-- buffer of bytes.
pub record Missed (s : OfSwitch) : Type 0 where
  pub bytes : AreBytes s.read_buffer.byte
  pub reason : peek_be 1 14 s.read_buffer.byte ≡ 0
  pub matched : 0 < peek_be 2 26 s.read_buffer.byte

-- The field behind the first header of the match.
abbrev input_port : OfSwitch → ℕ
input_port s = peek_be 4 32 s.read_buffer.byte

-- The frame's type field, as far as it is a descriptor.
abbrev pub neighbour : OfSwitch → ℕ
neighbour s = is_switch_connection (from (frame_offset s.read_buffer.byte) s.read_buffer.byte)

rw-write_new_flow :
    (s : OfSwitch) (table port : ℕ) → (write_new_flow s table port).rw ≡ RwStatus.write
unfolding write_new_flow
rw-write_new_flow s table port = refl

-- What `is_switch_connection` makes of a type field.
abbrev shown : ℕ → ℕ
shown type = if ltb type 100 then type else 0

ge→ltb : (a b : ℕ) → b ≤ a → ltb a b ≡ false
ge→ltb a b h = ground arith

type_cases : (type : ℕ) → ((0 < type) × (type < 100)) ⊎ ((type ≡ 0) ⊎ (100 ≤ type))
type_cases type = elim (Bool-cases (ltb type 100)) [
  | inl below ↦ elim (Bool-cases (ltb 0 type)) [
    | inl above ↦ inl (ltb→lt 0 type above, ltb→lt type 100 below)
    | inr bare ↦ ground arith
  ]
  | inr high ↦ ground arith
]

shown-small : (type : ℕ) → type < 100 → shown type ≡ type
shown-small type h = ground (arith, lt→ltb type 100 h)

shown-none : (type : ℕ) → (type ≡ 0) ⊎ (100 ≤ type) → shown type ≡ 0
shown-none type h = ground arith

shown-frame : (i : ℕ) (m : Bytes) → is_switch_connection (from i m) ≡ shown (peek_be 2 (i + 12) m)
unfolding is_switch_connection peek_be
shown-frame i m =
    let high : i + (12 + 0) ≡ i + 12 + 0 = omega arith in
    let low : i + (12 + 1) ≡ i + 12 + 1 = omega arith in
    ap₂ (λ a b. shown ((0 * 256 + m a) * 256 + m b)) high low

ne_of_eq : (type n : ℕ) → 0 < type → n ≡ type → n ≢ 0
ne_of_eq type n h e zero_n = omega (arith, h, e, zero_n)

touch_frame-inside :
    (b : Buffer) (len total : ℕ)
    → IsSafe len b
    → peek_be 2 2 b.byte ≡ len
    → peek_be 2 12 b.byte ≡ total
    → 14 ≤ total
    → total ≤ len
    → touch_frame b ≡ b
unfolding touch_frame touch frame_offset
touch_frame-inside b len total safe at_len at_total low high =
    let m = b.byte in
    let in_message : ltb (peek_be 2 2 m) (peek_be 2 12 m) ≡ false =
      ge→ltb (peek_be 2 2 m) (peek_be 2 12 m) (omega (arith, at_len, at_total, high)) in
    let inside : leb (peek_be 2 2 m - peek_be 2 12 m + 12 + 2) b.size ≡ true =
      le→leb (peek_be 2 2 m - peek_be 2 12 m + 12 + 2) b.size
        (omega (arith, at_len, at_total, low, high, safe.room)) in
    let unharmed : (b.fault || not (b.live && leb (peek_be 2 2 m - peek_be 2 12 m + 12 + 2) b.size))
        ≡ b.fault =
      rw (inside, safe.alive, safe.sound) refl in
    rw in_message (ap (λ x. record b { fault = x }) unharmed)

module _ (s : OfSwitch) (missed : Missed s) where
  found_port : get_input_port (from 24 s.read_buffer.byte) ≡ done (input_port s)
  unfolding peek_be
  found_port =
      get_input_port_lem (from 24 s.read_buffer.byte) (λ j. missed.bytes (24 + j))
      ∙ rw (lt→ltb 0 (peek_be 2 26 s.read_buffer.byte) missed.matched)

  linked :
      neighbour s ≢ 0
      → read_packet_in s
        ≡ done
            (record s { read_buffer = touch_frame s.read_buffer }, some (neighbour s, input_port s))
  unfolding read_packet_in
  linked h = rw (found_port, missed.reason, ne→== (neighbour s) 0 h)

  read_packet_in-learns :
      neighbour s ≡ 0
      → read_packet_in s
        ≡ done (
          write_new_flow
              (write_new_flow
                (record s { read_buffer = touch_frame s.read_buffer })
                src_table
                (input_port s))
              dst_table
              (input_port s),
          none,
        )
  unfolding read_packet_in write_flow_mod
  read_packet_in-learns h = rw (found_port, missed.reason, h)

  -- Where the last `total_len` bytes of a packet-in message are an Ethernet frame inside a sound read buffer, and the
  -- switch missed the frame and sent it with a match that is not empty, the frame's type field alone decides. If it is
  -- from 1 to 99, the switch is left as it is, and the type is reported as the neighbour's descriptor, with the
  -- input port. If it is 0, or 100 or more, no neighbour is reported.
  pub read_packet_in-link :
      (len total : ℕ)
      → IsSafe len s.read_buffer
      → peek_be 2 2 s.read_buffer.byte ≡ len
      → peek_be 2 12 s.read_buffer.byte ≡ total
      → 14 ≤ total
      → total ≤ len
      → let type = peek_be 2 (len - total + 12) s.read_buffer.byte in
        ((0 < type)
          × (type < 100)
          × (read_packet_in s ≡ done (s, some (type, peek_be 4 32 s.read_buffer.byte))))
        ⊎ (((type ≡ 0) ⊎ (100 ≤ type)) × (t : OfSwitch) × (read_packet_in s ≡ done (t, none)))
  unfolding frame_offset is_switch_connection
  read_packet_in-link len total safe at_len at_total low high =
      let m = s.read_buffer.byte in
      let type = peek_be 2 (len - total + 12) m in
      let at : frame_offset m ≡ len - total = ap₂ (λ x y. x - y) at_len at_total in
      let here : neighbour s ≡ shown type =
        shown-frame (frame_offset m) m ∙ ap (λ x. shown (peek_be 2 (x + 12) m)) at in
      elim (type_cases type) [
        | inl (some_type, small) ↦
            let same = here ∙ shown-small type small in
            inl (
              some_type,
              small,
              linked (ne_of_eq type (neighbour s) some_type same)
                  ∙ ap₂ (λ b n. done (record s { read_buffer = b }, some (n, input_port s)))
                      (touch_frame-inside s.read_buffer len total safe at_len at_total low high)
                      same,
            )
        | inr other ↦ inr (other, _, read_packet_in-learns (here ∙ shown-none type other))
      ]

  small_input_port : input_port s < 2 ^ 32
  unfolding peek_be
  small_input_port =
      omega (arith, missed.bytes 32, missed.bytes 33, missed.bytes 34, missed.bytes 35)

  -- A frame that the switch missed, sent with a match that is not empty, and that shows no neighbour is
  -- learned from, if nothing waits to be written and the transaction id has 32 bits: its source address,
  -- on the input port, is let through to the destination table, which sends packets for that address
  -- out of that port. The two rules go out in this order, under two transaction ids in a row.
  pub read_packet_in-rules :
      neighbour s ≡ 0
      → s.xid < 2 ^ 32
      → s.bytes_expected ≡ 0
      → let mac = source_mac s.read_buffer.byte in
        (t : OfSwitch) × (read_packet_in s ≡ done (t, none))
        × (decode_flow_mod t.write_buffer.byte
            ≡ some (src_rule mac (peek_be 4 8 s.read_buffer.byte) (input_port s) s.xid))
        × (decode_flow_mod (from 80 t.write_buffer.byte)
            ≡ some (dst_rule mac (input_port s) (u32 (s.xid + 1))))
        × (t.bytes_expected ≡ 80 + 88)
        × (t.rw ≡ RwStatus.write)
  read_packet_in-rules h small empty =
      let s' = record s { read_buffer = touch_frame s.read_buffer } in
      let m = byte-touch_frame s.read_buffer in
      let (src, dst, n) =
        write_new_flow-src-dst s' (input_port s) small small_input_port (rw m missed.bytes) empty in
      (
        write_new_flow (write_new_flow s' src_table (input_port s)) dst_table (input_port s),
        read_packet_in-learns h,
        src
            ∙ ap
                (λ (b : Bytes). some (src_rule (source_mac b) (peek_be 4 8 b) (input_port s) s.xid))
                m,
        dst ∙ ap (λ (b : Bytes). some (dst_rule (source_mac b) (input_port s) (u32 (s.xid + 1)))) m,
        n,
        rw-write_new_flow _ dst_table (input_port s),
      )
