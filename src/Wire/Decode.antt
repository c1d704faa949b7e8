-- ===== src/Wire/Decode.antt =====
-- What a switch reads in the messages, by the rules stated in openflow.h: type-length-value entries, a
-- match padded to a multiple of 8, instructions up to the length in the header. Nothing here refers
-- to the functions that build messages.
use openflow_controller.Prelude.{
  ℕ, zero, suc, ◌+◌, ◌*◌, ◌/◌, List, [], ◌∷◌, Option, none, some, ◌==◌, ◌&&◌, leb, if◌then◌else◌,
}
use openflow_controller.Memory.{Bytes, peek_be}

pub record Header : Type 0 where
  pub version : ℕ
  pub type : ℕ
  pub length : ℕ
  pub xid : ℕ

unfoldable pub decode_header : Bytes → Header
unfolding peek_be
decode_header m = record {
  version = peek_be 1 0 m;
  type = peek_be 1 1 m;
  length = peek_be 2 2 m;
  xid = peek_be 4 4 m;
}

-- The bytes of an Ethernet address.
abbrev pub Mac : Type 0
Mac = ℕ × ℕ × ℕ × ℕ × ℕ × ℕ

unfoldable pub mac_at : ℕ → Bytes → Mac
mac_at i m = (m i, m (i + 1), m (i + 2), m (i + 3), m (i + 4), m (i + 5))

pub data Oxm : Type 0 where
  in_port : ℕ → Oxm
  eth_dst eth_src : Mac → Oxm

-- Match fields from offset `i` to `end`: class 0x8000, no mask, and a length that fits the field.
unfoldable decode_oxms : ℕ → ℕ → ℕ → Bytes → Option (List Oxm)
unfolding peek_be mac_at
decode_oxms zero i end m = none
decode_oxms (suc fuel) i end m =
    let header = peek_be 4 i m in
    let rest4 = decode_oxms fuel (i + 8) end m in
    let rest6 = decode_oxms fuel (i + 10) end m in
    if i == end
    then some []
    else if header == 0x80000004 && leb (i + 8) end
    then cons (in_port (peek_be 4 (i + 4) m)) rest4
    else if header == 0x80000606 && leb (i + 10) end
    then cons (eth_dst (mac_at (i + 4) m)) rest6
    else if header == 0x80000806 && leb (i + 10) end
    then cons (eth_src (mac_at (i + 4) m)) rest6
    else none
  where
    cons : Oxm → Option (List Oxm) → Option (List Oxm)
    cons x none = none
    cons x (some xs) = some (x ∷ xs)

pub data Instruction : Type 0 where
  goto_table : ℕ → Instruction
  -- one output action: its port and the bytes to send to a controller
  apply_output : ℕ → ℕ → Instruction

-- Instructions from offset `i` to `end`.
unfoldable decode_instructions : ℕ → ℕ → ℕ → Bytes → Option (List Instruction)
unfolding peek_be
decode_instructions zero i end m = none
decode_instructions (suc fuel) i end m =
    let type = peek_be 2 i m in
    let len = peek_be 2 (i + 2) m in
    let rest = decode_instructions fuel (i + len) end m in
    if i == end
    then some []
    else if type == 1 && len == 8 && leb (i + 8) end
    then cons (goto_table (m (i + 4))) rest
    else if type == 4
        && len == 24
        && leb (i + 24) end
        && peek_be 2 (i + 8) m == 0
        && peek_be 2 (i + 10) m == 16
    then cons (apply_output (peek_be 4 (i + 12) m) (peek_be 2 (i + 16) m)) rest
    else none
  where
    cons : Instruction → Option (List Instruction) → Option (List Instruction)
    cons x none = none
    cons x (some xs) = some (x ∷ xs)

pub record FlowMod : Type 0 where
  pub header : Header
  pub table_id : ℕ
  pub command : ℕ
  pub idle_timeout : ℕ
  pub hard_timeout : ℕ
  pub priority : ℕ
  pub buffer_id : ℕ
  pub flags : ℕ
  pub match : List Oxm
  pub instructions : List Instruction

-- A flow modification at offset 0: version 4, type 14, an OXM match of `match_length` bytes from
-- offset 48, padded to a multiple of 8, and instructions up to the length in the header.
unfoldable pub decode_flow_mod : Bytes → Option FlowMod
unfolding decode_header decode_oxms decode_instructions peek_be
decode_flow_mod m =
    let header = decode_header m in
    let match_length = peek_be 2 50 m in
    if header.version == 4 && header.type == 14 && peek_be 2 48 m == 1
    then build header (decode_oxms 9 52 (48 + match_length) m)
        (decode_instructions 9 (48 + (match_length + 7) / 8 * 8) header.length m)
    else none
  where
    build : Header → Option (List Oxm) → Option (List Instruction) → Option FlowMod
    build header (some oxms) (some instrs) = some (record {
      header = header;
      table_id = peek_be 1 24 m;
      command = peek_be 1 25 m;
      idle_timeout = peek_be 2 26 m;
      hard_timeout = peek_be 2 28 m;
      priority = peek_be 2 30 m;
      buffer_id = peek_be 4 32 m;
      flags = peek_be 2 44 m;
      match = oxms;
      instructions = instrs;
    })
    build header _ _ = none

-- A packet-in message: the match, padded to a multiple of 8, then two bytes and the frame.
unfoldable pub frame_at : Bytes → ℕ
unfolding peek_be
frame_at m = 24 + (peek_be 2 26 m + 7) / 8 * 8 + 2

-- The source address of the frame, behind the six bytes of the destination.
unfoldable pub source_mac : Bytes → Mac
unfolding frame_at mac_at
source_mac m = mac_at (frame_at m + 6) m

pub record PortMod : Type 0 where
  pub header : Header
  pub port_no : ℕ
  pub hw_addr : Mac
  pub config : ℕ
  pub mask : ℕ

-- A port modification at offset 0.
unfoldable pub decode_port_mod : Bytes → PortMod
unfolding decode_header mac_at peek_be
decode_port_mod m = record {
  header = decode_header m;
  port_no = peek_be 4 8 m;
  hw_addr = mac_at 16 m;
  config = peek_be 4 24 m;
  mask = peek_be 4 28 m;
}
