-- ===== src/Wire/Layout.antt =====
-- The structures of openflow.h and rw_packets.h, as the C types of their fields in order. The offsets
-- are those of fields that stand one behind the other; Wire/Declared holds them against the layout of
-- a host that aligns its fields.
use openflow_controller.Prelude.{ℕ, zero, suc, ◌+◌, ◌*◌, max, List, [], ◌∷◌}

-- A type of C as its size and the alignment it asks for.
pub record CType : Type 0 where
  pub size : ℕ
  pub align : ℕ

abbrev pub uint8 : CType
uint8 = record { size = 1; align = 1 }

abbrev pub uint16 : CType
uint16 = record { size = 2; align = 2 }

abbrev pub uint32 : CType
uint32 = record { size = 4; align = 4 }

abbrev pub uint64 : CType
uint64 = record { size = 8; align = 8 }

abbrev pub array : CType → ℕ → CType
array t n = record { size = t.size * n; align = t.align }

abbrev pub Struct : Type 0
Struct = List CType

abbrev pub sizeof : Struct → ℕ
sizeof [] = 0
sizeof (t ∷ s) = t.size + sizeof s

-- The offset of the field of a given index, as `offsetof`.
abbrev pub offset : Struct → ℕ → ℕ
offset [] k = 0
offset (t ∷ s) zero = 0
offset (t ∷ s) (suc k) = t.size + offset s k

-- A structure is aligned as its most demanding field.
abbrev pub alignof : Struct → ℕ
alignof [] = 1
alignof (t ∷ s) = max t.align (alignof s)

abbrev pub struct_type : Struct → CType
struct_type s = record { size = sizeof s; align = alignof s }

-- version, type, length, xid
abbrev pub ofp_header : Struct
ofp_header = uint8 ∷ uint8 ∷ uint16 ∷ uint32 ∷ []

-- type, length
abbrev pub ofp_hello_elem_header : Struct
ofp_hello_elem_header = uint16 ∷ uint16 ∷ []

-- type, length, bitmaps
abbrev pub ofp_hello_elem_versionbitmap : Struct
ofp_hello_elem_versionbitmap = uint16 ∷ uint16 ∷ array uint32 0 ∷ []

-- header, elements
abbrev pub ofp_hello : Struct
ofp_hello = struct_type ofp_header ∷ array (struct_type ofp_hello_elem_header) 0 ∷ []

-- header, flags, miss_send_len
abbrev pub ofp_switch_config : Struct
ofp_switch_config = struct_type ofp_header ∷ uint16 ∷ uint16 ∷ []

-- port_no, pad, hw_addr, pad2, name, config, state, curr, advertised, supported, peer,
-- curr_speed, max_speed
abbrev pub ofp_port : Struct
ofp_port =
    uint32
    ∷ array uint8 4
    ∷ array uint8 6
    ∷ array uint8 2
    ∷ array uint8 16
    ∷ uint32
    ∷ uint32
    ∷ uint32
    ∷ uint32
    ∷ uint32
    ∷ uint32
    ∷ uint32
    ∷ uint32
    ∷ []

-- header, datapath_id, n_buffers, n_tables, auxiliary_id, pad, capabilities, reserved
abbrev pub ofp_switch_features : Struct
ofp_switch_features =
    struct_type ofp_header ∷ uint64 ∷ uint32 ∷ uint8 ∷ uint8 ∷ array uint8 2 ∷ uint32 ∷ uint32 ∷ []

-- header, reason, pad, desc
abbrev pub ofp_port_status : Struct
ofp_port_status = struct_type ofp_header ∷ uint8 ∷ array uint8 7 ∷ struct_type ofp_port ∷ []

-- header, port_no, pad, hw_addr, pad2, config, mask, advertise, pad3
abbrev pub ofp_port_mod : Struct
ofp_port_mod =
    struct_type ofp_header
    ∷ uint32
    ∷ array uint8 4
    ∷ array uint8 6
    ∷ array uint8 2
    ∷ uint32
    ∷ uint32
    ∷ uint32
    ∷ array uint8 4
    ∷ []

-- type, length, oxm_fields, pad
abbrev pub ofp_match : Struct
ofp_match = uint16 ∷ uint16 ∷ array uint8 0 ∷ array uint8 4 ∷ []

-- type, len, pad
abbrev pub ofp_action_header : Struct
ofp_action_header = uint16 ∷ uint16 ∷ array uint8 4 ∷ []

-- type, len, port, max_len, pad
abbrev pub ofp_action_output : Struct
ofp_action_output = uint16 ∷ uint16 ∷ uint32 ∷ uint16 ∷ array uint8 6 ∷ []

-- type, len, table_id, pad
abbrev pub ofp_instruction_goto_table : Struct
ofp_instruction_goto_table = uint16 ∷ uint16 ∷ uint8 ∷ array uint8 3 ∷ []

-- type, len, pad, actions
abbrev pub ofp_instruction_actions : Struct
ofp_instruction_actions =
    uint16 ∷ uint16 ∷ array uint8 4 ∷ array (struct_type ofp_action_header) 0 ∷ []

-- header, cookie, cookie_mask, table_id, command, idle_timeout, hard_timeout, priority,
-- buffer_id, out_port, out_group, flags, pad, match
abbrev pub ofp_flow_mod : Struct
ofp_flow_mod =
    struct_type ofp_header
    ∷ uint64
    ∷ uint64
    ∷ uint8
    ∷ uint8
    ∷ uint16
    ∷ uint16
    ∷ uint16
    ∷ uint32
    ∷ uint32
    ∷ uint32
    ∷ uint16
    ∷ array uint8 2
    ∷ struct_type ofp_match
    ∷ []

-- header, buffer_id, in_port, actions_len, pad, actions
abbrev pub ofp_packet_out : Struct
ofp_packet_out =
    struct_type ofp_header
    ∷ uint32
    ∷ uint32
    ∷ uint16
    ∷ array uint8 6
    ∷ array (struct_type ofp_action_header) 0
    ∷ []

-- header, buffer_id, total_len, reason, table_id, cookie, match
abbrev pub ofp_packet_in : Struct
ofp_packet_in =
    struct_type ofp_header ∷ uint32 ∷ uint16 ∷ uint8 ∷ uint8 ∷ uint64 ∷ struct_type ofp_match ∷ []

-- header, type, flags, pad, body
abbrev pub ofp_multipart_request : Struct
ofp_multipart_request =
    struct_type ofp_header ∷ uint16 ∷ uint16 ∷ array uint8 4 ∷ array uint8 0 ∷ []

-- header, type, flags, pad, body
abbrev pub ofp_multipart_reply : Struct
ofp_multipart_reply = struct_type ofp_header ∷ uint16 ∷ uint16 ∷ array uint8 4 ∷ array uint8 0 ∷ []

-- dest, source, type
abbrev pub enet_header : Struct
enet_header = array uint8 6 ∷ array uint8 6 ∷ uint16 ∷ []

-- e
abbrev pub probe_packet : Struct
probe_packet = struct_type enet_header ∷ []
