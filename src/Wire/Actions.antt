-- ===== src/Wire/Actions.antt =====
-- openflow.h: the structures of the actions, instructions, groups and meters.
use openflow_controller.Prelude.{[], ◌∷◌}
use openflow_controller.Wire.Layout.{
  uint8, uint16, uint32, uint64, array, Struct, struct_type, ofp_action_header, ofp_header,
}

-- header, table_id, pad, config
abbrev pub ofp_table_mod : Struct
ofp_table_mod = struct_type ofp_header ∷ uint8 ∷ array uint8 3 ∷ uint32 ∷ []

-- oxm_header, experimenter
abbrev pub ofp_oxm_experimenter_header : Struct
ofp_oxm_experimenter_header = uint32 ∷ uint32 ∷ []

-- type, len, mpls_ttl, pad
abbrev pub ofp_action_mpls_ttl : Struct
ofp_action_mpls_ttl = uint16 ∷ uint16 ∷ uint8 ∷ array uint8 3 ∷ []

-- type, len, ethertype, pad
abbrev pub ofp_action_push : Struct
ofp_action_push = uint16 ∷ uint16 ∷ uint16 ∷ array uint8 2 ∷ []

-- type, len, ethertype, pad
abbrev pub ofp_action_pop_mpls : Struct
ofp_action_pop_mpls = uint16 ∷ uint16 ∷ uint16 ∷ array uint8 2 ∷ []

-- type, len, group_id
abbrev pub ofp_action_group : Struct
ofp_action_group = uint16 ∷ uint16 ∷ uint32 ∷ []

-- type, len, nw_ttl, pad
abbrev pub ofp_action_nw_ttl : Struct
ofp_action_nw_ttl = uint16 ∷ uint16 ∷ uint8 ∷ array uint8 3 ∷ []

-- type, len, field
abbrev pub ofp_action_set_field : Struct
ofp_action_set_field = uint16 ∷ uint16 ∷ array uint8 4 ∷ []

-- type, len, experimenter
abbrev pub ofp_action_experimenter_header : Struct
ofp_action_experimenter_header = uint16 ∷ uint16 ∷ uint32 ∷ []

-- type, len
abbrev pub ofp_instruction : Struct
ofp_instruction = uint16 ∷ uint16 ∷ []

-- type, len, pad, metadata, metadata_mask
abbrev pub ofp_instruction_write_metadata : Struct
ofp_instruction_write_metadata = uint16 ∷ uint16 ∷ array uint8 4 ∷ uint64 ∷ uint64 ∷ []

-- type, len, meter_id
abbrev pub ofp_instruction_meter : Struct
ofp_instruction_meter = uint16 ∷ uint16 ∷ uint32 ∷ []

-- type, len, experimenter
abbrev pub ofp_instruction_experimenter : Struct
ofp_instruction_experimenter = uint16 ∷ uint16 ∷ uint32 ∷ []

-- len, weight, watch_port, watch_group, pad, actions
abbrev pub ofp_bucket : Struct
ofp_bucket =
    uint16 ∷ uint16 ∷ uint32 ∷ uint32 ∷ array uint8 4 ∷ array (struct_type ofp_action_header) 0 ∷ []

-- header, command, type, pad, group_id, buckets
abbrev pub ofp_group_mod : Struct
ofp_group_mod =
    struct_type ofp_header ∷ uint16 ∷ uint8 ∷ uint8 ∷ uint32 ∷ array (struct_type ofp_bucket) 0 ∷ []

-- type, len, queue_id
abbrev pub ofp_action_set_queue : Struct
ofp_action_set_queue = uint16 ∷ uint16 ∷ uint32 ∷ []
