-- ===== src/Packets/FlowMod.antt =====
-- rw_packets.c: flow modifications. Both tables get a rule of priority 0 when a switch connects, and
-- each packet that misses adds a rule to both tables.
pub mod NewFlow
pub mod Rules
pub mod Learned
use openflow_controller.Prelude.{
  ℕ, ◌+◌, ◌-◌, ◌*◌, ◌/◌, ◌%◌, bit_or, Bool, true, false, List, [], ◌∷◌, ◌++◌, ◌==◌, if◌then◌else◌,
}
use openflow_controller.Memory.{Bytes, Buffer, peek_be, touch}
use openflow_controller.Memory.Fields.{Field, store_fields}
use openflow_controller.Wire.Enums.{
  OfpType, OfpPortNo, OfpFlowModCommand, OfpFlowModFlags, OfpMatchType, OfpInstructionType,
  OfpControllerMaxLen, ofp_version, ofp_type, ofp_port_no, ofp_flow_mod_command, ofp_flow_mod_flags,
  ofp_match_type, ofp_instruction_type, ofp_controller_max_len, ofpat_output, ofp_no_buffer,
}
use openflow_controller.Wire.Oxm.{oxm_of_in_port, oxm_of_eth_dst, oxm_of_eth_src}
use openflow_controller.Wire.Layout.{
  sizeof, offset, ofp_header, ofp_match, ofp_flow_mod, ofp_instruction_actions, ofp_action_output,
  ofp_instruction_goto_table, ofp_packet_in,
}
use openflow_controller.Switch.{RwStatus, OfSwitch, u16, u32}

abbrev pub src_table : ℕ
src_table = 0

abbrev pub dst_table : ℕ
dst_table = 1

pub round_up : ℕ → ℕ
round_up num = if num % 8 == 0 then num else (num / 8 + 1) * 8

-- `OFPFF_SEND_FLOW_REM | OFPFF_CHECK_OVERLAP | OFPFF_RESET_COUNTS`
abbrev pub rule_flags : ℕ
rule_flags =
    bit_or
      (bit_or (ofp_flow_mod_flags OfpFlowModFlags.send_flow_rem)
        (ofp_flow_mod_flags OfpFlowModFlags.check_overlap))
      (ofp_flow_mod_flags OfpFlowModFlags.reset_counts)

-- offsets in a flow modification
abbrev pub match_type_at : ℕ
match_type_at = offset ofp_flow_mod 13 + offset ofp_match 0

abbrev pub match_length_at : ℕ
match_length_at = offset ofp_flow_mod 13 + offset ofp_match 1

abbrev pub oxm_fields_at : ℕ
oxm_fields_at = offset ofp_flow_mod 13 + offset ofp_match 2

-- The assignments that both kinds of rule share, up to the timeouts and the priority.
abbrev pub rule_fields : ℕ → ℕ → ℕ → ℕ → List Field
rule_fields xid table timeout priority =
    (offset ofp_header 1, 1, ofp_type OfpType.flow_mod)
    ∷ (offset ofp_header 0, 1, ofp_version)
    ∷ (offset ofp_header 3, 4, xid)
    ∷ (offset ofp_flow_mod 3, 1, table)
    ∷ (offset ofp_flow_mod 1, 8, 0)
    ∷ (offset ofp_flow_mod 2, 8, 0)
    ∷ (offset ofp_flow_mod 4, 1, ofp_flow_mod_command OfpFlowModCommand.add)
    ∷ (offset ofp_flow_mod 5, 2, timeout)
    ∷ (offset ofp_flow_mod 6, 2, timeout)
    ∷ (offset ofp_flow_mod 7, 2, priority)
    ∷ []

-- Where the instructions follow a match of a given length.
unfoldable pub instructions_at : ℕ → ℕ
unfolding round_up
instructions_at match_length = sizeof ofp_flow_mod + round_up match_length - sizeof ofp_match

abbrev pub apply_actions_length : ℕ
apply_actions_length = sizeof ofp_instruction_actions + sizeof ofp_action_output

-- `mod->header.length`, as each branch computes it.
unfoldable pub default_miss_length : Bool → ℕ
unfolding round_up
default_miss_length broadcast_rule =
    if broadcast_rule
    then sizeof ofp_instruction_actions
      + sizeof ofp_flow_mod
      + round_up (14 - sizeof ofp_match + sizeof ofp_action_output)
    else sizeof ofp_flow_mod + sizeof ofp_instruction_actions + sizeof ofp_action_output

-- The rule of a table that matches all packets (0), or the broadcast address (1).
unfoldable pub default_miss_fields : ℕ → Bool → List Field
unfolding round_up instructions_at default_miss_length
default_miss_fields xid broadcast_rule =
    rule_fields xid (if broadcast_rule then dst_table else src_table) 0 0
    ++ (offset ofp_flow_mod 8, 4, ofp_no_buffer)
      ∷ (offset ofp_flow_mod 9, 4, 0)
      ∷ (offset ofp_flow_mod 10, 4, 0)
      ∷ (offset ofp_flow_mod 11, 2, rule_flags)
      ∷ (match_type_at, 2, ofp_match_type OfpMatchType.oxm)
      ∷ (if broadcast_rule then broadcast else all_packets)
  where
    -- the stores to the action and the instruction behind both branches
    last : ℕ → List Field
    last instr =
        let action = instr + sizeof ofp_instruction_actions in
        (action + offset ofp_action_output 1, 2, sizeof ofp_action_output)
        ∷ (action + offset ofp_action_output 0, 2, ofpat_output)
        ∷ (
          action + offset ofp_action_output 3,
          2,
          ofp_controller_max_len OfpControllerMaxLen.no_buffer,
        )
        ∷ (instr, 2, ofp_instruction_type OfpInstructionType.apply_actions)
        ∷ []

    broadcast : List Field
    broadcast =
        let instr = instructions_at 14 in
        (oxm_fields_at, 4, oxm_of_eth_dst)
        ∷ (oxm_fields_at + 4, 6, 0xffffffffffff)
        ∷ (match_length_at, 2, 14)
        ∷ (instr + offset ofp_instruction_actions 1, 2, apply_actions_length)
        ∷ (
          instr + sizeof ofp_instruction_actions + offset ofp_action_output 2,
          4,
          ofp_port_no OfpPortNo.flood,
        )
        ∷ (offset ofp_header 2, 2, default_miss_length true)
        ∷ last instr

    all_packets : List Field
    all_packets =
        let instr = sizeof ofp_flow_mod in
        (match_length_at, 2, 4)
        ∷ (instr + offset ofp_instruction_actions 1, 2, apply_actions_length)
        ∷ (
          instr + sizeof ofp_instruction_actions + offset ofp_action_output 2,
          4,
          ofp_port_no OfpPortNo.controller,
        )
        ∷ (offset ofp_header 2, 2, default_miss_length false)
        ∷ last instr

-- The message goes behind those that already wait to be written.
unfoldable pub write_default_miss : OfSwitch → Bool → OfSwitch
unfolding default_miss_fields
write_default_miss s broadcast_rule = record s {
  write_buffer =
      store_fields (default_miss_fields s.xid broadcast_rule) s.bytes_expected s.write_buffer;
  xid = u32 (s.xid + 1);
  rw = RwStatus.write;
  of_status = ofp_type OfpType.flow_mod;
  bytes_expected = u16 (s.bytes_expected + default_miss_length broadcast_rule);
}
