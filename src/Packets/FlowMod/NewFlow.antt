-- ===== src/Packets/FlowMod/NewFlow.antt =====
-- rw_packets.c: the rules learned from a packet, `write_new_flow`, and the choice of rules,
-- `write_flow_mod`.
use openflow_controller.Prelude.{
  ℕ, ◌+◌, ◌-◌, true, false, List, [], ◌∷◌, ◌++◌, Option, none, some, ◌==◌, if◌then◌else◌,
}
use openflow_controller.Memory.{Bytes, peek_be, touch}
use openflow_controller.Memory.Fields.{Field, raw_fields, from, store_fields}
use openflow_controller.Wire.Enums.{
  OfpType, OfpPortNo, OfpMatchType, OfpInstructionType, ofp_type, ofp_port_no, ofp_match_type,
  ofp_instruction_type, ofpat_output, ofp_no_buffer,
}
use openflow_controller.Wire.Oxm.{oxm_of_in_port, oxm_of_eth_dst, oxm_of_eth_src}
use openflow_controller.Wire.Layout.{
  sizeof, offset, ofp_header, ofp_match, ofp_flow_mod, ofp_instruction_actions, ofp_action_output,
  ofp_instruction_goto_table, ofp_packet_in,
}
use openflow_controller.Switch.{RwStatus, OfSwitch, u16, u32}
use openflow_controller.Packets.FlowMod.{
  src_table, dst_table, round_up, rule_flags, match_type_at, match_length_at, oxm_fields_at,
  rule_fields, instructions_at, apply_actions_length, write_default_miss,
}

-- `ntohs(in->match.length)` of a packet-in message
unfoldable pub packet_in_match_length : Bytes → ℕ
packet_in_match_length m = peek_be 2 (offset ofp_packet_in 6 + offset ofp_match 1) m

-- The offset of `in_data`, whose six bytes are the address that the rules are about.
unfoldable pub in_data_at : Bytes → ℕ
unfolding packet_in_match_length round_up
in_data_at m = sizeof ofp_packet_in + round_up (packet_in_match_length m)

-- The stores behind both branches.
abbrev closing_fields : List Field
closing_fields =
    (offset ofp_flow_mod 10, 4, 0)
    ∷ (offset ofp_flow_mod 11, 2, rule_flags)
    ∷ (match_type_at, 2, ofp_match_type OfpMatchType.oxm)
    ∷ []

-- `mod->header.length` of the rules of the two tables
unfoldable pub dst_flow_length : ℕ
unfolding round_up
dst_flow_length =
    sizeof ofp_flow_mod
    + sizeof ofp_instruction_actions
    + sizeof ofp_action_output
    + round_up 14
    - sizeof ofp_match

unfoldable pub src_flow_length : ℕ
unfolding round_up
src_flow_length =
    sizeof ofp_flow_mod + sizeof ofp_instruction_goto_table + round_up (22 - sizeof ofp_match)

-- The rule of the destination table: packets to the address `mac` leave by `out_port`.
unfoldable pub dst_flow_fields : ℕ → Bytes → ℕ → List Field
unfolding dst_flow_length instructions_at raw_fields
dst_flow_fields xid mac out_port =
    let instr = instructions_at 14 in
    let action = instr + sizeof ofp_instruction_actions in
    rule_fields xid dst_table 60 1
    ++ (offset ofp_flow_mod 9, 4, ofp_port_no OfpPortNo.flood)
      ∷ (oxm_fields_at, 4, oxm_of_eth_dst)
      ∷ (raw_fields 6 (oxm_fields_at + 4) mac
          ++ (match_length_at, 2, 14)
            ∷ (
              instr + offset ofp_instruction_actions 0,
              2,
              ofp_instruction_type OfpInstructionType.apply_actions,
            )
            ∷ (instr + offset ofp_instruction_actions 1, 2, apply_actions_length)
            ∷ (action + offset ofp_action_output 1, 2, sizeof ofp_action_output)
            ∷ (action + offset ofp_action_output 0, 2, ofpat_output)
            ∷ (action + offset ofp_action_output 2, 4, out_port)
            ∷ (action + offset ofp_action_output 3, 2, 6400)
            ∷ (offset ofp_header 2, 2, dst_flow_length)
            ∷ (offset ofp_flow_mod 8, 4, ofp_no_buffer)
            ∷ closing_fields)

-- The rule of the source table: packets from `mac` on `port` go on to the destination table. These are
-- the stores up to the instruction, the instruction, and those behind it.
unfoldable pub src_match_fields : ℕ → Bytes → ℕ → List Field
unfolding raw_fields
src_match_fields xid mac port =
    rule_fields xid src_table 60 1
    ++ (oxm_fields_at, 4, oxm_of_in_port)
      ∷ (oxm_fields_at + 4, 4, port)
      ∷ (oxm_fields_at + 8, 4, oxm_of_eth_src)
      ∷ (raw_fields 6 (oxm_fields_at + 12) mac
          ++ (match_length_at, 2, 22)
            ∷ (offset ofp_flow_mod 9, 4, ofp_port_no OfpPortNo.flood)
            ∷ [])

abbrev pub goto_fields : List Field
goto_fields =
    (offset ofp_instruction_goto_table 0, 2, ofp_instruction_type OfpInstructionType.goto_table)
    ∷ (offset ofp_instruction_goto_table 1, 2, sizeof ofp_instruction_goto_table)
    ∷ (offset ofp_instruction_goto_table 2, 1, dst_table)
    ∷ []

unfoldable pub src_closing_fields : Bytes → List Field
unfolding src_flow_length raw_fields
src_closing_fields buffer_id =
    (offset ofp_header 2, 2, src_flow_length)
    ∷ (raw_fields 4 (offset ofp_flow_mod 8) buffer_id ++ closing_fields)

-- The instruction of the source table is put at an offset from the start of the buffer, all else at an
-- offset from `bytes_expected`.
unfoldable pub write_new_flow : OfSwitch → ℕ → ℕ → OfSwitch
unfolding in_data_at dst_flow_fields src_match_fields src_closing_fields instructions_at
write_new_flow s table out_port =
    let m = s.read_buffer.byte in
    let base = s.bytes_expected in
    let mac = from (in_data_at m) m in
    record s {
      read_buffer = touch (in_data_at m) 6 s.read_buffer;
      write_buffer =
          if table == dst_table
          then store_fields (dst_flow_fields s.xid mac out_port) base s.write_buffer
          else store_fields (src_closing_fields (from (offset ofp_packet_in 1) m)) base (
              store_fields goto_fields (instructions_at 22)
                (store_fields (src_match_fields s.xid mac out_port) base s.write_buffer));
      xid = u32 (s.xid + 1);
      rw = RwStatus.write;
      of_status = ofp_type OfpType.flow_mod;
      bytes_expected =
          u16 (base + (if table == dst_table then dst_flow_length else src_flow_length));
    }

-- why a flow modification is written
pub data Reason : Type 0 where
  default_flow new_flow unknown : Reason

-- `none` is `exit(1)`. The argument `connection` is never read.
unfoldable pub write_flow_mod : OfSwitch → Reason → ℕ → ℕ → Option OfSwitch
write_flow_mod s Reason.default_flow ip_match out_port =
    some (write_default_miss (write_default_miss s false) true)
write_flow_mod s Reason.new_flow ip_match out_port = some (write_new_flow s ip_match out_port)
write_flow_mod s Reason.unknown ip_match out_port = none
