-- ===== src/Packets/FlowMod/Rules.antt =====
-- The flow modifications, as a switch decodes them.
use mathlib.Core.Path.{ap₂}
use openflow_controller.Prelude.{ℕ, ◌^◌, ◌<◌, ◌≡◌, ap, [], ◌∷◌, some, true, false}
use openflow_controller.Memory.{Bytes, poke, poke_be, peek_be}
use openflow_controller.Memory.Fields.{poke_fields}
use openflow_controller.Memory.Words.{be32_lem, bytes_of}
use openflow_controller.Wire.Decode.{
  Header, FlowMod, Mac, decode_flow_mod, in_port, eth_dst, eth_src, apply_output, goto_table,
  mac_at,
}
use openflow_controller.Packets.FlowMod.{instructions_at, default_miss_fields}
use openflow_controller.Packets.FlowMod.NewFlow.{
  dst_flow_fields, src_match_fields, goto_fields, src_closing_fields,
}

abbrev flow_header : ℕ → ℕ → Header
flow_header length xid = record { version = 4; type = 14; length = length; xid = xid }

-- Packets to `mac` leave by `port`, for a minute.
abbrev pub dst_rule : Mac → ℕ → ℕ → FlowMod
dst_rule mac port xid = record {
  header = flow_header 88 xid;
  table_id = 1;
  command = 0;
  idle_timeout = 60;
  hard_timeout = 60;
  priority = 1;
  buffer_id = 0xffffffff;
  flags = 7;
  match = eth_dst mac ∷ [];
  instructions = apply_output port 6400 ∷ [];
}

-- Packets from `mac` on `port` go on to table 1, for a minute; the packet held in `buffer` first.
abbrev pub src_rule : Mac → ℕ → ℕ → ℕ → FlowMod
src_rule mac buffer port xid = record {
  header = flow_header 80 xid;
  table_id = 0;
  command = 0;
  idle_timeout = 60;
  hard_timeout = 60;
  priority = 1;
  buffer_id = buffer;
  flags = 7;
  match = in_port port ∷ eth_src mac ∷ [];
  instructions = goto_table 1 ∷ [];
}

abbrev broadcast_mac : Mac
broadcast_mac = (255, 255, 255, 255, 255, 255)

-- For good and at the lowest priority: table 0 sends all packets whole to the controller, table 1
-- floods packets to the broadcast address.
abbrev pub miss_rule : ℕ → FlowMod
miss_rule xid = record {
  header = flow_header 80 xid;
  table_id = 0;
  command = 0;
  idle_timeout = 0;
  hard_timeout = 0;
  priority = 0;
  buffer_id = 0xffffffff;
  flags = 7;
  match = [];
  instructions = apply_output 0xfffffffd 0xffff ∷ [];
}

abbrev pub broadcast_rule : ℕ → FlowMod
broadcast_rule xid = record {
  header = flow_header 88 xid;
  table_id = 1;
  command = 0;
  idle_timeout = 0;
  hard_timeout = 0;
  priority = 0;
  buffer_id = 0xffffffff;
  flags = 7;
  match = eth_dst broadcast_mac ∷ [];
  instructions = apply_output 0xfffffffb 0xffff ∷ [];
}

module _ (xid : ℕ) (small : xid < 2 ^ 32) (m : Bytes) where
  miss-decodes :
      decode_flow_mod (poke_fields (default_miss_fields xid false) 0 m) ≡ some (miss_rule xid)
  unfolding decode_flow_mod poke_fields default_miss_fields poke_be poke
  miss-decodes = ap (λ x. some (miss_rule x)) (be32_lem xid small)

  pub broadcast-decodes :
      decode_flow_mod (poke_fields (default_miss_fields xid true) 0 m) ≡ some (broadcast_rule xid)
  unfolding decode_flow_mod poke_fields default_miss_fields poke_be poke
  broadcast-decodes = ap (λ x. some (broadcast_rule x)) (be32_lem xid small)

  -- The rule in front is not touched by the one behind it.
  pub both-decode :
      (xid' : ℕ)
      → decode_flow_mod (
          poke_fields
            (default_miss_fields xid' true)
            80
            (poke_fields (default_miss_fields xid false) 0 m))
        ≡ some (miss_rule xid)
  unfolding decode_flow_mod poke_fields default_miss_fields poke_be poke
  both-decode xid' = ap (λ x. some (miss_rule x)) (be32_lem xid small)

  module _ (mac : Bytes) (port : ℕ) (small_port : port < 2 ^ 32) where
    pub dst-decodes :
        decode_flow_mod (poke_fields (dst_flow_fields xid mac port) 0 m)
        ≡ some (dst_rule (mac_at 0 (bytes_of mac)) port xid)
    unfolding decode_flow_mod poke_fields dst_flow_fields poke_be poke mac_at
    dst-decodes =
        ap₂ (λ p x. some (dst_rule (mac_at 0 (bytes_of mac)) p x)) (be32_lem port small_port)
          (be32_lem xid small)

    pub src-decodes :
        (buffer : Bytes)
        → decode_flow_mod (
            poke_fields (src_closing_fields buffer) 0 (
              poke_fields goto_fields
                (instructions_at 22)
                (poke_fields (src_match_fields xid mac port) 0 m)))
          ≡ some (src_rule (mac_at 0 (bytes_of mac)) (peek_be 4 0 (bytes_of buffer)) port xid)
    unfolding decode_flow_mod poke_fields src_match_fields src_closing_fields instructions_at
        poke_be poke mac_at
    src-decodes buffer =
        ap₂ (λ p x. some (src_rule (mac_at 0 (bytes_of mac)) (peek_be 4 0 (bytes_of buffer)) p x))
          (be32_lem port small_port) (be32_lem xid small)

    pub src-dst-decode :
        (buffer : Bytes) (xid' : ℕ)
        → decode_flow_mod (
            poke_fields (dst_flow_fields xid' mac port) 80 (
              poke_fields (src_closing_fields buffer) 0 (
                poke_fields goto_fields
                  (instructions_at 22)
                  (poke_fields (src_match_fields xid mac port) 0 m))))
          ≡ some (src_rule (mac_at 0 (bytes_of mac)) (peek_be 4 0 (bytes_of buffer)) port xid)
    unfolding decode_flow_mod poke_fields src_match_fields src_closing_fields dst_flow_fields
        instructions_at poke_be poke mac_at
    src-dst-decode buffer xid' =
        ap₂ (λ p x. some (src_rule (mac_at 0 (bytes_of mac)) (peek_be 4 0 (bytes_of buffer)) p x))
          (be32_lem port small_port) (be32_lem xid small)
