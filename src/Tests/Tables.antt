-- ===== src/Tests/Tables.antt =====
-- A reply that describes two ports, out of order, and the message that closes one of them; and the
-- descriptor sets.
use openflow_controller.Wire.Oxm.{oxm_of_eth_dst, oxm_class, oxm_field, oxm_hasmask, oxm_length}
use openflow_controller.Wire.Oxm.Fields.{oxm_header_w, oxm_make_wild_header}
use openflow_controller.Wire.Oxm.Packing.{oxm_header_lem}
use openflow_controller.Prelude.{
  ℕ, zero, suc, ◌+◌, ◌*◌, ◌≡◌, ◌⊎◌, ◌↔◌, inl, refl, List, [], ◌∷◌, ◌++◌, true, false, arith,
  replicate,
}
use openflow_controller.Memory.{fresh, deliver, poke, peek_be}
use openflow_controller.Memory.Words.{AreBytes, AreBytes-deliver}
use openflow_controller.Switch.{OfSwitch, RwStatus}
use openflow_controller.Wire.Decode.{mac_at, decode_port_mod}
use openflow_controller.Packets.Echo.{received_length}
use openflow_controller.Packets.PortMod.{change_port_behavior}
use openflow_controller.Packets.Ports.{port_count, handle_multipart_reply}
use openflow_controller.Packets.Ports.Stats.{fault-handle_multipart_reply}
use openflow_controller.Memory.Safe.{IsSafe}
use openflow_controller.Packets.Ports.Table.{port_at, AreDistinct}
use openflow_controller.Packets.Ports.Closed.{HasTable, AreInTable, port_mod, described-decoded}
use openflow_controller.Controller.Setup.{initialize_controller}
use openflow_controller.Controller.Select.{is_set, remake_select_sets}
use openflow_controller.Controller.Select.Sets.{HasEntry, remake_select_sets-members}
use openflow_controller.Tests.Data.{zeros, holding}

abbrev description : (port_no last : ℕ) → List ℕ
description port_no last =
    0 ∷ 0 ∷ 0 ∷ port_no ∷ 0 ∷ 0 ∷ 0 ∷ 0 ∷ 10 ∷ 11 ∷ 12 ∷ 13 ∷ 14 ∷ last ∷ replicate 50 0

-- ports 3 and 1, in 144 bytes
abbrev reply : List ℕ
reply =
    4 ∷ 19 ∷ 0 ∷ 144 ∷ 0 ∷ 0 ∷ 0 ∷ 1 ∷ 0 ∷ 13 ∷ 0 ∷ 0 ∷ 0 ∷ 0 ∷ 0 ∷ 0 ∷ description 3 33
    ++ description 1 31

abbrev told : OfSwitch
told = holding reply

told_bytes : AreBytes told.read_buffer.byte
told_bytes = AreBytes-deliver reply 0 zeros (λ j. omega arith)

told-HasTable : HasTable told
unfolding fresh
told-HasTable = record { live = refl; size = refl; sound = refl }

two_ports : port_count (received_length told) ≡ 2
unfolding port_count received_length deliver poke peek_be
two_ports = refl

port_0 : port_at (16 + 64 * 0) told.read_buffer.byte ≡ 3
unfolding deliver poke peek_be
port_0 = refl

port_1 : port_at (16 + 64 * 1) told.read_buffer.byte ≡ 1
unfolding deliver poke peek_be
port_1 = refl

type : peek_be 2 8 told.read_buffer.byte ≡ 13
unfolding deliver poke peek_be
type = refl

told-AreDistinct : AreDistinct (port_count (received_length told)) 16 told.read_buffer.byte
told-AreDistinct zero (suc zero) before inside e = omega (arith, port_0, port_1, e)
told-AreDistinct zero zero before inside e = omega (arith, before)
told-AreDistinct zero (suc (suc j)) before inside e = omega (arith, inside, two_ports)
told-AreDistinct (suc i) j before inside e = omega (arith, before, inside, two_ports)

told-AreInTable : AreInTable (port_count (received_length told)) 16 told.read_buffer.byte
told-AreInTable zero inside = inl (omega (arith, port_0))
told-AreInTable (suc zero) inside = inl (omega (arith, port_1))
told-AreInTable (suc (suc j)) inside = absurd (omega (arith, inside, two_ports))

described-decoded_example :
    (decode_port_mod
        (change_port_behavior
          (handle_multipart_reply told)
          (port_at (16 + 64 * 1) told.read_buffer.byte)
          false).write_buffer.byte
      ≡ port_mod told.xid
          (port_at (16 + 64 * 1) told.read_buffer.byte)
          (mac_at (16 + 64 * 1 + 8) told.read_buffer.byte)
          false)
    × ((change_port_behavior
          (handle_multipart_reply told)
          (port_at (16 + 64 * 1) told.read_buffer.byte)
          false).connected_ports.fault
        ≡ false)
described-decoded_example =
    described-decoded told 1 false told_bytes told-HasTable (omega arith) type told-AreDistinct
      told-AreInTable (omega (arith, two_ports)) (omega (arith, port_1))

-- a reply of port statistics that announces its header alone, without the 8 bytes behind it
abbrev bare_stats : OfSwitch
bare_stats = holding (4 ∷ 19 ∷ 0 ∷ 8 ∷ 0 ∷ 0 ∷ 0 ∷ 1 ∷ 0 ∷ 4 ∷ [])

bare_stats-IsSafe : IsSafe 1500 bare_stats.read_buffer
unfolding fresh
bare_stats-IsSafe = record { alive = refl; sound = refl; room = omega arith }

bare_stats_facts : (peek_be 2 8 bare_stats.read_buffer.byte ≡ 4) × (received_length bare_stats ≡ 8)
unfolding received_length deliver poke peek_be
bare_stats_facts = (refl, refl)

fault-handle_multipart_reply_example : (handle_multipart_reply bare_stats).read_buffer.fault ≡ true
unfolding fresh received_length deliver poke peek_be
fault-handle_multipart_reply_example =
    fault-handle_multipart_reply bare_stats bare_stats-IsSafe refl bare_stats_facts.0
      (omega (arith, bare_stats_facts.1)) (omega (arith, bare_stats_facts.1))

-- The sets at the start: all entries are blank.
remake_select_sets-members_example :
    ((is_set 0 (remake_select_sets (initialize_controller 3)).read_sockets ≡ true) ↔ (
      ((initialize_controller 3).listening_socket_fd ≡ 0)
      ⊎ HasEntry RwStatus.read 0 (initialize_controller 3).switch_list))
    × ((is_set 0 (remake_select_sets (initialize_controller 3)).write_sockets ≡ true)
        ↔ HasEntry RwStatus.write 0 (initialize_controller 3).switch_list)
    × ((is_set 0 (remake_select_sets (initialize_controller 3)).error_sockets ≡ true)
        ↔ ((initialize_controller 3).listening_socket_fd ≡ 0))
remake_select_sets-members_example = remake_select_sets-members (initialize_controller 3) 0

oxm_header_lem_example :
    (oxm_class oxm_of_eth_dst ≡ 0xffff8000)
    × (oxm_field oxm_of_eth_dst ≡ 3)
    × (oxm_hasmask oxm_of_eth_dst ≡ 0)
    × (oxm_length oxm_of_eth_dst ≡ 6)
    × (oxm_make_wild_header oxm_of_eth_dst ≡ oxm_header_w 0x8000 3 6)
oxm_header_lem_example =
    oxm_header_lem 0x8000 3 0 6 (omega arith) (omega arith) (omega arith) (omega arith)
