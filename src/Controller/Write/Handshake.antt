-- ===== src/Controller/Write/Handshake.antt =====
-- The messages of a new connection.
use openflow_controller.Prelude.{ℕ, ◌+◌, ◌≡◌, refl, List, [], ◌∷◌, Option, true, false, arith}
use openflow_controller.Memory.{Bytes, fresh, zero_fill, poke, poke_be}
use openflow_controller.Memory.Fields.{Field, poke_fields, store_fields, extent}
use openflow_controller.Memory.Safe.{IsSafe}
use openflow_controller.Outcome.{Outcome, done, ◌>>=◌}
use openflow_controller.Switch.{OfSwitch, RwStatus, u32}
use openflow_controller.Transfer.{slice}
use openflow_controller.Transfer.Chunks.{wrote, Splits}
use openflow_controller.Packets.Requests.{
  write_openflow_hello, request_features, set_config, get_port_info, hello_fields, features_fields,
  config_fields, port_info_fields,
}
use openflow_controller.Packets.FlowMod.{
  write_default_miss, default_miss_fields, default_miss_length,
}
use openflow_controller.Packets.FlowMod.NewFlow.{write_flow_mod}
use openflow_controller.Controller.Setup.{new_switch}
use openflow_controller.Controller.Write.{next_message, message_sent}
use openflow_controller.Controller.Write.Sends.{sends, sends-message}

-- The bytes of a message of `n` bytes: its fields, and zeros elsewhere.
abbrev message_bytes : ℕ → List Field → List ℕ
message_bytes n fs = slice n 0 (poke_fields fs 0 (λ _. 0))

-- Message after message: the numbers that `send` answers for each, and what goes out for each.
pub exchange : Option Bytes → List (List ℕ) → OfSwitch → Outcome (OfSwitch × List (List ℕ))
exchange junk [] s = done (s, [])
exchange junk (ns ∷ nss) s = do
  (s', out) ← sends junk ns s
  (t, outs) ← exchange junk nss s'
  done (t, out ∷ outs)

abbrev next : ℕ → ℕ
next xid = u32 (xid + 1)

-- Hello, features request, configuration, port description request, and the two default rules.
abbrev pub handshake_messages : ℕ → List (List ℕ)
handshake_messages xid =
    message_bytes 16 (hello_fields xid)
    ∷ message_bytes 8 (features_fields (next xid))
    ∷ message_bytes 12 (config_fields (next (next xid)))
    ∷ message_bytes 16 (port_info_fields (next (next (next xid))))
    ∷ slice 168 0 (
        poke_fields (default_miss_fields (next (next (next (next (next xid))))) true) 80
          (poke_fields (default_miss_fields (next (next (next (next xid)))) false) 0 (λ _. 0)))
    ∷ []

-- The switch once the whole message is out.
unfoldable advance : OfSwitch → OfSwitch
advance s = elim (message_sent (wrote s.bytes_expected s)) [ done t ↦ t | _ ↦ s ]

-- The switch waits for the header of a message, with nothing to write and no access out of bounds so far.
pub record IsReading (s : OfSwitch) : Type 0 where
  pub reads : s.rw ≡ RwStatus.read
  pub expects : s.bytes_expected ≡ 8
  pub at_header : s.reading_header ≡ true
  pub none_read : s.bytes_read ≡ 0
  pub none_written : s.bytes_written ≡ 0
  pub read_safe : IsSafe 1500 s.read_buffer
  pub write_safe : IsSafe 1500 s.write_buffer

-- The answers split the five messages.
pub record SplitsHandshake (a b c d e : List ℕ) : Type 0 where
  pub hello_split : Splits 16 a
  pub features_split : Splits 8 b
  pub config_split : Splits 12 c
  pub ports_split : Splits 16 d
  pub rules_split : Splits 168 e

module _ (junk : Option Bytes) (fd xid : ℕ) (old : OfSwitch) where
  -- the switch at the start of each message, and at the end
  greeting : OfSwitch
  unfolding write_openflow_hello new_switch
  greeting = write_openflow_hello (new_switch fd xid old)

  requesting : OfSwitch
  unfolding greeting write_openflow_hello new_switch advance message_sent next_message
      request_features set_config get_port_info write_flow_mod write_default_miss
      default_miss_length store_fields zero_fill fresh extent
  requesting = advance greeting

  configuring : OfSwitch
  unfolding requesting write_openflow_hello new_switch advance message_sent next_message
      request_features set_config get_port_info write_flow_mod write_default_miss
      default_miss_length store_fields zero_fill fresh extent
  configuring = advance requesting

  asking : OfSwitch
  unfolding configuring write_openflow_hello new_switch advance message_sent next_message
      request_features set_config get_port_info write_flow_mod write_default_miss
      default_miss_length store_fields zero_fill fresh extent
  asking = advance configuring

  ruling : OfSwitch
  unfolding asking write_openflow_hello new_switch advance message_sent next_message
      request_features set_config get_port_info write_flow_mod write_default_miss
      default_miss_length store_fields zero_fill fresh extent
  ruling = advance asking

  settled : OfSwitch
  unfolding ruling write_openflow_hello new_switch advance message_sent next_message
      request_features set_config get_port_info write_flow_mod write_default_miss
      default_miss_length store_fields zero_fill fresh extent
  settled = advance ruling

  greeting-sends :
      (ns : List ℕ)
      → Splits 16 ns
      → sends junk ns greeting ≡ done (requesting, message_bytes 16 (hello_fields xid))
  unfolding requesting greeting poke_fields poke_be poke slice default_miss_fields
  greeting-sends ns split =
      sends-message junk ns greeting requesting
        (record {
          safe = record { alive = refl; sound = refl; room = omega arith };
          inside = omega arith;
          word = omega arith;
        })
        split refl

  requesting-sends :
      (ns : List ℕ)
      → Splits 8 ns
      → sends junk ns requesting ≡ done (configuring, message_bytes 8 (features_fields (next xid)))
  unfolding configuring requesting poke_fields poke_be poke slice default_miss_fields
  requesting-sends ns split =
      sends-message junk ns requesting configuring
        (record {
          safe = record { alive = refl; sound = refl; room = omega arith };
          inside = omega arith;
          word = omega arith;
        })
        split refl

  configuring-sends :
      (ns : List ℕ)
      → Splits 12 ns
      → sends junk ns configuring
        ≡ done (asking, message_bytes 12 (config_fields (next (next xid))))
  unfolding asking configuring poke_fields poke_be poke slice default_miss_fields
  configuring-sends ns split =
      sends-message junk ns configuring asking
        (record {
          safe = record { alive = refl; sound = refl; room = omega arith };
          inside = omega arith;
          word = omega arith;
        })
        split refl

  asking-sends :
      (ns : List ℕ)
      → Splits 16 ns
      → sends junk ns asking
        ≡ done (ruling, message_bytes 16 (port_info_fields (next (next (next xid)))))
  unfolding ruling asking poke_fields poke_be poke slice default_miss_fields
  asking-sends ns split =
      sends-message junk ns asking ruling
        (record {
          safe = record { alive = refl; sound = refl; room = omega arith };
          inside = omega arith;
          word = omega arith;
        })
        split refl

  ruling-sends :
      (ns : List ℕ)
      → Splits 168 ns
      → sends junk ns ruling
        ≡ done (
          settled,
          slice 168 0 (
              poke_fields (default_miss_fields (next (next (next (next (next xid))))) true) 80 (
                poke_fields
                  (default_miss_fields (next (next (next (next xid)))) false)
                  0
                  (λ _. 0))),
        )
  unfolding settled ruling poke_fields poke_be poke slice default_miss_fields
  ruling-sends ns split =
      sends-message junk ns ruling settled
        (record {
          safe = record { alive = refl; sound = refl; room = omega arith };
          inside = omega arith;
          word = omega arith;
        })
        split refl

  settled-IsReading : IsReading settled
  unfolding settled
  settled-IsReading = record {
    reads = refl;
    expects = refl;
    at_header = refl;
    none_read = refl;
    none_written = refl;
    read_safe = record { alive = refl; sound = refl; room = omega arith };
    write_safe = record { alive = refl; sound = refl; room = omega arith };
  }

  -- However `send` splits them, a new connection gets exactly the five writes of the handshake, the last
  -- one of two rules, under consecutive transaction ids, and then waits for the header of a message.
  pub handshake :
      (a b c d e : List ℕ)
      → SplitsHandshake a b c d e
      → (t : OfSwitch) × (exchange junk
            (a ∷ b ∷ c ∷ d ∷ e ∷ [])
            (write_openflow_hello (new_switch fd xid old))
          ≡ done (t, handshake_messages xid))
        × IsReading t
  unfolding exchange greeting
  handshake a b c d e h = (
    settled,
    rw (
      greeting-sends a h.hello_split,
      requesting-sends b h.features_split,
      configuring-sends c h.config_split,
      asking-sends d h.ports_split,
      ruling-sends e h.rules_split,
    ),
    settled-IsReading,
  )
