-- ===== src/Packets/Ports/Closed.antt =====
-- The message that opens or closes a port, and the address in it.
use openflow_controller.Prelude.{
  ℕ, zero, suc, ◌+◌, ◌*◌, ◌<◌, ◌≡◌, ◌^◌, refl, sym, subst, ap, ◌⊎◌, inl, inr, eq→==, ne→==, ◌∙◌,
  arith, Bool, true, false, if◌then◌else◌,
}
use mathlib.Core.Path.{ap₂}
use openflow_controller.Memory.{Bytes, blit, touch, peek_be, poke, poke_be}
use openflow_controller.Memory.Fields.{store_fields, poke_fields}
use openflow_controller.Memory.Words.{AreBytes, be32_lem}
use openflow_controller.Wire.Decode.{Mac, mac_at, decode_header, PortMod, decode_port_mod}
use openflow_controller.Switch.{OfSwitch}
use openflow_controller.Packets.PortMod.{change_port_behavior}
use openflow_controller.Packets.Echo.{received_length}
use openflow_controller.Packets.Ports.{
  port_count, save_port, save_ports, save_connected_ports, handle_multipart_reply,
}
use openflow_controller.Packets.Ports.Table.{port_at, AreDistinct, save_port-read, save_ports-entry}

-- The message for a port: it is closed by a configuration in which it neither forwards nor takes packets.
abbrev pub port_mod : (xid port : ℕ) → Mac → Bool → PortMod
port_mod xid port mac enable = record {
  header = record { version = 4; type = 16; length = 40; xid = xid };
  port_no = port;
  hw_addr = mac;
  config = if enable then 0 else 36;
  mask = 36;
}

mac_at-blit : (b : ℕ) (src dst : Bytes) → mac_at 16 (blit 6 src b 16 dst) ≡ mac_at b src
unfolding mac_at blit
mac_at-blit b src dst =
    ap (λ j. (src j, src (b + 1), src (b + 2), src (b + 3), src (b + 4), src (b + 5))) first
  where
    first : b + 0 ≡ b
    first = omega arith

be32 : ℕ → ℕ
be32 x = peek_be 4 0 (poke_be 4 0 x (λ _. 0))

be32-small : (x : ℕ) → x < 2 ^ 32 → be32 x ≡ x
unfolding be32 peek_be poke_be poke
be32-small x small = be32_lem x small

-- For a port number and a transaction id of 32 bits the write buffer holds a port modification of the port
-- with the hardware address that the port table has for it, which opens the port or closes it both
-- ways and leaves the rest of its configuration.
change_port_behavior-decoded :
    (s : OfSwitch) (port : ℕ) (enable : Bool)
    → s.xid < 2 ^ 32
    → port < 2 ^ 32
    → decode_port_mod (change_port_behavior s port enable).write_buffer.byte
      ≡ port_mod s.xid port (mac_at (64 * port + 8) s.connected_ports.byte) enable
unfolding change_port_behavior store_fields poke_fields poke_be poke blit decode_port_mod
    decode_header mac_at peek_be be32
change_port_behavior-decoded s port enable small_xid small = written enable
  where
    raw : Mac
    raw = mac_at 16 (blit 6 s.connected_ports.byte (64 * port + 8) 16 s.write_buffer.byte)

    read :
        (b : Bool)
        → port_mod (be32 s.xid) (be32 port) raw b
          ≡ port_mod s.xid port (mac_at (64 * port + 8) s.connected_ports.byte) b
    read b =
        ap (λ x. port_mod x (be32 port) raw b) (be32-small s.xid small_xid)
        ∙ ap (λ x. port_mod s.xid x raw b) (be32-small port small)
        ∙ ap (λ x. port_mod s.xid port x b)
            (mac_at-blit (64 * port + 8) s.connected_ports.byte s.write_buffer.byte)

    written :
        (b : Bool)
        → decode_port_mod (change_port_behavior s port b).write_buffer.byte
          ≡ port_mod s.xid port (mac_at (64 * port + 8) s.connected_ports.byte) b
    written true = read true
    written false = read false

mac_ext :
    (b b' : ℕ) (c m : Bytes) → ((k : ℕ) → k < 6 → c (b + k) ≡ m (b' + k)) → mac_at b c ≡ mac_at b' m
unfolding mac_at
mac_ext b b' c m same =
    let e₀ : c b ≡ m b' = ap c (omega arith) ∙ same 0 (omega arith) ∙ ap m (omega arith) in
    let e₁ = same 1 (omega arith) in
    let e₂ = same 2 (omega arith) in
    let e₃ = same 3 (omega arith) in
    let e₄ = same 4 (omega arith) in let e₅ = same 5 (omega arith) in cc

-- The table has its 50 entries.
pub record HasTable (s : OfSwitch) : Type 0 where
  pub live : s.connected_ports.live ≡ true
  pub size : s.connected_ports.size ≡ 3200
  pub sound : s.connected_ports.fault ≡ false

save_port-HasTable :
    (at : ℕ) (s : OfSwitch)
    → (port_at at s.read_buffer.byte < 50) ⊎ (port_at at s.read_buffer.byte ≡ 0xfffffffe)
    → HasTable s
    → HasTable (save_port at s) × ((save_port at s).xid ≡ s.xid)
unfolding save_port touch
save_port-HasTable at s (inr local) t =
    rw (eq→== (port_at at s.read_buffer.byte) 0xfffffffe local)
      (record { live = t.live; size = t.size; sound = t.sound }, refl)
save_port-HasTable at s (inl low) t =
    rw (ne→== (port_at at s.read_buffer.byte) 0xfffffffe (λ e. omega (arith, low, e))) (
      record { live = t.live; size = t.size; sound = ground (arith, t.live, t.size, t.sound, low) },
      refl,
    )

-- Each of the first `n` descriptions names a port of the table or the local one.
abbrev pub AreInTable : ℕ → ℕ → Bytes → Type 0
AreInTable n at m =
    (j : ℕ) → j < n → (port_at (at + 64 * j) m < 50) ⊎ (port_at (at + 64 * j) m ≡ 0xfffffffe)

save_ports-HasTable :
    (n at : ℕ) (s : OfSwitch)
    → AreInTable n at s.read_buffer.byte
    → HasTable s
    → HasTable (save_ports n at s) × ((save_ports n at s).xid ≡ s.xid)
unfolding save_ports
save_ports-HasTable zero at s all t = (t, refl)
save_ports-HasTable (suc n) at s all t =
    let (t', e) = save_port-HasTable at s first t in
    let (t'', e') =
      save_ports-HasTable n (at + 64) (save_port at s)
        (subst (λ m. AreInTable n (at + 64) m) (sym (save_port-read at s)) rest) t' in
    (t'', e' ∙ e)
  where
    Fits : ℕ → Type 0
    Fits a = (port_at a s.read_buffer.byte < 50) ⊎ (port_at a s.read_buffer.byte ≡ 0xfffffffe)

    first : Fits at
    first = subst Fits (omega arith) (all zero (omega arith))

    rest : AreInTable n (at + 64) s.read_buffer.byte
    rest j low = subst Fits (omega arith) (all (suc j) (omega (arith, low)))

fault-change_port_behavior :
    (s : OfSwitch) (port : ℕ) (enable : Bool)
    → port < 50
    → HasTable s
    → (change_port_behavior s port enable).connected_ports.fault ≡ false
unfolding change_port_behavior touch
fault-change_port_behavior s port enable low t = ground (arith, t.live, t.size, t.sound, low)

port_small : (q : ℕ) (m : Bytes) → AreBytes m → port_at q m < 2 ^ 32
unfolding peek_be
port_small q m h = omega (arith, h (q + 0 + 0), h (q + 0 + 1), h (q + 0 + 2), h (q + 0 + 3))

handled :
    (s : OfSwitch)
    → peek_be 2 8 s.read_buffer.byte ≡ 13
    → handle_multipart_reply s ≡ save_ports (port_count (received_length s)) 16 s
unfolding handle_multipart_reply save_connected_ports
handled s type = rw type refl

-- A reply that describes ports, in a read buffer of bytes, and a table of 50 entries that it fits: its
-- descriptions name different ports, each of them below 50 or the local one. The message that opens or
-- closes a port it describes, other than the local one, then carries the hardware address that the
-- description gives, whatever the order of the descriptions, and the table is not left on the way.
pub described-decoded :
    (s : OfSwitch) (i : ℕ) (enable : Bool)
    → AreBytes s.read_buffer.byte
    → HasTable s
    → s.xid < 2 ^ 32
    → peek_be 2 8 s.read_buffer.byte ≡ 13
    → AreDistinct (port_count (received_length s)) 16 s.read_buffer.byte
    → AreInTable (port_count (received_length s)) 16 s.read_buffer.byte
    → i < port_count (received_length s)
    → port_at (16 + 64 * i) s.read_buffer.byte < 50
    → (decode_port_mod
          (change_port_behavior
            (handle_multipart_reply s)
            (port_at (16 + 64 * i) s.read_buffer.byte)
            enable).write_buffer.byte
        ≡ port_mod s.xid
            (port_at (16 + 64 * i) s.read_buffer.byte)
            (mac_at (16 + 64 * i + 8) s.read_buffer.byte)
            enable)
      × ((change_port_behavior
            (handle_multipart_reply s)
            (port_at (16 + 64 * i) s.read_buffer.byte)
            enable).connected_ports.fault
          ≡ false)
described-decoded s i enable h table small type distinct all inside low = (
  ap (λ x. decode_port_mod (change_port_behavior x p enable).write_buffer.byte) described
      ∙ change_port_behavior-decoded t p enable (omega (arith, kept.1, small)) (port_small q m h)
      ∙ ap₂ (λ x mac. port_mod x p mac enable) kept.1
          (mac_ext (64 * p + 8) (q + 8) t.connected_ports.byte m (λ k low_k.
            ap t.connected_ports.byte (omega arith)
            ∙ save_ports-entry n 16 i q s (8 + k) distinct inside refl (λ e. omega (arith, low, e))
                (omega (arith, low_k))
            ∙ ap m (omega arith))),
  ap (λ x. (change_port_behavior x p enable).connected_ports.fault) described
      ∙ fault-change_port_behavior t p enable low kept.0,
)
  where
    m : Bytes
    m = s.read_buffer.byte

    n : ℕ
    n = port_count (received_length s)

    q : ℕ
    q = 16 + 64 * i

    p : ℕ
    p = port_at q m

    t : OfSwitch
    t = save_ports n 16 s

    described : handle_multipart_reply s ≡ t
    described = handled s type

    kept : HasTable t × (t.xid ≡ s.xid)
    kept = save_ports-HasTable n 16 s all table
