-- ===== src/Packets/Echoed.antt =====
-- The reply to an echo request.
use native.Mathlib.Decide.{dec_lt}
use native.Mathlib.Nat.{mod-eq_of_lt}
use openflow_controller.Prelude.{
  ◌∙◌, ℕ, zero, suc, le→leb, lt→ltb, ◌+◌, ◌^◌, ◌<◌, ◌≤◌, ◌≡◌, refl, ap, arith,
}
use openflow_controller.Memory.{Bytes, Buffer, poke, poke_be, peek_be, blit, touch}
use openflow_controller.Memory.Fields.{poke_fields, store_fields, extent}
use openflow_controller.Memory.Safe.{IsSafe, store_fields-IsSafe}
use openflow_controller.Memory.Words.{AreBytes}
use openflow_controller.Switch.{OfSwitch, RwStatus}
use openflow_controller.Packets.Echo.{
  copy_bytes, received_length, echo_fields, echo_buffers, make_echo_reply,
}

header-byte :
    (request m : Bytes)
    → AreBytes request
    → (j : ℕ) → 2 ≤ j
    → j < 8
    → poke_fields (echo_fields request) 0 m j ≡ request j
unfolding poke_fields poke_be poke echo_fields
header-byte request m bytes zero low h = absurd (omega arith)
header-byte request m bytes (suc zero) low h = absurd (omega arith)
header-byte request m bytes (suc (suc zero)) low h = mod-eq_of_lt (bytes 2)
header-byte request m bytes (suc (suc (suc zero))) low h = mod-eq_of_lt (bytes 3)
header-byte request m bytes (suc (suc (suc (suc zero)))) low h = mod-eq_of_lt (bytes 4)
header-byte request m bytes (suc (suc (suc (suc (suc zero))))) low h = mod-eq_of_lt (bytes 5)
header-byte request m bytes (suc (suc (suc (suc (suc (suc zero)))))) low h = mod-eq_of_lt (bytes 6)
header-byte request m bytes (suc (suc (suc (suc (suc (suc (suc zero))))))) low h =
    mod-eq_of_lt (bytes 7)
header-byte request m bytes (suc (suc (suc (suc (suc (suc (suc (suc j)))))))) low h =
    absurd (omega arith)

payload-byte : (n : ℕ) (src m : Bytes) (j : ℕ) → 8 ≤ j → j < 8 + n → blit n src 8 8 m j ≡ src j
unfolding blit
payload-byte n src m j low h = rw (le→leb 8 j low, lt→ltb j (8 + n) h) (ap src (omega arith))

payload-keep : (n : ℕ) (src m : Bytes) (j : ℕ) → j < 8 → blit n src 8 8 m j ≡ m j
unfolding blit
payload-keep n src m j h = ground arith

module _ (n : ℕ) (small : n < 2 ^ 32) (src dst : Buffer) where
  echo_buffers-byte :
      (j : ℕ) → (echo_buffers (8 + n) src dst).1.byte j ≡ blit n src.byte 8 8 dst.byte j
  unfolding echo_buffers copy_bytes blit
  echo_buffers-byte j = ground arith

  echo_buffers-IsSafe :
      IsSafe (8 + n) src
      → IsSafe (8 + n) dst
      → IsSafe (8 + n) (echo_buffers (8 + n) src dst).0
        × IsSafe (8 + n) (echo_buffers (8 + n) src dst).1
  unfolding echo_buffers copy_bytes touch
  echo_buffers-IsSafe a b =
      ground (arith, le→leb (8 + n) src.size a.room, le→leb (8 + n) dst.size b.room)

first-bytes :
    (request m : Bytes)
    → (poke_fields (echo_fields request) 0 m 0 ≡ 4) × (poke_fields (echo_fields request) 0 m 1 ≡ 3)
unfolding poke_fields poke_be poke echo_fields
first-bytes request m = (refl, refl)

module _ (s : OfSwitch) (n : ℕ) (bytes : AreBytes s.read_buffer.byte)
    (received : received_length s ≡ 8 + n) where
  small_payload : n < 2 ^ 32
  unfolding received_length peek_be
  small_payload = omega (arith, bytes 2, bytes 3)

  header : Bytes
  header = poke_fields (echo_fields s.read_buffer.byte) 0 s.write_buffer.byte

  reply-byte :
      (j : ℕ) → (make_echo_reply s).write_buffer.byte j ≡ blit n s.read_buffer.byte 8 8 header j
  unfolding make_echo_reply store_fields header
  reply-byte j = rw received (echo_buffers-byte n small_payload s.read_buffer _ j)

  reply-kept :
      (j : ℕ) → 2 ≤ j → j < 8 + n → (make_echo_reply s).write_buffer.byte j ≡ s.read_buffer.byte j
  unfolding header
  reply-kept j low high = reply-byte j ∙ (elim (dec_lt j 8) [
    | yes front ↦
        payload-keep n _ _ j front
        ∙ header-byte s.read_buffer.byte s.write_buffer.byte bytes j low front
    | no back ↦ payload-byte n _ _ j (omega arith) high
  ])

  -- Where the read buffer holds bytes, the reply to a request whose header announces `n` bytes behind it
  -- is the request with version 4 and type 3: the
  -- length, the transaction id and the payload go back as they came, and as many bytes are to be sent.
  pub make_echo_reply_lem :
      let t = make_echo_reply s in
      (t.write_buffer.byte 0 ≡ 4)
      × (t.write_buffer.byte 1 ≡ 3)
      × ((j : ℕ) → 2 ≤ j → j < 8 + n → t.write_buffer.byte j ≡ s.read_buffer.byte j)
      × (t.bytes_expected ≡ 8 + n)
      × (t.rw ≡ RwStatus.write)
  unfolding make_echo_reply header
  make_echo_reply_lem =
      let first = first-bytes s.read_buffer.byte s.write_buffer.byte in
      (
        reply-byte 0 ∙ payload-keep n _ _ 0 (omega arith) ∙ first.0,
        reply-byte 1 ∙ payload-keep n _ _ 1 (omega arith) ∙ first.1,
        reply-kept,
        received,
        refl,
      )

  -- Where the read buffer holds bytes and both buffers have room for the request that its header
  -- announces, the reply makes no access out of bounds.
  pub make_echo_reply-IsSafe :
      IsSafe (8 + n) s.read_buffer
      → IsSafe (8 + n) s.write_buffer
      → IsSafe (8 + n) (make_echo_reply s).read_buffer
        × IsSafe (8 + n) (make_echo_reply s).write_buffer
  unfolding make_echo_reply extent echo_fields
  make_echo_reply-IsSafe a b =
      rw received
        (echo_buffers-IsSafe n small_payload _ _ a (store_fields-IsSafe b _ 0 (omega arith)))
