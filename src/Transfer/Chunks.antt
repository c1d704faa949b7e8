-- ===== src/Transfer/Chunks.antt =====
-- A message that the kernel takes or delivers in pieces.
use native.Mathlib.Nat.{zero-add, add-zero}
use openflow_controller.Prelude.{
  ℕ, zero, suc, ◌+◌, ◌-◌, ◌^◌, ◌<◌, ◌≤◌, ◌≡◌, ap, ◌∙◌, List, [], ◌∷◌, ◌++◌, Option, arith, ne→==,
  length, le→leb,
}
use openflow_controller.Memory.{Bytes, Buffer, touch, deliver, poke}
use openflow_controller.Memory.Safe.{IsSafe}
use openflow_controller.Outcome.{done}
use openflow_controller.Switch.{OfSwitch}
use openflow_controller.Transfer.{
  sent, received, slice, write_to, read_from, after_send, after_recv,
}

-- An access in bounds leaves the buffer as it is.
touch-id : {n : ℕ} (i k : ℕ) (b : Buffer) → IsSafe n b → i + k ≤ n → touch i k b ≡ b
unfolding touch
touch-id i k b safe h = ground (arith, le→leb (i + k) b.size)

pub slice-append : (n k i : ℕ) (m : Bytes) → slice (n + k) i m ≡ slice n i m ++ slice k (i + n) m
unfolding slice
slice-append zero k i m = rw (zero-add, add-zero)
slice-append (suc n) k i m =
    let e : suc n + k ≡ suc (n + k) = omega arith in
    rw e (
      ap (◌∷◌ (m i))
        (slice-append n k (i + 1) m ∙ ap (λ j. slice n (i + 1) m ++ slice k j m) (omega arith)))

pub deliver-append :
    (xs ys : List ℕ) (i : ℕ) (m : Bytes)
    → deliver (xs ++ ys) i m ≡ deliver ys (i + length xs) (deliver xs i m)
unfolding deliver
deliver-append [] ys i m = ap (λ k. deliver ys k m) (omega arith)
deliver-append (x ∷ xs) ys i m =
    deliver-append xs ys (i + 1) (poke i x m)
    ∙ ap (λ k. deliver ys k (deliver xs (i + 1) (poke i x m))) (omega arith)

-- `n` bytes of a pending message have gone out.
abbrev pub wrote : ℕ → OfSwitch → OfSwitch
wrote n s = record s { bytes_written = s.bytes_written + n; bytes_expected = s.bytes_expected - n }

-- A message waits in the write buffer, of which `bytes_expected` bytes are still to go out.
pub record Pending (s : OfSwitch) : Type 0 where
  pub safe : IsSafe s.write_buffer_size s.write_buffer
  pub inside : s.bytes_written + s.bytes_expected ≤ s.write_buffer_size
  pub word : s.write_buffer_size < 2 ^ 16

-- An answer of `send` that takes at most the bytes offered advances the counters by that number and puts
-- out the next bytes of the buffer, with no access out of bounds.
pub write_to_lem :
    (junk : Option Bytes) (n : ℕ) (s : OfSwitch)
    → Pending s
    → n ≤ s.bytes_expected
    → 0 < s.bytes_expected
    → write_to junk (sent n) s ≡ done (wrote n s, slice n s.bytes_written s.write_buffer.byte)
unfolding write_to after_send
write_to_lem junk n s p h pos =
    rw (ne→== s.write_buffer_size s.bytes_written (omega arith))
      (ground (arith, touch-id s.bytes_written n s.write_buffer p.safe (omega arith)))

-- A list of answers that takes `m` bytes in all, the last one the last of them.
abbrev pub Splits : ℕ → List ℕ → Type 0
Splits m [] = ⊥
Splits m (n ∷ []) = (n ≡ m) × (0 < m)
Splits m (n ∷ ns) = (n < m) × Splits (m - n) ns

-- The same for `recv`.
abbrev pub got : List ℕ → OfSwitch → OfSwitch
got xs s = record s {
  read_buffer = record s.read_buffer { byte = deliver xs s.bytes_read s.read_buffer.byte };
  bytes_read = s.bytes_read + length xs;
  bytes_expected = s.bytes_expected - length xs;
}

-- The read buffer has room for the bytes still to come.
pub record Awaiting (s : OfSwitch) : Type 0 where
  pub safe : IsSafe s.read_buffer_size s.read_buffer
  pub inside : s.bytes_read + s.bytes_expected ≤ s.read_buffer_size
  pub word : s.read_buffer_size < 2 ^ 16

-- An answer of `recv` with at most the bytes asked for puts them behind those already read, with no access
-- out of bounds.
pub read_from_lem :
    (junk : Option Bytes) (xs : List ℕ) (s : OfSwitch)
    → Awaiting s
    → length xs ≤ s.bytes_expected
    → 0 < s.bytes_expected
    → read_from junk (received xs) s ≡ done (got xs s)
unfolding read_from after_recv
read_from_lem junk xs s p h pos =
    rw (ne→== s.read_buffer_size s.bytes_read (omega arith))
      (ground (arith, touch-id s.bytes_read (length xs) s.read_buffer p.safe (omega arith)))
