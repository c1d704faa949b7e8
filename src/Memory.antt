-- ===== src/Memory.antt =====
-- The byte buffers that the program allocates with `calloc` and casts to packet structures
-- (controller.c, rw_packets.c). A buffer is its size, its bytes by offset, and two flags: `live`
-- until it is freed, and `fault` once an access went out of bounds or followed a `free`. Such an
-- access is undefined behaviour in C: from there on the model promises nothing, so the flag stays.
pub mod Fields
pub mod Safe
pub mod Words
use openflow_controller.Prelude.{
  ℕ, zero, suc, ◌+◌, ◌-◌, ◌*◌, ◌/◌, ◌%◌, Bool, true, false, not, ◌&&◌, ◌||◌, List, [], ◌∷◌, leb,
  ltb, ◌==◌, if◌then◌else◌,
}

-- What stands at each offset.
abbrev pub Bytes : Type 0
Bytes = ℕ → ℕ

pub record Buffer : Type 0 where
  pub size : ℕ
  pub live : Bool
  pub byte : Bytes
  pub fault : Bool

-- The store of one byte, and of `w` bytes in network order, as `htons` and `htonl` leave them.
unfoldable pub poke : ℕ → ℕ → Bytes → Bytes
poke i v m j = if j == i then v % 256 else m j

unfoldable pub poke_be : ℕ → ℕ → ℕ → Bytes → Bytes
poke_be zero i v m = m
poke_be (suc w) i v m = poke_be w i (v / 256) (poke (i + w) v m)

-- The number that `w` bytes stand for in network order, as `ntohs` and `ntohl` read them.
unfoldable pub peek_be : ℕ → ℕ → Bytes → ℕ
peek_be zero i m = 0
peek_be (suc w) i m = peek_be w i m * 256 + m (i + w)

-- `memcpy` of `n` bytes from offset `i` of `src` to offset `j`.
unfoldable pub blit : ℕ → Bytes → ℕ → ℕ → Bytes → Bytes
blit n src i j m k = if leb j k && ltb k (j + n) then src (i + (k - j)) else m k

-- The bytes of a list from an offset on, as `recv` delivers them.
unfoldable pub deliver : List ℕ → ℕ → Bytes → Bytes
deliver [] i m = m
deliver (x ∷ xs) i m = deliver xs (i + 1) (poke i x m)

-- An access to `n` bytes from offset `i`.
unfoldable pub touch : ℕ → ℕ → Buffer → Buffer
touch i n b = record b { fault = b.fault || not (b.live && leb (i + n) b.size) }

-- `memset(buffer, 0, n)`
unfoldable pub zero_fill : ℕ → Buffer → Buffer
unfolding touch
zero_fill n b = record (touch 0 n b) { byte = λ j. if ltb j n then 0 else b.byte j }

-- `calloc`
unfoldable pub fresh : ℕ → Buffer
fresh n = record { size = n; live = true; byte = λ _. 0; fault = false }

-- `free`; a second one is a fault. A null pointer, which is a buffer of size 0 here, is left alone.
unfoldable pub release : Buffer → Buffer
release b = record b { live = false; fault = b.fault || (not b.live && not (b.size == 0)) }

-- `realloc` to `n` bytes where it succeeds; `junk` is what the new bytes happen to hold.
unfoldable pub reallocate : ℕ → Bytes → Buffer → Buffer
unfolding touch
reallocate n junk b = record (touch 0 0 b) {
  size = n;
  byte = λ j. if ltb j b.size then b.byte j else junk j;
}
