-- ===== src/Memory/Fields.antt =====
-- A structure written field by field at some offset of a buffer.
use openflow_controller.Prelude.{
  ℕ, zero, suc, ◌+◌, ◌/◌, max, ◌≡◌, refl, ap, ◌∙◌, fun_ext, List, [], ◌∷◌, arith,
}
use openflow_controller.Memory.{Bytes, Buffer, poke, poke_be, touch}

-- One assignment to a field: its offset in the structure, its width in bytes, its value.
abbrev pub Field : Type 0
Field = ℕ × ℕ × ℕ

-- Single bytes from `src` on, copied with no change of byte order.
unfoldable pub raw_fields : ℕ → ℕ → Bytes → List Field
raw_fields zero at src = []
raw_fields (suc n) at src = (at, 1, src 0) ∷ raw_fields n (at + 1) (λ j. src (suc j))

-- The assignments in program order, the structure at offset `base`.
unfoldable pub poke_fields : List Field → ℕ → Bytes → Bytes
poke_fields [] base m = m
poke_fields ((at, w, v) ∷ fs) base m = poke_fields fs base (poke_be w (base + at) v m)

-- The end of the last byte that they write.
unfoldable pub extent : List Field → ℕ
extent [] = 0
extent ((at, w, v) ∷ fs) = max (at + w) (extent fs)

unfoldable pub store_fields : List Field → ℕ → Buffer → Buffer
unfolding touch
store_fields fs base b = record (touch base (extent fs) b) { byte = poke_fields fs base b.byte }

-- The bytes as seen from offset `base`.
abbrev pub from : ℕ → Bytes → Bytes
from base m j = m (base + j)

from-poke : (base i v : ℕ) (m : Bytes) → from base (poke (base + i) v m) ≡ poke i v (from base m)
unfolding poke
from-poke base i v m = fun_ext λ j. ground arith

from-poke_be :
    (w base i v : ℕ) (m : Bytes)
    → from base (poke_be w (base + i) v m) ≡ poke_be w i v (from base m)
unfolding poke_be
from-poke_be zero base i v m = refl
from-poke_be (suc w) base i v m =
    from-poke_be w base i (v / 256) _
    ∙ ap (poke_be w i (v / 256))
        (ap (λ k. from base (poke k v m)) (omega arith) ∙ from-poke base (i + w) v m)

-- Where the structure stands does not matter to what is written.
pub from-poke_fields :
    (fs : List Field) (base : ℕ) (m : Bytes)
    → from base (poke_fields fs base m) ≡ poke_fields fs 0 (from base m)
unfolding poke_fields
from-poke_fields [] base m = refl
from-poke_fields ((at, w, v) ∷ fs) base m =
    from-poke_fields fs base _
    ∙ ap (poke_fields fs 0)
        (from-poke_be w base at v m ∙ ap (λ k. poke_be w k v (from base m)) (omega arith))
