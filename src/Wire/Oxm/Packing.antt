-- ===== src/Wire/Oxm/Packing.antt =====
-- The packing of OXM headers, and the macros of openflow.h that take them apart.
use Prim.Native.Nat.{digits, bit_or-bitwise}
use mathlib.Core.Path.{ap₂}
use openflow_controller.Prelude.{
  ℕ, zero, suc, ◌+◌, ◌*◌, ◌/◌, ◌^◌, ◌<◌, ◌≤◌, ◌≡◌, refl, ap, ◌∙◌, max, bit_or, arith, ◌%◌, ltb,
  if◌then◌else◌,
}
use openflow_controller.Wire.Oxm.{oxm_header_masked, oxm_class, oxm_field, oxm_hasmask, oxm_length}
use openflow_controller.Wire.Oxm.Fields.{oxm_header_w, oxm_make_wild_header}

half : (a p : ℕ) → a ≡ p * 2 → a / 2 ≡ p
half a p e = omega (arith, e)

power_suc : (c k : ℕ) → c * 2 ^ suc k ≡ c * 2 ^ k * 2
power_suc c k = grind arith

-- The digits of a multiple of `2 ^ k` and of a number below it.
digits-apart :
    (n k c a b : ℕ) → a ≡ c * 2 ^ k → a ≤ n → b < 2 ^ k → digits (λ y. y) max n a b ≡ a + b
digits-apart zero k c a b e low small = omega (arith, low)
digits-apart (suc n) k c zero b e low small = omega arith
digits-apart (suc n) zero c (suc a) b e low small =
    let none : b ≡ 0 = omega (arith, small) in
    let rest =
      digits-apart n zero (suc a / 2) (suc a / 2) (b / 2) (omega arith) (omega (arith, low))
        (omega (arith, none)) in
    omega (arith, rest, none)
digits-apart (suc n) (suc k) c (suc a) b e low small =
    let even : suc a ≡ c * 2 ^ k * 2 = e ∙ power_suc c k in
    let rest =
      digits-apart n k c (suc a / 2) (b / 2) (half (suc a) (c * 2 ^ k) even) (omega (arith, low))
        (omega (arith, small, power_suc 1 k)) in
    omega (arith, rest, even)

bit_or-low : (k c b : ℕ) → b < 2 ^ k → bit_or (c * 2 ^ k) b ≡ c * 2 ^ k + b
bit_or-low k c b small =
    (λ i. bit_or-bitwise (c * 2 ^ k) b i)
    ∙ digits-apart (c * 2 ^ k) k c (c * 2 ^ k) b refl (omega arith) small

-- The header as a number.
packed :
    (class field hasmask len : ℕ)
    → class < 2 ^ 16
    → field < 2 ^ 7
    → hasmask < 2
    → len < 2 ^ 8
    → oxm_header_masked class field hasmask len
      ≡ class * 2 ^ 16 + field * 2 ^ 9 + hasmask * 2 ^ 8 + len
packed class field hasmask len small f m l =
    let whole : class * 2 ^ 16 % 2 ^ 32 ≡ class * 2 ^ 16 = omega (arith, small) in
    let one =
      ap (λ x. bit_or x (field * 2 ^ 9)) whole
      ∙ bit_or-low 16 class (field * 2 ^ 9) (omega (arith, f)) in
    let two =
      ap (λ x. bit_or x (hasmask * 2 ^ 8)) (one ∙ omega arith)
      ∙ bit_or-low 9 (class * 2 ^ 7 + field) (hasmask * 2 ^ 8) (omega (arith, m)) in
    ap (λ x. bit_or x len) (two ∙ omega arith)
    ∙ bit_or-low 8 (class * 2 ^ 8 + field * 2 + hasmask) len l
    ∙ omega arith

-- What `OXM_CLASS` makes of a header's class.
abbrev shifted : ℕ → ℕ
shifted class = if ltb class (2 ^ 15) then class else class + 0xffff0000

class-shifted :
    (class field hasmask len : ℕ)
    → field < 2 ^ 7
    → hasmask < 2
    → len < 2 ^ 8
    → oxm_class (class * 2 ^ 16 + field * 2 ^ 9 + hasmask * 2 ^ 8 + len) ≡ shifted class
class-shifted class field hasmask len f m l = ground (arith, f, m, l)

shifted-back : (class : ℕ) → shifted class * 2 ^ 16 % 2 ^ 32 ≡ class * 2 ^ 16 % 2 ^ 32
shifted-back class = ground arith

-- For a class of 16 bits, a field of 7, a mask flag of one and a length of 8, the macros, with the arithmetic of a 32-bit
-- `int`, take a header apart into the field, the flag and the length that it was made of. `OXM_CLASS` gives the
-- class only if it is below 0x8000; from there on, as for the basic class, the sign bit fills the upper half, and it
-- gives the class and 0xffff0000. The header for a value with a mask is made from it all the same.
pub oxm_header_lem :
    (class field hasmask len : ℕ)
    → class < 2 ^ 16
    → field < 2 ^ 7
    → hasmask < 2
    → len < 2 ^ 8
    → let header = oxm_header_masked class field hasmask len in
      (oxm_class header ≡ (if ltb class (2 ^ 15) then class else class + 0xffff0000))
      × (oxm_field header ≡ field)
      × (oxm_hasmask header ≡ hasmask)
      × (oxm_length header ≡ len)
      × (oxm_make_wild_header header ≡ oxm_header_w class field len)
oxm_header_lem class field hasmask len small f m l =
    let e = packed class field hasmask len small f m l in
    let c : oxm_class (oxm_header_masked class field hasmask len) ≡ shifted class =
      ap oxm_class e ∙ class-shifted class field hasmask len f m l in
    let d : oxm_field (oxm_header_masked class field hasmask len) ≡ field =
      ap oxm_field e ∙ omega (arith, f, m, l) in
    let flag : oxm_hasmask (oxm_header_masked class field hasmask len) ≡ hasmask =
      ap oxm_hasmask e ∙ omega (arith, f, m, l) in
    let n : oxm_length (oxm_header_masked class field hasmask len) ≡ len =
      ap oxm_length e ∙ omega (arith, f, m, l) in
    (
      c,
      d,
      flag,
      n,
      ap (λ x. oxm_header_w x (oxm_field header) (oxm_length header)) c
          ∙ ap₂ (λ x y. oxm_header_w (shifted class) x y) d n
          ∙ ap (λ x. bit_or (bit_or (bit_or x (field * 2 ^ 9)) (1 * 2 ^ 8)) (len * 2))
              (shifted-back class),
    )
  where
    header : ℕ
    header = oxm_header_masked class field hasmask len
