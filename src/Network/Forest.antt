-- ===== src/Network/Forest.antt =====
-- Graphs without loops, and the part of one that lies behind a link. The links are any relation on
-- device numbers.
pub mod Marks
pub mod Found
pub mod Search
pub mod Roots
use openflow_controller.Prelude.{
  ℕ, zero, suc, ◌+◌, ◌<◌, ◌≤◌, ◌≡◌, ◌≢◌, ◌⊎◌, inl, inr, refl, sym, ap, subst, ◌∙◌, arith, ◌==◌,
  ==→eq, Bool-cases, eq→==,
}

-- Each number of a depth above zero has a parent, one less deep, and each link joins a number and its parent.
pub record IsForest (Link : ℕ → ℕ → Type 0) (parent depth : ℕ → ℕ) : Type 0 where
  pub up : (a : ℕ) → depth a ≢ 0 → depth a ≡ suc (depth (parent a))
  pub joined :
      (a b : ℕ) → Link a b → ((depth b ≢ 0) × (parent b ≡ a)) ⊎ ((depth a ≢ 0) × (parent a ≡ b))

-- What can be reached from `v` by links without going through `u`.
pub data Away (Link : ℕ → ℕ → Type 0) (u v : ℕ) : ℕ → Type 0 where
  here : Away Link u v v
  step : {x : ℕ} (y : ℕ) → Away Link u v x → Link x y → y ≢ u → Away Link u v y

module _ (Link : ℕ → ℕ → Type 0) (parent depth : ℕ → ℕ) (forest : IsForest Link parent depth) where
  -- `w` is `v` or below it.
  data Below (v : ℕ) : ℕ → Type 0 where
    self : (w : ℕ) → w ≡ v → Below v w
    child : (w : ℕ) → depth w ≢ 0 → Below v (parent w) → Below v w

  abbrev IsChild : ℕ → ℕ → Type 0
  IsChild a b = (depth b ≢ 0) × (parent b ≡ a)

  Below-depth : (v w : ℕ) → Below v w → depth v ≤ depth w
  Below-depth v w (self _ e) = omega (arith, ap depth e)
  Below-depth v w (child _ pos b) = omega (arith, Below-depth v (parent w) b, forest.up w pos)

  Below-trans : (u v w : ℕ) → IsChild u v → Below v w → Below u w
  Below-trans u v w c (self _ e) =
      child w (λ z. c.0 (sym (ap depth e) ∙ z)) (self (parent w) (ap parent e ∙ c.1))
  Below-trans u v w c (child _ pos b) = child w pos (Below-trans u v (parent w) c b)

  -- Two that are equally deep above one number are the same.
  Below-unique : (a b w : ℕ) → depth a ≡ depth b → Below a w → Below b w → a ≡ b
  Below-unique a b w same (self _ e) (self _ e') = sym e ∙ e'
  Below-unique a b w same (self _ e) (child _ pos q) =
      absurd (omega (arith, Below-depth b (parent w) q, forest.up w pos, ap depth e, same))
  Below-unique a b w same (child _ pos p) (self _ e) =
      absurd (omega (arith, Below-depth a (parent w) p, forest.up w pos, ap depth e, same))
  Below-unique a b w same (child _ _ p) (child _ _ q) = Below-unique a b (parent w) same p q

  depth-IsChild : (a b : ℕ) → IsChild a b → depth b ≡ suc (depth a)
  depth-IsChild a b c = forest.up b c.0 ∙ ap (λ x. suc (depth x)) c.1

  -- `w` is on the side of `v` of the link between `u` and `v`.
  InSide : ℕ → ℕ → ℕ → Type 0
  InSide u v w = (IsChild u v × Below v w) ⊎ (IsChild v u × (Below u w → ⊥))

  step-InSide : (u v x y : ℕ) → Link x y → y ≢ u → InSide u v x → InSide u v y
  unfolding InSide
  step-InSide u v x y link ne (inl (c, self _ e)) = elim (forest.joined x y link) [
    | inl down ↦ inl (c, child y down.0 (self (parent y) (down.1 ∙ e)))
    | inr up ↦ absurd (ne (sym up.1 ∙ ap parent e ∙ c.1))
  ]
  step-InSide u v x y link ne (inl (c, child _ pos b)) = elim (forest.joined x y link) [
    | inl down ↦ inl (c, child y down.0 (subst (Below v) (sym down.1) (child x pos b)))
    | inr up ↦ inl (c, subst (Below v) up.1 b)
  ]
  step-InSide u v x y link ne (inr (c, outside)) = elim (forest.joined x y link) [
    | inl down ↦ inr (c, below y down ne)
    | inr up ↦ inr (c, λ b. outside (child x up.0 (subst (Below u) (sym up.1) b)))
  ]
    where
      below : (z : ℕ) → IsChild x z → z ≢ u → Below u z → ⊥
      below z down other (self _ e) = other e
      below z down other (child _ _ b) = outside (subst (Below u) down.1 b)

  Away-InSide : (u v w : ℕ) → Link u v → Away Link u v w → InSide u v w
  unfolding InSide
  Away-InSide u v _ link here = elim (forest.joined u v link) [
    | inl down ↦ inl (down, self v refl)
    | inr up ↦ inr (up, λ b. omega (arith, Below-depth u v b, depth-IsChild v u up))
  ]
  Away-InSide u v _ link (step {x} y p next ne) =
      step-InSide u v x y next ne (Away-InSide u v x link p)

  -- The side behind a further link lies in the side, and leaves the number between them out.
  InSide-next : (u v n w : ℕ) → Link u v → n ≢ u → InSide v n w → InSide u v w
  unfolding InSide
  InSide-next u v n w link ne (inl (c, b)) = elim (forest.joined u v link) [
    | inl down ↦ inl (down, Below-trans v n w c b)
    | inr up ↦
        inr (
          up,
          λ bu. ne (Below-unique n u w (depth-IsChild v n c ∙ sym (depth-IsChild v u up)) b bu),
        )
  ]
  InSide-next u v n w link ne (inr (c, outside)) = elim (forest.joined u v link) [
    | inl down ↦ absurd (ne (sym c.1 ∙ down.1))
    | inr up ↦ inr (up, λ bu. outside (Below-trans v u w up bu))
  ]

  InSide-ne : (v n w : ℕ) → InSide v n w → w ≢ v
  unfolding InSide
  InSide-ne v n w (inl (c, b)) e = omega (arith, Below-depth n w b, depth-IsChild v n c, ap depth e)
  InSide-ne v n w (inr (c, outside)) e = outside (self w e)

  InSide-apart : (v n m w : ℕ) → n ≢ m → InSide v n w → InSide v m w → ⊥
  unfolding InSide
  InSide-apart v n m w ne (inl (c, b)) (inl (c', b')) =
      ne (Below-unique n m w (depth-IsChild v n c ∙ sym (depth-IsChild v m c')) b b')
  InSide-apart v n m w ne (inl (c, b)) (inr (c', outside)) = outside (Below-trans v n w c b)
  InSide-apart v n m w ne (inr (c, outside)) (inl (c', b')) = outside (Below-trans v m w c' b')
  InSide-apart v n m w ne (inr (c, _)) (inr (c', _)) = ne (sym c.1 ∙ c'.1)

  -- Two links from one number lead to disjoint parts, neither of which has the number.
  pub Away-apart :
      (v n m w : ℕ) → Link v n → Link v m → n ≢ m → Away Link v n w → Away Link v m w → ⊥
  Away-apart v n m w ln lm ne p q =
      InSide-apart v n m w ne (Away-InSide v n w ln p) (Away-InSide v m w lm q)

  pub Away-ne : (v n w : ℕ) → Link v n → Away Link v n w → w ≢ v
  Away-ne v n w link p = InSide-ne v n w (Away-InSide v n w link p)

  pub Away-next : (u v n w : ℕ) → Link u v → Link v n → n ≢ u → Away Link v n w → Away Link u v w
  Away-next u v n _ luv lvn ne here = step n here lvn ne
  Away-next u v n _ luv lvn ne (step {x} y p next away) =
      step y (Away-next u v n x luv lvn ne p) next (λ e.
        InSide-ne u v y (InSide-next u v n y luv ne (Away-InSide v n y lvn (step y p next away))) e)

-- What is reached from `v` is `v` or lies behind one of its links, other than the one to `u`.
pub Away-cases :
    (Link : ℕ → ℕ → Type 0) (u v w : ℕ)
    → Away Link u v w
    → (w ≡ v) ⊎ ((n : ℕ) × Link v n × (n ≢ u) × Away Link v n w)
Away-cases Link u v _ here = inl refl
Away-cases Link u v _ (step {x} y p next ne) = elim (Bool-cases (y == v)) [
  | inl back ↦ inl (==→eq y v back)
  | inr on ↦ elim (Away-cases Link u v x p) [
    | inl e ↦ inr (y, subst (λ z. Link z y) e next, ne, here)
    | inr (n, link, away, q) ↦ inr (n, link, away, step y q next (λ e. cc (eq→== y v e)))
  ]
]
