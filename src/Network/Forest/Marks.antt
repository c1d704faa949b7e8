-- ===== src/Network/Forest/Marks.antt =====
-- What a part of the loop search of controller.c leaves where it finds no loop.
use openflow_controller.Prelude.{ℕ, ◌≤◌, ◌≡◌, ◌⊎◌, inl, inr, map, true, false, arith, Bool-cases}
use openflow_controller.Outcome.{Outcome, done}
use openflow_controller.Network.{Devices}
use openflow_controller.Network.Search.{unmark}
use openflow_controller.Network.Marks.{unmarked}
use openflow_controller.Network.Simple.{marked}

-- What a part of the search leaves: the graph `b` up to the marks, with the numbers of `S` marked as well.
pub record Marks (b ds ds' : Devices) (S : ℕ → Type 0) : Type 0 where
  pub same : map unmark ds' ≡ b
  pub fewer : unmarked ds' ≤ unmarked ds
  pub old : (w : ℕ) → marked w ds ≡ true → marked w ds' ≡ true
  pub new : (w : ℕ) → S w → marked w ds' ≡ true
  pub only : (w : ℕ) → marked w ds' ≡ true → (marked w ds ≡ true) ⊎ S w

-- It ends without a loop.
unfoldable pub Quiet : (b ds : Devices) → (ℕ → Type 0) → Outcome (ℕ × Devices) → Type 0
Quiet b ds S o = (ds' : Devices) × (o ≡ done (0, ds')) × Marks b ds ds' S

pub Marks-trans :
    {b ds ds₁ ds₂ : Devices} (S T U : ℕ → Type 0)
    → Marks b ds ds₁ S
    → Marks b ds₁ ds₂ T
    → ((w : ℕ) → S w → U w)
    → ((w : ℕ) → T w → U w)
    → ((w : ℕ) → U w → S w ⊎ T w)
    → Marks b ds ds₂ U
Marks-trans S T U p q su tu us = record {
  same = q.same;
  fewer = omega (arith, p.fewer, q.fewer);
  old = λ w h. q.old w (p.old w h);
  new = λ w u. elim (us w u) [ inl s ↦ q.old w (p.new w s) | inr t ↦ q.new w t ];
  only = λ w h. elim (q.only w h) [
    | inr t ↦ inr (tu w t)
    | inl h' ↦ elim (p.only w h') [ inl h'' ↦ inl h'' | inr s ↦ inr (su w s) ]
  ];
}

-- Nothing is marked.
pub Marks-refl :
    {b ds : Devices} (S : ℕ → Type 0) → map unmark ds ≡ b → ((w : ℕ) → S w → ⊥) → Marks b ds ds S
Marks-refl S e none_new = record {
  same = e;
  fewer = omega arith;
  old = λ w h. h;
  new = λ w s. absurd (none_new w s);
  only = λ w h. inl h;
}

pub Marks-ext :
    {b ds ds' : Devices} (S U : ℕ → Type 0)
    → Marks b ds ds' S
    → ((w : ℕ) → S w → U w)
    → ((w : ℕ) → U w → S w)
    → Marks b ds ds' U
Marks-ext S U p su us = record {
  same = p.same;
  fewer = p.fewer;
  old = p.old;
  new = λ w u. p.new w (us w u);
  only = λ w h. elim (p.only w h) [ inl o ↦ inl o | inr s ↦ inr (su w s) ];
}

pub not_both : (w : ℕ) (ds : Devices) → (marked w ds ≡ true → ⊥) → marked w ds ≡ false
not_both w ds h = elim (Bool-cases (marked w ds)) [ inl e ↦ absurd (h e) | inr e ↦ e ]
