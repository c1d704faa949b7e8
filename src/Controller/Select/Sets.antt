-- ===== src/Controller/Select/Sets.antt =====
-- What the descriptor sets hold.
use openflow_controller.Prelude.{
  ℕ, zero, suc, ◌≡◌, ◌≢◌, ◌⊎◌, ◌↔◌, inl, inr, refl, sym, ap, ◌∙◌, List, [], ◌∷◌, some, true, ◌||◌,
  ◌==◌, ==→eq, eq→==, Bool-cases, get_elem?, arith,
}
use mathlib.Core.Option.{some-injective}
use openflow_controller.Switch.{OfSwitch, RwStatus}
use openflow_controller.Controller.{Controller}
use openflow_controller.Controller.Select.{is_set, readers, writers, remake_select_sets}

-- An entry of the list with the status and the descriptor.
abbrev pub HasEntry : RwStatus → ℕ → List OfSwitch → Type 0
HasEntry rw fd ss =
    (i : ℕ) × (s : OfSwitch) × (get_elem? ss i ≡ some s) × (s.rw ≡ rw) × (s.socket_fd ≡ fd)

behind :
    (rw : RwStatus) (fd : ℕ) (s : OfSwitch) (ss : List OfSwitch)
    → HasEntry rw fd ss
    → HasEntry rw fd (s ∷ ss)
behind rw fd s ss (i, t, at, state, same) = (suc i, t, at, state, same)

first_or_behind :
    (rw : RwStatus) (fd : ℕ) (s : OfSwitch) (ss : List OfSwitch)
    → HasEntry rw fd (s ∷ ss)
    → ((s.rw ≡ rw) × (s.socket_fd ≡ fd)) ⊎ HasEntry rw fd ss
first_or_behind rw fd s ss (zero, t, at, state, same) =
    let e = some-injective s t at in inl (ap (λ x. x.rw) e ∙ state, ap (λ x. x.socket_fd) e ∙ same)
first_or_behind rw fd s ss (suc i, t, at, state, same) = inr (i, t, at, state, same)

-- The two lists of a status: a match keeps the descriptor, another status does not.
record Lists (rw : RwStatus) (list : List OfSwitch → List ℕ) : Type 0 where
  empty : list [] ≡ []
  kept : (s : OfSwitch) (ss : List OfSwitch) → s.rw ≡ rw → list (s ∷ ss) ≡ s.socket_fd ∷ list ss
  left : (s : OfSwitch) (ss : List OfSwitch) → s.rw ≢ rw → list (s ∷ ss) ≡ list ss

readers-Lists : Lists RwStatus.read readers
unfolding readers
readers-Lists = record {
  empty = refl;
  kept = λ s ss e. ap (λ r. elim r [ RwStatus.read ↦ s.socket_fd ∷ readers ss | _ ↦ readers ss ]) e;
  left = λ s ss ne. ground arith;
}

writers-Lists : Lists RwStatus.write writers
unfolding writers
writers-Lists = record {
  empty = refl;
  kept =
      λ s ss e. ap (λ r. elim r [ RwStatus.write ↦ s.socket_fd ∷ writers ss | _ ↦ writers ss ]) e;
  left = λ s ss ne. ground arith;
}

same_status : (r r' : RwStatus) → (r ≡ r') ⊎ (r ≢ r')
same_status RwStatus.read RwStatus.read = inl refl
same_status RwStatus.read RwStatus.write = inr (λ e. absurd cc)
same_status RwStatus.read RwStatus.disconnected = inr (λ e. absurd cc)
same_status RwStatus.write RwStatus.write = inl refl
same_status RwStatus.write RwStatus.read = inr (λ e. absurd cc)
same_status RwStatus.write RwStatus.disconnected = inr (λ e. absurd cc)
same_status RwStatus.disconnected RwStatus.disconnected = inl refl
same_status RwStatus.disconnected RwStatus.read = inr (λ e. absurd cc)
same_status RwStatus.disconnected RwStatus.write = inr (λ e. absurd cc)

set_cons : (fd x : ℕ) (xs : List ℕ) → is_set fd (x ∷ xs) ≡ true → (x ≡ fd) ⊎ (is_set fd xs ≡ true)
set_cons fd x xs h = elim (Bool-cases (x == fd)) [
  | inl here ↦ inl (==→eq x fd here)
  | inr elsewhere ↦ inr (ap (λ b. b || is_set fd xs) (sym elsewhere) ∙ h)
]

set_first : (fd x : ℕ) (xs : List ℕ) → x ≡ fd → is_set fd (x ∷ xs) ≡ true
set_first fd x xs e = ap (λ b. b || is_set fd xs) (eq→== x fd e)

set_rest : (fd x : ℕ) (xs : List ℕ) → is_set fd xs ≡ true → is_set fd (x ∷ xs) ≡ true
set_rest fd x xs h = elim (Bool-cases (x == fd)) [
  | inl here ↦ ap (λ b. b || is_set fd xs) here
  | inr elsewhere ↦ ap (λ b. b || is_set fd xs) elsewhere ∙ h
]

found :
    (rw : RwStatus) (list : List OfSwitch → List ℕ)
    → Lists rw list
    → (fd : ℕ) (ss : List OfSwitch) → is_set fd (list ss) ≡ true
    → HasEntry rw fd ss
found status list p fd [] h =
    let impossible : is_set fd [] ≡ true = ap (is_set fd) (sym p.empty) ∙ h in absurd cc
found status list p fd (s ∷ ss) h = elim (same_status s.rw status) [
  | inl same ↦
      elim (set_cons fd s.socket_fd (list ss) (ap (is_set fd) (sym (p.kept s ss same)) ∙ h)) [
        | inl here ↦ (0, s, refl, same, here)
        | inr rest ↦ behind status fd s ss (found status list p fd ss rest)
      ]
  | inr other ↦
      behind status fd s ss
        (found status list p fd ss (ap (is_set fd) (sym (p.left s ss other)) ∙ h))
]

listed :
    (rw : RwStatus) (list : List OfSwitch → List ℕ)
    → Lists rw list
    → (fd : ℕ) (ss : List OfSwitch) → HasEntry rw fd ss
    → is_set fd (list ss) ≡ true
listed status list p fd [] e = let (i, s, at, state, same) = e in absurd cc
listed status list p fd (s ∷ ss) e = elim (same_status s.rw status) [
  | inl same ↦ ap (is_set fd) (p.kept s ss same) ∙ elim (first_or_behind status fd s ss e) [
    | inl first ↦ set_first fd s.socket_fd (list ss) first.1
    | inr rest ↦ set_rest fd s.socket_fd (list ss) (listed status list p fd ss rest)
  ]
  | inr other ↦ ap (is_set fd) (p.left s ss other) ∙ elim (first_or_behind status fd s ss e) [
    | inl first ↦ absurd (other first.0)
    | inr rest ↦ listed status list p fd ss rest
  ]
]

-- After the sets are made, the read set has the listening socket and the descriptors of the entries that are
-- to be read, the write set those of the entries that are to be written, and the error set the listening
-- socket; and they have nothing else.
pub remake_select_sets-members :
    (c : Controller) (fd : ℕ)
    → ((is_set fd (remake_select_sets c).read_sockets ≡ true)
        ↔ ((c.listening_socket_fd ≡ fd) ⊎ HasEntry RwStatus.read fd c.switch_list))
      × ((is_set fd (remake_select_sets c).write_sockets ≡ true)
          ↔ HasEntry RwStatus.write fd c.switch_list)
      × ((is_set fd (remake_select_sets c).error_sockets ≡ true) ↔ (c.listening_socket_fd ≡ fd))
unfolding remake_select_sets
remake_select_sets-members c fd =
    let l = c.listening_socket_fd in
    let ss = c.switch_list in
    (
      (
        λ h. elim (set_cons fd l (readers ss) h) [
          | inl here ↦ inl here
          | inr rest ↦ inr (found RwStatus.read readers readers-Lists fd ss rest)
        ],
        λ e. elim e [
          | inl here ↦ set_first fd l (readers ss) here
          | inr entry ↦
              set_rest fd l (readers ss) (listed RwStatus.read readers readers-Lists fd ss entry)
        ],
      ),
      (
        found RwStatus.write writers writers-Lists fd ss,
        listed RwStatus.write writers writers-Lists fd ss,
      ),
      (
        λ h. elim (set_cons fd l [] h) [ inl here ↦ here | inr rest ↦ absurd cc ],
        λ e. set_first fd l [] e,
      ),
    )
