-- ===== src/Maintenance/Cleanup/Selects.antt =====
-- What the batches of a cleanup hold, and what a table is without them.
use webhook_delivery_platfor.Base.{
  ℕ, ◌≤◌, ◌≡◌, refl, sym, subst, ◌∙◌, Bool, true, false, none, some, List, [], ◌∷◌, inl, inr, arith,
  Bool-cases, ◌==◌, eq→≡, map, select, count, All, find, Unique, query, query_found,
}
use webhook_delivery_platfor.Maintenance.Cleanup.{id_in}

module _ {A : Type 0} (key : A → ℕ) where
  batch_passes :
      (p : A → Bool) (t rs : List A) (k : ℕ) {x : A}
      → All (λ r. (find key (key r) t ≡ some r) × (p r ≡ true)) rs
      → id_in k (map key rs) ≡ true
      → find key k t ≡ some x
      → p x ≡ true
  unfolding id_in
  batch_passes p t [] k a h e = cc
  batch_passes p t (r ∷ rs) k {x} a h e = elim (Bool-cases (key r == k)) [
    | inl s ↦
        let same : some x ≡ some r =
          sym e ∙ subst (λ j. find key j t ≡ some r) (eq→≡ (key r) k s) a.0.0 in
        subst (λ o. elim o [ none ↦ Unit | some y ↦ p y ≡ true ]) (sym same) a.0.1
    | inr s ↦ batch_passes p t rs k {x = x} a.1 (ground (arith, s, h)) e
  ]

  -- A row whose key is in the batch passes the test of its query.
  pub query_passes :
      (p : A → Bool) (before : A → A → Bool) (locked : ℕ → Bool) (limit : ℕ) (t : List A) (k : ℕ)
      {x : A}
      → Unique key t
      → id_in k (map key (query key p before locked limit t)) ≡ true
      → find key k t ≡ some x
      → p x ≡ true
  query_passes p before locked limit t k {x} u h e =
      batch_passes p t (query key p before locked limit t) k {x = x}
        (query_found key p before locked limit t u) h e

  -- A row that is kept is still found.
  pub find-select :
      (q : A → Bool) (k : ℕ) (t : List A) {x : A}
      → find key k t ≡ some x
      → q x ≡ true
      → find key k (select q t) ≡ some x
  unfolding find select
  find-select q k [] h e = h
  find-select q k (y ∷ t) {x} h e = elim (Bool-cases (key y == k)) [
    | inl s ↦ ground (arith, s, h, e)
    | inr s ↦ ground (arith, s, find-select q k t {x = x} (ground (arith, s, h)) e)
  ]

  -- A row that is found in a selection was there.
  pub find-select_was :
      (q : A → Bool) (k : ℕ) (t : List A) {x : A}
      → Unique key t
      → find key k (select q t) ≡ some x
      → find key k t ≡ some x
  unfolding find select
  find-select_was q k [] u h = h
  find-select_was q k (y ∷ t) {x} u h = elim (Bool-cases (key y == k)) [
    | inl s ↦ elim (Bool-cases (q y)) [
      | inl p ↦ ground (arith, s, p, h)
      | inr p ↦
          let there : find key k t ≡ some x = find-select_was q k t u.1 (ground (arith, p, h)) in
          let gone : find key k t ≡ none =
            subst (λ j. find key j t ≡ none) (eq→≡ (key y) k s) u.0 in
          absurd (clash there gone)
    ]
    | inr s ↦ elim (Bool-cases (q y)) [
      | inl p ↦ ground (arith, s, p, find-select_was q k t {x = x} u.1 (ground (arith, s, p, h)))
      | inr p ↦ ground (arith, s, find-select_was q k t {x = x} u.1 (ground (arith, p, h)))
    ]
  ]
    where
      clash : find key k t ≡ some x → find key k t ≡ none → ⊥
      clash a b = cc

module _ {A : Type 0} where
  -- Rows that a count does not count may go.
  pub count-select :
      (p q : A → Bool) (t : List A)
      → All (λ x. q x ≡ false → p x ≡ false) t
      → count p (select q t) ≡ count p t
  unfolding count select
  count-select p q [] a = refl
  count-select p q (x ∷ t) a = elim (Bool-cases (q x)) [
    | inl e ↦ rw (e, count-select p q t a.1) refl
    | inr e ↦ rw (e, count-select p q t a.1, a.0 e) (omega arith)
  ]

  pub count-select-le : (p q : A → Bool) (t : List A) → count p (select q t) ≤ count p t
  unfolding count select
  count-select-le p q [] = omega arith
  count-select-le p q (x ∷ t) = ground (arith, count-select-le p q t)

  pub All-rows {κ} : (P : A → Type κ) → ((x : A) → P x) → (t : List A) → All P t
  All-rows P h [] = tt
  All-rows P h (x ∷ t) = (h x, All-rows P h t)
