-- ===== src/Paging/Sorted.antt =====
-- The order of a listing: rows with different identifiers have one order, and a selection from the
-- ordered rows is the order of the selected ones.
use webhook_delivery_platfor.Base.{
  ◌≡◌, refl, ◌∙◌, Bool, true, false, List, [], ◌∷◌, inl, inr, arith, Bool-cases, select, order_by,
  insert_before, All, All-imp, ◌==◌, if◌then◌else◌,
}
use webhook_delivery_platfor.Paging.{Cursor, is_older, is_newer}

-- What a listing needs of its order.
pub record IsKeyOrder (later : Cursor → Cursor → Bool) : Type 0 where
  pub irreflexive : (a : Cursor) → later a a ≡ false
  pub transitive : (a b c : Cursor) → later a b ≡ true → later b c ≡ true → later a c ≡ true
  pub total : (a b : Cursor) → (a.id == b.id) ≡ false → later a b ≡ false → later b a ≡ true

pub is_older-IsKeyOrder : IsKeyOrder is_older
is_older-IsKeyOrder = record {
  irreflexive = λ a. ground arith;
  transitive = λ a b c h k. ground arith;
  total = λ a b n h. ground arith;
}

pub is_newer-IsKeyOrder : IsKeyOrder is_newer
is_newer-IsKeyOrder = record {
  irreflexive = λ a. ground arith;
  transitive = λ a b c h k. ground arith;
  total = λ a b n h. ground arith;
}

module _ {A : Type 0} (later : Cursor → Cursor → Bool) (laws : IsKeyOrder later)
    (key : A → Cursor) where
  -- No two rows have the same identifier.
  abbrev pub Apart : List A → Type 0
  Apart [] = Unit
  Apart (r ∷ t) = All (λ s. ((key r).id == (key s).id) ≡ false) t × Apart t

  -- Each row comes after all those before it.
  abbrev pub Sorted : List A → Type 0
  Sorted [] = Unit
  Sorted (r ∷ t) = All (λ s. later (key r) (key s) ≡ true) t × Sorted t

  insert_row : A → List A → List A
  insert_row = insert_before (λ r s. later (key r) (key s))

  ordered : List A → List A
  ordered = order_by (λ r s. later (key r) (key s))

  All-insert_row : (P : A → Type 0) (r : A) (t : List A) → P r → All P t → All P (insert_row r t)
  unfolding insert_row insert_before
  All-insert_row P r [] p a = (p, tt)
  All-insert_row P r (s ∷ t) p a = elim (Bool-cases (later (key r) (key s))) [
    | inl h ↦ rw h (p, (a.0, a.1))
    | inr h ↦ rw h (a.0, All-insert_row P r t p a.1)
  ]

  All-ordered : (P : A → Type 0) (t : List A) → All P t → All P (ordered t)
  unfolding ordered order_by insert_row
  All-ordered P [] a = tt
  All-ordered P (r ∷ t) a = All-insert_row P r (ordered t) a.0 (All-ordered P t a.1)

  insert_row-Sorted :
      (r : A) (t : List A)
      → All (λ s. ((key r).id == (key s).id) ≡ false) t
      → Sorted t
      → Sorted (insert_row r t)
  unfolding insert_row insert_before
  insert_row-Sorted r [] n o = (tt, tt)
  insert_row-Sorted r (s ∷ t) n o = elim (Bool-cases (later (key r) (key s))) [
    | inl h ↦ rw h ((h, All-imp (λ x k. laws.transitive (key r) (key s) (key x) h k) t o.0), o)
    | inr h ↦ rw h (
      All-insert_row (λ x. later (key s) (key x) ≡ true) r t (laws.total (key r) (key s) n.0 h) o.0,
      insert_row-Sorted r t n.1 o.1,
    )
  ]

  pub ordered-Sorted : (t : List A) → Apart t → Sorted (order_by (λ r s. later (key r) (key s)) t)
  unfolding order_by insert_row ordered
  ordered-Sorted [] d = tt
  ordered-Sorted (r ∷ t) d =
      insert_row-Sorted r (ordered t) (All-ordered (λ s. ((key r).id == (key s).id) ≡ false) t d.0)
        (ordered-Sorted t d.1)

  -- A row that comes before the others is inserted at the front.
  insert_row-first :
      (r : A) (t : List A) → All (λ s. later (key r) (key s) ≡ true) t → insert_row r t ≡ (r ∷ t)
  unfolding insert_row insert_before
  insert_row-first r [] a = refl
  insert_row-first r (s ∷ t) a = rw a.0 refl

  All-selected : (P : A → Type 0) (q : A → Bool) (t : List A) → All P t → All P (select q t)
  unfolding select
  All-selected P q [] a = tt
  All-selected P q (r ∷ t) a = elim (Bool-cases (q r)) [
    | inl h ↦ rw h (a.0, All-selected P q t a.1)
    | inr h ↦ rw h (All-selected P q t a.1)
  ]

  pub select-Sorted : (q : A → Bool) (t : List A) → Sorted t → Sorted (select q t)
  unfolding select
  select-Sorted q [] o = tt
  select-Sorted q (r ∷ t) o = elim (Bool-cases (q r)) [
    | inl h ↦ rw h (All-selected (λ s. later (key r) (key s) ≡ true) q t o.0, select-Sorted q t o.1)
    | inr h ↦ rw h (select-Sorted q t o.1)
  ]

  select-insert_row :
      (q : A → Bool) (r : A) (t : List A)
      → Sorted t
      → select q (insert_row r t) ≡ (if q r then insert_row r (select q t) else select q t)
  unfolding insert_row insert_before select
  select-insert_row q r [] o = ground arith
  select-insert_row q r (s ∷ t) o = elim (Bool-cases (later (key r) (key s))) [
    | inl h ↦
        (let before_all : All (λ x. later (key r) (key x) ≡ true) (s ∷ t) =
            (h, All-imp (λ x k. laws.transitive (key r) (key s) (key x) h k) t o.0) in
          let front =
            insert_row-first r (select q (s ∷ t))
              (All-selected (λ x. later (key r) (key x) ≡ true) q (s ∷ t) before_all) in
          ground (arith, front))
    | inr h ↦ ground (arith, select-insert_row q r t o.1)
  ]

  pub select-ordered :
      (q : A → Bool) (t : List A)
      → Apart t
      → select q (order_by (λ r s. later (key r) (key s)) t)
        ≡ order_by (λ r s. later (key r) (key s)) (select q t)
  unfolding order_by insert_row ordered select
  select-ordered q [] d = refl
  select-ordered q (r ∷ t) d =
      select-insert_row q r (ordered t) (ordered-Sorted t d.1)
      ∙ ground (arith, select-ordered q t d.1)
