-- ===== src/Base/Queries.antt =====
-- SELECT ... WHERE ... ORDER BY ... FOR UPDATE SKIP LOCKED LIMIT n over a table with a primary key.
use Prim.Native.Nat.{ℕ, zero, suc, ◌≤◌, ◌<◌}
use mathlib.Core.Path.{◌≡◌, refl}
use mathlib.Core.Logic.{inl, inr}
use mathlib.Core.Bool.{Bool, true, false, not}
use mathlib.Core.Option.{Option, none, some}
use mathlib.Core.List.{List, [], ◌∷◌}
use native.Mathlib.Omega.{arith}
use webhook_delivery_platfor.Base.Tests.{if◌then◌else◌, ◌==◌, Bool-cases}
use webhook_delivery_platfor.Base.Lists.{length, select, count, take, All, length-take-le}
use webhook_delivery_platfor.Base.Tables.{save, find-save, find, Unique, find_key}

module _ {ℓ} {A : Type ℓ} where
  unfoldable pub insert_before : (A → A → Bool) → A → List A → List A
  insert_before before r [] = r ∷ []
  insert_before before r (s ∷ t) = if before r s then r ∷ s ∷ t else s ∷ insert_before before r t

  -- ORDER BY, where `before r s` says that r comes first.
  unfoldable pub order_by : (A → A → Bool) → List A → List A
  unfolding insert_before
  order_by before [] = []
  order_by before (r ∷ t) = insert_before before r (order_by before t)

  pub All-imp {κ κ'} :
      {P : A → Type κ} {Q : A → Type κ'} (h : (r : A) → P r → Q r) (xs : List A)
      → All P xs
      → All Q xs
  All-imp h [] a = tt
  All-imp h (x ∷ xs) a = (h x a.0, All-imp h xs a.1)

  pub All-select {κ} :
      (P : A → Type κ) (p : A → Bool) (xs : List A)
      → All P xs
      → All (λ r. P r × (p r ≡ true)) (select p xs)
  unfolding select
  All-select P p [] a = tt
  All-select P p (x ∷ xs) a = elim (Bool-cases (p x)) [
    | inl e ↦ rw e ((a.0, e), All-select P p xs a.1)
    | inr e ↦ rw e (All-select P p xs a.1)
  ]

  All-insert_before {κ} :
      (P : A → Type κ) (before : A → A → Bool) (r : A) (xs : List A)
      → P r
      → All P xs
      → All P (insert_before before r xs)
  unfolding insert_before
  All-insert_before P before r [] h a = (h, tt)
  All-insert_before P before r (x ∷ xs) h a = elim (Bool-cases (before r x)) [
    | inl e ↦ rw e (h, a)
    | inr e ↦ rw e (a.0, All-insert_before P before r xs h a.1)
  ]

  pub All-order_by {κ} :
      (P : A → Type κ) (before : A → A → Bool) (xs : List A) → All P xs → All P (order_by before xs)
  unfolding order_by
  All-order_by P before [] a = tt
  All-order_by P before (x ∷ xs) a =
      All-insert_before P before x (order_by before xs) a.0 (All-order_by P before xs a.1)

  pub All-take {κ} : (P : A → Type κ) (n : ℕ) (xs : List A) → All P xs → All P (take n xs)
  All-take P zero xs a = tt
  All-take P (suc n) [] a = tt
  All-take P (suc n) (x ∷ xs) a = (a.0, All-take P n xs a.1)

module _ {ℓ} {A : Type ℓ} where
  pub length-select : (p : A → Bool) (t : List A) → length (select p t) ≡ count p t
  unfolding select count
  length-select p [] = refl
  length-select p (r ∷ t) = ground (arith, length-select p t)

  length-insert_before :
      (before : A → A → Bool) (r : A) (t : List A)
      → length (insert_before before r t) ≡ suc (length t)
  unfolding insert_before
  length-insert_before before r [] = refl
  length-insert_before before r (s ∷ t) = ground (arith, length-insert_before before r t)

  pub length-order_by : (before : A → A → Bool) (t : List A) → length (order_by before t) ≡ length t
  unfolding order_by
  length-order_by before [] = refl
  length-order_by before (r ∷ t) =
      omega (arith, length-insert_before before r (order_by before t), length-order_by before t)

  abbrev pub first : List A → Option A
  first [] = none
  first (r ∷ t) = some r

  pub first_of_All {κ} :
      (P : A → Type κ) (t : List A) → All P t → 0 < length t → (r : A) × (first t ≡ some r) × P r
  first_of_All P [] a h = elim h [ ]
  first_of_All P (r ∷ t) a h = (r, refl, a.0)

module _ {ℓ} {A : Type ℓ} (key : A → ℕ) where
  -- The rows whose key passes `locked` are held by other transactions.
  unfoldable pub query : (A → Bool) → (A → A → Bool) → (ℕ → Bool) → ℕ → List A → List A
  query p before locked limit t =
      take limit (select (λ r. not (locked (key r))) (order_by before (select p t)))

  find-select-none :
      (k : ℕ) (p : A → Bool) (t : List A) → find key k t ≡ none → find key k (select p t) ≡ none
  unfolding find select
  find-select-none k p [] h = refl
  find-select-none k p (r ∷ t) h = ground (arith, find-select-none k p t)

  find-take-none : (k n : ℕ) (t : List A) → find key k t ≡ none → find key k (take n t) ≡ none
  unfolding find
  find-take-none k zero t h = refl
  find-take-none k (suc n) [] h = refl
  find-take-none k (suc n) (r ∷ t) h = ground (arith, find-take-none k n t)

  find-insert_before :
      (k : ℕ) (before : A → A → Bool) (r : A) (t : List A)
      → (key r == k) ≡ false
      → find key k t ≡ none
      → find key k (insert_before before r t) ≡ none
  unfolding find insert_before
  find-insert_before k before r [] e h = ground arith
  find-insert_before k before r (s ∷ t) e h = ground (arith, find-insert_before k before r t)

  find-order_by :
      (k : ℕ) (before : A → A → Bool) (t : List A)
      → find key k t ≡ none
      → find key k (order_by before t) ≡ none
  unfolding find order_by
  find-order_by k before [] h = refl
  find-order_by k before (r ∷ t) h =
      ground (arith, find-order_by k before t, find-insert_before k before r (order_by before t))

  pub select-Unique : (p : A → Bool) (t : List A) → Unique key t → Unique key (select p t)
  unfolding select
  select-Unique p [] u = tt
  select-Unique p (r ∷ t) u = elim (Bool-cases (p r)) [
    | inl e ↦ rw e (find-select-none (key r) p t u.0, select-Unique p t u.1)
    | inr e ↦ rw e (select-Unique p t u.1)
  ]

  take-Unique : (n : ℕ) (t : List A) → Unique key t → Unique key (take n t)
  take-Unique zero t u = tt
  take-Unique (suc n) [] u = tt
  take-Unique (suc n) (r ∷ t) u = (find-take-none (key r) n t u.0, take-Unique n t u.1)

  insert_before-Unique :
      (before : A → A → Bool) (r : A) (t : List A)
      → find key (key r) t ≡ none
      → Unique key t
      → Unique key (insert_before before r t)
  unfolding find insert_before
  insert_before-Unique before r [] e u = (refl, tt)
  insert_before-Unique before r (s ∷ t) e u = elim (Bool-cases (before r s)) [
    | inl b ↦ rw b (e, u)
    | inr b ↦ rw b (
      find-insert_before (key s) before r t (ground arith) u.0,
      insert_before-Unique before r t (ground arith) u.1,
    )
  ]

  order_by-Unique :
      (before : A → A → Bool) (t : List A) → Unique key t → Unique key (order_by before t)
  unfolding order_by
  order_by-Unique before [] u = tt
  order_by-Unique before (r ∷ t) u =
      insert_before-Unique before r (order_by before t) (find-order_by (key r) before t u.0)
        (order_by-Unique before t u.1)

  -- The rows of a query are different rows.
  pub query-Unique :
      (p : A → Bool) (before : A → A → Bool) (locked : ℕ → Bool) (limit : ℕ) (t : List A)
      → Unique key t
      → Unique key (query p before locked limit t)
  unfolding query
  query-Unique p before locked limit t u =
      take-Unique limit _ (select-Unique _ _ (order_by-Unique before _ (select-Unique p t u)))

  find_in_cons :
      (x : A) (xs : List A)
      → find key (key x) xs ≡ none
      → (r : A) → find key (key r) xs ≡ some r
      → find key (key r) (x ∷ xs) ≡ some r
  unfolding find
  find_in_cons x xs e r h = elim (Bool-cases (key x == key r)) [
    | inl b ↦ absurd (clash b)
    | inr b ↦ rw b h
  ]
    where
      clash : (key x == key r) ≡ true → ⊥
      clash b = ground (arith, find_key key (key x) xs {r = r})

  pub rows_found : (t : List A) → Unique key t → All (λ r. find key (key r) t ≡ some r) t
  unfolding find
  rows_found [] u = tt
  rows_found (x ∷ xs) u = (ground arith, All-imp (find_in_cons x xs u.0) xs (rows_found xs u.1))

  -- Each row of a query stands in the table and passes the test.
  pub query_found :
      (p : A → Bool) (before : A → A → Bool) (locked : ℕ → Bool) (limit : ℕ) (t : List A)
      → Unique key t
      → All (λ r. (find key (key r) t ≡ some r) × (p r ≡ true)) (query p before locked limit t)
  unfolding query
  query_found p before locked limit t u = All-take _ limit _ (
      All-imp (λ r h. h.0) _
        (All-select _ _ _ (All-order_by _ before _ (All-select _ p t (rows_found t u)))))

  pub length-query-le :
      (p : A → Bool) (before : A → A → Bool) (locked : ℕ → Bool) (limit : ℕ) (t : List A)
      → length (query p before locked limit t) ≤ limit
  unfolding query
  length-query-le p before locked limit t = length-take-le limit _

  -- The rows of a batch that are still to come are not touched by a write to another row.
  pub batch_rest {κ} :
      (P : A → Type κ) (t : List A) (r r' : A) (rs : List A)
      → key r' ≡ key r
      → find key (key r) t ≡ some r
      → find key (key r) rs ≡ none
      → All (λ x. (find key (key x) t ≡ some x) × P x) rs
      → All (λ x. (find key (key x) (save key r' t) ≡ some x) × P x) rs
  unfolding find
  batch_rest P t r r' [] same h fresh a = tt
  batch_rest P t r r' (x ∷ xs) same h fresh a = (
    (
      (let found : find key (key r') t ≡ some r = rw same h in
          rw (find-save key (key x) r' t found) (ground (arith, a.0.0))),
      a.0.1,
    ),
    batch_rest P t r r' xs same h (ground arith) a.1,
  )
