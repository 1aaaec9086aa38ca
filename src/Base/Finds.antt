-- ===== src/Base/Finds.antt =====
-- The first row of a table that passes a test.
use mathlib.Core.Path.{◌≡◌, refl, subst}
use mathlib.Core.Logic.{inl, inr}
use mathlib.Core.Bool.{Bool, true, not}
use mathlib.Core.Option.{none, some, some-injective}
use mathlib.Core.List.{List, [], ◌∷◌}
use Prim.Native.Nat.{ℕ}
use native.Mathlib.Omega.{arith}
use webhook_delivery_platfor.Base.Tests.{◌==◌, Bool-cases, eq→≡, eq_self}
use webhook_delivery_platfor.Base.Lists.{select, All}
use webhook_delivery_platfor.Base.Tables.{delete_row, save, find, Unique}
use webhook_delivery_platfor.Base.Queries.{first, All-select, rows_found, select-Unique}

module _ {ℓ} {A : Type ℓ} (key : A → ℕ) where
  -- The first row that passes a test stands in the table.
  pub first-select :
      (p : A → Bool) (t : List A) {r : A}
      → Unique key t
      → first (select p t) ≡ some r
      → (find key (key r) t ≡ some r) × (p r ≡ true)
  first-select p t {r} u h =
      at_head (select p t) (All-select (λ x. find key (key x) t ≡ some x) p t (rows_found key t u))
        h
    where
      at_head :
          (xs : List A)
          → All (λ x. (find key (key x) t ≡ some x) × (p x ≡ true)) xs
          → first xs ≡ some r
          → (find key (key r) t ≡ some r) × (p r ≡ true)
      at_head [] a e = cc
      at_head (x ∷ xs) a e =
          subst (λ y. (find key (key y) t ≡ some y) × (p y ≡ true)) (some-injective x r e) a.0

  -- With no row that passes the test there is none with a key that would.
  pub first-none-find :
      (p : A → Bool) (k : ℕ) (t : List A)
      → ((r : A) → (key r == k) ≡ true → p r ≡ true)
      → first (select p t) ≡ none
      → find key k t ≡ none
  unfolding find select
  first-none-find p k [] h e = refl
  first-none-find p k (x ∷ t) h e = ground (arith, h x, first-none-find p k t h)

  -- The first row that passes a test is still the first one when it is saved.
  pub first-select-save :
      (p : A → Bool) (t : List A) {r : A} (r' : A)
      → Unique key t
      → first (select p t) ≡ some r
      → key r' ≡ key r
      → p r' ≡ true
      → first (select p (save key r' t)) ≡ some r'
  unfolding select save find
  first-select-save p [] r' u h same pass = cc
  first-select-save p (x ∷ t) {r} r' u h same pass = elim (Bool-cases (p x)) [
    | inl e ↦ ground (arith, e, eq_self (key x))
    | inr e ↦
        let below : first (select p t) ≡ some r = ground (arith, e) in
        let there = first-select p t {r = r} u.1 below in
        ground (
          arith,
          there.0,
          u.0,
          first-select-save p t {r = r} r' u.1 below same pass,
          eq→≡ (key x) (key r),
        )
  ]

  pub delete-Unique : (k : ℕ) (t : List A) → Unique key t → Unique key (delete_row key k t)
  unfolding delete_row
  delete-Unique k t u = select-Unique key (λ r. not (key r == k)) t u
