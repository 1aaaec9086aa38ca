-- ===== src/Base/Tables.antt =====
-- A table is a list of rows with a primary key. Lookup and write by key go to the row with that key.
use Prim.Native.Nat.{ℕ, ◌+◌, ◌<◌}
use mathlib.Core.Path.{◌≡◌, refl, sym, subst, ◌∙◌}
use mathlib.Core.Logic.{inl, inr}
use mathlib.Core.Bool.{Bool, true, not, ◌&&◌}
use mathlib.Core.Option.{Option, none, some}
use mathlib.Core.List.{List, [], ◌∷◌}
use native.Mathlib.Omega.{arith}
use webhook_delivery_platfor.Base.Tests.{if◌then◌else◌, bit, ◌==◌, Bool-cases, eq→≡, eq_self}
use webhook_delivery_platfor.Base.Lists.{count, update_where, select}

module _ {ℓ} {A : Type ℓ} (key : A → ℕ) where
  -- SELECT by primary key.
  unfoldable pub find : ℕ → List A → Option A
  find k [] = none
  find k (r ∷ t) = if key r == k then some r else find k t

  -- UPDATE by primary key: the row with the key of `r` becomes `r`.
  unfoldable pub save : A → List A → List A
  save r [] = []
  save r (s ∷ t) = if key s == key r then r ∷ t else s ∷ save r t

  -- The primary key's constraint.
  abbrev pub Unique : List A → Type ℓ
  Unique [] = Unit
  Unique (r ∷ t) = (find (key r) t ≡ none) × Unique t

  pub find_key : (k : ℕ) (t : List A) {r : A} → find k t ≡ some r → key r ≡ k
  unfolding find
  find_key k [] h = ground arith
  find_key k (s ∷ t) {r} h = ground (arith, find_key k t {r = r})

  pub find-save :
      (k : ℕ) (r : A) (t : List A) {s : A}
      → find (key r) t ≡ some s
      → find k (save r t) ≡ (if key r == k then some r else find k t)
  unfolding find save
  find-save k r [] h = ground arith
  find-save k r (x ∷ t) {s} h = ground (arith, find-save k r t {s = s})

  -- The row that was found by a key is found again as it is saved.
  pub find-saved :
      (k : ℕ) (r r' : A) (t : List A)
      → find k t ≡ some r
      → key r' ≡ key r
      → find k (save r' t) ≡ some r'
  find-saved k r r' t h same =
      let same' : key r' ≡ k = same ∙ find_key k t h in
      let found : find (key r') t ≡ some r = subst (λ i. find i t ≡ some r) (sym same') h in
      rw (find-save k r' t found) (ground (arith, same', eq_self k))

  pub count-save :
      (p : A → Bool) (r : A) (t : List A) {s : A}
      → find (key r) t ≡ some s
      → count p (save r t) + bit (p s) ≡ count p t + bit (p r)
  unfolding find save count
  count-save p r [] h = ground arith
  count-save p r (x ∷ t) {s} h = ground (arith, count-save p r t {s = s})

  pub save-Unique :
      (r : A) (t : List A) {s : A} → find (key r) t ≡ some s → Unique t → Unique (save r t)
  unfolding find save
  save-Unique r [] h u = tt
  save-Unique r (x ∷ t) {s} h u = elim (Bool-cases (key x == key r)) [
    | inl e ↦ rw e (subst (λ k. find k t ≡ none) (eq→≡ (key x) (key r) e) u.0, u.1)
    | inr e ↦ rw e (
        let below : find (key r) t ≡ some s = ground (arith) in
        (rw (find-save (key x) r t below) (ground (arith, u.0)), save-Unique r t below u.1))
  ]

  -- What is asked of the row with one key is asked of no other row.
  pub count-key :
      (k : ℕ) (p : A → Bool) (t : List A)
      → Unique t
      → count (λ r. key r == k && p r) t ≡ elim (find k t) [ none ↦ 0 | some r ↦ bit (p r) ]
  unfolding find count
  count-key k p [] u = refl
  count-key k p (r ∷ t) u = ground (arith, count-key k p t, eq→≡ (key r) k)

  pub find-update_where :
      (k : ℕ) (p : A → Bool) (f : A → A) (t : List A)
      → ((r : A) → key (f r) ≡ key r)
      → find k (update_where p f t)
        ≡ elim (find k t) [ none ↦ none | some r ↦ some (if p r then f r else r) ]
  unfolding find update_where
  find-update_where k p f [] h = refl
  find-update_where k p f (r ∷ t) h = ground (arith, h r, find-update_where k p f t h)

  pub update_where-Unique :
      (p : A → Bool) (f : A → A) (t : List A)
      → ((r : A) → key (f r) ≡ key r)
      → Unique t
      → Unique (update_where p f t)
  unfolding find update_where
  update_where-Unique p f [] h u = tt
  update_where-Unique p f (r ∷ t) h u =
      (ground (arith, h r, find-update_where (key r) p f t h), update_where-Unique p f t h u.1)

  pub count-pos :
      (k : ℕ) (p : A → Bool) (t : List A) (r : A) → find k t ≡ some r → p r ≡ true → 0 < count p t
  unfolding find count
  count-pos k p [] r h e = ground arith
  count-pos k p (x ∷ t) r h e = ground (arith, count-pos k p t r)

  -- DELETE by primary key.
  unfoldable pub delete_row : ℕ → List A → List A
  delete_row k t = select (λ r. not (key r == k)) t

  count-delete_none :
      (p : A → Bool) (k : ℕ) (t : List A) → find k t ≡ none → count p (delete_row k t) ≡ count p t
  unfolding find delete_row select count
  count-delete_none p k [] h = refl
  count-delete_none p k (r ∷ t) h = ground (arith, count-delete_none p k t)

  pub count-delete :
      (p : A → Bool) (k : ℕ) (t : List A) {r : A}
      → Unique t
      → find k t ≡ some r
      → count p (delete_row k t) + bit (p r) ≡ count p t
  unfolding find delete_row select count
  count-delete p k [] u h = ground arith
  count-delete p k (x ∷ t) {r} u h = elim (Bool-cases (key x == k)) [
    | inl e ↦
        let gone = count-delete_none p k t (subst (λ i. find i t ≡ none) (eq→≡ (key x) k e) u.0) in
        ground (arith, gone)
    | inr e ↦ ground (arith, count-delete p k t {r = r} u.1)
  ]
