-- ===== src/Paging/Pieces.antt =====
-- Selections and pages of a list.
use webhook_delivery_platfor.Base.{
  ℕ, zero, suc, ◌+◌, ◌≤◌, ◌≡◌, refl, subst, Bool, true, ◌&&◌, none, some, List, [], ◌∷◌, inl, inr,
  arith, Bool-cases, select, All, ltb, length, take, get_elem?, if◌then◌else◌, length-take,
}
use webhook_delivery_platfor.Paging.{Cursor, page_of}

module _ {A : Type 0} where
  pub select-select :
      (p q : A → Bool) (t : List A) → select q (select p t) ≡ select (λ r. p r && q r) t
  unfolding select
  select-select p q [] = refl
  select-select p q (r ∷ t) = ground (arith, select-select p q t)

  pub select-true : (t : List A) → select (λ r. true) t ≡ t
  unfolding select
  select-true [] = refl
  select-true (r ∷ t) = rw (select-true t) refl

  pub select-passes : (q : A → Bool) (t : List A) → All (λ r. q r ≡ true) (select q t)
  unfolding select
  select-passes q [] = tt
  select-passes q (r ∷ t) = elim (Bool-cases (q r)) [
    | inl h ↦ rw h (h, select-passes q t)
    | inr h ↦ rw h (select-passes q t)
  ]

  pub select-implied :
      (q q' : A → Bool) (t : List A)
      → ((r : A) → q' r ≡ true → q r ≡ true)
      → select q' (select q t) ≡ select q' t
  unfolding select
  select-implied q q' [] h = refl
  select-implied q q' (r ∷ t) h = ground (arith, h r, select-implied q q' t h)

  pub select-All : (q : A → Bool) (t : List A) → All (λ r. q r ≡ true) t → select q t ≡ t
  unfolding select
  select-All q [] a = refl
  select-All q (r ∷ t) a = ground (arith, select-All q t a.1)

  pub All-get_elem :
      (P : A → Type 0) (t : List A) (n : ℕ) {r : A} → All P t → get_elem? t n ≡ some r → P r
  All-get_elem P [] n a h = cc
  All-get_elem P (x ∷ t) zero {r} a h = subst P (same h) a.0
    where
      same : some x ≡ some r → x ≡ r
      same e = cc
  All-get_elem P (x ∷ t) (suc n) a h = All-get_elem P t n a.1 h

  pub length-take_more : (n : ℕ) (t : List A) → ltb n (length (take (n + 1) t)) ≡ ltb n (length t)
  length-take_more n t = ground (arith, length-take (n + 1) t)

  pub take-short : (n : ℕ) (t : List A) → length t ≤ n → take n t ≡ t
  take-short zero [] h = refl
  take-short zero (x ∷ t) h = absurd (omega arith)
  take-short (suc n) [] h = refl
  take-short (suc n) (x ∷ t) h = rw (take-short n t (omega arith)) refl

  pub take-take : (n : ℕ) (t : List A) → take n (take (suc n) t) ≡ take n t
  take-take zero t = refl
  take-take (suc n) [] = refl
  take-take (suc n) (x ∷ t) = rw (take-take n t) refl

  pub get_elem-take : (n : ℕ) (t : List A) → get_elem? (take (suc (suc n)) t) n ≡ get_elem? t n
  get_elem-take n [] = refl
  get_elem-take zero (x ∷ t) = refl
  get_elem-take (suc n) (x ∷ t) = get_elem-take n t

pub page_of-take :
    {A : Type 0} (later : Cursor → Cursor → Bool) (key : A → Cursor) (n : ℕ) (t : List A)
    → page_of later key (suc n) (take (suc n + 1) t)
      ≡ (take (suc n) t, (if ltb (suc n) (length t) then get_elem? t n else none))
unfolding page_of
page_of-take later key n t =
    let more : suc n + 1 ≡ suc (suc n) = omega arith in
    rw (length-take_more (suc n) t, more, take-take (suc n) t, get_elem-take n t) refl
