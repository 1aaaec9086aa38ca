-- ===== src/Paging/Walk.antt =====
-- A client that follows the cursors of a listing page by page.
use webhook_delivery_platfor.Base.{
  ℕ, zero, suc, ◌+◌, ◌<◌, ◌≡◌, refl, sym, ◌∙◌, ap, Bool, true, false, Option, none, some, List, [],
  ◌∷◌, ◌++◌, inl, inr, arith, Bool-cases, select, order_by, ltb, length, take, get_elem?,
  if◌then◌else◌, length-append, length-take,
}
use webhook_delivery_platfor.Paging.{Cursor, after_cursor, fetch, page_of, page}
use webhook_delivery_platfor.Paging.Pieces.{
  select-select, select-true, select-passes, select-implied, select-All, All-get_elem, take-short,
  page_of-take,
}
use webhook_delivery_platfor.Paging.Sorted.{
  IsKeyOrder, Apart, Sorted, ordered-Sorted, select-ordered, select-Sorted,
}

abbrev prepend {ℓ} : {A : Type ℓ} → List A → Option (List A) → Option (List A)
prepend rows none = none
prepend rows (some more) = some (rows ++ more)

module _ {A : Type 0} (later : Cursor → Cursor → Bool) (key : A → Cursor) (p : A → Bool) (limit : ℕ)
    (t : List A) where
  -- The rows of the pages from a cursor on, as long as there is a next one; `none` if the fuel is
  -- used up first.
  unfoldable pub walk : ℕ → Option Cursor → Option (List A)
  walk zero cursor = none
  walk (suc fuel) cursor =
      let (rows, next) = page later key p cursor limit t in
      elim next [ none ↦ some rows | some r ↦ prepend rows (walk fuel (some (key r))) ]

module _ {A : Type 0} (later : Cursor → Cursor → Bool) (laws : IsKeyOrder later)
    (key : A → Cursor) where
  -- An ordered list is cut behind one of its items: what follows is what comes after its key.
  record Cut (n : ℕ) (t : List A) : Type 0 where
    last : A
    rest : List A
    at : get_elem? t n ≡ some last
    parts : t ≡ take (suc n) t ++ rest
    following : select (λ r. later (key last) (key r)) t ≡ rest

  cut : (n : ℕ) (t : List A) → Sorted later laws key t → n < length t → Cut n t
  unfolding select
  cut n [] o h = absurd (omega arith)
  cut zero (x ∷ t) o h = record {
    last = x;
    rest = t;
    at = refl;
    parts = refl;
    following = rw (laws.irreflexive (key x)) (select-All (λ r. later (key x) (key r)) t o.0);
  }
  cut (suc n) (x ∷ t) o h =
      let c = cut n t o.1 (omega arith) in
      let before = All-get_elem (λ r. later (key x) (key r) ≡ true) t n o.0 c.at in
      record {
        last = c.last;
        rest = c.rest;
        at = c.at;
        parts = ap (λ l. x ∷ l) c.parts;
        following = rw (not_back x c.last before) c.following;
      }
    where
      not_back : (a b : A) → later (key a) (key b) ≡ true → later (key b) (key a) ≡ false
      not_back a b h =
          ground (arith, laws.irreflexive (key a), laws.transitive (key a) (key b) (key a) h)

  module _ (p : A → Bool) (t : List A) (apart : Apart later laws key (select p t)) where
    -- The whole listing.
    abbrev listing : List A
    listing = order_by (λ r s. later (key r) (key s)) (select p t)

    -- What a cursor leaves of it.
    abbrev remaining : Option Cursor → List A
    remaining cursor = select (after_cursor later key cursor) listing

    fetch-remaining :
        (cursor : Option Cursor) (n : ℕ) → fetch later key p cursor n t ≡ take n (remaining cursor)
    unfolding fetch
    fetch-remaining cursor n = ap (take n) (
        ap (order_by (λ r s. later (key r) (key s)))
          (sym (select-select p (after_cursor later key cursor) t))
        ∙ sym (select-ordered later laws key (after_cursor later key cursor) (select p t) apart))

    page-remaining :
        (cursor : Option Cursor) (n : ℕ)
        → page later key p cursor (suc n) t ≡ (
          take (suc n) (remaining cursor),
          (if ltb (suc n) (length (remaining cursor))
              then get_elem? (remaining cursor) n
              else none),
        )
    unfolding page
    page-remaining cursor n =
        ap (page_of later key (suc n)) (fetch-remaining cursor (suc n + 1))
        ∙ page_of-take later key n (remaining cursor)

    -- The key of an item that comes after the cursor leaves less.
    remaining-further :
        (cursor : Option Cursor) (n : ℕ) (r : A)
        → get_elem? (remaining cursor) n ≡ some r
        → remaining (some (key r)) ≡ select (λ x. later (key r) (key x)) (remaining cursor)
    remaining-further none n r h =
        sym (select-implied (λ x. true) (λ x. later (key r) (key x)) listing (λ x k. refl))
    remaining-further (some c) n r h = sym (
        select-implied (λ x. later c (key x)) (λ x. later (key r) (key x)) listing
          (λ x k. laws.transitive c (key r) (key x) passed k))
      where
        passed : later c (key r) ≡ true
        passed =
            All-get_elem (λ x. later c (key x) ≡ true) (remaining (some c)) n
              (select-passes (λ x. later c (key x)) listing) h

    remaining-Sorted : (cursor : Option Cursor) → Sorted later laws key (remaining cursor)
    remaining-Sorted cursor =
        select-Sorted later laws key (after_cursor later key cursor) listing
          (ordered-Sorted later laws key (select p t) apart)

    walk-ends :
        (n fuel : ℕ) (cursor : Option Cursor) {rows : List A}
        → page later key p cursor (suc n) t ≡ (rows, none)
        → walk later key p (suc n) t (suc fuel) cursor ≡ some rows
    unfolding walk
    walk-ends n fuel cursor h =
        ap
          (λ (x : List A × Option A). elim x.1 as (λ o. Option (List A)) [
            | none ↦ some x.0
            | some r ↦ prepend x.0 (walk later key p (suc n) t fuel (some (key r)))
          ])
          h

    walk-goes_on :
        (n fuel : ℕ) (cursor : Option Cursor) {rows : List A} {r : A}
        → page later key p cursor (suc n) t ≡ (rows, some r)
        → walk later key p (suc n) t (suc fuel) cursor
          ≡ prepend rows (walk later key p (suc n) t fuel (some (key r)))
    unfolding walk
    walk-goes_on n fuel cursor h =
        ap
          (λ (x : List A × Option A). elim x.1 as (λ o. Option (List A)) [
            | none ↦ some x.0
            | some r ↦ prepend x.0 (walk later key p (suc n) t fuel (some (key r)))
          ])
          h

    -- A page that is not the last, where the walk is right from the next cursor on.
    next_page :
        (n fuel : ℕ) (cursor : Option Cursor) (c : Cut n (remaining cursor))
        → ltb (suc n) (length (remaining cursor)) ≡ true
        → ((next : Option Cursor)
            → length (remaining next) < fuel
            → walk later key p (suc n) t fuel next ≡ some (remaining next))
        → length (remaining cursor) < suc fuel
        → walk later key p (suc n) t (suc fuel) cursor ≡ some (remaining cursor)
    next_page n fuel cursor c more rest_walked h =
        walk-goes_on n fuel cursor (page-remaining cursor n ∙ rw (more, c.at) refl)
        ∙ ap (prepend (take (suc n) (remaining cursor)))
            (rest_walked (some (key c.last)) shorter ∙ ap some left)
        ∙ ap some (sym c.parts)
      where
        left : remaining (some (key c.last)) ≡ c.rest
        left = remaining-further cursor n c.last c.at ∙ c.following

        shorter : length (remaining (some (key c.last))) < fuel
        shorter = rw left (
            ground (
              arith,
              ap length c.parts,
              length-append (take (suc n) (remaining cursor)) c.rest,
              length-take (suc n) (remaining cursor),
            ))

    walk-remaining :
        (n fuel : ℕ) (cursor : Option Cursor)
        → length (remaining cursor) < fuel
        → walk later key p (suc n) t fuel cursor ≡ some (remaining cursor)
    walk-remaining n zero cursor h = absurd (omega arith)
    walk-remaining n (suc fuel) cursor h =
        elim (Bool-cases (ltb (suc n) (length (remaining cursor)))) [
          | inl more ↦
              next_page n fuel cursor
                (cut n (remaining cursor) (remaining-Sorted cursor) (ground arith)) more
                (walk-remaining n fuel) h
          | inr last ↦
              walk-ends n fuel cursor (page-remaining cursor n ∙ rw last refl)
              ∙ ap some (take-short (suc n) (remaining cursor) (ground arith))
        ]

-- With a limit of at least one item, rows whose identifiers differ, and fuel for one page more than
-- there are rows, the pages that a client gets by following the cursors are, one after the other,
-- the whole listing in its order.
pub walk_lem :
    {A : Type 0} (later : Cursor → Cursor → Bool) (key : A → Cursor) (p : A → Bool) (limit : ℕ)
    (t : List A) (fuel : ℕ)
    → (laws : IsKeyOrder later) → Apart later laws key (select p t)
    → 0 < limit
    → length (order_by (λ r s. later (key r) (key s)) (select p t)) < fuel
    → walk later key p limit t fuel none
      ≡ some (order_by (λ r s. later (key r) (key s)) (select p t))
walk_lem later key p zero t fuel laws apart some_rows h = absurd (omega arith)
walk_lem later key p (suc n) t fuel laws apart some_rows h =
    walk-remaining later laws key p t apart n fuel none (rw all h) ∙ ap some all
  where
    all :
        select (λ r. true) (order_by (λ r s. later (key r) (key s)) (select p t))
        ≡ order_by (λ r s. later (key r) (key s)) (select p t)
    all = select-true (order_by (λ r s. later (key r) (key s)) (select p t))
