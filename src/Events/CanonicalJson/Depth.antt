-- ===== src/Events/CanonicalJson/Depth.antt =====
-- The depth check of canonical_json.py against the height of a value.
use webhook_delivery_platfor.Base.{
  ◌↔◌, ℕ, ◌+◌, ◌≤◌, ◌≡◌, refl, max, Bool, true, false, ◌&&◌, Option, some, arith, length, and_true,
  and_false_right, inl, inr, Bool-cases,
}
use webhook_delivery_platfor.Schema.{Bytes}
use webhook_delivery_platfor.Errors.{ok, err}
use webhook_delivery_platfor.Events.CanonicalJson.{
  Json, Items, Fields, null, boolean, integer, negative, finite_float, infinite_float, text, array,
  object, nil, cons, end, field, not_finite_error, depth, depth_items, depth_fields, canonicalize,
}

-- How many containers are nested, the value itself counted.
unfoldable mutual
  pub height : Json → ℕ
  height (array xs) = height_items xs + 1
  height (object fs) = height_fields fs + 1
  height _ = 1

  pub height_items : Items → ℕ
  height_items nil = 0
  height_items (cons x xs) = max (height x) (height_items xs)

  pub height_fields : Fields → ℕ
  height_fields end = 0
  height_fields (field k x fs) = max (height x) (height_fields fs)

-- No NaN and no infinity stands in a value.
unfoldable mutual
  pub all_finite : Json → Bool
  all_finite infinite_float = false
  all_finite (array xs) = all_finite_items xs
  all_finite (object fs) = all_finite_fields fs
  all_finite _ = true

  pub all_finite_items : Items → Bool
  all_finite_items nil = true
  all_finite_items (cons x xs) = all_finite x && all_finite_items xs

  pub all_finite_fields : Fields → Bool
  all_finite_fields end = true
  all_finite_fields (field k x fs) = all_finite x && all_finite_fields fs

mutual
  unfolding depth height all_finite

  depth-height :
      (j : Json) (c : ℕ)
      → all_finite j ≡ true
      → (n : ℕ) × (depth j c ≡ ok n) × (n + 1 ≡ c + height j)
  depth-height (array xs) c h =
      let (n, e, q) = items-height xs (c + 1) c (omega arith) h in (n, e, omega arith)
  depth-height (object fs) c h =
      let (n, e, q) = fields-height fs (c + 1) c (omega arith) h in (n, e, omega arith)
  depth-height infinite_float c h = cc
  depth-height null c h = (c, refl, refl)
  depth-height (boolean b) c h = (c, refl, refl)
  depth-height (integer n) c h = (c, refl, refl)
  depth-height (negative n) c h = (c, refl, refl)
  depth-height (finite_float f) c h = (c, refl, refl)
  depth-height (text t) c h = (c, refl, refl)

  items-height :
      (xs : Items) (c m : ℕ)
      → c ≤ m + 1
      → all_finite_items xs ≡ true
      → (n : ℕ) × (depth_items xs c m ≡ ok n) × (n + 1 ≡ max (m + 1) (c + height_items xs))
  items-height nil c m low h = (m, refl, omega arith)
  items-height (cons x xs) c m low h =
      let (fx, fxs) = and_true (all_finite x) (all_finite_items xs) h in
      let (k, e, q) = depth-height x c fx in
      let (n, f, r) = items-height xs c (max m k) (omega arith) fxs in (n, rw e f, omega arith)

  fields-height :
      (fs : Fields) (c m : ℕ)
      → c ≤ m + 1
      → all_finite_fields fs ≡ true
      → (n : ℕ) × (depth_fields fs c m ≡ ok n) × (n + 1 ≡ max (m + 1) (c + height_fields fs))
  fields-height end c m low h = (m, refl, omega arith)
  fields-height (field k' x fs) c m low h =
      let (fx, fxs) = and_true (all_finite x) (all_finite_fields fs) h in
      let (k, e, q) = depth-height x c fx in
      let (n, f, r) = fields-height fs c (max m k) (omega arith) fxs in (n, rw e f, omega arith)

mutual
  unfolding depth all_finite

  depth_infinite : (j : Json) (c : ℕ) → all_finite j ≡ false → depth j c ≡ err not_finite_error
  depth_infinite (array xs) c h = items_infinite xs (c + 1) c h
  depth_infinite (object fs) c h = fields_infinite fs (c + 1) c h
  depth_infinite infinite_float c h = refl
  depth_infinite null c h = cc
  depth_infinite (boolean b) c h = cc
  depth_infinite (integer n) c h = cc
  depth_infinite (negative n) c h = cc
  depth_infinite (finite_float f) c h = cc
  depth_infinite (text t) c h = cc

  items_infinite :
      (xs : Items) (c m : ℕ)
      → all_finite_items xs ≡ false
      → depth_items xs c m ≡ err not_finite_error
  items_infinite nil c m h = cc
  items_infinite (cons x xs) c m h = elim (Bool-cases (all_finite x)) [
    | inl f ↦
        (let (k, e, q) = depth-height x c f in
          rw e (items_infinite xs c (max m k) (and_false_right (all_finite x) _ h f)))
    | inr f ↦ rw (depth_infinite x c f)
  ]

  fields_infinite :
      (fs : Fields) (c m : ℕ)
      → all_finite_fields fs ≡ false
      → depth_fields fs c m ≡ err not_finite_error
  fields_infinite end c m h = cc
  fields_infinite (field k' x fs) c m h = elim (Bool-cases (all_finite x)) [
    | inl f ↦
        (let (k, e, q) = depth-height x c f in
          rw e (fields_infinite fs c (max m k) (and_false_right (all_finite x) _ h f)))
    | inr f ↦ rw (depth_infinite x c f)
  ]

height_pos : (j : Json) → 1 ≤ height j
unfolding height
height_pos (array xs) = omega arith
height_pos (object fs) = omega arith
height_pos _ = omega arith

-- canonicalize returns exactly when the value holds no NaN or infinity, is nested at most as deep
-- as allowed, and prints to at most as many bytes as allowed; it then returns those bytes.
pub canonicalize_exact :
    (dumps : Json → Option Bytes) (size_limit depth_limit : ℕ) (value : Json) (body : Bytes)
    → (canonicalize dumps size_limit depth_limit value ≡ ok body ↔ (
        (all_finite value ≡ true)
        × (height value ≤ depth_limit)
        × (dumps value ≡ some body)
        × (length body ≤ size_limit)))
unfolding canonicalize
canonicalize_exact dumps size_limit depth_limit value body = elim (Bool-cases (all_finite value)) [
  | inl f ↦
      (let (n, e, q) = depth-height value 1 f in
        rw e (λ h. (ground arith, ground arith, ground arith, ground arith), λ h. ground arith))
  | inr f ↦ rw (depth_infinite value 1 f) (λ h. cc, λ h. cc)
]
