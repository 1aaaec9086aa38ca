-- ===== src/Events/CanonicalJson.antt =====
-- src/webhook_platform/events/domain/canonical_json.py: the checks on the JSON of an event, its
-- canonical bytes and its fingerprint.
pub mod Depth
use webhook_delivery_platfor.Base.{
  ℕ, ◌+◌, max, Bool, true, false, Option, none, some, List, [], ◌∷◌, ◌++◌, String, ltb,
  if◌then◌else◌, length, codes,
}
use webhook_delivery_platfor.Schema.{Bytes}
use webhook_delivery_platfor.Errors.{Exception, Result, ok, err, app_error, ◌>>=◌, ◌>>◌}

-- A value as json.loads makes it; of a float only matters whether it is finite.
mutual
  pub data Json : Type 0 where
    null : Json
    boolean : Bool → Json
    integer : ℕ → Json
    negative : ℕ → Json
    finite_float : String → Json
    infinite_float : Json
    text : String → Json
    array : Items → Json
    object : Fields → Json

  pub data Items : Type 0 where
    nil : Items
    cons : Json → Items → Items

  pub data Fields : Type 0 where
    end : Fields
    field : String → Json → Fields → Fields

abbrev pub not_finite_error : Exception
not_finite_error = app_error "invalid_event" "NaN and Infinity are not allowed" 422

abbrev pub max_with : ℕ → Result ℕ → Result ℕ
max_with m (ok n) = ok (max m n)
max_with m (err e) = err e

-- _depth; the items of a container are one deeper than the container.
unfoldable mutual
  pub depth : Json → ℕ → Result ℕ
  depth (array xs) current = depth_items xs (current + 1) current
  depth (object fs) current = depth_fields fs (current + 1) current
  depth infinite_float current = err not_finite_error
  depth null current = ok current
  depth (boolean b) current = ok current
  depth (integer n) current = ok current
  depth (negative n) current = ok current
  depth (finite_float f) current = ok current
  depth (text s) current = ok current

  -- max([deepest, *(_depth(item, current) for item in items)]), with the first error kept.
  pub depth_items : Items → ℕ → ℕ → Result ℕ
  depth_items nil current deepest = ok deepest
  depth_items (cons x xs) current deepest =
      depth x current >>= λ n. depth_items xs current (max deepest n)

  pub depth_fields : Fields → ℕ → ℕ → Result ℕ
  depth_fields end current deepest = ok deepest
  depth_fields (field k x fs) current deepest =
      depth x current >>= λ n. depth_fields fs current (max deepest n)

abbrev pub too_deep_error : Exception
too_deep_error = app_error "invalid_event" "JSON nesting is too deep" 422

abbrev pub invalid_json_error : Exception
invalid_json_error = app_error "invalid_event" "Event is not valid JSON" 422

abbrev pub too_large_error : Exception
too_large_error = app_error "event_too_large" "Event body is too large" 413

unfoldable pub check_size : ℕ → Option Bytes → Result Bytes
check_size size_limit none = err invalid_json_error
check_size size_limit (some body) =
    if ltb size_limit (length body) then err too_large_error else ok body

-- `dumps` is json.dumps with sorted keys and compact separators, in UTF-8; none where it raises.
unfoldable pub canonicalize : (Json → Option Bytes) → ℕ → ℕ → Json → Result Bytes
unfolding depth check_size
canonicalize dumps size_limit depth_limit value = depth value 1 >>= λ n.
    if ltb depth_limit n then err too_deep_error else check_size size_limit (dumps value)

-- `id_text` is the text of an identifier, and `sha256` the hexadecimal digest.
unfoldable pub event_fingerprint : (ℕ → Bytes) → (Bytes → String) → ℕ → ℕ → Bytes → String
event_fingerprint id_text sha256 organization_id api_key_id body =
    sha256 (
      codes "POST"
      ++ (10 ∷ (id_text organization_id ++ (10 ∷ (id_text api_key_id ++ (10 ∷ body))))))
