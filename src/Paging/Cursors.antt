-- ===== src/Paging/Cursors.antt =====
-- src/webhook_platform/shared/domain/pagination.py, encode_cursor and decode_cursor: the text that a
-- client hands back to get the next page.
use webhook_delivery_platfor.Base.{
  ℕ, zero, suc, ◌≤◌, ◌≡◌, refl, sym, ap, subst, ◌∙◌, false, Option, none, some, [], ◌∷◌, ◌++◌,
  arith, ◌==◌, if◌then◌else◌, length, All,
}
use webhook_delivery_platfor.Schema.{Bytes}
use webhook_delivery_platfor.Errors.{Exception, Result, ok, err, app_error}
use webhook_delivery_platfor.Paging.{Cursor}

-- Python's json, datetime and base64: the JSON text of a cursor, what is read back from one, with none
-- for each exception and for a value without time zone or identifier, and URL-safe base64 in both
-- directions, where none is binascii.Error. A text is the list of its code points, so b64encode
-- includes the bytes.decode and b64decode the str.encode next to it in the program.
pub record CursorCodec : Type 0 where
  pub dump : Cursor → Bytes
  pub load : Bytes → Option Cursor
  pub b64encode : Bytes → Bytes
  pub b64decode : Bytes → Option Bytes

-- bytes.rstrip(b"=")
unfoldable pub rstrip_padding : Bytes → Bytes
rstrip_padding [] = []
rstrip_padding (b ∷ bs) =
    let rest = rstrip_padding bs in
    elim rest [ [] ↦ if b == 61 then [] else b ∷ [] | c ∷ cs ↦ b ∷ c ∷ cs ]

-- encode_cursor
unfoldable pub encode_cursor : CursorCodec → Cursor → Bytes
unfolding rstrip_padding
encode_cursor codec c = rstrip_padding (codec.b64encode (codec.dump c))

-- "=" * n
unfoldable pub padding : ℕ → Bytes
padding zero = []
padding (suc n) = 61 ∷ padding n

-- -n % 4
unfoldable pub missing : ℕ → ℕ
missing zero = 0
missing (suc zero) = 3
missing (suc (suc zero)) = 2
missing (suc (suc (suc zero))) = 1
missing (suc (suc (suc (suc n)))) = missing n

abbrev pub cursor_error : Exception
cursor_error = app_error "invalid_cursor" "Cursor is invalid" 422

abbrev loaded : CursorCodec → Option Bytes → Result (Option Cursor)
loaded codec none = err cursor_error
loaded codec (some raw) = elim (codec.load raw) [ none ↦ err cursor_error | some c ↦ ok (some c) ]

-- decode_cursor
unfoldable pub decode_cursor : CursorCodec → Option Bytes → Result (Option Cursor)
unfolding padding missing
decode_cursor codec none = ok none
decode_cursor codec (some value) =
    loaded codec (codec.b64decode (value ++ padding (missing (length value))))

-- What base64 gives: text of its alphabet, which has no "=", then at most two "=", in all a multiple
-- of four characters.
pub record Encoded (text : Bytes) : Type 0 where
  pub body : Bytes
  pub pad : ℕ
  pub parts : text ≡ body ++ padding pad
  pub alphabet : All (λ b. (b == 61) ≡ false) body
  pub short : pad ≤ 2
  pub whole : missing (length text) ≡ 0

rstrip-padding : (n : ℕ) → rstrip_padding (padding n) ≡ []
unfolding rstrip_padding padding
rstrip-padding zero = refl
rstrip-padding (suc n) = rw (rstrip-padding n) refl

rstrip-body :
    (body : Bytes) (n : ℕ)
    → All (λ b. (b == 61) ≡ false) body
    → rstrip_padding (body ++ padding n) ≡ body
unfolding rstrip_padding
rstrip-body [] n a = rstrip-padding n
rstrip-body (b ∷ []) n a = rw (rstrip-padding n, rstrip_padding, a.0) refl
rstrip-body (b ∷ c ∷ body) n a = rw (rstrip-body (c ∷ body) n a.1) refl

-- What encode_cursor cuts off is what decode_cursor puts back.
missing-body :
    (body : Bytes) (n : ℕ)
    → n ≤ 2
    → missing (length (body ++ padding n)) ≡ 0
    → missing (length body) ≡ n
unfolding missing padding
missing-body (a ∷ b ∷ c ∷ d ∷ body) n s h = missing-body body n s h
missing-body [] zero s h = refl
missing-body [] (suc zero) s h = absurd (omega (arith, h))
missing-body [] (suc (suc zero)) s h = absurd (omega (arith, h))
missing-body [] (suc (suc (suc n))) s h = absurd (omega arith)
missing-body (a ∷ []) zero s h = absurd (omega (arith, h))
missing-body (a ∷ []) (suc zero) s h = absurd (omega (arith, h))
missing-body (a ∷ []) (suc (suc zero)) s h = absurd (omega (arith, h))
missing-body (a ∷ []) (suc (suc (suc n))) s h = absurd (omega arith)
missing-body (a ∷ b ∷ []) zero s h = absurd (omega (arith, h))
missing-body (a ∷ b ∷ []) (suc zero) s h = absurd (omega (arith, h))
missing-body (a ∷ b ∷ []) (suc (suc zero)) s h = refl
missing-body (a ∷ b ∷ []) (suc (suc (suc n))) s h = absurd (omega arith)
missing-body (a ∷ b ∷ c ∷ []) zero s h = absurd (omega (arith, h))
missing-body (a ∷ b ∷ c ∷ []) (suc zero) s h = refl
missing-body (a ∷ b ∷ c ∷ []) (suc (suc zero)) s h = absurd (omega (arith, h))
missing-body (a ∷ b ∷ c ∷ []) (suc (suc (suc n))) s h = absurd (omega arith)

loaded-ok :
    (codec : CursorCodec) (raw : Bytes) (c : Cursor)
    → codec.load raw ≡ some c
    → loaded codec (some raw) ≡ ok (some c)
loaded-ok codec raw c h = rw (h, loaded) refl

-- The text that encode_cursor makes, without the padding of base64, is read back by decode_cursor as
-- the same cursor, where base64 reads what it has written and pads as it is specified to, and the JSON
-- of the cursor is read back.
pub encode-decode_cursor :
    (codec : CursorCodec) (c : Cursor)
    → codec.load (codec.dump c) ≡ some c
    → codec.b64decode (codec.b64encode (codec.dump c)) ≡ some (codec.dump c)
    → Encoded (codec.b64encode (codec.dump c))
    → decode_cursor codec (some (encode_cursor codec c)) ≡ ok (some c)
unfolding decode_cursor encode_cursor
encode-decode_cursor codec c loads decodes e =
    let text = codec.b64encode (codec.dump c) in
    let cut : rstrip_padding text ≡ e.body =
      ap rstrip_padding e.parts ∙ rstrip-body e.body e.pad e.alphabet in
    let filled : missing (length e.body) ≡ e.pad =
      missing-body e.body e.pad e.short (subst (λ x. missing (length x) ≡ 0) e.parts e.whole) in
    rw (cut, filled, sym e.parts, decodes) (loaded-ok codec (codec.dump c) c loads)
