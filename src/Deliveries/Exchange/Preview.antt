-- ===== src/Deliveries/Exchange/Preview.antt =====
-- src/webhook_platform/deliveries/infrastructure/processor.py, execute_delivery: the preview that is
-- kept of a response's body.
use webhook_delivery_platfor.Base.{
  ℕ, zero, suc, ◌-◌, ◌≡◌, refl, ◌∙◌, ap, List, [], ◌∷◌, ◌++◌, arith, inl, inr, length, take,
  length-append, length-take, ltb, Bool-cases,
}
use webhook_delivery_platfor.Schema.{Bytes}
use webhook_delivery_platfor.Deliveries.Exchange.{collect_preview}

-- The body: the chunks one after the other.
abbrev pub joined : List Bytes → Bytes
joined [] = []
joined (chunk ∷ chunks) = chunk ++ joined chunks

take-nil : {A : Type 0} (n : ℕ) → take {A = A} n [] ≡ []
take-nil zero = refl
take-nil (suc n) = refl

take-append :
    {A : Type 0} (n : ℕ) (xs ys : List A) → take n (xs ++ ys) ≡ take n xs ++ take (n - length xs) ys
take-append n [] ys = let whole : n - 0 ≡ n = omega arith in rw (take-nil n, whole) refl
take-append zero (x ∷ xs) ys = let full : 0 - suc (length xs) ≡ 0 = omega arith in rw full refl
take-append (suc n) (x ∷ xs) ys =
    let less : suc n - suc (length xs) ≡ n - length xs = omega arith in
    rw (less, take-append n xs ys) refl

append-nil : {A : Type 0} (xs : List A) → xs ++ [] ≡ xs
append-nil [] = refl
append-nil (x ∷ xs) = rw (append-nil xs) refl

append_assoc : {A : Type 0} (xs ys zs : List A) → (xs ++ ys) ++ zs ≡ xs ++ (ys ++ zs)
append_assoc [] ys zs = refl
append_assoc (x ∷ xs) ys zs = rw (append_assoc xs ys zs) refl

-- One chunk, while there is room.
keep_chunk :
    (limit : ℕ) (preview chunk rest : Bytes)
    → (preview ++ take (limit - length preview) chunk)
        ++ take (limit - length (preview ++ take (limit - length preview) chunk)) rest
      ≡ preview ++ take (limit - length preview) (chunk ++ rest)
keep_chunk limit preview chunk rest =
    rw
      (
        take-append (limit - length preview) chunk rest,
        append_assoc preview (take (limit - length preview) chunk) _,
        left,
      )
      refl
  where
    left :
        limit - length (preview ++ take (limit - length preview) chunk)
        ≡ (limit - length preview) - length chunk
    left = omega (
      arith,
      length-append preview (take (limit - length preview) chunk),
      length-take (limit - length preview) chunk,
    )

-- What is kept so far, and then as much of the rest of the body as there is room for.
collect_preview-append :
    (limit : ℕ) (preview : Bytes) (chunks : List Bytes)
    → collect_preview limit preview chunks
      ≡ preview ++ take (limit - length preview) (joined chunks)
unfolding collect_preview
collect_preview-append limit preview [] =
    rw (take-nil {A = ℕ} (limit - length preview), append-nil preview) refl
collect_preview-append limit preview (chunk ∷ chunks) =
    elim (Bool-cases (ltb 0 (limit - length preview))) [
      | inl h ↦
          rw
            (
              h,
              collect_preview-append limit (preview ++ take (limit - length preview) chunk) chunks,
            )
            (keep_chunk limit preview chunk (joined chunks))
      | inr h ↦
          let full : limit - length preview ≡ 0 = ground arith in
          rw (h, collect_preview-append limit preview chunks, full) refl
    ]

-- Whatever the chunks of the body are, the preview is the first bytes of the body, as many as the
-- limit allows.
pub collect_preview-take :
    (limit : ℕ) (chunks : List Bytes) → collect_preview limit [] chunks ≡ take limit (joined chunks)
collect_preview-take limit chunks =
    collect_preview-append limit [] chunks ∙ ap (λ n. take n (joined chunks)) whole
  where
    whole : limit - 0 ≡ limit
    whole = omega arith
