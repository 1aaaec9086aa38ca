-- ===== src/Events/EventType/Language.antt =====
-- The language of the pattern, as a grammar, and the matcher against it.
use webhook_delivery_platfor.Base.{
  ◌↔◌, ℕ, ◌≡◌, refl, Bool, true, false, List, [], ◌∷◌, ◌++◌, inl, inr, ◌==◌, arith, Bool-cases,
  eq→≡, ap, subst, ◌⊎◌,
}
use webhook_delivery_platfor.Events.EventType.{
  is_letter, is_word, fresh, inside, matches, is_event_type,
}

-- [a-z0-9_]*
pub data Words : List ℕ → Type 0 where
  none_left : Words []
  word : {c : ℕ} {cs : List ℕ} → is_word c ≡ true → Words cs → Words (c ∷ cs)

-- [a-z][a-z0-9_]*
pub data Segment : List ℕ → Type 0 where
  segment : {c : ℕ} {cs : List ℕ} → is_letter c ≡ true → Words cs → Segment (c ∷ cs)

-- Segments joined by single dots; `more` says that there are at least two.
pub data Dotted : Bool → List ℕ → Type 0 where
  last : {cs : List ℕ} → Segment cs → Dotted false cs
  join :
      {more : Bool} {s cs text : List ℕ}
      → Segment s
      → Dotted more cs
      → text ≡ s ++ b'.' ∷ cs
      → Dotted true text

-- What stands after the first character of a segment: the rest of the last segment, or the rest of
-- one, a dot and more segments.
data Tail (dotted : Bool) (cs : List ℕ) : Type 0 where
  ends : dotted ≡ true → Words cs → Tail dotted cs
  goes_on :
      (ws rest : List ℕ) (more : Bool)
      → Words ws
      → Dotted more rest
      → cs ≡ ws ++ b'.' ∷ rest
      → Tail dotted cs

Tail-cons :
    {dotted : Bool} (c : ℕ) (cs : List ℕ) → is_word c ≡ true → Tail dotted cs → Tail dotted (c ∷ cs)
Tail-cons c cs w (ends d ws) = ends d (word w ws)
Tail-cons c cs w (goes_on ws rest more h t e) =
    goes_on (c ∷ ws) rest more (word w h) t (ap (λ l. c ∷ l) e)

Dotted-cons :
    {dotted : Bool} (c : ℕ) (cs : List ℕ)
    → is_letter c ≡ true
    → Tail dotted cs
    → (more : Bool) × Dotted more (c ∷ cs) × ((more ≡ true) ⊎ (dotted ≡ true))
Dotted-cons c cs l (ends d ws) = (false, last (segment l ws), inr d)
Dotted-cons c cs l (goes_on ws rest more h t e) =
    (true, join (segment l h) t (ap (λ x. c ∷ x) e), inl refl)

mutual
  unfolding matches

  inside_sound : (dotted : Bool) (cs : List ℕ) → matches inside dotted cs ≡ true → Tail dotted cs
  inside_sound dotted [] h = ends h none_left
  inside_sound dotted (c ∷ cs) h = elim (Bool-cases (c == b'.')) [
    | inl dot ↦
        (let (more, t, _) = fresh_sound true cs (rw dot at h) in
          goes_on [] cs more none_left t (ap (λ x. x ∷ cs) (eq→≡ c b'.' dot)))
    | inr other ↦ Tail-cons c cs (ground arith) (inside_sound dotted cs (ground arith))
  ]

  fresh_sound :
      (dotted : Bool) (cs : List ℕ)
      → matches fresh dotted cs ≡ true
      → (more : Bool) × Dotted more cs × ((more ≡ true) ⊎ (dotted ≡ true))
  fresh_sound dotted [] h = cc
  fresh_sound dotted (c ∷ cs) h =
      Dotted-cons c cs (ground arith) (inside_sound dotted cs (ground arith))

Words-complete : {cs : List ℕ} → Words cs → matches inside true cs ≡ true
unfolding matches
Words-complete none_left = refl
Words-complete (word w ws) = ground (arith, Words-complete ws)

Words-join :
    (dotted : Bool) {ws : List ℕ} (rest : List ℕ)
    → Words ws
    → matches fresh true rest ≡ true
    → matches inside dotted (ws ++ b'.' ∷ rest) ≡ true
unfolding matches
Words-join dotted rest none_left h = h
Words-join dotted rest (word w ws) h = ground (arith, Words-join dotted rest ws h)

Dotted-complete :
    {more : Bool} {cs : List ℕ} (dotted : Bool)
    → Dotted more cs
    → (more ≡ true) ⊎ (dotted ≡ true)
    → matches fresh dotted cs ≡ true
unfolding matches
Dotted-complete dotted (last (segment l ws)) h = ground (arith, Words-complete ws)
Dotted-complete dotted (join {cs = rest} (segment l ws) t e) h =
    rw e (ground (arith, Words-join dotted rest ws (Dotted-complete true t (inr refl))))

-- The matcher accepts exactly the texts of the grammar: two segments or more, each a lower-case
-- letter followed by lower-case letters, digits and underscores, joined by single dots.
pub is_event_type-Dotted : (cs : List ℕ) → (is_event_type cs ≡ true ↔ Dotted true cs)
unfolding is_event_type
is_event_type-Dotted cs = (
  (λ h. let (more, t, d) = fresh_sound false cs h in subst (λ m. Dotted m cs) (both d) t),
  λ t. Dotted-complete false t (inl refl),
)
  where
    both : {more : Bool} → (more ≡ true) ⊎ (false ≡ true) → more ≡ true
    both d = ground arith
