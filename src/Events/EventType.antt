-- ===== src/Events/EventType.antt =====
-- EVENT_TYPE_PATTERN of src/webhook_platform/events/application/use_cases.py and of
-- src/webhook_platform/endpoints/application/use_cases.py, with re.fullmatch:
-- [a-z][a-z0-9_]*(\.[a-z][a-z0-9_]*)+
pub mod Language
use webhook_delivery_platfor.Base.{
  ℕ, ◌+◌, Bool, true, false, ◌&&◌, ◌||◌, String, List, [], ◌∷◌, leb, ltb, ◌==◌, if◌then◌else◌,
  length, codes, not,
}

abbrev pub is_letter : ℕ → Bool
is_letter c = leb b'a' c && leb c b'z'

abbrev pub is_word : ℕ → Bool
is_word c = is_letter c || (leb b'0' c && leb c b'9') || c == b'_'

-- Where the matcher stands: at the start of a segment, or inside one; `dotted` says whether a
-- dot has been passed.
pub data Place : Type 0 where
  fresh inside : Place

unfoldable pub matches : Place → Bool → List ℕ → Bool
matches fresh dotted [] = false
matches fresh dotted (c ∷ cs) = is_letter c && matches inside dotted cs
matches inside dotted [] = dotted
matches inside dotted (c ∷ cs) =
    let dot = matches fresh true cs in
    let word = matches inside dotted cs in if c == b'.' then dot else (is_word c && word)

-- re.fullmatch(EVENT_TYPE_PATTERN, text) is not None
unfoldable pub is_event_type : List ℕ → Bool
unfolding matches
is_event_type cs = matches fresh false cs

-- len(text) > 128 or the pattern does not match
unfoldable pub bad_event_type : String → Bool
unfolding is_event_type codes
bad_event_type text = ltb 128 (length (codes text)) || not (is_event_type (codes text))
