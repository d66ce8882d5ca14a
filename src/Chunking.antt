-- ===== src/Chunking.antt =====
-- app/embeddings/chunking.py: the cut of a text into overlapping chunks at sentence boundaries.
-- A text is its list of code points. The ends of the matches of the boundary pattern, which Python's
-- regular expressions find, and the hash that names a chunk are parameters.
-- A test `a - b > m` on Python's integers is written `b + m < a`, which is the same at all values.
mod Examples
pub mod Emission
pub mod Whole
pub mod Coverage
pub mod Packing
pub mod Retaining
pub mod Texts
pub mod Chunks
pub mod Partition
pub mod Units
pub mod Spans
use mathlib.Core.Option
use prv_application.Prelude.{
  Bool, List, Option, String, [], false, get_elem?, if◌then◌else◌, leb, length, ltb, map, none,
  some, suc, zero, ℕ, ◌&&◌, ◌++◌, ◌+◌, ◌-◌, ◌==◌, ◌>>◌, ◌||◌, ◌∷◌,
}

-- A span (start, end) of positions.
pub record Span : Type 0 where
  pub start : ℕ
  pub end : ℕ

pub record TextChunk : Type 0 where
  pub chunk_id : String
  pub ordinal : ℕ
  pub char_start : ℕ
  pub char_end : ℕ
  pub text : List ℕ

abbrev in_range : ℕ → ℕ → ℕ → Bool
in_range lo hi c = leb lo c && leb c hi

-- `str.isspace` of one character.
unfoldable pub is_space : ℕ → Bool
is_space c =
    in_range 9 13 c
    || in_range 28 32 c
    || (c == 0x85)
    || (c == 0xa0)
    || (c == 0x1680)
    || in_range 0x2000 0x200a c
    || in_range 0x2028 0x2029 c
    || (c == 0x202f)
    || (c == 0x205f)
    || (c == 0x3000)

-- `text[i].isspace()`; the code reads inside the text only.
unfoldable pub space_at : List ℕ → ℕ → Bool
unfolding is_space
space_at text i = elim (get_elem? text i) [ none ↦ false | some c ↦ is_space c ]

-- `while start < end and text[start].isspace(): start += 1`, with `end - start` rounds left.
unfoldable pub skip_left : List ℕ → ℕ → ℕ → ℕ
unfolding space_at
skip_left text zero start = start
skip_left text (suc k) start =
    let rest = skip_left text k (start + 1) in if space_at text start then rest else start

-- `while end > start and text[end - 1].isspace(): end -= 1`, with `end - start` rounds left.
unfoldable pub skip_right : List ℕ → ℕ → ℕ → ℕ
unfolding space_at
skip_right text zero end = end
skip_right text (suc k) end =
    let rest = skip_right text k (end - 1) in if space_at text (end - 1) then rest else end

unfoldable pub nonempty_span : List ℕ → ℕ → ℕ → Option Span
unfolding skip_left skip_right
nonempty_span text start end =
    let first = skip_left text (end - start) start in
    let last = skip_right text (end - first) end in
    if ltb first last then some (record { start = first; end = last }) else none

-- `text.rfind(" ", lo, lo + k)`, with `none` for -1.
unfoldable pub rfind_space : List ℕ → ℕ → ℕ → Option ℕ
rfind_space text lo zero = none
rfind_space text lo (suc k) =
    let rest = rfind_space text lo k in
    elim (get_elem? text (lo + k)) [
      | none ↦ rest
      | some c ↦ if c == 32 then some (lo + k) else rest
    ]

abbrev pub option_list {ℓ} : {A : Type ℓ} → Option A → List A
option_list none = []
option_list (some a) = a ∷ []

-- `boundary`, or `cursor + max_characters` if it is not after the cursor.
abbrev cut_at : ℕ → ℕ → Option ℕ → ℕ
cut_at cursor max_characters none = cursor + max_characters
cut_at cursor max_characters (some b) = if leb b cursor then cursor + max_characters else b

-- The cut of the next piece at the last space that fits, or at the maximum.
unfoldable pub next_boundary : List ℕ → ℕ → ℕ → ℕ
unfolding rfind_space
next_boundary text cursor max_characters =
    cut_at cursor max_characters (rfind_space text cursor (max_characters + 1))

-- The loop of `_split_long_span` on fuel; `none` means that the fuel ran out.
unfoldable pub split_from : List ℕ → ℕ → ℕ → ℕ → ℕ → Option (List Span)
unfolding nonempty_span next_boundary
split_from text end max_characters zero cursor = none
split_from text end max_characters (suc fuel) cursor =
    let boundary = next_boundary text cursor max_characters in
    let rest = split_from text end max_characters fuel boundary in
    if ltb (cursor + max_characters) end
    then Option.map (λ spans. option_list (nonempty_span text cursor boundary) ++ spans) rest
    else some (option_list (nonempty_span text cursor end))

-- Each round moves the cursor, so one round for each character is enough.
unfoldable pub split_long_span : List ℕ → ℕ → ℕ → ℕ → Option (List Span)
unfolding split_from
split_long_span text start end max_characters =
    split_from text end max_characters (suc (end - start)) start

infixl 5 ◌>>=◌
abbrev ◌>>=◌ {ℓ κ} : {A : Type ℓ} {B : Type κ} → Option A → (A → Option B) → Option B
none >>= f = none
some a >>= f = f a

-- The body of the loop over the pairs of neighbouring boundaries.
abbrev unit_spans : List ℕ → ℕ → Option Span → Option (List Span)
unit_spans text max_characters none = some []
unit_spans text max_characters (some span) =
    if ltb (span.start + max_characters) span.end
    then split_long_span text span.start span.end max_characters
    else some (span ∷ [])

unfoldable pub units_from : List ℕ → ℕ → ℕ → List ℕ → Option (List Span)
unfolding nonempty_span split_long_span
units_from text max_characters start [] = some []
units_from text max_characters start (end ∷ ends) = do
  spans ← unit_spans text max_characters (nonempty_span text start end)
  rest ← units_from text max_characters end ends
  some (spans ++ rest)

-- `boundaries` is 0, the ends of the matches, and the length of the text.
unfoldable pub semantic_units : (List ℕ → List ℕ) → List ℕ → ℕ → Option (List Span)
unfolding units_from
semantic_units match_ends text max_characters =
    units_from text max_characters 0 (match_ends text ++ length text ∷ [])
