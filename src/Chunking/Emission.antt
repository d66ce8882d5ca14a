-- ===== src/Chunking/Emission.antt =====
-- `semantic_chunks` of app/embeddings/chunking.py: the packing of units into chunks. The closure
-- `emit` and the loop change the three variables that the state holds.
use mathlib.Core.Option
use prv_application.Prelude.{
  Bool, List, Option, Result, String, [], drop, false, if◌then◌else◌, is_empty, leb, length, ltb,
  not, ok, refuse, reverse, take, true, ℕ, ◌&&◌, ◌++◌, ◌+◌, ◌-◌, ◌==◌, ◌>>◌, ◌∷◌,
}
use prv_application.Chunking.{Span, TextChunk, is_space, semantic_units}

pub record ChunkState : Type 0 where
  pub chunks : List TextChunk
  pub current : List Span
  pub added_since_emit : Bool

pub data ChunkError : Type 0 where
  target_exceeds_maximum : ChunkError

-- `current[0][0]`, read only where `current` is not empty.
abbrev pub span_start : List Span → ℕ
span_start [] = 0
span_start (u ∷ us) = u.start

-- `current[-1][1]`, read only where `current` is not empty.
abbrev pub span_end : List Span → ℕ
span_end [] = 0
span_end (u ∷ []) = u.end
span_end (u ∷ v ∷ us) = span_end (v ∷ us)

unfoldable pub lstrip : List ℕ → List ℕ
unfolding is_space
lstrip [] = []
lstrip (c ∷ cs) = let rest = lstrip cs in if is_space c then rest else c ∷ cs

-- `value.strip()`
unfoldable pub strip : List ℕ → List ℕ
unfolding lstrip
strip cs = reverse (lstrip (reverse (lstrip cs)))

-- `text[start:end]`
abbrev pub slice : List ℕ → ℕ → ℕ → List ℕ
slice text start end = take (end - start) (drop start text)

-- The loop over `reversed(current)`, with `retained` so far.
unfoldable pub retain : ℕ → ℕ → List Span → List Span → List Span
retain overlap end retained [] = retained
retain overlap end retained (u ∷ us) =
    if ltb (u.start + overlap) end then retained else retain overlap end (u ∷ retained) us

module _ (identify : ℕ → ℕ → ℕ → String) (text : List ℕ) (max_characters overlap : ℕ) where
  abbrev new_chunk : List TextChunk → ℕ → ℕ → List ℕ → List TextChunk
  new_chunk chunks start end value =
      if is_empty value
      then chunks
      else chunks
        ++ record {
          chunk_id = identify (length chunks) start end;
          ordinal = length chunks;
          char_start = start;
          char_end = end;
          text = value;
        }
          ∷ []

  unfoldable pub emit : ChunkState → ChunkState
  unfolding retain strip
  emit s = if is_empty s.current then s else record {
    chunks =
        new_chunk s.chunks (span_start s.current) (span_end s.current)
          (strip (slice text (span_start s.current) (span_end s.current)));
    current = retain overlap (span_end s.current) [] (reverse s.current);
    added_since_emit = false;
  }

  -- `current and unit[1] - current[0][0] > max_characters`
  abbrev pub overflows : List Span → Span → Bool
  overflows current unit =
      not (is_empty current) && ltb (span_start current + max_characters) unit.end

  -- What stands before `current.append(unit)`.
  unfoldable pub make_room : ChunkState → Span → ChunkState
  unfolding emit
  make_room s unit =
      let t = emit s in
      if overflows s.current unit
      then (if overflows t.current unit then record t { current = [] } else t)
      else s

  abbrev pub appended : ChunkState → Span → ChunkState
  appended s unit = record s { current = s.current ++ unit ∷ []; added_since_emit = true }

  -- One round of the loop over the units.
  unfoldable pub add_unit : ℕ → ChunkState → Span → ChunkState
  unfolding make_room emit
  add_unit target s unit =
      let t = appended (make_room s unit) unit in
      if leb (span_start t.current + target) (span_end t.current) then emit t else t

  unfoldable pub add_units : ℕ → ChunkState → List Span → ChunkState
  unfolding add_unit
  add_units target s [] = s
  add_units target s (u ∷ us) = add_units target (add_unit target s u) us

  -- The span of the last chunk is that of `current`; false if there is no chunk.
  abbrev pub is_last_span : List TextChunk → ℕ → ℕ → Bool
  is_last_span [] a b = false
  is_last_span (c ∷ []) a b = c.char_start == a && c.char_end == b
  is_last_span (c ∷ d ∷ cs) a b = is_last_span (d ∷ cs) a b

  -- What stands after the loop.
  unfoldable pub finish : ChunkState → ChunkState
  unfolding emit
  finish s =
      if not (is_empty s.current)
        && s.added_since_emit
        && not (is_last_span s.chunks (span_start s.current) (span_end s.current))
      then emit s
      else s

abbrev pub start_state : ChunkState
start_state = record { chunks = []; current = []; added_since_emit = false }

-- The chunks of the packed units; `none` is that of `split_from`.
unfoldable pub semantic_chunks :
    (List ℕ → List ℕ)
    → (ℕ → ℕ → ℕ → String)
    → List ℕ
    → ℕ
    → ℕ
    → ℕ
    → Result ChunkError (Option (List TextChunk))
unfolding semantic_units add_units finish
semantic_chunks match_ends identify text target max_characters overlap = do
  refuse (ltb max_characters target) target_exceeds_maximum
  ok (
      Option.map
        (λ units.
          (finish identify text max_characters overlap
            (add_units identify text max_characters overlap target start_state units)).chunks)
        (semantic_units match_ends text max_characters))
