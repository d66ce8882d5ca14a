-- ===== src/Chunking/Examples.antt =====
-- Runs of the chunk model on a short text, and its theorems at these inputs.
use prv_application.Prelude.{List, String, [], arith, length, ok, refl, some, ℕ, ◌++◌, ◌∷◌, ◌≡◌}
use prv_application.Chunking.{Span, TextChunk, semantic_units}
use prv_application.Chunking.Emission.{semantic_chunks}
use prv_application.Chunking.Units.{Cut}
use prv_application.Chunking.Partition.{Boundaries, semantic_units-Cut}
use prv_application.Chunking.Whole.{ChunksFit, semantic_chunks-ChunksFit}

-- "Hi. Go on now."
abbrev sample : List ℕ
sample = 72 ∷ 105 ∷ 46 ∷ 32 ∷ 71 ∷ 111 ∷ 32 ∷ 111 ∷ 110 ∷ 32 ∷ 110 ∷ 111 ∷ 119 ∷ 46 ∷ []

-- The match after the first sentence ends at 4.
abbrev sentence_ends : List ℕ → List ℕ
sentence_ends _ = 4 ∷ []

abbrev one_name : ℕ → ℕ → ℕ → String
one_name _ _ _ = "name"

abbrev span_of : ℕ → ℕ → Span
span_of a b = record { start = a; end = b }

-- A sentence longer than the maximum is cut at its last space that fits.
sample-units :
    semantic_units sentence_ends sample 6 ≡ some (span_of 0 3 ∷ span_of 4 9 ∷ span_of 10 14 ∷ [])
unfolding semantic_units
sample-units = refl

abbrev chunk_of : ℕ → ℕ → ℕ → List ℕ → TextChunk
chunk_of n a b value = record {
  chunk_id = "name";
  ordinal = n;
  char_start = a;
  char_end = b;
  text = value;
}

-- The third chunk repeats the second: the overlap kept the unit (4, 9), and the next unit does not
-- fit beside it.
sample-chunks :
    semantic_chunks sentence_ends one_name sample 5 6 6
    ≡ ok (
        some (
          chunk_of 0 0 3 (72 ∷ 105 ∷ 46 ∷ [])
          ∷ chunk_of 1 4 9 (71 ∷ 111 ∷ 32 ∷ 111 ∷ 110 ∷ [])
          ∷ chunk_of 2 4 9 (71 ∷ 111 ∷ 32 ∷ 111 ∷ 110 ∷ [])
          ∷ chunk_of 3 10 14 (110 ∷ 111 ∷ 119 ∷ 46 ∷ [])
          ∷ []))
unfolding semantic_chunks
sample-chunks = refl

sample-Boundaries : Boundaries 0 (length sample) (sentence_ends sample ++ length sample ∷ [])
sample-Boundaries = (omega arith, (omega arith, refl))

semantic_units-Cut_example :
    (us : List Span) × (semantic_units sentence_ends sample 6 ≡ some us)
    × Cut sample 6 0 (length sample) us
semantic_units-Cut_example =
    semantic_units-Cut sample 6 (omega arith) sentence_ends sample-Boundaries

semantic_chunks-ChunksFit_example :
    (chunks : List TextChunk) × (semantic_chunks sentence_ends one_name sample 5 6 6
      ≡ ok (some chunks))
    × ChunksFit sentence_ends one_name sample 5 6 6 chunks
semantic_chunks-ChunksFit_example =
    semantic_chunks-ChunksFit sentence_ends one_name sample 5 6 6 (omega arith) (omega arith)
      sample-Boundaries
