-- ===== src/Chunking/Units.antt =====
-- The units that a text is cut into: in order, short enough, and with every character that is not
-- a space.
use prv_application.Prelude.{
  Bool, Bool-cases, List, Option, [], any_of, any_of-append, arith, false, inl, inr, leb, ltb,
  ltb→ge, ltb→lt, none, refl, some, suc, true, zero, ℕ, ◌&&◌, ◌++◌, ◌+◌, ◌-◌, ◌<◌, ◌∙◌, ◌∷◌, ◌≡◌,
  ◌≤◌,
}
use prv_application.Chunking.{
  Span, cut_at, next_boundary, nonempty_span, option_list, rfind_space, space_at, split_from,
}
use prv_application.Chunking.Spans.{TrimsTo, nonempty_span-Trims}

abbrev pub contains : ℕ → Span → Bool
contains i u = leb u.start i && ltb i u.end

-- A unit at or after `lo`: not empty, within the maximum, with no space at either end.
pub record UnitFits (text : List ℕ) (max_characters lo : ℕ) (u : Span) : Type 0 where
  pub after : lo ≤ u.start
  pub nonempty : u.start < u.end
  pub short : u.end ≤ u.start + max_characters
  pub first : space_at text u.start ≡ false
  pub last : space_at text (u.end - 1) ≡ false

module _ (text : List ℕ) (max_characters : ℕ) where
  -- Units that follow one another between `lo` and `hi`.
  abbrev pub Chain : ℕ → ℕ → List Span → Type 0
  Chain lo hi [] = lo ≤ hi
  Chain lo hi (u ∷ us) = UnitFits text max_characters lo u × Chain u.end hi us

  -- Every character between `lo` and `hi` that is not a space lies in a unit.
  abbrev pub Covers : ℕ → ℕ → List Span → Type 0
  Covers lo hi us =
      (i : ℕ) → lo ≤ i → i < hi → space_at text i ≡ false → any_of (contains i) us ≡ true

  pub lower_start :
      (lo lo' : ℕ) (u : Span)
      → lo' ≤ lo
      → UnitFits text max_characters lo u
      → UnitFits text max_characters lo' u
  lower_start lo lo' u h f = record {
    after = omega (arith, f.after);
    nonempty = f.nonempty;
    short = f.short;
    first = f.first;
    last = f.last;
  }

  pub Chain-append :
      (lo mid hi : ℕ) (xs ys : List Span)
      → Chain lo mid xs
      → Chain mid hi ys
      → Chain lo hi (xs ++ ys)
  Chain-append lo mid hi [] [] c d = omega arith
  Chain-append lo mid hi [] (y ∷ ys) c (f, d) = (lower_start mid lo y c f, d)
  Chain-append lo mid hi (x ∷ xs) ys (f, c) d = (f, Chain-append x.end mid hi xs ys c d)

  Covers-append :
      (lo mid hi : ℕ) (xs ys : List Span)
      → Covers lo mid xs
      → Covers mid hi ys
      → Covers lo hi (xs ++ ys)
  Covers-append lo mid hi xs ys c d i a b s = elim (Bool-cases (ltb i mid)) [
    | inl early ↦ any_of-append (contains i) xs ys ∙ rw (c i a (ltb→lt i mid early) s)
    | inr late ↦ any_of-append (contains i) xs ys ∙ ground (arith, d i (ltb→ge i mid late) b s)
  ]

  abbrev pub Cut : ℕ → ℕ → List Span → Type 0
  Cut lo hi us = Chain lo hi us × Covers lo hi us

  pub Cut-append :
      (lo mid hi : ℕ) (xs ys : List Span) → Cut lo mid xs → Cut mid hi ys → Cut lo hi (xs ++ ys)
  Cut-append lo mid hi xs ys c d =
      (Chain-append lo mid hi xs ys c.0 d.0, Covers-append lo mid hi xs ys c.1 d.1)

  -- A trimmed piece of at most the maximum is a cut of its own.
  pub piece-Cut :
      (lo hi : ℕ) (o : Option Span)
      → lo ≤ hi
      → hi ≤ lo + max_characters
      → TrimsTo text lo hi o
      → Cut lo hi (option_list o)
  piece-Cut lo hi none h m t = (h, (λ i a b s. absurd (t i a b s)))
  piece-Cut lo hi (some u) h m t = (
    (
      record {
        after = t.lower;
        nonempty = t.nonempty;
        short = omega (arith, t.lower, t.upper);
        first = t.first;
        last = t.last;
      },
      t.upper,
    ),
    (λ i a b s. let (x, y) = t.complete i a b s in ground (arith, x, y)),
  )

  rfind_space-bounds : (lo k : ℕ) (b : ℕ) → rfind_space text lo k ≡ some b → (lo ≤ b) × (b < lo + k)
  unfolding rfind_space
  rfind_space-bounds lo zero b h = absurd (cc)
  rfind_space-bounds lo (suc k) b h = ground (arith, rfind_space-bounds lo k b)

  next_boundary-bounds :
      (cursor : ℕ)
      → 1 ≤ max_characters
      → (cursor < next_boundary text cursor max_characters)
        × (next_boundary text cursor max_characters ≤ cursor + max_characters)
  unfolding next_boundary
  next_boundary-bounds cursor h =
      by_result (rfind_space text cursor (max_characters + 1))
        (rfind_space-bounds cursor (max_characters + 1))
    where
      by_result :
          (o : Option ℕ)
          → ((b : ℕ) → o ≡ some b → (cursor ≤ b) × (b < cursor + (max_characters + 1)))
          → (cursor < cut_at cursor max_characters o)
            × (cut_at cursor max_characters o ≤ cursor + max_characters)
      by_result none f = omega arith
      by_result (some b) f = ground (arith, f b refl)

  -- With a positive maximum the fuel never runs out, and the pieces cut the span.
  pub split_from-Cut :
      (end fuel cursor : ℕ)
      → 1 ≤ max_characters
      → cursor ≤ end
      → end < fuel + cursor
      → (us : List Span) × (split_from text end max_characters fuel cursor ≡ some us)
        × Cut cursor end us
  unfolding split_from
  split_from-Cut end zero cursor m c f = absurd (omega arith)
  split_from-Cut end (suc fuel) cursor m c f =
      elim (Bool-cases (ltb (cursor + max_characters) end)) [
        | inr fits ↦ (
          option_list (nonempty_span text cursor end),
          rw fits,
          piece-Cut cursor end (nonempty_span text cursor end) c
              (ltb→ge (cursor + max_characters) end fits) (nonempty_span-Trims text cursor end c),
        )
        | inl long ↦
            let b = next_boundary text cursor max_characters in
            let (later, near) = next_boundary-bounds cursor m in
            let long' = ltb→lt (cursor + max_characters) end long in
            let (us, e, cut) =
              split_from-Cut end fuel b m (omega (arith, later, near, long'))
                (omega (arith, later)) in
            let piece = nonempty_span text cursor b in
            (
              option_list piece ++ us,
              rw (long, e),
              Cut-append cursor b end (option_list piece) us
                  (piece-Cut cursor b piece (omega (arith, later)) near
                    (nonempty_span-Trims text cursor b (omega (arith, later))))
                  cut,
            )
      ]
