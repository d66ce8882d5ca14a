-- ===== src/Chunking/Packing.antt =====
-- The loop over the units keeps the bounds of the chunks.
use prv_application.Prelude.{
  All, All-append, All-mono, Bool, Bool-cases, List, String, [], arith, false, if_holds, inl, inr,
  is_empty, leb, length, ltb, ltb→ge, not, refl, true≢false, ℕ, ◌&&◌, ◌++◌, ◌+◌, ◌∷◌, ◌≡◌, ◌≤◌,
}
use prv_application.Chunking.{Span}
use prv_application.Chunking.Units.{Chain, UnitFits}
use prv_application.Chunking.Emission.{
  ChunkState, add_unit, add_units, appended, emit, finish, make_room, overflows, span_end,
  span_start,
}
use prv_application.Chunking.Retaining.{InOrder}
use prv_application.Chunking.Chunks.{CurrentFits, Placed, StateFits, emit-Fits, nothing-Fits}

pub span_end-append : (us : List Span) (u : Span) → span_end (us ++ u ∷ []) ≡ u.end
span_end-append [] u = refl
span_end-append (v ∷ []) u = refl
span_end-append (v ∷ w ∷ us) u = span_end-append (w ∷ us) u

pub span_start-append :
    (us : List Span) (u : Span) → is_empty us ≡ false → span_start (us ++ u ∷ []) ≡ span_start us
span_start-append [] u h = absurd (true≢false h)
span_start-append (v ∷ us) u h = refl

InOrder-append :
    (us : List Span) (u : Span)
    → InOrder us
    → All (λ (v : Span). v.start ≤ u.start) us
    → InOrder (us ++ u ∷ [])
InOrder-append [] u o a = (tt, tt)
InOrder-append (v ∷ us) u (row, o) (h, a) =
    (All-append (λ (w : Span). v.start ≤ w.start) us (u ∷ []) row (h, tt), InOrder-append us u o a)

module _ (text : List ℕ) (max_characters : ℕ) where
  StateFits-le :
      (lo hi : ℕ) (s : ChunkState)
      → lo ≤ hi
      → StateFits text max_characters lo s
      → StateFits text max_characters hi s
  StateFits-le lo hi s h f = record {
    current = record {
      ends = omega (arith, f.current.ends);
      short = f.current.short;
      in_order = f.current.in_order;
      placed = f.current.placed;
    };
    chunks = f.chunks;
    numbered = f.numbered;
  }

  append-Fits :
      (hi : ℕ) (us : List Span) (u : Span)
      → CurrentFits text max_characters hi us
      → UnitFits text max_characters hi u
      → (not (is_empty us) && ltb (span_start us + max_characters) u.end) ≡ false
      → CurrentFits text max_characters u.end (us ++ u ∷ [])
  append-Fits hi [] u f n h = record {
    ends = omega arith;
    short = n.short;
    in_order = (tt, tt);
    placed = ((omega arith, n.nonempty, n.first), tt);
  }
  append-Fits hi (v ∷ us) u f n h =
      let last = span_end-append (v ∷ us) u in
      let end = span_end (v ∷ us ++ u ∷ []) in
      record {
        ends = omega (arith, last);
        short = omega (arith, last, ltb→ge (v.start + max_characters) u.end h);
        in_order = InOrder-append (v ∷ us) u f.in_order (
            All-mono (Placed text max_characters v.start (span_end (v ∷ us)))
              (λ (w : Span). w.start ≤ u.start) (v ∷ us)
              (λ w p. omega (arith, p.1, f.ends, n.after)) f.placed);
        placed =
            All-append (Placed text max_characters v.start end) (v ∷ us) (u ∷ [])
              (All-mono (Placed text max_characters v.start (span_end (v ∷ us)))
                (Placed text max_characters v.start end) (v ∷ us)
                (λ w p. (p.0, omega (arith, p.1, f.ends, n.after, n.nonempty, last), p.2)) f.placed)
              (
                (
                  omega (arith, f.placed.0.1, f.ends, n.after),
                  omega (arith, last, n.nonempty),
                  n.first,
                ),
                tt,
              );
      }

  module _ (identify : ℕ → ℕ → ℕ → String) (overlap : ℕ) where
    abbrev emit' : ChunkState → ChunkState
    emit' = emit identify text max_characters overlap

    abbrev room : ChunkState → Span → ChunkState
    room = make_room identify text max_characters overlap

    abbrev over : List Span → Span → Bool
    over = overflows identify text max_characters overlap

    pub room-Fits :
        (hi : ℕ) (s : ChunkState) (u : Span)
        → hi ≤ length text
        → StateFits text max_characters hi s
        → StateFits text max_characters hi (room s u) × (over (room s u).current u ≡ false)
    unfolding make_room
    room-Fits hi s u within f = elim (Bool-cases (over s.current u)) [
      | inr fits ↦ rw fits (f, fits)
      | inl long ↦
          let g = emit-Fits text max_characters identify overlap hi s within f in
          elim (Bool-cases (over (emit' s).current u)) [
            | inr fits ↦ rw (long, fits) (g, fits)
            | inl still ↦
                rw (long, still)
                  (
                    record {
                      current = nothing-Fits text max_characters hi;
                      chunks = g.chunks;
                      numbered = g.numbered;
                    },
                    refl,
                  )
          ]
    ]

    pub appended-Fits :
        (hi : ℕ) (s : ChunkState) (u : Span)
        → hi ≤ length text
        → StateFits text max_characters hi s
        → UnitFits text max_characters hi u
        → StateFits text max_characters u.end
            (appended identify text max_characters overlap (room s u) u)
    appended-Fits hi s u within f n =
        let (g, fits) = room-Fits hi s u within f in
        record {
          current = append-Fits hi (room s u).current u g.current n fits;
          chunks = g.chunks;
          numbered = g.numbered;
        }

    pub add_unit-Fits :
        (target hi : ℕ) (s : ChunkState) (u : Span)
        → hi ≤ length text
        → u.end ≤ length text
        → StateFits text max_characters hi s
        → UnitFits text max_characters hi u
        → StateFits text max_characters u.end
            (add_unit identify text max_characters overlap target s u)
    add_unit-Fits target hi s u within within' f n =
        let g = appended-Fits hi s u within f n in
        let t = appended identify text max_characters overlap (room s u) u in
        unfold add_unit in
        if_holds (StateFits text max_characters u.end)
          (leb (span_start t.current + target) (span_end t.current)) (emit' t) t
          (emit-Fits text max_characters identify overlap u.end t within' g) g

    pub Chain-le : (lo hi : ℕ) (us : List Span) → Chain text max_characters lo hi us → lo ≤ hi
    Chain-le lo hi [] c = c
    Chain-le lo hi (u ∷ us) (n, c) = omega (arith, n.after, n.nonempty, Chain-le u.end hi us c)

    pub add_units-Fits :
        (target lo hi : ℕ) (s : ChunkState) (us : List Span)
        → hi ≤ length text
        → Chain text max_characters lo hi us
        → StateFits text max_characters lo s
        → StateFits text max_characters hi
            (add_units identify text max_characters overlap target s us)
    unfolding add_units
    add_units-Fits target lo hi s [] within c f = StateFits-le lo hi s c f
    add_units-Fits target lo hi s (u ∷ us) within (n, c) f =
        let before = Chain-le u.end hi us c in
        add_units-Fits target u.end hi (add_unit identify text max_characters overlap target s u) us
          within c
          (add_unit-Fits target lo s u (omega (arith, n.after, n.nonempty, before))
            (omega (arith, before)) f n)

    pub finish-Fits :
        (hi : ℕ) (s : ChunkState)
        → hi ≤ length text
        → StateFits text max_characters hi s
        → StateFits text max_characters hi (finish identify text max_characters overlap s)
    finish-Fits hi s within f =
        unfold finish in
        if_holds (StateFits text max_characters hi) _ (emit' s) s
          (emit-Fits text max_characters identify overlap hi s within f) f
