-- ===== src/Metadata/Resolve/Grouping.antt =====
-- The grouping of candidates by canonical value, which multi-valued and EXPLICIT_ONLY fields use.
use prv_application.Prelude.{
  All, All-append, AllPairs, AllPairs-sort_by, All-mono, Bool-cases, IsSorted, List, Option, [],
  codes_eq, codes_eq_refl, codes_eq_sound, codes_lt_connex, codes_lt_total, false, flat_map, inl,
  inr, max_by_holds, refl, sort_by, sort_by-IsSorted, subst, sym, true, ℕ, ◌++◌, ◌∷◌, ◌≡◌,
}
use prv_application.Metadata.Types.{MetadataEvent, Value}
use prv_application.Metadata.Resolve.{
  ResolvedValue, add_to_group, before, event_value, group_events, grouped_values, resolved_group,
  value_key, value_lt,
}

abbrev pub Group : Type 0
Group = List ℕ × List MetadataEvent

module _ (canonical : Option Value → List ℕ) where
  abbrev pub event_key : MetadataEvent → List ℕ
  event_key e = canonical (event_value e.columns)

  -- A group is not empty, and its events have its key.
  abbrev pub GroupOk : Group → Type 0
  GroupOk (k, []) = ⊥
  GroupOk (k, (e ∷ es)) = All (λ x. event_key x ≡ k) (e ∷ es)

  abbrev pub KeysDiffer : List ℕ → List ℕ → Type 0
  KeysDiffer j k = codes_eq j k ≡ false

  abbrev pub Differ : Group → Group → Type 0
  Differ g h = KeysDiffer g.0 h.0

  codes_differ_sym : (j k : List ℕ) → KeysDiffer j k → KeysDiffer k j
  codes_differ_sym j k h = elim (Bool-cases (codes_eq k j)) [
    | inr e ↦ e
    | inl e ↦ let same = codes_eq_sound k j e in cc (h, codes_eq_refl j, same)
  ]

  GroupOk-add :
      (k : List ℕ) (es : List MetadataEvent) (e : MetadataEvent)
      → GroupOk (k, es)
      → event_key e ≡ k
      → GroupOk (k, es ++ e ∷ [])
  GroupOk-add k [] e h same = elim h [ ]
  GroupOk-add k (x ∷ xs) e (h, hs) same =
      (h, All-append (λ y. event_key y ≡ k) xs (e ∷ []) hs (same, tt))

  add_to_group-Ok :
      (e : MetadataEvent) (gs : List Group)
      → All GroupOk gs
      → All GroupOk (add_to_group (event_key e) e gs)
  unfolding add_to_group
  add_to_group-Ok e [] a = ((refl, tt), tt)
  add_to_group-Ok e ((j, es) ∷ gs) (h, a) = elim (Bool-cases (codes_eq j (event_key e))) [
    | inl same ↦ rw same (GroupOk-add j es e h (sym (codes_eq_sound j (event_key e) same)), a)
    | inr other_key ↦ rw other_key (h, add_to_group-Ok e gs a)
  ]

  add_to_group-Differ :
      (k j : List ℕ) (e : MetadataEvent) (gs : List Group)
      → KeysDiffer j k
      → All (λ g. KeysDiffer j g.0) gs
      → All (λ g. KeysDiffer j g.0) (add_to_group k e gs)
  unfolding add_to_group
  add_to_group-Differ k j e [] h a = (h, tt)
  add_to_group-Differ k j e ((i, es) ∷ gs) h (hi, a) = elim (Bool-cases (codes_eq i k)) [
    | inl same ↦ rw same (hi, a)
    | inr other_key ↦ rw other_key (hi, add_to_group-Differ k j e gs h a)
  ]

  add_to_group-Distinct :
      (k : List ℕ) (e : MetadataEvent) (gs : List Group)
      → AllPairs Differ gs
      → AllPairs Differ (add_to_group k e gs)
  unfolding add_to_group
  add_to_group-Distinct k e [] h = (tt, tt)
  add_to_group-Distinct k e ((i, es) ∷ gs) (row, h) = elim (Bool-cases (codes_eq i k)) [
    | inl same ↦ rw same (row, h)
    | inr other_key ↦
        rw other_key (add_to_group-Differ k i e gs other_key row, add_to_group-Distinct k e gs h)
  ]

  pub group_events-Ok :
      (gs : List Group) (es : List MetadataEvent)
      → All GroupOk gs
      → AllPairs Differ gs
      → All GroupOk (group_events canonical gs es) × AllPairs Differ (group_events canonical gs es)
  unfolding group_events
  group_events-Ok gs [] a d = (a, d)
  group_events-Ok gs (e ∷ es) a d =
      group_events-Ok (add_to_group (event_key e) e gs) es (add_to_group-Ok e gs a)
        (add_to_group-Distinct (event_key e) e gs d)

  -- What one group resolves to has the group's key.
  pub resolved_group-key :
      (g : Group) → GroupOk g → All (λ v. value_key canonical v ≡ g.0) (resolved_group g)
  resolved_group-key (k, []) h = elim h [ ]
  resolved_group-key (k, (e ∷ es)) (h, a) =
      (max_by_holds before (λ x. event_key x ≡ k) e es h a, tt)

  flat_map-Differ :
      (j : List ℕ) (gs : List Group)
      → All GroupOk gs
      → All (λ g. KeysDiffer j g.0) gs
      → All (λ v. KeysDiffer j (value_key canonical v)) (flat_map resolved_group gs)
  unfolding flat_map
  flat_map-Differ j [] valid d = tt
  flat_map-Differ j (g ∷ gs) (valid_g, valid) (dg, d) =
      All-append (λ v. KeysDiffer j (value_key canonical v)) (resolved_group g)
        (flat_map resolved_group gs)
        (All-mono (λ v. value_key canonical v ≡ g.0) (λ v. KeysDiffer j (value_key canonical v))
          (resolved_group g) (λ v e. subst (KeysDiffer j) (sym e) dg)
          (resolved_group-key g valid_g))
        (flat_map-Differ j gs valid d)

  abbrev pub ValuesDiffer : ResolvedValue → ResolvedValue → Type 0
  ValuesDiffer v w = KeysDiffer (value_key canonical v) (value_key canonical w)

  flat_map-Distinct :
      (gs : List Group)
      → All GroupOk gs
      → AllPairs Differ gs
      → AllPairs ValuesDiffer (flat_map resolved_group gs)
  unfolding flat_map
  flat_map-Distinct [] valid d = tt
  flat_map-Distinct ((k, []) ∷ gs) (valid_g, valid) (row, d) = elim valid_g [ ]
  flat_map-Distinct ((k, (e ∷ es)) ∷ gs) (valid_g, valid) (row, d) =
      let (key, _) = resolved_group-key (k, (e ∷ es)) valid_g in
      (
        subst (λ j. All (λ v. KeysDiffer j (value_key canonical v)) (flat_map resolved_group gs))
            (sym key) (flat_map-Differ k gs valid row),
        flat_map-Distinct gs valid d,
      )

  -- Each value's canonical text is less than the next one's.
  abbrev pub IsIncreasing : List ResolvedValue → Type 0
  IsIncreasing [] = Unit
  IsIncreasing (v ∷ []) = Unit
  IsIncreasing (v ∷ w ∷ ws) = (value_lt canonical v w ≡ true) × IsIncreasing (w ∷ ws)

  strictly :
      (v w : ResolvedValue)
      → value_lt canonical w v ≡ false
      → ValuesDiffer v w
      → value_lt canonical v w ≡ true
  strictly v w h d = elim (Bool-cases (value_lt canonical v w)) [
    | inl e ↦ e
    | inr e ↦
        let same = codes_lt_connex (value_key canonical v) (value_key canonical w) e h in
        absurd (
          cc (
            subst (λ k. codes_eq (value_key canonical v) k ≡ true) same
                (codes_eq_refl (value_key canonical v)),
            d,
          ))
  ]

  IsIncreasing-of :
      (vs : List ResolvedValue)
      → IsSorted (value_lt canonical) vs
      → AllPairs ValuesDiffer vs
      → IsIncreasing vs
  IsIncreasing-of [] s d = tt
  IsIncreasing-of (v ∷ []) s d = tt
  IsIncreasing-of (v ∷ w ∷ ws) (h, s) ((hd, row), d) =
      (strictly v w h hd, IsIncreasing-of (w ∷ ws) s d)

  pub grouped_values-IsIncreasing :
      (es : List MetadataEvent) → IsIncreasing (grouped_values canonical es)
  unfolding grouped_values
  grouped_values-IsIncreasing es =
      let (valid, differ) = group_events-Ok [] es tt tt in
      let values = flat_map resolved_group (group_events canonical [] es) in
      IsIncreasing-of (sort_by (value_lt canonical) values)
        (sort_by-IsSorted (value_lt canonical)
          (λ v w. codes_lt_total (value_key canonical v) (value_key canonical w)) values)
        (AllPairs-sort_by (value_lt canonical) ValuesDiffer
          (λ v w. codes_differ_sym (value_key canonical v) (value_key canonical w)) values
          (flat_map-Distinct (group_events canonical [] es) valid differ))
