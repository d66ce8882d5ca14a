-- ===== src/Reviews/Sources.antt =====
-- The documents that _database_document_ids of app/review_batches.py chooses from.
use prv_application.Prelude.{
  ==_refl, ==→≡, All, All-mono, All-sort_by, Bool, Bool-cases, IsSorted, IsTotal, List, Memᴰ,
  Memᴰ-select, Memᴰ-sort_by, Option, [], ap, arith, false, inl, inr, is_id, map, none, refl, select,
  some, sort_by, sort_by-IsSorted, true, ℕ, ◌∙◌, ◌∷◌, ◌≡◌, ◌≤◌,
}
use prv_application.Reviews.{BatchDocument, DocumentRow, ReviewBatch, ReviewTables}
use prv_application.Reviews.Materialize.{earlier_member, in_batch, of_matter, older}

-- Each row stands in the relation to the next one.
abbrev pub InOrder : {A : Type 0} → (A → A → Type 0) → List A → Type 0
InOrder Before [] = Unit
InOrder Before (x ∷ []) = Unit
InOrder Before (x ∷ y ∷ ys) = Before x y × InOrder Before (y ∷ ys)

-- The ids of all rows of a table that are chosen, in an order of the rows.
pub record IsSourceOf {A : Type 0} (key : A → ℕ) (Chosen : A → Type 0) (Before : A → A → Type 0)
    (table : List A) (ids : List ℕ) : Type 0 where
  pub rows : List A
  pub keys : ids ≡ map key rows
  pub chosen : All (λ a. Memᴰ a table × Chosen a) rows
  pub complete : (a : A) → Memᴰ a table → Chosen a → Memᴰ a rows
  pub in_order : InOrder Before rows

-- The documents of the batch's matter, in the order of their creation and then of their ids.
abbrev pub MatterDocuments : ReviewTables → ReviewBatch → List ℕ → Type 0
MatterDocuments db b ids =
    IsSourceOf (λ (d : DocumentRow). d.id) (λ (d : DocumentRow). d.matter_id ≡ b.matter_id)
      (λ (d e : DocumentRow).
        (d.created_at ≤ e.created_at) × (d.created_at ≡ e.created_at → d.id ≤ e.id))
      db.documents ids

-- The documents of the batch that the batch names as its source, in the order of their numbers.
abbrev pub SourceDocuments : ReviewTables → ReviewBatch → List ℕ → Type 0
SourceDocuments db b ids =
    IsSourceOf (λ (m : BatchDocument). m.matter_document_id)
      (λ (m : BatchDocument). b.source_batch_id ≡ some m.review_batch_id)
      (λ (m n : BatchDocument). m.sequence_number ≤ n.sequence_number) db.members ids

module _ {A : Type 0} (key : A → ℕ) (test : A → Bool) (lt : A → A → Bool) where
  kept_rows : (xs : List A) → All (λ a. Memᴰ a xs × (test a ≡ true)) (select test xs)
  kept_rows [] = tt
  kept_rows (x ∷ xs) =
      let rest =
        All-mono (λ a. Memᴰ a xs × (test a ≡ true)) (λ a. Memᴰ a (x ∷ xs) × (test a ≡ true))
          (select test xs) (λ a (m, h). (Memᴰ.tail m, h)) (kept_rows xs) in
      elim (Bool-cases (test x)) [ inl e ↦ rw e ((Memᴰ.head refl, e), rest) | inr e ↦ rw e rest ]

  IsSorted-InOrder :
      (Before : A → A → Type 0)
      → ((a b : A) → lt b a ≡ false → Before a b)
      → (xs : List A) → IsSorted lt xs
      → InOrder Before xs
  IsSorted-InOrder Before not_less [] h = tt
  IsSorted-InOrder Before not_less (x ∷ []) h = tt
  IsSorted-InOrder Before not_less (x ∷ y ∷ ys) (e, h) =
      (not_less x y e, IsSorted-InOrder Before not_less (y ∷ ys) h)

  sorted-IsSourceOf :
      (Chosen : A → Type 0) (Before : A → A → Type 0)
      → IsTotal lt
      → ((a : A) → (test a ≡ true → Chosen a) × (Chosen a → test a ≡ true))
      → ((a b : A) → lt b a ≡ false → Before a b)
      → (table : List A)
      → IsSourceOf key Chosen Before table (map key (sort_by lt (select test table)))
  sorted-IsSourceOf Chosen Before total meaning not_less table = record {
    rows = sort_by lt (select test table);
    keys = refl;
    chosen =
        All-mono (λ a. Memᴰ a table × (test a ≡ true)) (λ a. Memᴰ a table × Chosen a)
          (sort_by lt (select test table)) (λ a (m, h). (m, (meaning a).0 h))
          (All-sort_by lt (λ a. Memᴰ a table × (test a ≡ true)) (select test table)
            (kept_rows table));
    complete =
        λ a m h. Memᴰ-sort_by lt (select test table) (Memᴰ-select test table m ((meaning a).1 h));
    in_order =
        IsSorted-InOrder Before not_less (sort_by lt (select test table))
          (sort_by-IsSorted lt total (select test table));
  }

pub documents-MatterDocuments :
    (db : ReviewTables) (b : ReviewBatch)
    → MatterDocuments db b (
        map
          (λ (d : DocumentRow). d.id)
          (sort_by older (select (of_matter b.matter_id) db.documents)))
documents-MatterDocuments db b =
    sorted-IsSourceOf (λ (d : DocumentRow). d.id) (of_matter b.matter_id) older _ _
      (λ d e h. ground arith) (λ d. (==→≡ d.matter_id b.matter_id, (λ same. ground arith)))
      (λ d e h. (ground arith, (λ same. ground arith))) db.documents

pub members-SourceDocuments :
    (db : ReviewTables) (b : ReviewBatch)
    → SourceDocuments db b (
        map
          (λ (m : BatchDocument). m.matter_document_id)
          (sort_by earlier_member (select (in_batch b.source_batch_id) db.members)))
members-SourceDocuments db b =
    sorted-IsSourceOf (λ (m : BatchDocument). m.matter_document_id) (in_batch b.source_batch_id)
      earlier_member _ _ (λ m n h. ground arith)
      (λ m. (
        named b.source_batch_id m.review_batch_id,
        (λ same. ap (λ (o : Option ℕ). is_id o m.review_batch_id) same ∙ ==_refl m.review_batch_id),
      ))
      (λ m n h. ground arith) db.members
  where
    named : (o : Option ℕ) (i : ℕ) → is_id o i ≡ true → o ≡ some i
    named none i h = cc
    named (some j) i h = ap some (==→≡ j i h)
