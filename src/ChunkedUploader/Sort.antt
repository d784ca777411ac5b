-- ===== src/ChunkedUploader/Sort.antt =====
-- The order of the parts that `complete` of `ChunkedUploader` (kit-media/kit_media/chunked_upload.py)
-- hands over.
use kit_api_optimization.Prelude.{
  suc, ℤ, ◌≤ℤ◌, leb_ℤ, int_eq, String, Dict, lookup, IsDict, length, All, All-imp, Bool-cases, inl,
  inr, ◌≡◌, refl, ap, ◌∙◌, none, some, List, [], ◌∷◌, arith, if◌then◌else◌,
}
use kit_api_optimization.ChunkedUploader.{insert_sorted, sorted_parts}

-- The numbers do not go down.
abbrev pub Ascending : List (ℤ × String) → Type 0
Ascending [] = Unit
Ascending (p ∷ parts) = All (λ q. p.0 ≤ℤ q.0) parts × Ascending parts

length-insert_sorted :
    (p : ℤ × String) (parts : List (ℤ × String))
    → length (insert_sorted p parts) ≡ suc (length parts)
length-insert_sorted p [] = refl
length-insert_sorted p (q ∷ parts) = ground (arith, length-insert_sorted p parts)

pub length-sorted_parts : (parts : Dict ℤ String) → length (sorted_parts parts) ≡ length parts
length-sorted_parts [] = refl
length-sorted_parts (p ∷ parts) =
    length-insert_sorted p (sorted_parts parts) ∙ ap suc (length-sorted_parts parts)

lookup-insert_sorted :
    (p : ℤ × String) (n : ℤ) (parts : List (ℤ × String))
    → lookup p.0 parts ≡ none
    → lookup n (insert_sorted p parts) ≡ (if int_eq.beq p.0 n then some p.1 else lookup n parts)
lookup-insert_sorted p n [] new = refl
lookup-insert_sorted p n (q ∷ parts) new = ground (
  arith,
  lookup-insert_sorted p n parts,
  new,
  int_eq.beq_iff p.0 n,
  int_eq.beq_iff q.0 n,
  int_eq.beq_iff q.0 p.0,
)

pub lookup-sorted_parts :
    (n : ℤ) (parts : Dict ℤ String) → IsDict parts → lookup n (sorted_parts parts) ≡ lookup n parts
lookup-sorted_parts n [] h = refl
lookup-sorted_parts n (p ∷ parts) h =
    lookup-insert_sorted p n (sorted_parts parts) (lookup-sorted_parts p.0 parts h.1 ∙ h.0)
    ∙ rw (lookup-sorted_parts n parts h.1) refl

Above-insert_sorted :
    (b : ℤ) (p : ℤ × String) (parts : List (ℤ × String))
    → b ≤ℤ p.0
    → All (λ q. b ≤ℤ q.0) parts
    → All (λ q. b ≤ℤ q.0) (insert_sorted p parts)
Above-insert_sorted b p [] below all = (below, tt)
Above-insert_sorted b p (q ∷ parts) below all = elim (Bool-cases (leb_ℤ p.0 q.0)) [
  | inl before ↦ rw before (below, all)
  | inr after ↦ rw after (all.0, Above-insert_sorted b p parts below all.1)
]

insert_sorted-Ascending :
    (p : ℤ × String) (parts : List (ℤ × String))
    → Ascending parts
    → Ascending (insert_sorted p parts)
insert_sorted-Ascending p [] h = (tt, tt)
insert_sorted-Ascending p (q ∷ parts) h = elim (Bool-cases (leb_ℤ p.0 q.0)) [
  | inl before ↦
      let below : p.0 ≤ℤ q.0 = ground (arith, before) in
      rw before (
        (
          below,
          All-imp (λ r. q.0 ≤ℤ r.0) (λ r. p.0 ≤ℤ r.0) parts (λ r le. omega (arith, le, below)) h.0,
        ),
        h,
      )
  | inr after ↦ rw after (
    Above-insert_sorted q.0 p parts (ground (arith, after)) h.0,
    insert_sorted-Ascending p parts h.1,
  )
]

pub sorted_parts-Ascending : (parts : Dict ℤ String) → Ascending (sorted_parts parts)
sorted_parts-Ascending [] = tt
sorted_parts-Ascending (p ∷ parts) =
    insert_sorted-Ascending p (sorted_parts parts) (sorted_parts-Ascending parts)
