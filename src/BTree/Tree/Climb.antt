-- ===== src/BTree/Tree/Climb.antt =====
-- The climb of promoteToParent keeps a tree well-formed.
use mathlib.Core.Path.{subst}
use ultimate_db.Prelude.{
  ℕ, ◌+◌, ◌≤◌, ◌<◌, ◌^◌, ◌≡◌, ◌∙◌, ap, sym, false, List, [], ◌∷◌, length, arith, inl, inr, All,
  nat_eq, Bool-cases,
}
use ultimate_db.Memory.{Memory}
use ultimate_db.BTree.{page_type, page_type_internal}
use ultimate_db.BTree.Inner.{insert_into_internal}
use ultimate_db.BTree.Inner.Entries.{InnerHolds}
use ultimate_db.BTree.Tree.{Tree, set_page, new_page, halve_inner, root_page, grow_root, promote}
use ultimate_db.BTree.Tree.Root.{root_page-InnerHolds}
use ultimate_db.BTree.Tree.Routing.{set_page_same}
use ultimate_db.BTree.Tree.Formed.{
  max_key, TreeFormed, set_page-TreeFormed, new_page-TreeFormed, inner_of,
}
use ultimate_db.BTree.Tree.Promote.{halve_inner-Formed, insert_into_internal-Formed}

grow_root-Formed :
    (t : Tree) (left right : ℕ) (pivot : List ℕ)
    → TreeFormed t
    → left < t.allocated
    → right < t.allocated
    → t.allocated ≤ 2 ^ 32
    → length pivot ≤ max_key
    → TreeFormed (grow_root t left right pivot)
unfolding grow_root set_page new_page
grow_root-Formed t left right pivot f lt lt' le short =
    let fresh = (new_page t).0.pages t.allocated in
    let page = root_page fresh left right pivot in
    let h =
      root_page-InnerHolds fresh left right pivot (omega (arith, short)) (omega (arith, lt, le))
        (omega (arith, lt', le)) in
    let f' = new_page-TreeFormed t page f (
      inr (
        record { child = left; key = pivot } ∷ [],
        right,
        h,
        ((omega (arith, lt), short), tt),
        omega (arith, lt'),
      )) in
    record { root_there = omega arith; pages_formed = f'.pages_formed }

abbrev pub InnerPage : Tree → ℕ → Type 0
InnerPage t i = (i < t.allocated) × (page_type (t.pages i) ≡ page_type_internal)

pub All-map {ℓ κ μ} :
    {A : Type ℓ} (P : A → Type κ) (Q : A → Type μ) (xs : List A)
    → ((x : A) → P x → Q x)
    → All P xs
    → All Q xs
All-map P Q [] f h = tt
All-map P Q (x ∷ xs) f h = (f x h.0, All-map P Q xs f h.1)

set_page-InnerPage :
    (t : Tree) (id : ℕ) (m : Memory) (i : ℕ)
    → page_type m ≡ page_type_internal
    → InnerPage t i
    → InnerPage (set_page t id m) i
unfolding set_page
set_page-InnerPage t id m i e (lt, inner) = elim (Bool-cases (nat_eq i id)) [
  | inl same ↦ (lt, ground (arith, same, e))
  | inr other ↦ (lt, ground (arith, other, inner))
]

promote_up :
    (t : Tree) (right : ℕ) (pivot : List ℕ) (left parent : ℕ) (above : List ℕ) (m : Memory)
    → nat_eq left t.root ≡ false
    → insert_into_internal (t.pages parent) pivot left right ≡ (m, false)
    → promote t right pivot (left ∷ parent ∷ above)
      ≡ promote
          (halve_inner (set_page t parent m) parent).tree
          (halve_inner (set_page t parent m) parent).right
          (halve_inner (set_page t parent m) parent).pivot
          (parent ∷ above)
unfolding promote
promote_up t right pivot left parent above m e full =
    ground (arith, e, full)
    ∙ ap
        (λ r.
          promote (halve_inner (set_page t parent r.0) parent).tree
            (halve_inner (set_page t parent r.0) parent).right
            (halve_inner (set_page t parent r.0) parent).pivot (parent ∷ above))
        full

pub promote-Formed :
    (t : Tree) (right : ℕ) (pivot : List ℕ) (left : ℕ) (above : List ℕ)
    → TreeFormed t
    → left < t.allocated
    → right < t.allocated
    → t.allocated + length above ≤ 2 ^ 32
    → length pivot ≤ max_key
    → All (InnerPage t) above
    → TreeFormed (promote t right pivot (left ∷ above)).0
unfolding promote set_page
promote-Formed t right pivot left [] f lt lt' le short inner =
    elim (Bool-cases (nat_eq left t.root)) [
      | inl e ↦ rw e (grow_root-Formed t left right pivot f lt lt' (omega arith) short)
      | inr e ↦ rw e f
    ]
promote-Formed t right pivot left (parent ∷ above) f lt lt' le short inner =
    elim (Bool-cases (nat_eq left t.root)) [
      | inl e ↦ rw e (grow_root-Formed t left right pivot f lt lt' (omega arith) short)
      | inr e ↦
          elim (insert_into_internal-Formed t.allocated (t.pages parent) pivot left right
            (inner_of t.allocated (t.pages parent) (f.pages_formed parent inner.0.0)
              (ground (arith, inner.0.1)))
            short lt lt' (omega arith)) [
              | inl (done, page) ↦ rw (e, done) (set_page-TreeFormed t parent _ f (inr page))
              | inr (full, page) ↦
                  let (es, last, h, small, last_lt, some_entry) = page in
                  let t₁ = set_page t parent (t.pages parent) in
                  let f₁ =
                    set_page-TreeFormed t parent (t.pages parent) f
                      (f.pages_formed parent inner.0.0) in
                  let s =
                    halve_inner-Formed t₁ parent es last f₁ (omega arith)
                      (subst (λ m. InnerHolds m es last)
                        (sym (set_page_same t parent (t.pages parent))) h)
                      small last_lt some_entry in
                  subst (λ r. TreeFormed r.0)
                    (sym (promote_up t right pivot left parent above (t.pages parent) e full))
                    (promote-Formed (halve_inner t₁ parent).tree (halve_inner t₁ parent).right
                      (halve_inner t₁ parent).pivot parent above s.formed
                      (omega (arith, s.one_more, inner.0.0))
                      (omega (arith, s.one_more, s.right_new)) (omega (arith, s.one_more, le))
                      s.pivot_short
                      (All-map (InnerPage t) (InnerPage (halve_inner t₁ parent).tree) above
                        (λ i p. (
                          omega (arith, s.one_more, p.0),
                          s.inner_kept i p.0
                              (set_page-InnerPage t parent (t.pages parent) i h.inner p).1,
                        ))
                        inner.1))
            ]
    ]
