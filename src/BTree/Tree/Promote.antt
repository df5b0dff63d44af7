-- ===== src/BTree/Tree/Promote.antt =====
-- promoteToParent and SplitInternalNode keep a tree well-formed.
use mathlib.Core.Path.{subst}
use ultimate_db.Prelude.{
  ℕ, zero, suc, ◌+◌, ◌/◌, ◌≤◌, ◌<◌, ◌^◌, ◌≡◌, refl, ◌∙◌, ap, sym, true, false, Option, List, [],
  ◌∷◌, ◌++◌, length, ◌⊎◌, arith, inl, inr, All, nat_eq, Bool-cases, ltb, ltb→lt, ltb→ge,
}
use ultimate_db.Bytes.{bytes_lt}
use ultimate_db.Memory.{Memory}
use ultimate_db.Page.{page_size}
use ultimate_db.BTree.{is_safe_for_insert, num_cells, btree_header_size}
use ultimate_db.BTree.Inner.{Entry, insert_into_internal}
use ultimate_db.BTree.Inner.Entries.{InnerHolds, entries_size, entry_size}
use ultimate_db.BTree.Inner.Insert.{split_child, is_safe_for_insert-InnerHolds}
use ultimate_db.BTree.Inner.Grow.{insert_into_internal-InnerHolds}
use ultimate_db.BTree.Tree.{
  Tree, Halves, set_page, new_page, halve_inner, inner_mid, left_inner, right_inner, entry_or_nil,
}
use ultimate_db.BTree.Tree.InnerHalving.{
  inner_mid-EntriesAt, left_inner-InnerHolds, right_inner-InnerHolds,
}
use ultimate_db.BTree.Tree.Formed.{
  max_key, EntryFormed, InnerFormed, TreeFormed, PageFormed-mono, set_page-TreeFormed,
  new_page-TreeFormed,
}
use ultimate_db.BTree.Tree.Kept.{All-append, SplitFormed}

abbrev halved : Tree → ℕ → ℕ → Option Entry × ℕ → Halves
halved t id mid at =
    let fresh = (new_page t).0 in
    record {
      tree =
          set_page
            (set_page fresh t.allocated
              (right_inner (fresh.pages t.allocated) (t.pages id) mid at.1))
            id (left_inner (t.pages id) ((entry_or_nil at.0).child) mid at.1);
      right = t.allocated;
      pivot = (entry_or_nil at.0).key;
    }

halve_inner-halved :
    (t : Tree) (id : ℕ)
    → halve_inner t id
      ≡ halved t id (num_cells (t.pages id) / 2) (
          inner_mid
            (t.pages id)
            (num_cells (t.pages id) / 2)
            (num_cells (t.pages id))
            btree_header_size)
unfolding halve_inner new_page
halve_inner-halved t id = refl

record Middle (es : List Entry) (n : ℕ) : Type 0 where
  xs : List Entry
  e : Entry
  ys : List Entry
  parts : es ≡ xs ++ e ∷ ys
  size : length xs ≡ n

middle : (n : ℕ) (es : List Entry) → n < length es → Middle es n
middle n [] lt = ground (arith, lt)
middle zero (e ∷ es) lt = record { xs = []; e = e; ys = es; parts = refl; size = refl }
middle (suc n) (e ∷ es) lt =
    let s = middle n es (omega arith) in
    record {
      xs = e ∷ s.xs;
      e = s.e;
      ys = s.ys;
      parts = ap (λ r. e ∷ r) s.parts;
      size = ap suc s.size;
    }

module _ (t : Tree) (id : ℕ) (xs : List Entry) (e : Entry) (ys : List Entry) (last : ℕ)
    (h : InnerHolds (t.pages id) (xs ++ e ∷ ys) last)
    (size : length xs ≡ length (xs ++ e ∷ ys) / 2) where
  abbrev fresh : Memory
  fresh = (new_page t).0.pages t.allocated

  abbrev end : ℕ
  end = 24 + entries_size xs + entry_size e

  abbrev halves : Halves
  halves = record {
    tree =
        set_page
          (set_page ((new_page t).0) t.allocated (right_inner fresh (t.pages id) (length xs) end))
          id (left_inner (t.pages id) e.child (length xs) end);
    right = t.allocated;
    pivot = e.key;
  }

  halve_inner-halves : halve_inner t id ≡ halves
  halve_inner-halves =
      halve_inner-halved t id
      ∙ ap (λ n. halved t id (n / 2) (inner_mid (t.pages id) (n / 2) n btree_header_size)) h.count
      ∙ ap (λ k. halved t id k (inner_mid (t.pages id) k (length (xs ++ e ∷ ys)) btree_header_size))
          (sym size)
      ∙ ap (halved t id (length xs)) (inner_mid-EntriesAt (t.pages id) 24 xs e ys h.entries h.room)

  halves-Formed :
      TreeFormed t
      → t.allocated < 2 ^ 32
      → All (EntryFormed t.allocated) (xs ++ e ∷ ys)
      → last < t.allocated
      → SplitFormed t halves
  unfolding set_page new_page
  halves-Formed f lt small last_lt =
      let (a, b) = All-append (EntryFormed t.allocated) xs (e ∷ ys) small in
      record {
        formed =
            set_page-TreeFormed _ id _
              (new_page-TreeFormed t _ f (
                PageFormed-mono t.allocated (suc t.allocated) _ (omega arith) (
                  inr (
                    ys,
                    last,
                    right_inner-InnerHolds fresh (t.pages id) xs e ys last h (omega arith),
                    b.1,
                    last_lt,
                  ))))
              (PageFormed-mono t.allocated (suc t.allocated) _ (omega arith) (
                inr (
                  xs,
                  e.child,
                  left_inner-InnerHolds fresh (t.pages id) xs e ys last h (omega (arith, b.0.0)),
                  a,
                  b.0.0,
                )));
        one_more = refl;
        right_new = refl;
        pivot_short = b.0.1;
        inner_kept = λ i lt' inner. elim (Bool-cases (nat_eq i id)) [
          | inl same ↦ ground (
            arith,
            same,
            (left_inner-InnerHolds fresh (t.pages id) xs e ys last h (omega (arith, b.0.0))).inner,
          )
          | inr other ↦ ground (arith, inner, other, lt')
        ];
      }

-- Of a page with an entry.
pub halve_inner-Formed :
    (t : Tree) (id : ℕ) (es : List Entry) (last : ℕ)
    → TreeFormed t
    → t.allocated < 2 ^ 32
    → InnerHolds (t.pages id) es last
    → All (EntryFormed t.allocated) es
    → last < t.allocated
    → 0 < length es
    → SplitFormed t (halve_inner t id)
halve_inner-Formed t id es last f lt h small last_lt some_entry =
    let s = middle (length es / 2) es (omega (arith, some_entry)) in
    let h' = subst (λ r. InnerHolds (t.pages id) r last) s.parts h in
    let size = s.size ∙ ap (λ r. length r / 2) s.parts in
    subst (SplitFormed t) (sym (halve_inner-halves t id s.xs s.e s.ys last h' size)) (
      halves-Formed t id s.xs s.e s.ys last h' size f lt
        (subst (All (EntryFormed t.allocated)) s.parts small) last_lt)

split_child-Formed :
    (n : ℕ) (pivot : List ℕ) (left right : ℕ) (es : List Entry) (last : ℕ)
    → length pivot ≤ max_key
    → left < n
    → right < n
    → All (EntryFormed n) es
    → last < n
    → All (EntryFormed n) (split_child pivot left right es last).0
      × ((split_child pivot left right es last).1 < n)
unfolding split_child
split_child-Formed n pivot left right [] last short lt lt' h last_lt = (((lt, short), tt), lt')
split_child-Formed n pivot left right (e ∷ es) last short lt lt' h last_lt =
    elim (Bool-cases (bytes_lt pivot e.key)) [
      | inl b ↦ rw b (((lt, short), ((lt', h.0.1), h.1)), last_lt)
      | inr b ↦
          let (a, r) = split_child-Formed n pivot left right es last short lt lt' h.1 last_lt in
          rw b ((h.0, a), r)
    ]

insert_full :
    (m : Memory) (pivot : List ℕ) (left right : ℕ)
    → is_safe_for_insert m (10 + length pivot) ≡ false
    → insert_into_internal m pivot left right ≡ (m, false)
unfolding insert_into_internal
insert_full m pivot left right e = ground (arith, e)

-- insertIntoInternal either finds room or reports ErrPageFull at a page that has an entry.
pub insert_into_internal-Formed :
    (n : ℕ) (m : Memory) (pivot : List ℕ) (left right : ℕ)
    → InnerFormed n m
    → length pivot ≤ max_key
    → left < n
    → right < n
    → n ≤ 2 ^ 32
    → ((insert_into_internal m pivot left right).1 ≡ true)
        × InnerFormed n (insert_into_internal m pivot left right).0
      ⊎ ((insert_into_internal m pivot left right ≡ (m, false))
          × ((es : List Entry) × (last : ℕ) × InnerHolds m es last
              × All (EntryFormed n) es
              × (last < n)
              × (0 < length es)))
insert_into_internal-Formed n m pivot left right (es, last, h, small, last_lt) short lt lt' le =
    elim (Bool-cases (ltb (24 + entries_size es + (10 + length pivot)) page_size)) [
      | inl room ↦
          let (m', done, h') =
            insert_into_internal-InnerHolds m es last pivot left right h (ltb→lt _ _ room)
              (omega (arith, lt, le)) (omega (arith, lt', le)) in
          let (a, r) = split_child-Formed n pivot left right es last short lt lt' small last_lt in
          inl (
            ap (λ r. r.1) done,
            subst (InnerFormed n) (sym (ap (λ r. r.0) done)) (
              (split_child pivot left right es last).0,
              (split_child pivot left right es last).1,
              h',
              a,
              r,
            ),
          )
      | inr full ↦ inr (
        insert_full m pivot left right
            (is_safe_for_insert-InnerHolds m es last (10 + length pivot) h ∙ full),
        (es, last, h, small, last_lt, nonempty es (ltb→ge _ _ full)),
      )
    ]
  where
    nonempty :
        (es : List Entry) → page_size ≤ 24 + entries_size es + (10 + length pivot) → 0 < length es
    nonempty [] ge = omega (arith, ge, short)
    nonempty (e ∷ es) ge = omega arith
