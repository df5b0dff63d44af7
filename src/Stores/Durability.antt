-- ===== src/Stores/Durability.antt =====
-- What the replicating store promises of a durable identity key.
use ultimate_db.Prelude.{
  ℕ, ◌≡◌, refl, ◌∙◌, ap, sym, true, none, some, List, [], ◌∷◌, bytes_key, bytes_eq_refl, ℤ, pos,
  lookup-insert_self, lookup-delete, arith, inl, inr, Option-cases, Bool-cases,
}
use ultimate_db.Stores.{KvStore, found, missing}
use ultimate_db.Stores.Replica.{
  ReplicatingKvStore, is_durable_identity_key, mirror_load, mirror_get, mirror_put, mirror_delete,
  fall_back, replica_get, replica_put, replica_delete,
}

get-mirror_put :
    {P R : Type 0} (s : ReplicatingKvStore P R) (key : List ℕ) (b : ℕ) (bs : List ℕ)
    → s.has_mirror ≡ true
    → mirror_get (mirror_put s key (b ∷ bs)) key ≡ some (b ∷ bs)
unfolding mirror_get mirror_put
get-mirror_put s key b bs h = elim (Option-cases s.mirror) [
  | inl e ↦ ground (arith, h, e, lookup-insert_self key (b ∷ bs) [])
  | inr (m, e) ↦ ground (arith, h, e, lookup-insert_self key (b ∷ bs) m)
]

-- The mirror does not depend on the stores.
mirror_get-stores :
    {P R : Type 0} (s : ReplicatingKvStore P R) (left : P) (left' : R) (key : List ℕ)
    → mirror_get (record s { primary = left; replica = left' }) key ≡ mirror_get s key
unfolding mirror_get
mirror_get-stores s left left' key = refl

get-mirror_delete :
    {P R : Type 0} (s : ReplicatingKvStore P R) (key : List ℕ)
    → mirror_get (mirror_delete s key) key ≡ none
unfolding mirror_get mirror_delete
get-mirror_delete s key = elim (Bool-cases s.has_mirror) [
  | inl h ↦ elim (Option-cases s.mirror) [
    | inl e ↦ ground (arith, h, e)
    | inr (m, e) ↦ ground (arith, h, e, lookup-delete key key m, bytes_eq_refl key)
  ]
  | inr h ↦ ground (arith, h)
]

stores-mirror_delete :
    {P R : Type 0} (s : ReplicatingKvStore P R) (key : List ℕ)
    → ((mirror_delete s key).primary ≡ s.primary) × ((mirror_delete s key).replica ≡ s.replica)
unfolding mirror_delete
stores-mirror_delete s key = elim (Option-cases (mirror_load s)) [
  | inl e ↦ (ground (arith, e), ground (arith, e))
  | inr (m, e) ↦ (ground (arith, e), ground (arith, e))
]

module _ {P R : Type 0} (p : KvStore P) (r : KvStore R) where
  -- A value that the replica has, or else the mirror, is found.
  fall_back-replica :
      (s : ReplicatingKvStore P R) (key : List ℕ) (b : ℕ) (bs : List ℕ)
      → r.get s.replica key ≡ some (b ∷ bs)
      → fall_back p r s key
        ≡ (record s { primary = (p.put s.primary key (b ∷ bs) (pos 0)).0 }, found (b ∷ bs))
  unfolding fall_back
  fall_back-replica s key b bs e = ground (arith, e)

  fall_back-mirror :
      (s : ReplicatingKvStore P R) (key val : List ℕ)
      → r.get s.replica key ≡ none
      → mirror_get s key ≡ some val
      → (fall_back p r s key).1 ≡ found val
  unfolding fall_back
  fall_back-mirror s key val e e' = ground (arith, e, e')

  fall_back-missing :
      (s : ReplicatingKvStore P R) (key : List ℕ)
      → r.get s.replica key ≡ none
      → mirror_get s key ≡ none
      → fall_back p r s key ≡ (s, missing)
  unfolding fall_back
  fall_back-missing s key e e' = ground (arith, e, e')

  get-fall_back :
      (s : ReplicatingKvStore P R) (key : List ℕ)
      → is_durable_identity_key key ≡ true
      → p.get s.primary key ≡ none
      → replica_get p r s key ≡ fall_back p r s key
  unfolding replica_get
  get-fall_back s key d e = ground (arith, d, e)

  module _ (s : ReplicatingKvStore P R) (key : List ℕ) (b : ℕ) (bs : List ℕ) (ttl : ℤ)
      (durable : is_durable_identity_key key ≡ true) (room : r.put_fits s.replica key (b ∷ bs))
      (written : (replica_put p r s key (b ∷ bs) ttl).1 ≡ true) where
    abbrev after : ReplicatingKvStore P R
    after = (replica_put p r s key (b ∷ bs) ttl).0

    put-replica :
        (after.replica ≡ (r.put s.replica key (b ∷ bs) (pos 0)).0)
        × ((r.put s.replica key (b ∷ bs) (pos 0)).1 ≡ true)
    unfolding replica_put mirror_put
    put-replica = ground (arith, durable, written)

    put_steps :
        after
        ≡ mirror_put
            (record s {
              primary = (p.put s.primary key (b ∷ bs) ttl).0;
              replica = (r.put s.replica key (b ∷ bs) (pos 0)).0;
            })
            key
            (b ∷ bs)
    unfolding replica_put
    put_steps = ground (arith, durable, written)

    put-mirror : s.has_mirror ≡ true → mirror_get after key ≡ some (b ∷ bs)
    put-mirror h = ap (λ t. mirror_get t key) put_steps ∙ get-mirror_put _ key b bs h

    replica-has : r.get after.replica key ≡ some (b ∷ bs)
    replica-has =
        ap (λ t. r.get t key) put-replica.0
        ∙ r.get_put s.replica key (b ∷ bs) key room put-replica.1
        ∙ ground (arith, bytes_eq_refl key)

    -- A durable key that was put survives the loss of the primary store: with any primary that
    -- does not have it and has room for it, Get finds the value and puts it back there.
    pub primary_lost :
        (left : P)
        → p.get left key ≡ none
        → p.put_fits left key (b ∷ bs)
        → (p.put left key (b ∷ bs) (pos 0)).1 ≡ true
        → ((replica_get p r (record after { primary = left }) key).1 ≡ found (b ∷ bs))
          × (p.get (replica_get p r (record after { primary = left }) key).0.primary key
              ≡ some (b ∷ bs))
    primary_lost left lost fits ok =
        let back =
          get-fall_back (record after { primary = left }) key durable lost
          ∙ fall_back-replica (record after { primary = left }) key b bs replica-has in
        (
          ap (λ t. t.1) back,
          ap (λ t. p.get t.0.primary key) back
              ∙ p.get_put left key (b ∷ bs) key fits ok
              ∙ ground (arith, bytes_eq_refl key),
        )

    -- With a mirror, a durable key that was put survives the loss of both stores: Get finds the
    -- value though neither store has the key.
    pub both_lost :
        (left : P) (left' : R)
        → s.has_mirror ≡ true
        → p.get left key ≡ none
        → r.get left' key ≡ none
        → (replica_get p r (record after { primary = left; replica = left' }) key).1
          ≡ found (b ∷ bs)
    both_lost left left' h lost lost' =
        ap (λ t. t.1)
          (get-fall_back (record after { primary = left; replica = left' }) key durable lost)
        ∙ fall_back-mirror (record after { primary = left; replica = left' }) key (b ∷ bs) lost'
            (mirror_get-stores after left left' key ∙ put-mirror h)

  delete_steps :
      (s : ReplicatingKvStore P R) (key : List ℕ)
      → is_durable_identity_key key ≡ true
      → (replica_delete p r s key).0
        ≡ mirror_delete
            (record s {
              primary = (p.remove s.primary key).0;
              replica = (r.remove s.replica key).0;
            })
            key
  unfolding replica_delete
  delete_steps s key d = ground (arith, d)

  -- A durable key that was deleted from both stores is missing from then on.
  pub deleted_everywhere :
      (s : ReplicatingKvStore P R) (key : List ℕ)
      → is_durable_identity_key key ≡ true
      → p.remove_fits s.primary key
      → r.remove_fits s.replica key
      → (p.remove s.primary key).1 ≡ true
      → (r.remove s.replica key).1 ≡ true
      → replica_get p r (replica_delete p r s key).0 key ≡ ((replica_delete p r s key).0, missing)
  deleted_everywhere s key d fits fits' ok ok' =
      ap (λ t. replica_get p r t key) steps
      ∙ get-fall_back t key d (
          ap (λ x. p.get x key) (stores-mirror_delete _ key).0
          ∙ p.get_remove s.primary key key fits ok
          ∙ ground (arith, bytes_eq_refl key))
      ∙ fall_back-missing t key
          (ap (λ x. r.get x key) (stores-mirror_delete _ key).1
            ∙ r.get_remove s.replica key key fits' ok'
            ∙ ground (arith, bytes_eq_refl key))
          (get-mirror_delete _ key)
      ∙ ap (λ x. (x, missing)) (sym steps)
    where
      t : ReplicatingKvStore P R
      t =
          mirror_delete
            (record s {
              primary = (p.remove s.primary key).0;
              replica = (r.remove s.replica key).0;
            })
            key

      steps : (replica_delete p r s key).0 ≡ t
      steps = delete_steps s key d
