-- ===== src/Worker/IndexedSeqPartition/Sorted.antt =====
-- core/partition/indexed_seq_partition.hpp: what `Find` gives in a partition that has been sorted.
use tangram.Base.{
  ℕ, zero, suc, ◌≤◌, ◌<◌, ◌≡◌, refl, arith, ◌==◌, ltb, false, Bool-cases, inl, inr, some, List, [],
  ◌∷◌, length, get_elem?, lookup, has, ap, some_injective, IsSorted, Above, lookup_below,
}
use tangram.Worker.IndexedSeqPartition.{
  IndexedSeqPartition, lower_bound, find, find_or_create, sort_partition,
}

module _ {ℓ} {V : Type ℓ} where
  -- The search stops at the first object whose key is not less.
  stops :
      (xs : List (ℕ × V)) (x : ℕ × V) (key b : ℕ)
      → Above b (x ∷ xs)
      → ltb x.0 key ≡ false
      → (i : ℕ) × (u : ℕ × V) × (lower_bound (length (x ∷ xs)) key (x ∷ xs) ≡ some i)
        × (get_elem? (x ∷ xs) i ≡ some u)
        × (key ≤ u.0)
        × ((u.0 == key) ≡ has key (x ∷ xs))
  unfolding lower_bound has lookup
  stops xs x key b a h = (
    0,
    x,
    rw h refl,
    refl,
    ground arith,
    ground (arith, λ (l : key < suc x.0). lookup_below key (suc x.0) xs l a.1),
  )

  lower_bound-has :
      (xs : List (ℕ × V)) (key j b : ℕ) {o : ℕ × V}
      → Above b xs
      → get_elem? xs j ≡ some o
      → key ≤ o.0
      → (i : ℕ) × (u : ℕ × V) × (lower_bound (length xs) key xs ≡ some i)
        × (get_elem? xs i ≡ some u)
        × (key ≤ u.0)
        × ((u.0 == key) ≡ has key xs)
  unfolding lower_bound has lookup
  lower_bound-has [] key j b a e h = absurd (cc)
  lower_bound-has (x ∷ xs) key zero b a e h =
      stops xs x key b a (ground (arith, ap (λ u. u.0) (some_injective e)))
  lower_bound-has (x ∷ xs) key (suc j) b a e h = elim (Bool-cases (ltb x.0 key)) [
    | inr stop ↦ stops xs x key b a stop
    | inl less ↦
        let (i, u, l, at_i, le, is) = lower_bound-has xs key j (suc x.0) a.1 e h in
        (suc i, u, rw (less, l) refl, at_i, le, ground arith)
  ]

  -- If a partition has been sorted with ascending keys, and some object has a key that is not less than the one
  -- looked for: then FindOrCreate makes no object, and the object that it gives has the key exactly if an
  -- object with the key is there. If none is, it gives an object of another key.
  pub find_or_create-has :
      (make : ℕ → V) (sort : List (ℕ × V) → List (ℕ × V)) (p : IndexedSeqPartition V) (key j : ℕ)
      (o : ℕ × V)
      → IsSorted (sort p.storage)
      → get_elem? (sort p.storage) j ≡ some o
      → key ≤ o.0
      → (i : ℕ) × (u : ℕ × V) × (find_or_create make key (sort_partition sort p)
          ≡ (i, sort_partition sort p))
        × (get_elem? (sort_partition sort p).storage i ≡ some u)
        × ((u.0 == key) ≡ has key (sort p.storage))
  unfolding find_or_create find sort_partition
  find_or_create-has make sort p key j o a e h =
      let (i, u, l, at_i, le, is) = lower_bound-has (sort p.storage) key j 0 a e h in
      (i, u, rw (l, find_or_create) refl, at_i, is)
