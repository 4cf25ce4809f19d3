-- ===== src/Prelude/Ordered.antt =====
-- Python's ordered dictionaries: deletion, the move of a key to the end, and the fact that the keys
-- are distinct.
use mathlib.Core.Path.{◌≡◌, refl}
use mathlib.Core.Logic.{inl, inr}
use mathlib.Core.Bool.{false}
use mathlib.Core.Option.{none, some}
use mathlib.Core.List.{[], ◌∷◌, ◌++◌}
use Prim.Native.Nat.{ℕ, zero, suc, ◌+◌, ◌≤◌}
use native.Mathlib.Omega.{arith}
use dawn_kestrel.Prelude.Lists.{drop, length}
use dawn_kestrel.Prelude.Tests.{if◌then◌else◌, Bool-cases}
use dawn_kestrel.Prelude.EqClass.{Eq, ◌==◌, ==_refl}
use dawn_kestrel.Prelude.DictDefs.{Dict, lookup, insert, lookup-insert}

module _ {ℓ κ} {K : Type ℓ} {V : Type κ} ⦃e : Eq K⦄ where
  -- `del d[k]`
  unfoldable pub delete : K → Dict K V → Dict K V
  delete k [] = []
  delete k ((j, v) ∷ d) = if j == k then d else (j, v) ∷ delete k d

  -- `d[k] = v; d.move_to_end(k)` for a key that is there
  unfoldable pub move_to_end : K → V → Dict K V → Dict K V
  move_to_end k v d = delete k d ++ (k, v) ∷ []

  abbrev pub Distinct : Dict K V → Type κ
  Distinct [] = Unit
  Distinct ((k, v) ∷ d) = (lookup k d ≡ none) × Distinct d

  pub lookup-append :
      (j k : K) (v : V) (d : Dict K V)
      → lookup j d ≡ none
      → lookup j (d ++ (k, v) ∷ []) ≡ (if k == j then some v else none)
  unfolding lookup
  lookup-append j k v [] h = refl
  lookup-append j k v ((i, w) ∷ d) h = elim (Bool-cases (i == j)) [
    | inl hit ↦ absurd (cc (rw hit at h))
    | inr off ↦ rw off (lookup-append j k v d (rw off at h))
  ]

  pub lookup-delete-none :
      (j k : K) (d : Dict K V) → lookup j d ≡ none → lookup j (delete k d) ≡ none
  unfolding lookup delete
  lookup-delete-none j k [] h = refl
  lookup-delete-none j k ((i, w) ∷ d) h = ground (arith, lookup-delete-none j k d)

  pub lookup-delete_other :
      (j k : K) (d : Dict K V) → (k == j) ≡ false → lookup j (delete k d) ≡ lookup j d
  unfolding lookup delete
  lookup-delete_other j k [] h = refl
  lookup-delete_other j k ((i, w) ∷ d) h =
      ground (arith, lookup-delete_other j k d, e.same_iff i k, e.same_iff i j, e.same_iff k j)

  pub lookup-delete_self : (k : K) (d : Dict K V) → Distinct d → lookup k (delete k d) ≡ none
  unfolding lookup delete
  lookup-delete_self k [] h = refl
  lookup-delete_self k ((i, w) ∷ d) h = ground (arith, lookup-delete_self k d, e.same_iff i k)

  pub lookup-drop-none :
      (j : K) (n : ℕ) (d : Dict K V) → lookup j d ≡ none → lookup j (drop n d) ≡ none
  unfolding lookup
  lookup-drop-none j zero d h = h
  lookup-drop-none j (suc n) [] h = refl
  lookup-drop-none j (suc n) ((i, w) ∷ d) h = elim (Bool-cases (i == j)) [
    | inl hit ↦ absurd (cc (rw hit at h))
    | inr off ↦ lookup-drop-none j n d (rw off at h)
  ]

  pub delete-Distinct : (k : K) (d : Dict K V) → Distinct d → Distinct (delete k d)
  unfolding delete
  delete-Distinct k [] h = tt
  delete-Distinct k ((i, w) ∷ d) h = elim (Bool-cases (i == k)) [
    | inl hit ↦ rw hit h.1
    | inr off ↦ rw off (lookup-delete-none i k d h.0, delete-Distinct k d h.1)
  ]

  pub drop-Distinct : (n : ℕ) (d : Dict K V) → Distinct d → Distinct (drop n d)
  drop-Distinct zero d h = h
  drop-Distinct (suc n) [] h = tt
  drop-Distinct (suc n) (x ∷ d) h = drop-Distinct n d h.1

  pub insert-Distinct : (k : K) (v : V) (d : Dict K V) → Distinct d → Distinct (insert k v d)
  unfolding insert lookup
  insert-Distinct k v [] h = (refl, tt)
  insert-Distinct k v ((i, w) ∷ d) h = elim (Bool-cases (i == k)) [
    | inl hit ↦ rw hit h
    | inr off ↦ rw off (
      ground (arith, lookup-insert k i v d, e.same_iff i k, e.same_iff k i, h.0),
      insert-Distinct k v d h.1,
    )
  ]

  pub append-Distinct :
      (k : K) (v : V) (d : Dict K V) → lookup k d ≡ none → Distinct d → Distinct (d ++ (k, v) ∷ [])
  unfolding lookup
  append-Distinct k v [] n h = (refl, tt)
  append-Distinct k v ((i, w) ∷ d) n h = elim (Bool-cases (i == k)) [
    | inl hit ↦ absurd (cc (rw hit at n))
    | inr off ↦ (
      ground (arith, lookup-append i k v d h.0, e.same_iff i k, e.same_iff k i),
      append-Distinct k v d (rw off at n) h.1,
    )
  ]

  pub move_to_end-Distinct :
      (k : K) (v : V) (d : Dict K V) → Distinct d → Distinct (move_to_end k v d)
  unfolding move_to_end
  move_to_end-Distinct k v d h =
      append-Distinct k v (delete k d) (lookup-delete_self k d h) (delete-Distinct k d h)

  -- a key of an ordered dictionary, found and deleted where it stands
  pub delete_middle :
      (front : Dict K V) (k : K) (v : V) (back : Dict K V)
      → Distinct (front ++ (k, v) ∷ back)
      → (delete k (front ++ (k, v) ∷ back) ≡ front ++ back)
        × (lookup k (front ++ (k, v) ∷ back) ≡ some v)
        × Distinct (front ++ back)
  unfolding delete lookup
  delete_middle [] k v back h = (rw (==_refl k) refl, rw (==_refl k) refl, h.1)
  delete_middle ((j, w) ∷ front) k v back h =
      let (deleted, found, distinct) = delete_middle front k v back h.1 in
      elim (Bool-cases (j == k)) [
        | inl hit ↦ absurd (cc (rw ((e.same_iff j k).0 hit, found) at (h.0)))
        | inr off ↦ (
          rw off (rw deleted refl),
          rw off found,
          (rw (← deleted) (lookup-delete-none j k _ h.0), distinct),
        )
      ]

  pub length-delete :
      (k : K) (v : V) (d : Dict K V) → lookup k d ≡ some v → length (delete k d) + 1 ≡ length d
  unfolding delete lookup
  length-delete k v [] h = absurd (cc h)
  length-delete k v ((j, w) ∷ d) h = ground (arith, length-delete k v d)

  pub length-insert :
      (k : K) (v : V) (d : Dict K V)
      → (length d ≤ length (insert k v d)) × (length (insert k v d) ≤ length d + 1)
  unfolding insert
  length-insert k v [] = omega arith
  length-insert k v ((j, w) ∷ d) = ground (arith, length-insert k v d)
