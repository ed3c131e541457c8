-- ===== src/Base/Retain.antt =====
-- Which entries of a map a loop of removals leaves, and the searches over what is left.
use mathlib.Core.Path.{◌≡◌, refl}
use mathlib.Core.Logic.{◌⊎◌, inl, inr}
use mathlib.Core.Bool.{Bool, true, false}
use mathlib.Core.Option.{none, some}
use mathlib.Core.List.{List, [], ◌∷◌}
use native.Mathlib.Omega.{arith}
use credman.Base.Tests.{Bool-cases}
use credman.Base.Lists.{any, filter}
use credman.Base.Equality.{Eq, ◌==◌}
use credman.Base.Sets.{contains}
use credman.Base.Dict.{Dict, keys, values, lookup, erase, NodupKeys, lookup-erase}

module _ {ℓ} {A : Type ℓ} ⦃e : Eq A⦄ (p : A → Bool) where
  pub contains-filter_absent :
      (xs : List A) (a : A) → contains xs a ≡ false → contains (filter p xs) a ≡ false
  contains-filter_absent [] a h = refl
  contains-filter_absent (x ∷ xs) a h = ground (arith, contains-filter_absent xs a)

  pub contains-filter_refused :
      (xs : List A) (a : A) → p a ≡ false → contains (filter p xs) a ≡ false
  contains-filter_refused [] a h = refl
  contains-filter_refused (x ∷ xs) a h = ground (arith, e.beq_iff x a, contains-filter_refused xs a)

  pub contains-filter_kept :
      (xs : List A) (a : A) → p a ≡ true → contains (filter p xs) a ≡ contains xs a
  contains-filter_kept [] a h = refl
  contains-filter_kept (x ∷ xs) a h = ground (arith, e.beq_iff x a, contains-filter_kept xs a)

module _ {K V : Type 0} ⦃e : Eq K⦄ where
  pub lookup-erase_other :
      (k j : K) (v : V) (d : Dict K V)
      → (k == j) ≡ false
      → lookup j d ≡ some v
      → lookup j (erase k d) ≡ some v
  lookup-erase_other k j v d other found = ground (arith, lookup-erase k j d)

  pub lookup-erase_back :
      (k j : K) (v : V) (d : Dict K V) → lookup j (erase k d) ≡ some v → lookup j d ≡ some v
  lookup-erase_back k j v d found = ground (arith, lookup-erase k j d)

  module _ (p : K × V → Bool) where
    pub keys-filter-none :
        (k : K) (d : Dict K V) → lookup k d ≡ none → contains (keys (filter p d)) k ≡ false
    unfolding lookup keys
    keys-filter-none k [] h = refl
    keys-filter-none k ((j, w) ∷ d) h = ground (arith, keys-filter-none k d)

    -- A key whose value fails the test is not among those that pass it.
    pub keys-filter_refused :
        (k : K) (v : V) (d : Dict K V)
        → NodupKeys d
        → lookup k d ≡ some v
        → p (k, v) ≡ false
        → contains (keys (filter p d)) k ≡ false
    unfolding lookup keys
    keys-filter_refused k v [] u h r = absurd (ground arith)
    keys-filter_refused k v ((j, w) ∷ d) u h r = elim (Bool-cases (j == k)) [
      | inl same ↦ ground (arith, e.beq_iff j k, keys-filter-none j d u.0)
      | inr other ↦ ground (arith, keys-filter_refused k v d u.1)
    ]

    pub lookup-filter_kept :
        (k : K) (v : V) (d : Dict K V)
        → lookup k d ≡ some v
        → p (k, v) ≡ true
        → lookup k (filter p d) ≡ some v
    unfolding lookup
    lookup-filter_kept k v [] h q = h
    lookup-filter_kept k v ((j, w) ∷ d) h q =
        ground (arith, e.beq_iff j k, lookup-filter_kept k v d)

  pub any-erase_unused :
      (p : V → Bool) (k : K) (d : Dict K V)
      → lookup k d ≡ none
      → any p (values d) ≡ true
      → any p (values (erase k d)) ≡ true
  unfolding lookup values erase
  any-erase_unused p k [] h a = a
  any-erase_unused p k ((j, w) ∷ d) h a = ground (arith, any-erase_unused p k d)

  -- A search of the values finds its value still when an entry is gone, or the entry was it.
  pub any-erase :
      (p : V → Bool) (k : K) (v : V) (d : Dict K V)
      → NodupKeys d
      → lookup k d ≡ some v
      → any p (values d) ≡ true
      → (p v ≡ true) ⊎ (any p (values (erase k d)) ≡ true)
  unfolding lookup values erase
  any-erase p k v [] u h a = absurd (ground arith)
  any-erase p k v ((j, w) ∷ d) u h a = elim (Bool-cases (p v)) [
    | inl hit ↦ inl hit
    | inr miss ↦ inr (elim (Bool-cases (j == k)) [
      | inl same ↦ rw same (any-erase_unused p k d (ground (arith, e.beq_iff j k)) (ground arith))
      | inr other ↦ elim (Bool-cases (p w)) [
        | inl first ↦ rw other (ground arith)
        | inr later ↦ ground (arith, any-erase p k v d u.1)
      ]
    ])
  ]
