-- ===== src/Base/Growth.antt =====
-- Maps that lose no entry: every value of the first map has a related one in the second, at its key.
use mathlib.Core.Path.{◌≡◌, subst}
use mathlib.Core.Logic.{inl, inr}
use mathlib.Core.Option.{none, some}
use native.Mathlib.Omega.{arith}
use credman.Base.Tests.{Bool-cases}
use credman.Base.Equality.{Eq, ◌==◌}
use credman.Base.Dict.{Dict, lookup, insert, map_values, lookup-insert, lookup-map_values}

module _ {K V : Type 0} ⦃e : Eq K⦄ (R : V → V → Type 0) where
  pub record Grows (d d' : Dict K V) : Type 0 where
    pub at : (k : K) (v : V) → lookup k d ≡ some v → (v' : V) × (lookup k d' ≡ some v') × R v v'

  module _ (R_refl : (v : V) → R v v) where
    pub Grows-refl : (d : Dict K V) → Grows d d
    Grows-refl d = record { at = λ k v found. (v, found, R_refl v) }

    pub Grows-insert_new :
        (k : K) (v : V) (d : Dict K V) → lookup k d ≡ none → Grows d (insert k v d)
    Grows-insert_new k v d unused = record {
      at = λ j w found. (w, ground (arith, lookup-insert k j v d, e.beq_iff k j), R_refl w);
    }

    pub Grows-insert_over :
        (k : K) (v v' : V) (d : Dict K V) → lookup k d ≡ some v → R v v' → Grows d (insert k v' d)
    Grows-insert_over k v v' d old r = record {
      at = λ j w found. elim (Bool-cases (k == j)) [
        | inl same ↦
            let q : v ≡ w = ground (arith, e.beq_iff k j) in
            (v', ground (arith, lookup-insert k j v' d), subst (λ x. R x v') q r)
        | inr other ↦ (w, ground (arith, lookup-insert k j v' d), R_refl w)
      ];
    }

  pub Grows-map_values :
      (f : V → V) → ((v : V) → R v (f v)) → (d : Dict K V) → Grows d (map_values f d)
  Grows-map_values f r d = record {
    at = λ k v found. (f v, ground (arith, lookup-map_values f k d), r v);
  }

  pub Grows-trans :
      ((u v w : V) → R u v → R v w → R u w) → (a b c : Dict K V) → Grows a b → Grows b c → Grows a c
  Grows-trans R_trans a b c ab bc = record {
    at = λ k u found.
        let (v, found', r) = ab.at k u found in
        let (w, found'', r') = bc.at k v found' in (w, found'', R_trans u v w r r');
  }
