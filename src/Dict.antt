-- ===== src/Dict.antt =====
-- Go maps with string keys, as association lists with one entry for a key.
use loon_agent.Prelude.{
  ◌≡◌, refl, Option, none, some, List, [], ◌∷◌, arith, if◌then◌else◌, Bytes, equal, equal_iff,
}

abbrev pub Dict {ℓ} : Type ℓ → Type ℓ
Dict V = List (Bytes × V)

module _ {ℓ} {V : Type ℓ} where
  abbrev pub empty : Dict V
  empty = []

  unfoldable pub get : Dict V → Bytes → Option V
  get [] k = none
  get ((j, v) ∷ m) k = if equal j k then some v else get m k

  unfoldable pub put : Dict V → Bytes → V → Dict V
  put [] k v = (k, v) ∷ []
  put ((j, w) ∷ m) k v = let rest = put m k v in if equal j k then (k, v) ∷ m else (j, w) ∷ rest

  unfoldable pub remove : Dict V → Bytes → Dict V
  remove [] k = []
  remove ((j, w) ∷ m) k = let rest = remove m k in if equal j k then rest else (j, w) ∷ rest

  pub get-put :
      (m : Dict V) (k : Bytes) (v : V) (j : Bytes)
      → get (put m k v) j ≡ (if equal k j then some v else get m j)
  unfolding get put
  get-put [] k v j = refl
  get-put ((i, w) ∷ m) k v j =
      ground (arith, equal_iff k j, equal_iff i k, equal_iff i j, get-put m k v j)

  pub get-remove :
      (m : Dict V) (k j : Bytes) → get (remove m k) j ≡ (if equal k j then none else get m j)
  unfolding get remove
  get-remove [] k j = ground arith
  get-remove ((i, w) ∷ m) k j =
      ground (arith, equal_iff k j, equal_iff i k, equal_iff i j, get-remove m k j)

pub ruleset dict_laws = (get-put, get-remove)
