-- ===== src/Prelude/Maps.antt =====
-- An object used as a map, by the names of its properties, in the order in which they were set.
use playground_azure_user_sy.Prelude.{
  String, false, ◌≡◌, refl, Option, none, some, List, [], ◌∷◌, ◌==◌, ==_iff, String_eq,
  if◌then◌else◌, arith,
}

module _ {ℓ} {V : Type ℓ} where
  unfoldable pub get : String → List (String × V) → Option V
  get k [] = none
  get k ((j, v) ∷ m) = if j == k then some v else get k m

  unfoldable pub put : String → V → List (String × V) → List (String × V)
  put k v [] = (k, v) ∷ []
  put k v ((j, w) ∷ m) = if j == k then (k, v) ∷ m else (j, w) ∷ put k v m

  pub get-put :
      (k j : String) (v : V) (m : List (String × V))
      → get j (put k v m) ≡ (if k == j then some v else get j m)
  unfolding get put
  get-put k j v [] = refl
  get-put k j v ((i, w) ∷ m) = ground (arith, ==_iff k j, ==_iff i k, ==_iff i j, get-put k j v m)

  pub get-put_self : (k : String) (v : V) (m : List (String × V)) → get k (put k v m) ≡ some v
  get-put_self k v m = ground (arith, get-put k k v m, ==_iff k k)

  pub get-put_other :
      (k j : String) (v : V) (m : List (String × V)) → k == j ≡ false → get j (put k v m) ≡ get j m
  get-put_other k j v m h = ground (arith, get-put k j v m)
