-- ===== src/ColumnWidth/Keys.antt =====
-- Which columns share a key of the storage.
use playground_azure_user_sy.Prelude.{
  Bool, false, ◌&&◌, ◌||◌, [], ◌∷◌, ◌++◌, ◌==◌, ℕ_eq, ◌≡◌, refl, ◌∙◌, arith,
}
use playground_azure_user_sy.ColumnWidth.{
  Text, is_key, key_prefix, get_local_storage_width_column_name,
}

abbrev pub has_dot : Text → Bool
has_dot [] = false
has_dot (c ∷ t) = c == 46 || has_dot t

is_key-append : (p s t : Text) → is_key (p ++ s) (p ++ t) ≡ is_key s t
is_key-append [] s t = refl
is_key-append (c ∷ p) s t = ground (arith, is_key-append p s t)

is_key-dot : (f m g : Text) → has_dot f ≡ false → is_key f (m ++ 46 ∷ g) ≡ false
is_key-dot [] [] g h = refl
is_key-dot [] (c ∷ m) g h = refl
is_key-dot (d ∷ f) [] g h = ground arith
is_key-dot (d ∷ f) (c ∷ m) g h = ground (arith, is_key-dot f m g)

is_key-swap : (s t : Text) → is_key s t ≡ is_key t s
is_key-swap [] [] = refl
is_key-swap [] (c ∷ t) = refl
is_key-swap (c ∷ s) [] = refl
is_key-swap (c ∷ s) (d ∷ t) = ground (arith, is_key-swap s t)

is_key-parts :
    (m n f g : Text)
    → has_dot f ≡ false
    → has_dot g ≡ false
    → is_key (m ++ 46 ∷ f) (n ++ 46 ∷ g) ≡ (is_key m n && is_key f g)
is_key-parts [] [] f g a b = refl
is_key-parts [] (c ∷ n) f g a b = ground (arith, is_key-dot f n g)
is_key-parts (c ∷ m) [] f g a b = ground (arith, is_key-dot g m f b, is_key-swap (m ++ 46 ∷ f) g)
is_key-parts (c ∷ m) (d ∷ n) f g a b = ground (arith, is_key-parts m n f g a b)

-- The keys of two columns, whose fields have no dot in their names, are the same exactly if their
-- models and their fields are.
pub is_key-columns :
    (m n f g : Text)
    → has_dot f ≡ false
    → has_dot g ≡ false
    → is_key (get_local_storage_width_column_name m f) (get_local_storage_width_column_name n g)
      ≡ (is_key m n && is_key f g)
unfolding get_local_storage_width_column_name
is_key-columns m n f g a b =
    is_key-append key_prefix (m ++ 46 ∷ f) (n ++ 46 ∷ g) ∙ is_key-parts m n f g a b
