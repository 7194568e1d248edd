-- ===== src/Ingress/Addresses.antt =====
-- When the reconciler takes two lists of addresses for the same.
use yurt_app_manager.Prelude.{
  true, List, [], ◌∷◌, String, ◌≡◌, ◌↔◌, refl, subst, arith, eq_iff, eq_refl,
}
use yurt_app_manager.Ingress.{is_str_array_equal}

is_str_array_equal_self : (l : List String) → is_str_array_equal l l ≡ true
unfolding is_str_array_equal
is_str_array_equal_self [] = refl
is_str_array_equal_self (s ∷ l) = ground (arith, eq_refl s, is_str_array_equal_self l)

is_str_array_equal_sound : (l m : List String) → is_str_array_equal l m ≡ true → l ≡ m
unfolding is_str_array_equal
is_str_array_equal_sound [] [] h = refl
is_str_array_equal_sound [] (t ∷ m) h = cc
is_str_array_equal_sound (s ∷ l) [] h = cc
is_str_array_equal_sound (s ∷ l) (t ∷ m) h =
    ground (arith, eq_iff s t, is_str_array_equal_sound l m, h)

-- isStrArrayEqual is true of two lists if and only if they have the same texts in the same order.
pub is_str_array_equal_iff : (l m : List String) → (is_str_array_equal l m ≡ true) ↔ (l ≡ m)
is_str_array_equal_iff l m = (
  is_str_array_equal_sound l m,
  λ e. subst (λ x. is_str_array_equal l x ≡ true) e (is_str_array_equal_self l),
)
