-- ===== src/Prelude/Shuffle.antt =====
-- Lists that differ in the order of their elements only.
use mathlib.Core.Path.{◌≡◌, sym, ap, subst, ◌∙◌}
use mathlib.Core.List.{List, [], ◌∷◌, ◌++◌, Permᴰ, append_assoc}
use mathlib.Core.List.Permᴰ
use mathlib.Core.List.Permᴰ.{nil, cons, swap, trans, append_left, append_right, append_comm}

-- `xs` is `ys` in some order.
abbrev pub Shuffle {ℓ} : {A : Type ℓ} → List A → List A → Type ℓ
Shuffle xs ys = Permᴰ xs ys

pub Shuffle-refl {ℓ} : {A : Type ℓ} (xs : List A) → Shuffle xs xs
Shuffle-refl xs = Permᴰ.refl xs

module _ {ℓ} {A B : Type ℓ} (g : List A → List B) (h : A → List B)
    (step : (x : A) (xs : List A) → g (x ∷ xs) ≡ h x ++ g xs) where
  step_twice : (x y : A) (xs : List A) → g (x ∷ y ∷ xs) ≡ (h x ++ h y) ++ g xs
  step_twice x y xs =
      step x (y ∷ xs) ∙ ap (λ zs. h x ++ zs) (step y xs) ∙ sym (append_assoc (h x) (h y) (g xs))

  -- A function that maps each element to a piece of its result keeps the order open.
  pub Shuffle-pieces : {xs ys : List A} → Shuffle xs ys → Shuffle (g xs) (g ys)
  Shuffle-pieces nil = Permᴰ.refl (g [])
  Shuffle-pieces (cons {a} {b} {l₁ = xs} {l₂ = ys} e p) =
      subst (λ zs. Permᴰ zs (g (b ∷ ys))) (sym (step a xs ∙ ap (λ x. h x ++ g xs) e))
        (subst (Permᴰ (h b ++ g xs)) (sym (step b ys)) (append_left (h b) (Shuffle-pieces p)))
  Shuffle-pieces (swap {a} {b} {a'} {b'} {l = xs} e f) =
      subst (λ zs. Permᴰ zs (g (a' ∷ b' ∷ xs))) (sym (step_twice a b xs))
        (subst (Permᴰ ((h a ++ h b) ++ g xs)) (sym (step_twice a' b' xs)) (
          append_right (g xs) (
            subst (λ z. Permᴰ (h a ++ h b) (h a' ++ h z)) e
              (subst (λ z. Permᴰ (h a ++ h b) (h z ++ h a)) f (append_comm (h a) (h b))))))
  Shuffle-pieces (trans p q) = trans (Shuffle-pieces p) (Shuffle-pieces q)
