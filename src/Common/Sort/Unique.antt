-- ===== src/Common/Sort/Unique.antt =====
-- Where the comparator tells every two items of a list apart, the order of the list does not
-- change what it sorts to.
use Prim.Native.Nat.{Ordering}
use mathlib.Core.Path.{◌≡◌, refl, ap₂, subst, ◌∙◌}
use mathlib.Core.Logic.{◌≢◌}
use mathlib.Core.List.{List, [], ◌∷◌, Perm, Permᴰ}
use mathlib.Core.List
use mathlib.Core.Logic.{∥∥₁_elim}
use native.Mathlib.Omega.{arith}
use drishtiscope_oss.Common.Lists.{All}
use drishtiscope_oss.Common.Sort.{insert, sort}
use drishtiscope_oss.Common.Sort.Order.{IsOrder}
use drishtiscope_oss.Common.Sort.Laws.{insert_comm}

-- `R` holds of every item and each one behind it.
abbrev pub EachPair {ℓ κ} : {A : Type ℓ} → (A → A → Type κ) → List A → Type κ
EachPair R [] = Unit
EachPair R (x ∷ xs) = All (R x) xs × EachPair R xs

All-perm {ℓ κ} : {A : Type ℓ} (P : A → Type κ) {xs ys : List A} → Permᴰ xs ys → All P xs → All P ys
All-perm P Permᴰ.nil h = h
All-perm P (Permᴰ.cons e p) (h, hs) = (subst P e h, All-perm P p hs)
All-perm P (Permᴰ.swap e f) (h, (k, hs)) = (subst P f k, (subst P e h, hs))
All-perm P (Permᴰ.trans p q) h = All-perm P q (All-perm P p h)

module _ {ℓ κ} {A : Type ℓ} (R : A → A → Type κ) (symm : (x y : A) → R x y → R y x) where
  EachPair-perm : {xs ys : List A} → Permᴰ xs ys → EachPair R xs → EachPair R ys
  EachPair-perm Permᴰ.nil h = h
  EachPair-perm (Permᴰ.cons {l₂ = ys} e p) (h, hs) =
      (subst (λ b. All (R b) ys) e (All-perm (R _) p h), EachPair-perm p hs)
  EachPair-perm (Permᴰ.swap {a} {b} {b' = c} {l = l} e f) ((r, h), (k, hs)) = (
    (subst (λ x. R x c) f (subst (R b) e (symm a b r)), subst (λ x. All (R x) l) f k),
    (subst (λ x. All (R x) l) e h, hs),
  )
  EachPair-perm (Permᴰ.trans p q) h = EachPair-perm q (EachPair-perm p h)

module _ {ℓ} {A : Type ℓ} {cmp : A → A → Ordering} (o : IsOrder cmp) where
  abbrev Apart : A → A → Type 0
  Apart x y = cmp x y ≢ Ordering.eq

  Apart-symm : (x y : A) → Apart x y → Apart y x
  Apart-symm x y h = ground (arith, o.swap x y)

  sort-eq_of_Permᴰ : {xs ys : List A} → Permᴰ xs ys → EachPair Apart xs → sort cmp xs ≡ sort cmp ys
  unfolding sort
  sort-eq_of_Permᴰ Permᴰ.nil h = refl
  sort-eq_of_Permᴰ (Permᴰ.cons e p) (h, hs) = ap₂ (insert cmp) e (sort-eq_of_Permᴰ p hs)
  sort-eq_of_Permᴰ (Permᴰ.swap {a} {b} {l = l} e f) ((r, h), hs) =
      insert_comm o a b (sort cmp l) r ∙ ap₂ (λ x y. insert cmp x (insert cmp y (sort cmp l))) f e
  sort-eq_of_Permᴰ (Permᴰ.trans p q) h =
      sort-eq_of_Permᴰ p h ∙ sort-eq_of_Permᴰ q (EachPair-perm Apart Apart-symm p h)

  pub sort-eq_of_perm :
      IsSet A
      → {xs ys : List A} → Perm xs ys
      → EachPair (λ x y. cmp x y ≢ Ordering.eq) xs
      → sort cmp xs ≡ sort cmp ys
  sort-eq_of_perm s p h = ∥∥₁_elim p (List.is_set s _ _) (λ q. sort-eq_of_Permᴰ q h)
