-- ===== src/Common/Rows.antt =====
-- Laws of the row operations.
use Prim.Native.Nat.{◌+◌}
use mathlib.Core.Path.{◌≡◌, refl}
use mathlib.Core.Bool.{Bool, true, false, ◌||◌}
use mathlib.Core.Option.{Option, none, some}
use mathlib.Core.List.{List, [], ◌∷◌, ◌++◌}
use native.Mathlib.Omega.{arith}
use zero_agent_dev_telegram.Common.Tests.{if◌then◌else◌}
use zero_agent_dev_telegram.Common.Lists.{any, first, select, update, is_some, length}

module _ {ℓ} {A : Type ℓ} where
  abbrev pub or_else : Option A → Option A → Option A
  or_else none y = y
  or_else (some x) y = some x

  abbrev pub changed : (A → Bool) → (A → A) → Option A → Option A
  changed q f none = none
  changed q f (some x) = some (if q x then f x else x)

  pub first-append :
      (p : A → Bool) (xs ys : List A) → first p (xs ++ ys) ≡ or_else (first p xs) (first p ys)
  unfolding first
  first-append p [] ys = refl
  first-append p (x ∷ xs) ys = ground (arith, first-append p xs ys)

  pub any-append : (p : A → Bool) (xs ys : List A) → any p (xs ++ ys) ≡ (any p xs || any p ys)
  any-append p [] ys = refl
  any-append p (x ∷ xs) ys = ground (arith, any-append p xs ys)

  pub any-eq-first : (p : A → Bool) (xs : List A) → any p xs ≡ is_some (first p xs)
  unfolding first
  any-eq-first p [] = refl
  any-eq-first p (x ∷ xs) = ground (arith, any-eq-first p xs)

  -- An update that does not change what is looked for is made on the row that is found.
  pub first-update :
      (p q : A → Bool) (f : A → A)
      → ((x : A) → p (f x) ≡ p x)
      → (xs : List A) → first p (update q f xs) ≡ changed q f (first p xs)
  unfolding first update
  first-update p q f keeps [] = refl
  first-update p q f keeps (x ∷ xs) = ground (arith, keeps x, first-update p q f keeps xs)

  pub first_holds : (p : A → Bool) (xs : List A) {a : A} → first p xs ≡ some a → p a ≡ true
  unfolding first
  first_holds p [] h = absurd (cc)
  first_holds p (x ∷ xs) {a} h = ground (arith, first_holds p xs {a = a})

  pub any_mono :
      (p q : A → Bool)
      → ((x : A) → p x ≡ true → q x ≡ true)
      → (xs : List A) → any p xs ≡ true
      → any q xs ≡ true
  any_mono p q sub [] h = h
  any_mono p q sub (x ∷ xs) h = ground (arith, sub x, any_mono p q sub xs)

  pub length-select-append :
      (p : A → Bool) (xs ys : List A)
      → length (select p (xs ++ ys)) ≡ length (select p xs) + length (select p ys)
  unfolding select
  length-select-append p [] ys = omega arith
  length-select-append p (x ∷ xs) ys = ground (arith, length-select-append p xs ys)

  pub length-select-of_none :
      (p : A → Bool) (xs : List A) → any p xs ≡ false → length (select p xs) ≡ 0
  unfolding select
  length-select-of_none p [] h = refl
  length-select-of_none p (x ∷ xs) h = ground (arith, length-select-of_none p xs)

  pub length-select-update :
      (p q : A → Bool) (f : A → A)
      → ((x : A) → p (f x) ≡ p x)
      → (xs : List A) → length (select p (update q f xs)) ≡ length (select p xs)
  unfolding select update
  length-select-update p q f keeps [] = refl
  length-select-update p q f keeps (x ∷ xs) =
      ground (arith, keeps x, length-select-update p q f keeps xs)

  pub any-update :
      (p q : A → Bool) (f : A → A)
      → ((x : A) → p (f x) ≡ p x)
      → (xs : List A) → any p (update q f xs) ≡ any p xs
  unfolding update
  any-update p q f keeps [] = refl
  any-update p q f keeps (x ∷ xs) = ground (arith, keeps x, any-update p q f keeps xs)

  -- What the first match satisfies, some row satisfies.
  pub any-of_first :
      (p q : A → Bool) (xs : List A) (a : A) → first p xs ≡ some a → q a ≡ true → any q xs ≡ true
  unfolding first
  any-of_first p q [] a h e = absurd (cc)
  any-of_first p q (x ∷ xs) a h e = ground (arith, any-of_first p q xs a)

  -- An update that ends what it looks for leaves nothing to be found.
  pub any-update_self :
      (p : A → Bool) (f : A → A)
      → ((x : A) → p (f x) ≡ false)
      → (xs : List A) → any p (update p f xs) ≡ false
  unfolding update
  any-update_self p f ends [] = refl
  any-update_self p f ends (x ∷ xs) = ground (arith, ends x, any-update_self p f ends xs)
