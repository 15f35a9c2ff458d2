-- ===== src/Prelude/Lists.antt =====
-- Tables as lists of rows: SQL's SELECT, UPDATE and LIMIT, and Python's `in`, `any` and `all`.
use Prim.Native.Nat.{ℕ, zero, suc, ◌+◌, ◌≤◌}
use Prim.Native.String.{String}
use mathlib.Core.Path.{◌≡◌, refl, ap}
use mathlib.Core.Logic.{◌↔◌, inl, inr}
use mathlib.Core.Bool.{Bool, true, false, ◌&&◌, ◌||◌}
use mathlib.Core.Option
use mathlib.Core.Option.{Option, none, some}
use mathlib.Core.List.{List, [], ◌∷◌, ◌++◌, map}
use native.Mathlib.Omega.{arith}
use ai_team.Prelude.Tests.{str_eq, if◌then◌else◌, Bool-cases}

-- A predicate at every row.
abbrev pub All {ℓ κ} : {A : Type ℓ} → (A → Type κ) → List A → Type κ
All P [] = Unit
All P (x ∷ xs) = P x × All P xs

module _ {ℓ} {A : Type ℓ} where
  abbrev pub length : List A → ℕ
  length [] = 0
  length (x ∷ xs) = suc (length xs)

  abbrev pub take : ℕ → List A → List A
  take zero xs = []
  take (suc n) [] = []
  take (suc n) (x ∷ xs) = x ∷ take n xs

  -- SELECT * … WHERE p
  unfoldable pub select : (A → Bool) → List A → List A
  select p [] = []
  select p (x ∷ xs) = let rest = select p xs in if p x then x ∷ rest else rest

  -- UPDATE … SET f WHERE p
  unfoldable pub update_where : (A → Bool) → (A → A) → List A → List A
  update_where p f [] = []
  update_where p f (x ∷ xs) = (if p x then f x else x) ∷ update_where p f xs

  -- any(p(x) for x in xs); also `SELECT changes()` > 0 after an UPDATE … WHERE p
  unfoldable pub exists : (A → Bool) → List A → Bool
  exists p [] = false
  exists p (x ∷ xs) = p x || exists p xs

  -- all(p(x) for x in xs)
  unfoldable pub every : (A → Bool) → List A → Bool
  every p [] = true
  every p (x ∷ xs) = p x && every p xs

  -- fetchone() of SELECT * … WHERE p
  unfoldable pub first : (A → Bool) → List A → Option A
  first p [] = none
  first p (x ∷ xs) = let rest = first p xs in if p x then some x else rest

  pub length-append : (xs ys : List A) → length (xs ++ ys) ≡ length xs + length ys
  length-append [] ys = omega arith
  length-append (x ∷ xs) ys = omega (arith, length-append xs ys)

  pub length-take-le : (n : ℕ) (xs : List A) → length (take n xs) ≤ n
  length-take-le zero xs = omega arith
  length-take-le (suc n) [] = omega arith
  length-take-le (suc n) (x ∷ xs) = omega (arith, length-take-le n xs)

  -- A page that was not full is the whole list.
  pub take_all : (n : ℕ) (xs : List A) → length xs ≤ n → take n xs ≡ xs
  take_all zero [] h = refl
  take_all zero (x ∷ xs) h = absurd (omega arith)
  take_all (suc n) [] h = refl
  take_all (suc n) (x ∷ xs) h = ap (◌∷◌ x) (take_all n xs (omega arith))

  -- A full page hides whatever comes behind it.
  pub take-append_full : (n : ℕ) (xs ys : List A) → n ≤ length xs → take n (xs ++ ys) ≡ take n xs
  take-append_full zero xs ys h = refl
  take-append_full (suc n) [] ys h = absurd (omega arith)
  take-append_full (suc n) (x ∷ xs) ys h = ap (◌∷◌ x) (take-append_full n xs ys (omega arith))

  pub select-append :
      (p : A → Bool) (xs ys : List A) → select p (xs ++ ys) ≡ select p xs ++ select p ys
  unfolding select
  select-append p [] ys = refl
  select-append p (x ∷ xs) ys = ground (arith, select-append p xs ys)

  pub exists-append :
      (p : A → Bool) (xs ys : List A) → exists p (xs ++ ys) ≡ (exists p xs || exists p ys)
  unfolding exists
  exists-append p [] ys = refl
  exists-append p (x ∷ xs) ys = ground (arith, exists-append p xs ys)

  pub exists-appended :
      (p : A → Bool) (xs : List A) (a : A) → p a ≡ true → exists p (xs ++ a ∷ []) ≡ true
  unfolding exists
  exists-appended p [] a h = ground (arith, h)
  exists-appended p (x ∷ xs) a h = ground (arith, exists-appended p xs a h)

  pub first-append :
      (p : A → Bool) (xs ys : List A) → exists p xs ≡ false → first p (xs ++ ys) ≡ first p ys
  unfolding exists first
  first-append p [] ys h = refl
  first-append p (x ∷ xs) ys h = ground (arith, first-append p xs ys)

  pub first-append_miss :
      (p : A → Bool) (xs : List A) (a : A) → p a ≡ false → first p (xs ++ a ∷ []) ≡ first p xs
  unfolding first
  first-append_miss p [] a h = ground (arith, h)
  first-append_miss p (x ∷ xs) a h = ground (arith, first-append_miss p xs a h)

  pub first-append_found :
      (p : A → Bool) (xs ys : List A) (a : A) → first p xs ≡ some a → first p (xs ++ ys) ≡ some a
  unfolding first
  first-append_found p [] ys a h = ground arith
  first-append_found p (x ∷ xs) ys a h = ground (arith, first-append_found p xs ys a)

  pub first-exists : (p : A → Bool) (xs : List A) → exists p xs ≡ false → first p xs ≡ none
  unfolding exists first
  first-exists p [] h = refl
  first-exists p (x ∷ xs) h = ground (arith, first-exists p xs)

  pub first-none-exists : (p : A → Bool) (xs : List A) → first p xs ≡ none → exists p xs ≡ false
  unfolding exists first
  first-none-exists p [] h = refl
  first-none-exists p (x ∷ xs) h = ground (arith, first-none-exists p xs)

  pub first_holds : (p : A → Bool) (xs : List A) (a : A) → first p xs ≡ some a → p a ≡ true
  unfolding first
  first_holds p [] a h = ground arith
  first_holds p (x ∷ xs) a h = elim (Bool-cases (p x)) [
    | inl hit ↦ ground (arith, hit)
    | inr miss ↦ first_holds p xs a (ground (arith, miss))
  ]

  pub first-some-exists :
      (p : A → Bool) (xs : List A) (a : A) → first p xs ≡ some a → exists p xs ≡ true
  unfolding first exists
  first-some-exists p [] a h = ground arith
  first-some-exists p (x ∷ xs) a h = ground (arith, first-some-exists p xs a)

  pub exists_of_first :
      (q p : A → Bool) (xs : List A) (a : A) → first q xs ≡ some a → p a ≡ true → exists p xs ≡ true
  unfolding exists first
  exists_of_first q p [] a h k = ground arith
  exists_of_first q p (x ∷ xs) a h k = elim (Bool-cases (q x)) [
    | inl hit ↦ ground (arith, hit)
    | inr miss ↦ ground (arith, miss, exists_of_first q p xs a)
  ]

  pub select-nil_iff : (p : A → Bool) (xs : List A) → (select p xs ≡ []) ↔ (exists p xs ≡ false)
  unfolding select exists
  select-nil_iff p [] = (λ h. refl, λ h. refl)
  select-nil_iff p (x ∷ xs) = ground (arith, select-nil_iff p xs)

  pub exists-select :
      (p q : A → Bool) (xs : List A) → exists p (select q xs) ≡ exists (λ x. q x && p x) xs
  unfolding select exists
  exists-select p q [] = refl
  exists-select p q (x ∷ xs) = ground (arith, exists-select p q xs)

  pub update_where_none :
      (p : A → Bool) (f : A → A) (xs : List A) → exists p xs ≡ false → update_where p f xs ≡ xs
  unfolding exists update_where
  update_where_none p f [] h = refl
  update_where_none p f (x ∷ xs) h = ground (arith, update_where_none p f xs)

  -- An update whose rows leave the filter empties it.
  pub exists-update_where :
      (p : A → Bool) (f : A → A) (xs : List A)
      → ((x : A) → p x ≡ true → p (f x) ≡ false)
      → exists p (update_where p f xs) ≡ false
  unfolding exists update_where
  exists-update_where p f [] h = refl
  exists-update_where p f (x ∷ xs) h = ground (arith, h x, exists-update_where p f xs h)

  -- A filter that an update leaves alone.
  pub exists-update_same :
      (q p : A → Bool) (f : A → A) (xs : List A)
      → ((x : A) → q (f x) ≡ q x)
      → exists q (update_where p f xs) ≡ exists q xs
  unfolding exists update_where
  exists-update_same q p f [] h = refl
  exists-update_same q p f (x ∷ xs) h = ground (arith, h x, exists-update_same q p f xs h)

  -- A column that an update leaves alone.
  pub map-update_where {κ} :
      {B : Type κ} (g : A → B) (p : A → Bool) (f : A → A) (xs : List A)
      → ((x : A) → g (f x) ≡ g x)
      → map g (update_where p f xs) ≡ map g xs
  unfolding update_where
  map-update_where g p f [] h = refl
  map-update_where g p f (x ∷ xs) h = ground (arith, h x, map-update_where g p f xs h)

  pub All-update_where {κ} :
      (P : A → Type κ) (p : A → Bool) (f : A → A) (xs : List A)
      → ((x : A) → p x ≡ true → P x → P (f x))
      → All P xs
      → All P (update_where p f xs)
  unfolding update_where
  All-update_where P p f [] h a = tt
  All-update_where P p f (x ∷ xs) h a = elim (Bool-cases (p x)) [
    | inl hit ↦ rw hit (h x hit a.0, All-update_where P p f xs h a.1)
    | inr miss ↦ rw miss (a.0, All-update_where P p f xs h a.1)
  ]

  -- The row that a lookup finds after an update that leaves the looked-up column alone.
  pub first-update_where :
      (q p : A → Bool) (f : A → A) (xs : List A)
      → ((x : A) → q (f x) ≡ q x)
      → first q (update_where p f xs) ≡ Option.map (λ x. if p x then f x else x) (first q xs)
  unfolding first update_where
  first-update_where q p f [] h = refl
  first-update_where q p f (x ∷ xs) h = ground (arith, h x, first-update_where q p f xs h)

  -- The row that a lookup finds after an update of the rows that it looks for.
  pub first-update_same :
      (p : A → Bool) (f : A → A) (xs : List A)
      → ((x : A) → p x ≡ true → p (f x) ≡ true)
      → first p (update_where p f xs) ≡ Option.map f (first p xs)
  unfolding first update_where
  first-update_same p f [] h = refl
  first-update_same p f (x ∷ xs) h = ground (arith, h x, first-update_same p f xs h)

  pub All-append {κ} : (P : A → Type κ) (xs ys : List A) → All P xs → All P ys → All P (xs ++ ys)
  All-append P [] ys hx hy = hy
  All-append P (x ∷ xs) ys hx hy = (hx.0, All-append P xs ys hx.1 hy)

  -- Every selected row passes the test, and keeps what held of all rows.
  pub All-select {κ} :
      (P : A → Type κ) (p : A → Bool) (xs : List A)
      → All P xs
      → All (λ x. P x × (p x ≡ true)) (select p xs)
  unfolding select
  All-select P p [] a = tt
  All-select P p (x ∷ xs) a = elim (Bool-cases (p x)) [
    | inl hit ↦ rw hit ((a.0, hit), All-select P p xs a.1)
    | inr miss ↦ rw miss (All-select P p xs a.1)
  ]

  pub All-take {κ} : (P : A → Type κ) (n : ℕ) (xs : List A) → All P xs → All P (take n xs)
  All-take P zero xs a = tt
  All-take P (suc n) [] a = tt
  All-take P (suc n) (x ∷ xs) a = (a.0, All-take P n xs a.1)

  pub All-map {κ μ} :
      (P : A → Type κ) (Q : A → Type μ) (xs : List A) → ((x : A) → P x → Q x) → All P xs → All Q xs
  All-map P Q [] h a = tt
  All-map P Q (x ∷ xs) h a = (h x a.0, All-map P Q xs h a.1)

  pub All-map2 {κ μ ν} :
      (P : A → Type κ) (Q : A → Type μ) (R : A → Type ν) (xs : List A)
      → ((x : A) → P x → Q x → R x)
      → All P xs
      → All Q xs
      → All R xs
  All-map2 P Q R [] h a b = tt
  All-map2 P Q R (x ∷ xs) h a b = (h x a.0 b.0, All-map2 P Q R xs h a.1 b.1)

  pub every-select :
      (p q : A → Bool) (xs : List A)
      → ((x : A) → q x ≡ true → p x ≡ true)
      → every p (select q xs) ≡ true
  unfolding every select
  every-select p q [] h = refl
  every-select p q (x ∷ xs) h = ground (arith, h x, every-select p q xs h)

module _ {ℓ} {A : Type ℓ} where
  pub length-select-le :
      (p q : A → Bool) (xs : List A)
      → ((x : A) → p x ≡ true → q x ≡ true)
      → length (select p xs) ≤ length (select q xs)
  unfolding select
  length-select-le p q [] h = omega arith
  length-select-le p q (x ∷ xs) h = ground (arith, h x, length-select-le p q xs h)

  -- Among at most one row, counting the rows that pass is asking whether one passes.
  pub length-select-exists :
      (p : A → Bool) (xs : List A)
      → length (select p xs) ≤ 1
      → length (select p xs) ≡ (if exists p xs then 1 else 0)
  unfolding select exists
  length-select-exists p [] h = refl
  length-select-exists p (x ∷ xs) h = ground (arith, length-select-exists p xs)

-- t in xs
unfoldable pub member : String → List String → Bool
unfolding exists
member t = exists (λ x. str_eq x t)

-- No key twice.
abbrev pub Distinct : List String → Type 0
Distinct [] = Unit {0}
Distinct (x ∷ xs) = (member x xs ≡ false) × Distinct xs
