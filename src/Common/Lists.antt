-- ===== src/Common/Lists.antt =====
-- Lists measured by native numbers; JavaScript's `filter` and `some` over a Boolean test.
use Prim.Native.Nat.{ℕ, suc, ◌+◌}
use mathlib.Core.Path.{◌≡◌, refl}
use mathlib.Core.Logic.{◌⊎◌, ◌↔◌, inl, inr}
use mathlib.Core.Bool.{Bool, true, false, ◌&&◌, ◌||◌}
use mathlib.Core.Option.{Option, none, some}
use mathlib.Core.List.{List, [], ◌∷◌, ◌++◌, Memᴰ}
use mathlib.Core.Path.{sym, subst}
use native.Mathlib.Omega.{arith}
use nexus_cloud_identity_acc.Common.Tests.{if◌then◌else◌, Bool-cases}

module _ {ℓ} {A : Type ℓ} where
  abbrev pub length : List A → ℕ
  length [] = 0
  length (x ∷ xs) = suc (length xs)

  abbrev pub filter : (A → Bool) → List A → List A
  filter p [] = []
  filter p (x ∷ xs) = let rest = filter p xs in if p x then x ∷ rest else rest

  abbrev pub any : (A → Bool) → List A → Bool
  any p [] = false
  any p (x ∷ xs) = p x || any p xs

  abbrev pub all : (A → Bool) → List A → Bool
  all p [] = true
  all p (x ∷ xs) = p x && all p xs

  -- `Array.prototype.find`
  abbrev pub find : (A → Bool) → List A → Option A
  find p [] = none
  find p (x ∷ xs) = let rest = find p xs in if p x then some x else rest

  abbrev pub All {κ} : (A → Type κ) → List A → Type κ
  All P [] = Unit
  All P (x ∷ xs) = P x × All P xs

  pub length-append : (xs ys : List A) → length (xs ++ ys) ≡ length xs + length ys
  length-append [] ys = omega arith
  length-append (x ∷ xs) ys = omega (arith, length-append xs ys)

  pub All-mem {κ} : (P : A → Type κ) (xs : List A) {x : A} → All P xs → Memᴰ x xs → P x
  All-mem P [] h m = elim m [ ]
  All-mem P (y ∷ xs) h (Memᴰ.head e) = subst P (sym e) h.0
  All-mem P (y ∷ xs) h (Memᴰ.tail m) = All-mem P xs h.1 m

  cons_cases : (x y : A) (xs : List A) → Memᴰ x (y ∷ xs) → (x ≡ y) ⊎ Memᴰ x xs
  cons_cases x y xs (Memᴰ.head e) = inl e
  cons_cases x y xs (Memᴰ.tail m) = inr m

  pub mem-cons_iff : (x y : A) (xs : List A) → Memᴰ x (y ∷ xs) ↔ ((x ≡ y) ⊎ Memᴰ x xs)
  mem-cons_iff x y xs =
      (cons_cases x y xs, λ m. elim m [ inl e ↦ Memᴰ.head e | inr n ↦ Memᴰ.tail n ])

  filter_sound :
      (p : A → Bool) (x : A) (xs : List A) → Memᴰ x (filter p xs) → Memᴰ x xs × (p x ≡ true)
  filter_sound p x [] m = elim m [ ]
  filter_sound p x (y ∷ xs) m = elim (Bool-cases (p y)) [
    | inl h ↦ elim (cons_cases x y (filter p xs) (rw h at m)) [
      | inl e ↦ (Memᴰ.head e, rw e h)
      | inr m' ↦ let r = filter_sound p x xs m' in (Memᴰ.tail r.0, r.1)
    ]
    | inr h ↦ let r = filter_sound p x xs (rw h at m) in (Memᴰ.tail r.0, r.1)
  ]

  filter_complete :
      (p : A → Bool) (x : A) (xs : List A) → Memᴰ x xs → p x ≡ true → Memᴰ x (filter p xs)
  filter_complete p x [] m h = elim m [ ]
  filter_complete p x (y ∷ xs) (Memᴰ.head e) h = rw (← e) (rw h (Memᴰ.head refl))
  filter_complete p x (y ∷ xs) (Memᴰ.tail m) h = elim (Bool-cases (p y)) [
    | inl k ↦ rw k (Memᴰ.tail (filter_complete p x xs m h))
    | inr k ↦ rw k (filter_complete p x xs m h)
  ]

  pub mem-filter_iff :
      (p : A → Bool) (x : A) (xs : List A) → Memᴰ x (filter p xs) ↔ (Memᴰ x xs × (p x ≡ true))
  mem-filter_iff p x xs = (filter_sound p x xs, λ (m, h). filter_complete p x xs m h)
