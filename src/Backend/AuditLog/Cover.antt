-- ===== src/Backend/AuditLog/Cover.antt =====
-- Which events the pages of the log hold.
use mathlib.Core.List.{append-nil, append_assoc}
use nexus_cloud_identity_acc.Common.{
  map, ℕ, zero, suc, ◌-◌, ◌*◌, ◌+◌, ◌≤◌, ◌<◌, ◌⊎◌, some, List, [], ◌∷◌, ◌++◌, ◌≡◌, refl, ap, sym,
  ◌∙◌, length, length-append, arith, inl, inr, Bool, filter, Bool-cases,
}
use nexus_cloud_identity_acc.Common.Int.{pos}
use nexus_cloud_identity_acc.Backend.Integers.{wrapped, int_bound}
use nexus_cloud_identity_acc.Backend.AuditLog.{
  Event, list_events, slice, cut_end, slice_from, reverse, take, drop,
}

-- the events of a page, where no number overflows
abbrev pub page_events : {A : Type 0} → ℕ → ℕ → List A → List A
page_events page size xs = take size (drop ((page - 1) * size) (reverse xs))

suc_add : (m n : ℕ) → suc m + n ≡ suc (m + n)
suc_add m n = omega arith

module _ {A : Type 0} where
  pub length-reverse : (xs : List A) → length (reverse xs) ≡ length xs
  length-reverse [] = refl
  length-reverse (x ∷ xs) = omega (arith, length-append (reverse xs) (x ∷ []), length-reverse xs)

  drop_all : (n : ℕ) (xs : List A) → length xs ≤ n → drop n xs ≡ []
  drop_all zero [] h = refl
  drop_all zero (x ∷ xs) h = let x : ⊥ = omega arith in elim x [ ]
  drop_all (suc n) [] h = refl
  drop_all (suc n) (x ∷ xs) h = drop_all n xs (omega arith)

  take_nil : (n : ℕ) → take {A = A} n [] ≡ []
  take_nil zero = refl
  take_nil (suc n) = refl

  drop_nil : (n : ℕ) → drop {A = A} n [] ≡ []
  drop_nil zero = refl
  drop_nil (suc n) = refl

  -- a take past the end takes what there is
  take_rest : (n m : ℕ) (xs : List A) → length xs ≤ n → length xs ≤ m → take n xs ≡ take m xs
  take_rest zero zero xs h k = refl
  take_rest zero (suc m) [] h k = refl
  take_rest (suc n) zero [] h k = refl
  take_rest (suc n) (suc m) [] h k = refl
  take_rest zero m (x ∷ xs) h k = let x : ⊥ = omega arith in elim x [ ]
  take_rest (suc n) zero (x ∷ xs) h k = let x : ⊥ = omega arith in elim x [ ]
  take_rest (suc n) (suc m) (x ∷ xs) h k =
      ap (λ r. x ∷ r) (take_rest n m xs (omega arith) (omega arith))

  length-drop : (n : ℕ) (xs : List A) → length (drop n xs) ≡ length xs - n
  length-drop zero xs = omega arith
  length-drop (suc n) [] = omega arith
  length-drop (suc n) (x ∷ xs) = omega (arith, length-drop n xs)

  drop-drop : (n m : ℕ) (xs : List A) → drop n (drop m xs) ≡ drop (m + n) xs
  drop-drop n zero xs = ap (λ k. drop k xs) (omega arith)
  drop-drop n (suc m) [] = drop_nil n ∙ sym (drop_nil (suc m + n))
  drop-drop n (suc m) (x ∷ xs) = drop-drop n m xs ∙ sym (ap (λ k. drop k (x ∷ xs)) (suc_add m n))

  take-drop : (n : ℕ) (xs : List A) → take n xs ++ drop n xs ≡ xs
  take-drop zero xs = refl
  take-drop (suc n) [] = refl
  take-drop (suc n) (x ∷ xs) = ap (λ r. x ∷ r) (take-drop n xs)

le_or_lt : (n m : ℕ) → (n ≤ m) ⊎ (m < n)
le_or_lt n m = ground arith

take_size : {A : Type 0} (m n : ℕ) (xs : List A) → n ≡ m → take n xs ≡ take m xs
take_size m n xs e = ap (λ k. take k xs) e

pub wrapped_small : (n : ℕ) → n < int_bound → wrapped n ≡ pos n
unfolding wrapped
wrapped_small n h = ground arith

-- a slice of a log, from a place in it
slice_exact :
    (xs : List Event) (size start : ℕ)
    → start < length xs
    → slice xs start (cut_end (length xs) (pos (start + size))) ≡ some (take size (drop start xs))
slice_exact xs size start h = elim (le_or_lt (start + size) (length xs)) [
  | inl fits ↦ ground (arith, take_size size (start + size - start) (drop start xs) (omega arith))
  | inr over ↦ ground (
    arith,
    take_rest (length xs - start) size (drop start xs) (omega (arith, length-drop start xs))
        (omega (arith, length-drop start xs)),
  )
]

pub slice_from_exact :
    (events : List Event) (size start : ℕ)
    → length events + size < int_bound
    → slice_from events size (pos start) ≡ some (take size (drop start (reverse events)))
slice_from_exact events size start k = elim (le_or_lt (length events) start) [
  | inl past ↦
      let none_left : drop start (reverse events) ≡ [] =
        drop_all start (reverse events) (omega (arith, length-reverse events)) in
      let nothing : take size (drop start (reverse events)) ≡ [] =
        ap (take size) none_left ∙ take_nil size in
      ground (arith, nothing)
  | inr within ↦
      let cut : slice (reverse events) start (cut_end (length events) (wrapped (start + size)))
          ≡ some (take size (drop start (reverse events))) =
        rw (wrapped_small (start + size) (omega arith)) (
          rw (length-reverse events) at
            (slice_exact (reverse events) size start (omega (arith, length-reverse events)))) in
      ground (arith, cut)
]

-- A page whose last place is below 2 ^ 63, of a log of fewer than 2 ^ 63 events.
pub list_events_exact :
    (page size : ℕ) (events : List Event)
    → (page - 1) * size < int_bound
    → length events + size < int_bound
    → list_events page size events ≡ some (page_events page size events)
unfolding list_events
list_events_exact page size [] h k =
    ap some (sym (ap (take size) (drop_nil ((page - 1) * size)) ∙ take_nil size))
list_events_exact page size (e ∷ events) h k =
    ap (slice_from (e ∷ events) size) (wrapped_small ((page - 1) * size) h)
    ∙ slice_from_exact (e ∷ events) size ((page - 1) * size) k

-- the pages from 1 to a number
abbrev pub up_to : ℕ → List ℕ
up_to zero = []
up_to (suc n) = up_to n ++ suc n ∷ []

module _ {A B : Type 0} where
  abbrev pub concat_map : (A → List B) → List A → List B
  concat_map f [] = []
  concat_map f (x ∷ xs) = f x ++ concat_map f xs

  concat_map-append :
      (f : A → List B) (xs ys : List A)
      → concat_map f (xs ++ ys) ≡ concat_map f xs ++ concat_map f ys
  concat_map-append f [] ys = refl
  concat_map-append f (x ∷ xs) ys =
      ap (λ r. f x ++ r) (concat_map-append f xs ys) ∙ sym (append_assoc (f x) _ _)

module _ {A : Type 0} where
  -- a page, and what is after it
  next_page :
      (size n : ℕ) (xs : List A)
      → (take size (drop ((suc n - 1) * size) xs) ++ []) ++ drop (suc n * size) xs
        ≡ drop (n * size) xs
  next_page size n xs =
      ap (λ r. r ++ drop (suc n * size) xs) (append-nil _ ∙ ap (λ k. take size (drop k xs)) same)
      ∙ ap (λ r. take size (drop (n * size) xs) ++ r)
          (ap (λ k. drop k xs) after ∙ sym (drop-drop size (n * size) xs))
      ∙ take-drop size (drop (n * size) xs)
    where
      same : (suc n - 1) * size ≡ n * size
      same = ap (λ k. k * size) (omega arith)

      after : suc n * size ≡ n * size + size
      after = grind arith

  -- the first pages, and what is after them
  pages_then_rest :
      (size n : ℕ) (xs : List A)
      → concat_map (λ k. page_events k size xs) (up_to n) ++ drop (n * size) (reverse xs)
        ≡ reverse xs
  pages_then_rest size zero xs =
      let none_before : 0 * size ≡ 0 = omega arith in ap (λ k. drop k (reverse xs)) none_before
  pages_then_rest size (suc n) xs =
      ap (λ r. r ++ drop (suc n * size) (reverse xs))
        (concat_map-append (λ k. page_events k size xs) (up_to n) (suc n ∷ []))
      ∙ append_assoc (concat_map (λ k. page_events k size xs) (up_to n)) _ _
      ∙ ap (λ r. concat_map (λ k. page_events k size xs) (up_to n) ++ r)
          (next_page size n (reverse xs))
      ∙ pages_then_rest size n xs

  -- Enough pages hold all.
  pub concat-pages :
      (size n : ℕ) (xs : List A)
      → length xs ≤ n * size
      → concat_map (λ k. page_events k size xs) (up_to n) ≡ reverse xs
  concat-pages size n xs h =
      sym (append-nil _)
      ∙ ap (λ r. concat_map (λ k. page_events k size xs) (up_to n) ++ r)
          (sym (drop_all (n * size) (reverse xs) (omega (arith, length-reverse xs))))
      ∙ pages_then_rest size n xs

module _ {A B : Type 0} where
  map-append : (h : A → B) (xs ys : List A) → map h (xs ++ ys) ≡ map h xs ++ map h ys
  map-append h [] ys = refl
  map-append h (x ∷ xs) ys = ap (λ r. h x ∷ r) (map-append h xs ys)

  pub concat_map-map :
      (h : A → B) (f : ℕ → List A) (ns : List ℕ)
      → concat_map (λ k. map h (f k)) ns ≡ map h (concat_map f ns)
  concat_map-map h f [] = refl
  concat_map-map h f (n ∷ ns) =
      ap (λ r. map h (f n) ++ r) (concat_map-map h f ns)
      ∙ sym (map-append h (f n) (concat_map f ns))

module _ {A : Type 0} (p : A → Bool) where
  filter-append : (xs ys : List A) → filter p (xs ++ ys) ≡ filter p xs ++ filter p ys
  filter-append [] ys = refl
  filter-append (x ∷ xs) ys = elim (Bool-cases (p x)) [
    | inl h ↦ rw h (ap (λ r. x ∷ r) (filter-append xs ys))
    | inr h ↦ rw h (filter-append xs ys)
  ]

  pub concat_map-filter :
      (f : ℕ → List A) (ns : List ℕ)
      → concat_map (λ k. filter p (f k)) ns ≡ filter p (concat_map f ns)
  concat_map-filter f [] = refl
  concat_map-filter f (n ∷ ns) =
      ap (λ r. filter p (f n) ++ r) (concat_map-filter f ns)
      ∙ sym (filter-append (f n) (concat_map f ns))

-- lists that agree on the pages from 1 to a number
pub concat_map-up_to :
    {A : Type 0} (f g : ℕ → List A) (n : ℕ)
    → ((k : ℕ) → 1 ≤ k → k ≤ n → f k ≡ g k)
    → concat_map f (up_to n) ≡ concat_map g (up_to n)
concat_map-up_to f g zero same = refl
concat_map-up_to f g (suc n) same =
    concat_map-append f (up_to n) (suc n ∷ [])
    ∙ ap (λ r. r ++ (f (suc n) ++ [])) (concat_map-up_to f g n (λ k h l. same k h (omega arith)))
    ∙ ap (λ r. concat_map g (up_to n) ++ (r ++ [])) (same (suc n) (omega arith) (omega arith))
    ∙ sym (concat_map-append g (up_to n) (suc n ∷ []))
