-- ===== src/Backend/AuditLog/Overflow.antt =====
-- Page numbers whose first place overflows Go's `int`.
use nexus_cloud_identity_acc.Common.{
  ℕ, ◌-◌, ◌*◌, ◌+◌, ◌%◌, ◌≤◌, ◌<◌, String, none, some, Option, List, ◌∷◌, ◌≡◌, refl, ◌⊎◌, inl, inr,
  ◌↔◌, length, arith, Bool-cases, ◌==◌, leb, show,
}
use nexus_cloud_identity_acc.Common.Int.{ℤ, pos, negsuc}
use nexus_cloud_identity_acc.Backend.Integers.{wrapped, atoi, int_bound}
use nexus_cloud_identity_acc.Backend.AuditLog.{
  Event, list_handler, list_events, listed, page_of, page_size_of, number_or,
}
use nexus_cloud_identity_acc.Backend.AuditLog.EndToEnd.{page_of-show, page_size_of-show}
use nexus_cloud_identity_acc.Backend.AuditLog.Cover.{slice_from_exact}

-- 2 ^ 64
abbrev pub word : ℕ
word = 18446744073709551616

wrapped_cases :
    (n : ℕ)
    → ((n % word < int_bound) × (wrapped n ≡ pos (n % word)))
      ⊎ ((int_bound ≤ n % word) × (k : ℕ) × (wrapped n ≡ negsuc k))
unfolding wrapped
wrapped_cases n = ground arith

-- A nonempty log panics where the first place is negative once it is wrapped, and nowhere else.
list_events-eq-none_iff :
    (page size : ℕ) (e : Event) (events : List Event)
    → length (e ∷ events) + size < int_bound
    → (list_events page size (e ∷ events) ≡ none) ↔ (int_bound ≤ ((page - 1) * size) % word)
unfolding list_events
list_events-eq-none_iff page size e events room = elim (wrapped_cases ((page - 1) * size)) [
  | inl (small, w) ↦
      let exact = slice_from_exact (e ∷ events) size (((page - 1) * size) % word) room in
      rw w (λ h. cc (h, exact), λ h. let x : ⊥ = omega arith in elim x [ ])
  | inr (large, k, w) ↦ rw w (λ h. large, λ h. refl)
]

page_size_of-le : (ps : String) → page_size_of ps ≤ 200
unfolding page_size_of
page_size_of-le ps = elim (Bool-cases (ps == "")) [
  | inl e ↦ rw e (omega arith)
  | inr e ↦ rw e (number_or-le (atoi ps))
]
  where
    number_or-le : (o : Option ℤ) → number_or 50 o (λ n. leb n 200) ≤ 200
    number_or-le none = omega arith
    number_or-le (some (negsuc n)) = omega arith
    number_or-le (some (pos n)) = ground arith

listed-eq-none_iff :
    (print_time : ℕ → String) (page size total : ℕ) (o : Option (List Event))
    → (listed print_time page size total o ≡ none) ↔ (o ≡ none)
listed-eq-none_iff print_time page size total none = (λ h. refl, λ h. refl)
listed-eq-none_iff print_time page size total (some events) = (λ h. cc h, λ h. cc h)

module _ (print_time : ℕ → String) where
  panics_iff :
      (page size : String) (e : Event) (events : List Event)
      → length (e ∷ events) + 200 < int_bound
      → (list_handler print_time page size (e ∷ events) ≡ none)
        ↔ (int_bound ≤ ((page_of page - 1) * page_size_of size) % word)
  unfolding list_handler
  panics_iff page size e events room =
      let bounded = page_size_of-le size in
      let answered =
        listed-eq-none_iff print_time (page_of page) (page_size_of size) (length (e ∷ events))
          (list_events (page_of page) (page_size_of size) (e ∷ events)) in
      let panics =
        list_events-eq-none_iff (page_of page) (page_size_of size) e events (omega arith) in
      (λ h. panics.0 (answered.0 h), λ h. answered.1 (panics.1 h))

  -- With a nonempty log of fewer than 2 ^ 63 - 200 events, for every page number from 1 to 2 ^ 63 - 1 and
  -- every size from 1 to 200 that the query gives, the handler of the audit log panics, so that the request
  -- gets no answer, exactly when (page - 1) * size, computed modulo 2 ^ 64, is 2 ^ 63 or more.
  pub list_handler-eq-none_iff :
      (page size : ℕ) (e : Event) (events : List Event)
      → 1 ≤ page
      → page < int_bound
      → 1 ≤ size
      → size ≤ 200
      → length (e ∷ events) + 200 < int_bound
      → (list_handler print_time (show page) (show size) (e ∷ events) ≡ none)
        ↔ (int_bound ≤ ((page - 1) * size) % word)
  list_handler-eq-none_iff page size e events p1 p2 s1 s2 room =
      rw (page_of-show page p1 p2, page_size_of-show size s1 s2) at
        (panics_iff (show page) (show size) e events room)
