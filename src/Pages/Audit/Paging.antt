-- ===== src/Pages/Audit/Paging.antt =====
-- The page numbers: how many pages there are, and where the two buttons lead.
use nexus_cloud_identity_acc.Common.{
  ℕ, ◌+◌, ◌-◌, ◌*◌, ◌≤◌, ◌<◌, true, false, ◌≡◌, arith, ◌⊎◌, inl, inr, min, max, Bool-cases,
}
use nexus_cloud_identity_acc.Pages.Audit.{
  AuditPage, page_size, total_pages, previous_page, next_page, previous_disabled, next_disabled,
}

-- The number of pages is the least that holds all the events, and at least one: the pages hold the
-- total, and one page less would not, or there are no events and one page.
pub total_pages_exact :
    (total : ℕ)
    → (1 ≤ total_pages total)
      × (total ≤ total_pages total * page_size)
      × (((total_pages total - 1) * page_size < total) ⊎ ((total ≡ 0) × (total_pages total ≡ 1)))
unfolding total_pages
total_pages_exact total = ground arith

abbrev pub InRange : AuditPage → Type 0
InRange p = (1 ≤ p.page) × (p.page ≤ total_pages p.total)

-- the fields of two pages that differ in the number alone
same_page : (p : AuditPage) (n : ℕ) → n ≡ p.page → record p { page = n } ≡ p
same_page p n e = λ i. record p { page = e i }

next_enabled :
    (p : AuditPage)
    → InRange p
    → next_disabled p ≡ false
    → ((next_page p).page ≡ p.page + 1)
      × InRange (next_page p)
      × (previous_disabled (next_page p) ≡ false)
      × (previous_page (next_page p) ≡ p)
unfolding next_page next_disabled previous_page
next_enabled p h e = (
  ground arith,
  (ground arith, ground arith),
  ground arith,
  same_page p (max 1 (min (total_pages p.total) (p.page + 1) - 1)) (ground arith),
)

previous_enabled :
    (p : AuditPage)
    → InRange p
    → previous_disabled p ≡ false
    → ((previous_page p).page + 1 ≡ p.page)
      × InRange (previous_page p)
      × (next_disabled (previous_page p) ≡ false)
      × (next_page (previous_page p) ≡ p)
unfolding next_page next_disabled previous_page
previous_enabled p h e = (
  ground arith,
  (ground arith, ground arith),
  ground arith,
  same_page p (min (total_pages p.total) (max 1 (p.page - 1) + 1)) (ground arith),
)

-- On a page in range, "Next" is either enabled, and then moves by one page, stays in range, and
-- enables "Previous", which leads back to the same state; or disabled, and then would not move.
pub next-previous :
    (p : AuditPage)
    → InRange p
    → ((next_disabled p ≡ false)
        × (((next_page p).page ≡ p.page + 1)
            × InRange (next_page p)
            × (previous_disabled (next_page p) ≡ false)
            × (previous_page (next_page p) ≡ p)))
      ⊎ ((next_disabled p ≡ true) × ((next_page p).page ≡ p.page))
next-previous p h = elim (Bool-cases (next_disabled p)) [
  | inl off ↦ inr (off, unfold next_page next_disabled in ground arith)
  | inr on ↦ inl (on, next_enabled p h on)
]

-- On a page in range, "Previous" is either enabled, and then moves back by one page, stays in range,
-- and enables "Next", which leads back to the same state; or disabled, and then would not move.
pub previous-next :
    (p : AuditPage)
    → InRange p
    → ((previous_disabled p ≡ false)
        × (((previous_page p).page + 1 ≡ p.page)
            × InRange (previous_page p)
            × (next_disabled (previous_page p) ≡ false)
            × (next_page (previous_page p) ≡ p)))
      ⊎ ((previous_disabled p ≡ true) × ((previous_page p).page ≡ p.page))
previous-next p h = elim (Bool-cases (previous_disabled p)) [
  | inl off ↦ inr (off, unfold previous_page in ground arith)
  | inr on ↦ inl (on, previous_enabled p h on)
]
