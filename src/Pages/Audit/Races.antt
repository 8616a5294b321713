-- ===== src/Pages/Audit/Races.antt =====
-- The audit page with requests in flight. The log is fixed: `content n` is what the server sends for
-- page `n`, and `count` its total.
use nexus_cloud_identity_acc.Common.{
  ℕ, ◌<◌, true, false, some, List, [], ◌∷◌, ◌++◌, ◌≡◌, refl, ap, arith, Bool, min, String, none,
  is_some, ◌⊎◌, inl, inr,
}
use nexus_cloud_identity_acc.Browser.{Result, ok, thrown, error_of}
use nexus_cloud_identity_acc.Types.{AuditEvent, AuditListResponse}
use nexus_cloud_identity_acc.Pages.Audit.{
  AuditPage, page_size, audit_page, logs_started, logs_ended, total_pages, previous_page, next_page,
  previous_disabled, next_disabled,
}

pub record Screen : Type 0 where
  pub view : AuditPage
  pub pending : List ℕ

module _ (content : ℕ → List AuditEvent) (count : ℕ) where
  abbrev pub answer : ℕ → Result AuditListResponse
  answer n =
      ok (record { events = some (content n); total = some count; page = n; page_size = page_size })

  -- the effect on `page`
  abbrev asks : AuditPage → List ℕ → Screen
  asks p pending = record { view = logs_started p; pending = pending ++ p.page ∷ [] }

  -- Clicks, and answers to requests in flight, or their failures: of the oldest where they come in order,
  -- else of any. What `fetch` and the client throw is an `Error`.
  pub data Step (in_order : Bool) (s : Screen) : Screen → Type 0 where
    next : next_disabled s.view ≡ false → Step in_order s (asks (next_page s.view) s.pending)
    previous :
        previous_disabled s.view ≡ false → Step in_order s (asks (previous_page s.view) s.pending)
    refresh : Step in_order s (asks s.view s.pending)
    answered :
        (xs ys : List ℕ) (n : ℕ)
        → (in_order ≡ true → xs ≡ [])
        → s.pending ≡ xs ++ n ∷ ys
        → Step in_order s (record { view = logs_ended (answer n) s.view; pending = xs ++ ys })
    failed :
        (xs ys : List ℕ) (n : ℕ) (message : String)
        → (in_order ≡ true → xs ≡ [])
        → s.pending ≡ xs ++ n ∷ ys
        → Step in_order s
            (record { view = logs_ended (thrown (error_of message)) s.view; pending = xs ++ ys })

  pub data Steps (in_order : Bool) (s : Screen) : Screen → Type 0 where
    here : Steps in_order s s
    later : {t u : Screen} → Steps in_order s t → Step in_order t u → Steps in_order s u

  -- the page as the first effect leaves it
  abbrev pub opened : Screen
  opened = asks audit_page []

  abbrev last : ℕ → List ℕ → ℕ
  last n [] = n
  last n (m ∷ ms) = last m ms

  -- with nothing in flight the page shows an error or its own events; else the last request is for that page
  abbrev pub Settles : AuditPage → List ℕ → Type 0
  Settles p [] = (is_some p.error ≡ true) ⊎ (p.events ≡ content p.page)
  Settles p (n ∷ ns) = last n ns ≡ p.page

  last-append : (n m : ℕ) (ns : List ℕ) → last n (ns ++ m ∷ []) ≡ m
  last-append n m [] = refl
  last-append n m (k ∷ ns) = last-append k m ns

  asks-Settles :
      (p : AuditPage) (pending : List ℕ) → Settles (asks p pending).view (asks p pending).pending
  unfolding logs_started
  asks-Settles p [] = refl
  asks-Settles p (n ∷ ns) = last-append n p.page ns

  answered-Settles :
      (p : AuditPage) (n : ℕ) (ns : List ℕ)
      → Settles p (n ∷ ns)
      → Settles (logs_ended (answer n) p) ns
  unfolding logs_ended
  answered-Settles p n [] h = inr (ap content h)
  answered-Settles p n (m ∷ ns) h = h

  failed-Settles :
      (p : AuditPage) (message : String) (n : ℕ) (ns : List ℕ)
      → Settles p (n ∷ ns)
      → Settles (logs_ended (thrown (error_of message)) p) ns
  unfolding logs_ended
  failed-Settles p message n [] h = inl refl
  failed-Settles p message n (m ∷ ns) h = h

  oldest-Settles :
      (p : AuditPage) (pending xs ys : List ℕ) (n : ℕ)
      → xs ≡ []
      → pending ≡ xs ++ n ∷ ys
      → Settles p pending
      → Settles (logs_ended (answer n) p) (xs ++ ys)
  oldest-Settles p pending xs ys n e q h = rw e (answered-Settles p n ys (rw (q, e) at h))

  oldest_failed-Settles :
      (p : AuditPage) (message : String) (pending xs ys : List ℕ) (n : ℕ)
      → xs ≡ []
      → pending ≡ xs ++ n ∷ ys
      → Settles p pending
      → Settles (logs_ended (thrown (error_of message)) p) (xs ++ ys)
  oldest_failed-Settles p message pending xs ys n e q h =
      rw e (failed-Settles p message n ys (rw (q, e) at h))

  Step-Settles :
      {s t : Screen} → Step true s t → Settles s.view s.pending → Settles t.view t.pending
  Step-Settles {s} (next e) h = asks-Settles (next_page s.view) s.pending
  Step-Settles {s} (previous e) h = asks-Settles (previous_page s.view) s.pending
  Step-Settles {s} refresh h = asks-Settles s.view s.pending
  Step-Settles {s} (answered xs ys n o e) h = oldest-Settles s.view s.pending xs ys n (o refl) e h
  Step-Settles {s} (failed xs ys n message o e) h =
      oldest_failed-Settles s.view message s.pending xs ys n (o refl) e h

  Steps-Settles :
      {s t : Screen} → Steps true s t → Settles s.view s.pending → Settles t.view t.pending
  Steps-Settles here h = h
  Steps-Settles (later r st) h = Step-Settles st (Steps-Settles r h)

  -- If the answers and the failures come in the order of the requests, then after any clicks, whenever
  -- no request is in flight and the page shows no error, it shows the events of the page number that
  -- it names.
  pub in_order_settles :
      {t : Screen}
      → Steps true opened t
      → t.pending ≡ []
      → t.view.error ≡ none
      → t.view.events ≡ content t.view.page
  in_order_settles {t} r e fine =
      settled t.view t.pending e fine (Steps-Settles r (asks-Settles audit_page []))
    where
      settled :
          (p : AuditPage) (pending : List ℕ)
          → pending ≡ []
          → p.error ≡ none
          → Settles p pending
          → p.events ≡ content p.page
      settled p [] e' fine' (inl shown) = let h = ap is_some fine' in cc
      settled p [] e' fine' (inr same) = same
      settled p (n ∷ ns) e' fine' h = cc

  -- If the answers may come in another order than the requests, a log of more than one page has a run
  -- that ends with nothing in flight, the number 2 and the events of page 1.
  pub stale_page :
      1 < total_pages count
      → (t : Screen) × Steps false opened t
        × (t.pending ≡ [])
        × (t.view.page ≡ 2)
        × (t.view.events ≡ content 1)
        × (t.view.is_loading ≡ false)
  unfolding audit_page logs_started logs_ended next_page next_disabled
  stale_page h = (
    record {
      view = record audit_page {
        events = content 1;
        total = count;
        page = min (total_pages count) 2;
        is_loading = false;
      };
      pending = [];
    },
    later
        (later
          (later (later (later here (answered [] [] 1 (λ e. refl) refl)) refresh)
            (next (ground arith)))
          (answered (1 ∷ []) [] (min (total_pages count) 2) (λ e. cc) refl))
        (answered [] [] 1 (λ e. refl) refl),
    refl,
    omega arith,
    refl,
    refl,
  )
