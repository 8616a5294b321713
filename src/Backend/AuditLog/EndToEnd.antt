-- ===== src/Backend/AuditLog/EndToEnd.antt =====
-- The audit page before a server that runs the audit handler.
use nexus_cloud_identity_acc.Common.{
  ℕ, ◌-◌, ◌*◌, ◌+◌, ◌≤◌, ◌<◌, String, Bool, true, false, none, [], ◌∷◌, filter, ◌==◌, ◌||◌,
  if◌then◌else◌, Option, some, List, ◌≡◌, refl, ap, ◌∙◌, length, map, arith, show, ◌+s◌,
}
use nexus_cloud_identity_acc.Browser.{ok, Network, Env, Response, resolved, audit}
use nexus_cloud_identity_acc.Types.{AuditEvent, AuditListResponse}
use nexus_cloud_identity_acc.Api
use nexus_cloud_identity_acc.Api.{request_for, request, get, receive}
use nexus_cloud_identity_acc.Backend.Integers.{atoi-show, show-ne-empty, int_bound}
use nexus_cloud_identity_acc.Backend.AuditLog.{
  Event, list_handler, page_of, page_size_of, event_json, reverse,
}
use nexus_cloud_identity_acc.Backend.AuditLog.Cover.{
  page_events, list_events_exact, up_to, concat_map, concat-pages, concat_map-map, concat_map-up_to,
  concat_map-filter,
}
use nexus_cloud_identity_acc.Backend.Http.{reply}
use nexus_cloud_identity_acc.Pages.Audit.{
  AuditPage, page_size, fetch_logs, logs_started, logs_ended, total_pages, audit_table, audit_row,
  filtered_events,
}
use nexus_cloud_identity_acc.Pages.View.{Table, loading, rows, empty, table_of}
use nexus_cloud_identity_acc.Pages.Audit.Paging.{total_pages_exact}

-- A network behind which the handler runs: a request for the events with this token is let through, and
-- what the handler answers to the numbers in its URL comes back.
pub record ServesAudit {W : Type 0} (net : Network W) (token : Option String)
    (print_time : ℕ → String) (log : W → List Event) : Type 0 where
  pub lists :
      (page size : ℕ) (w : W) (res : Response AuditListResponse)
      → list_handler print_time (show page) (show size) (log w) ≡ some res
      → (net.fetch audit
          (request_for token ("/audit?page=" +s show page +s "&page_size=" +s show size) get)
          w).0
        ≡ resolved res

pub page_of-show : (n : ℕ) → 1 ≤ n → n < int_bound → page_of (show n) ≡ n
unfolding page_of
page_of-show n h b = rw (show-ne-empty n, atoi-show n b) (ground arith)

pub page_size_of-show : (n : ℕ) → 1 ≤ n → n ≤ 200 → page_size_of (show n) ≡ n
unfolding page_size_of
page_size_of-show n h b = rw (show-ne-empty n, atoi-show n (omega arith)) (ground arith)

-- every page that the buttons reach is far from the end of the integers
in_bounds :
    (k total : ℕ)
    → total + page_size < int_bound
    → k ≤ total_pages total
    → (k < int_bound) × ((k - 1) * page_size < int_bound)
unfolding total_pages
in_bounds k total room high = (ground arith, ground arith)

-- the rows that a table shows
abbrev pub shown_rows : {R : Type 0} → Table R → List R
shown_rows loading = []
shown_rows (rows rs) = rs
shown_rows empty = []

shown_rows-table_of :
    {A R : Type 0} (row : A → R) (xs : List A) → shown_rows (table_of false row xs) ≡ map row xs
shown_rows-table_of row [] = refl
shown_rows-table_of row (x ∷ xs) = refl

if_or : (a b : Bool) → (if a then true else b) ≡ (a || b)
if_or true b = refl
if_or false b = refl

filter-same :
    {A : Type 0} (p q : A → Bool) (xs : List A) → ((x : A) → p x ≡ q x) → filter p xs ≡ filter q xs
filter-same p q [] h = refl
filter-same p q (x ∷ xs) h = rw (h x, filter-same p q xs h) refl

audit_table-rows :
    (stringify : List (String × String) → String) (local_time : String → String) (p : AuditPage)
    → p.is_loading ≡ false
    → shown_rows (audit_table stringify local_time p)
      ≡ map
          (audit_row stringify local_time)
          (filter (λ e. p.action_filter == "ALL" || e.action == p.action_filter) p.events)
unfolding audit_table filtered_events
audit_table-rows stringify local_time p ended = rw ended (
    shown_rows-table_of (audit_row stringify local_time) _
    ∙ ap (map (audit_row stringify local_time)) (
        filter-same _ _ p.events
          (λ e. if_or (p.action_filter == "ALL") (e.action == p.action_filter))))

module _ (print_time : ℕ → String) where
  abbrev page_json : ℕ → ℕ → List Event → AuditListResponse
  page_json page size events = record {
    events = some (map (event_json print_time) (page_events page size events));
    total = some (length events);
    page = page;
    page_size = size;
  }

  -- what the handler answers to the numbers of a page
  list_handler-show :
      (page size : ℕ) (events : List Event)
      → 1 ≤ page
      → page < int_bound
      → (page - 1) * size < int_bound
      → 1 ≤ size
      → size ≤ 200
      → length events + size < int_bound
      → list_handler print_time (show page) (show size) events
        ≡ some (reply 200 (page_json page size events))
  unfolding list_handler
  list_handler-show page size events h b start s1 s200 room =
      rw
        (
          page_of-show page h b,
          page_size_of-show size s1 s200,
          list_events_exact page size events start room,
        )
        refl

  module _ {W : Type 0} (net : Network W) (log : W → List Event) where
    listed_logs :
        (page : ℕ) (env : Env W)
        → ServesAudit net env.token print_time log
        → 1 ≤ page
        → page < int_bound
        → (page - 1) * page_size < int_bound
        → length (log env.world) + page_size < int_bound
        → (Api.list_audit_logs net page page_size env).0
          ≡ ok (some (page_json page page_size (log env.world)))
    unfolding Api.list_audit_logs request receive
    listed_logs page env serves h b start room = ap receive (
        serves.lists page page_size env.world _ (
          list_handler-show page page_size (log env.world) h b start (omega arith) (omega arith)
            room))

    fetch_logs-page :
        (page : ℕ) (p : AuditPage) (env : Env W)
        → ServesAudit net env.token print_time log
        → 1 ≤ page
        → page < int_bound
        → (page - 1) * page_size < int_bound
        → length (log env.world) + page_size < int_bound
        → (fetch_logs net page p env).0 ≡ record p {
          events = map (event_json print_time) (page_events page page_size (log env.world));
          total = length (log env.world);
          is_loading = false;
          error = none;
        }
    unfolding fetch_logs logs_started logs_ended
    fetch_logs-page page p env serves h b start room =
        rw (listed_logs page env serves h b start room) refl

    module _ (stringify : List (String × String) → String) (local_time : String → String) where
      -- Before a server that runs the audit handler and holds fewer than 2 ^ 63 - 20 events, the page
      -- shows the number of events in the log; and the rows that its table shows, from the first page
      -- to the last that it offers, are one after the other those of the events in the log that the
      -- page's filter lets through, each once, the latest first.
      pub all_pages-reverse :
          (p : AuditPage) (env : Env W)
          → ServesAudit net env.token print_time log
          → length (log env.world) + page_size < int_bound
          → ((fetch_logs net 1 p env).0.total ≡ length (log env.world))
            × (concat_map
                  (λ n. shown_rows (audit_table stringify local_time (fetch_logs net n p env).0))
                  (up_to (total_pages (fetch_logs net 1 p env).0.total))
                ≡ map (audit_row stringify local_time) (
                    filter
                      (λ e. p.action_filter == "ALL" || e.action == p.action_filter)
                      (map (event_json print_time) (reverse (log env.world)))))
      all_pages-reverse p env serves room =
          let first =
            ap (λ q. q.total)
              (fetch_logs-page 1 p env serves (omega arith) (omega arith) (omega arith) room) in
          let pages = total_pages (length (log env.world)) in
          let lets : AuditEvent → Bool =
            λ e. p.action_filter == "ALL" || e.action == p.action_filter in
          (
            first,
            rw first (
                concat_map-up_to _ _ pages (λ k low high.
                  ap (λ q. shown_rows (audit_table stringify local_time q))
                    (fetch_logs-page k p env serves low
                      (in_bounds k (length (log env.world)) room high).0
                      (in_bounds k (length (log env.world)) room high).1 room)
                  ∙ audit_table-rows stringify local_time _ refl)
                ∙ concat_map-map (audit_row stringify local_time)
                    (λ k.
                      filter lets
                        (map (event_json print_time) (page_events k page_size (log env.world))))
                    (up_to pages)
                ∙ ap (map (audit_row stringify local_time)) (
                    concat_map-filter lets
                      (λ k. map (event_json print_time) (page_events k page_size (log env.world)))
                      (up_to pages)
                    ∙ ap (filter lets) (
                        concat_map-map (event_json print_time)
                          (λ k. page_events k page_size (log env.world)) (up_to pages)
                        ∙ ap (map (event_json print_time)) (
                            concat-pages page_size pages (log env.world)
                              (total_pages_exact (length (log env.world))).1)))),
          )
