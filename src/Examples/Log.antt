-- ===== src/Examples/Log.antt =====
-- A network with the audit handler behind it.
use Prim.Native.Char.{Char, code}
use text.Mathlib.TextLemmas.{nil-append, cons-append}
use nexus_cloud_identity_acc.Common.{
  ℕ, ◌+◌, ◌-◌, ◌*◌, ◌%◌, ◌≤◌, String, false, Option, none, some, List, [], ◌∷◌, ◌≡◌, refl, ap, ◌∙◌,
  ◌↔◌, ◌+s◌, show, length, map, arith, nat_eq, if◌then◌else◌, filter, ◌==◌, ◌||◌, Bool-cases, inl,
  inr,
}
use nexus_cloud_identity_acc.Browser.{
  Fetched, resolved, rejected, error_of, Resource, audit, Body, Network, Env, HttpRequest, Response,
}
use nexus_cloud_identity_acc.Types.{AuditListResponse}
use nexus_cloud_identity_acc.Api.{request_for, api_base}
use nexus_cloud_identity_acc.Backend.Integers.{digits_value, digits_value-show, is_digit, int_bound}
use nexus_cloud_identity_acc.Backend.AuditLog.{
  Event, login_success, login_failed, list_handler, event_json, reverse,
}
use nexus_cloud_identity_acc.Backend.AuditLog.Cover.{concat_map, up_to}
use nexus_cloud_identity_acc.Backend.AuditLog.EndToEnd.{ServesAudit, all_pages-reverse, shown_rows}
use nexus_cloud_identity_acc.Backend.AuditLog.Overflow.{list_handler-eq-none_iff, word}
use nexus_cloud_identity_acc.Pages.Audit.{
  AuditPage, audit_page, fetch_logs, total_pages, audit_table, audit_row,
}
use nexus_cloud_identity_acc.Examples.{answers}
use nexus_cloud_identity_acc.Examples.Live.{after_prefix, after_prefix-append}

abbrev in_front : Char → String × String → String × String
in_front c (a, b) = (String.◌∷◌ c a, b)

-- a text before its first `&`, and after it
cut : String → String × String
cut String.[] = ("", "")
cut (String.◌∷◌ c s) = let rest = cut s in if nat_eq (code c) b'&' then ("", s) else in_front c rest

cut_digits :
    (acc n : ℕ) (s t : String) → digits_value acc s ≡ some n → cut (s +s String.◌∷◌ "&" t) ≡ (s, t)
unfolding cut digits_value
cut_digits acc n String.[] t h = rw (nil-append (String.◌∷◌ "&" t)) refl
cut_digits acc n (String.◌∷◌ c s) t h = elim (Bool-cases (is_digit (code c))) [
  | inl e ↦
      let later = cut_digits (acc * 10 + (code c - b'0')) n s t (rw e at h) in
      let other : nat_eq (code c) b'&' ≡ false = ground arith in
      rw (cons-append c s (String.◌∷◌ "&" t), cut, other, later) refl
  | inr e ↦ cc (rw e at h)
]

-- the values of `page` and `page_size` in the URL of a request for the events
abbrev query : String → String × String
query url =
    let (page, rest) = cut (after_prefix "/audit?page=" (after_prefix "/api/v1" url)) in
    (page, after_prefix "page_size=" rest)

url_of : ℕ → ℕ → String
url_of page size = "/audit?page=" +s show page +s "&page_size=" +s show size

query_of : (page size : ℕ) → query (api_base +s url_of page size) ≡ (show page, show size)
unfolding api_base url_of
query_of page size =
    let text =
      ap (after_prefix "/audit?page=") (after_prefix-append "/api/v1" (url_of page size))
      ∙ after_prefix-append "/audit?page=" (show page +s "&page_size=" +s show size) in
    let parts : cut (show page +s ("&page_size=" +s show size))
        ≡ (show page, "page_size=" +s show size) =
      ap (λ r. cut (show page +s r)) (cons-append "&" "page_size=" (show size))
      ∙ cut_digits 0 page (show page) ("page_size=" +s show size) (digits_value-show page) in
    let both = ap cut text ∙ parts in
    let after =
      ap (λ x. after_prefix "page_size=" x.1) both ∙ after_prefix-append "page_size=" (show size) in
    λ i. (ap (λ x. x.0) both i, after i)

abbrev print_time : ℕ → String
print_time n = show n

abbrev answer_or_reset : {T : Type 0} → Option (Response T) → Fetched T
answer_or_reset none = rejected (error_of "Failed to fetch")
answer_or_reset (some res) = resolved res

on_audit : String × String → List Event → Fetched AuditListResponse × List Event
on_audit (page, size) log = (answer_or_reset (list_handler print_time page size log), log)

serves_log : (r : Resource) → HttpRequest → List Event → Fetched (Body r) × List Event
unfolding on_audit
serves_log audit req log = on_audit (query req.url) log
serves_log r req log = (answers r, log)

logs : Network (List Event)
logs = record { fetch = serves_log }

logs-ServesAudit : (token : Option String) → ServesAudit logs token print_time (λ log. log)
unfolding logs serves_log on_audit request_for url_of
logs-ServesAudit token = record {
  lists = λ page size log res e.
      ap (λ q. answer_or_reset (list_handler print_time q.0 q.1 log)) (query_of page size)
      ∙ ap answer_or_reset e;
}

abbrev signed_in : Event
signed_in = record {
  id = "e-1";
  user_id = "u-1";
  action = login_success;
  resource = "";
  ip_address = "10.0.0.1:4000";
  user_agent = "browser";
  metadata = [];
  timestamp = 1700000000;
}

abbrev log : List Event
log = signed_in ∷ record signed_in { id = "e-2"; action = login_failed } ∷ []

abbrev env : Env (List Event)
env = record { world = log; storage = some "t"; token = some "t" }

-- the page with the filter on failed sign-ins
abbrev failures : AuditPage
failures = record audit_page { action_filter = "LOGIN_FAILED" }

abbrev stringify : List (String × String) → String
stringify _ = "{}"

all_pages-reverse_example :
    ((fetch_logs logs 1 failures env).0.total ≡ length log)
    × (concat_map
          (λ n. shown_rows (audit_table stringify (λ t. t) (fetch_logs logs n failures env).0))
          (up_to (total_pages (fetch_logs logs 1 failures env).0.total))
        ≡ map (audit_row stringify (λ t. t)) (
            filter
              (λ e. failures.action_filter == "ALL" || e.action == failures.action_filter)
              (map (event_json print_time) (reverse log))))
all_pages-reverse_example =
    all_pages-reverse print_time logs (λ w. w) stringify (λ t. t) failures env
      (logs-ServesAudit (some "t")) (omega arith)

list_handler-eq-none_iff_example :
    (list_handler print_time (show 9223372036854775807) (show 50) log ≡ none)
    ↔ (int_bound ≤ ((9223372036854775807 - 1) * 50) % word)
list_handler-eq-none_iff_example =
    list_handler-eq-none_iff print_time 9223372036854775807 50 signed_in
      (record signed_in { id = "e-2"; action = login_failed } ∷ []) (omega arith) (omega arith)
      (omega arith) (omega arith) (omega arith)
