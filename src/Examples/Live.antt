-- ===== src/Examples/Live.antt =====
-- A network with the policy handler behind it, and the theorems about the two together.
use mathlib.Core.List.{Memᴰ}
use text.Mathlib.TextLemmas.{nil-append, cons-append}
use nexus_cloud_identity_acc.Common.{
  String, true, false, Option, none, some, [], ◌∷◌, ◌≡◌, ◌≢◌, refl, ap, ◌∙◌, ◌↔◌, ◌⊎◌, ◌+s◌, show,
  length, ◌==◌, ◌||◌, is_some,
}
use nexus_cloud_identity_acc.Common.Int.{pos}
use nexus_cloud_identity_acc.Browser.{
  Fetched, resolved, Resource, policies, policy, message, access, Body, Network, Env, Payload,
  access_check, new_policy, HttpRequest, Response,
}
use nexus_cloud_identity_acc.Types.{Policy}
use nexus_cloud_identity_acc.Api.{request_for, api_base}
use nexus_cloud_identity_acc.Backend.Policy
use nexus_cloud_identity_acc.Backend.Policy.Verdict.{Allowed}
use nexus_cloud_identity_acc.Backend.Handler.{
  Claims, Server, check_access, add_policy, remove_policy, list_policies,
}
use nexus_cloud_identity_acc.Backend.Handler.Logging.{Audited, serve, deletes_policy, serve-Audited}
use nexus_cloud_identity_acc.Backend.Handler.EndToEnd.{ServesAccess, is_green, launch-Allowed_iff}
use nexus_cloud_identity_acc.Backend.Handler.Fresh.{opens_for, launch-new_engine_iff}
use nexus_cloud_identity_acc.Backend.Policy.Defaults.{new_engine}
use nexus_cloud_identity_acc.Backend.Handler.Console.{
  ServesPolicies, create_policy-shows, delete_policy-shows,
}
use nexus_cloud_identity_acc.Pages.Policies.{
  PoliciesPage, policies_page, policy_of, create_policy, delete_policy,
}
use nexus_cloud_identity_acc.Pages.Applications.{
  AppItem, applications_page, launch_app, decision_card, aws, critical,
}
use nexus_cloud_identity_acc.Examples.{answers, console_rule}

-- a text without as many characters at its front as another has
unfoldable pub after_prefix : String → String → String
after_prefix String.[] s = s
after_prefix (String.◌∷◌ c p) String.[] = String.[]
after_prefix (String.◌∷◌ c p) (String.◌∷◌ d s) = after_prefix p s

pub after_prefix-append : (p s : String) → after_prefix p (p +s s) ≡ s
unfolding after_prefix
after_prefix-append String.[] s = nil-append s
after_prefix-append (String.◌∷◌ c p) s = rw (cons-append c p s) (after_prefix-append p s)

id_of :
    (id : String)
    → after_prefix "/policies/" (after_prefix "/api/v1" ("/api/v1" +s ("/policies/" +s id))) ≡ id
id_of id =
    ap (after_prefix "/policies/") (after_prefix-append "/api/v1" ("/policies/" +s id))
    ∙ after_prefix-append "/policies/" id

abbrev claims : Claims
claims = record { user_id = "u-1"; role = "analyst" }

abbrev sent_back : {T : Type 0} → Response T × Server → Fetched T × Server
sent_back (res, s) = (resolved res, s)

abbrev fresh : Server → String
fresh s = "p-" +s show (length s.log)

on_access : Option Payload → Server → Fetched (Body access) × Server
on_access (some (access_check req)) s = sent_back (check_access (some claims) (some req) s)
on_access _ s = sent_back (check_access (some claims) none s)

on_policy : Option Payload → Server → Fetched (Body policy) × Server
on_policy (some (new_policy rule)) s = sent_back (add_policy claims (fresh s) (some rule) s)
on_policy _ s = sent_back (add_policy claims (fresh s) none s)

serves_request : (r : Resource) → HttpRequest → Server → Fetched (Body r) × Server
unfolding on_access on_policy
serves_request access req s = on_access req.body s
serves_request policy req s = on_policy req.body s
serves_request policies req s = (resolved (list_policies s), s)
serves_request message req s =
    sent_back (remove_policy claims (after_prefix "/policies/" (after_prefix "/api/v1" req.url)) s)
serves_request r req s = (answers r, s)

live : Network Server
live = record { fetch = serves_request }

abbrev stored : Policy
stored = record { id = "p-1"; rule = console_rule }

abbrev server : Server
server = record { policies = stored ∷ []; log = [] }

abbrev env : Env Server
env = record { world = server; storage = some "t"; token = some "t" }

live-ServesAccess : (token : Option String) → ServesAccess live token claims (λ s. s)
unfolding live serves_request on_access request_for
live-ServesAccess token = record { answers = λ req w. refl }

live-ServesPolicies : (token : Option String) → ServesPolicies live token claims (λ s. s) fresh
unfolding live serves_request on_policy request_for api_base
live-ServesPolicies token = record {
  lists = λ w. refl;
  creates = λ rule w. (refl, refl);
  deletes = λ id w. rw (id_of id) (refl, refl);
}

serve-Audited_example : Audited claims server (serve claims (deletes_policy "p-1") server)
serve-Audited_example = serve-Audited claims (deletes_policy "p-1") server

abbrev console : AppItem
console = record {
  id = "app-1";
  name = "Console";
  slug = "aws-console";
  description = "Cloud";
  icon_type = aws;
  sensitivity = critical;
}

launch-Allowed_iff_example :
    (is_green (decision_card (launch_app live console applications_page env).0) ≡ true)
    ↔ Allowed server.policies (record {
      role = claims.role;
      application = "aws-console";
      device_trusted = true;
      mfa_verified = true;
      risk_score = pos 15;
    })
launch-Allowed_iff_example =
    launch-Allowed_iff live claims (λ s. s) console applications_page env
      (live-ServesAccess (some "t")) refl

-- the same server just after its start
abbrev started : Env Server
started = record env { world = record { policies = new_engine "p-1" "p-2" "p-3"; log = [] } }

launch-new_engine_iff_example :
    (is_green (decision_card (launch_app live console applications_page started).0) ≡ true)
    ↔ (opens_for "analyst" "aws-console" ≡ true)
launch-new_engine_iff_example =
    launch-new_engine_iff live claims (λ s. s) console applications_page started "p-1" "p-2" "p-3"
      (live-ServesAccess (some "t")) refl (refl, refl, refl) refl

abbrev named_page : PoliciesPage
named_page = record policies_page { form = record policies_page.form { policy_name = "Vault" } }

named : (named_page.form.policy_name == "" || named_page.form.target_app == "") ≡ false
unfolding policies_page
named = refl

unused : Policy.get_policy (fresh server) server.policies ≡ none
unfolding Policy.get_policy show
unused = refl

create_policy-shows_example : Memᴰ stored (create_policy live named_page env).0.policies ↔ (
    (stored ≡ record { id = fresh server; rule = policy_of named_page.form })
    ⊎ Memᴰ stored server.policies)
create_policy-shows_example =
    create_policy-shows live claims (λ s. s) fresh named_page env (live-ServesPolicies (some "t"))
      unused named stored

found : is_some (Policy.get_policy "p-1" server.policies) ≡ true
unfolding Policy.get_policy
found = refl

delete_policy-shows_example :
    Memᴰ stored (delete_policy live true "p-1" policies_page env).0.policies
    ↔ (Memᴰ stored server.policies × (stored.id ≢ "p-1"))
delete_policy-shows_example =
    delete_policy-shows live claims (λ s. s) fresh "p-1" policies_page env
      (live-ServesPolicies (some "t")) refl found stored
