-- ===== src/Backend/Handler/Console.antt =====
-- The policy page before a server that answers as backend/internal/policy/handler.go does.
use mathlib.Core.List.{Memᴰ}
use nexus_cloud_identity_acc.Common.{
  String, true, false, Option, none, some, List, ◌∷◌, ◌≡◌, ◌≢◌, refl, ap, ◌∙◌, ◌==◌, ◌||◌, ◌↔◌, ◌⊎◌,
  inl, inr, filter, not, mem-filter_iff, mem-cons_iff, ◌+s◌, is_some, eq_iff, Bool-cases,
}
use nexus_cloud_identity_acc.Browser.{
  Result, ok, Network, Env, policy, policies, message, new_policy, resolved,
}
use nexus_cloud_identity_acc.Types.{NewPolicy, Policy}
use nexus_cloud_identity_acc.Api.{request_for, post, get, delete, request, receive, not_null}
use nexus_cloud_identity_acc.Api
use nexus_cloud_identity_acc.Backend.Policy
use nexus_cloud_identity_acc.Backend.Handler.{
  Claims, Server, add_policy, remove_policy, list_policies,
}
use nexus_cloud_identity_acc.Pages.Policies.{
  PoliciesPage, policy_of, fetch_policies, create_policy, delete_policy, close_form, then_refresh,
}

-- A network behind which the handlers run: a request with this token carries these claims, and is
-- answered from the server that the world holds, which it changes; `fresh` is the next id.
pub record ServesPolicies {W : Type 0} (net : Network W) (token : Option String) (claims : Claims)
    (server : W → Server) (fresh : W → String) : Type 0 where
  pub lists :
      (w : W)
      → (net.fetch policies (request_for token "/policies" get) w).0
        ≡ resolved (list_policies (server w))
  pub creates :
      (rule : NewPolicy) (w : W)
      → let x =
          net.fetch policy (request_for token "/policies" (post (some (new_policy rule)))) w in
        let y = add_policy claims (fresh w) (some rule) (server w) in
        (x.0 ≡ resolved y.0) × (server x.1 ≡ y.1)
  pub deletes :
      (id : String) (w : W)
      → let x = net.fetch message (request_for token ("/policies/" +s id) delete) w in
        let y = remove_policy claims id (server w) in (x.0 ≡ resolved y.0) × (server x.1 ≡ y.1)

-- what the handler answers and keeps for a rule with a name and an application
add_policy-new :
    (claims : Claims) (id : String) (rule : NewPolicy) (s : Server)
    → Policy.get_policy id s.policies ≡ none
    → (rule.name == "" || rule.application == "") ≡ false
    → (receive (resolved (add_policy claims id (some rule) s).0)
        ≡ ok (some (record { id = id; rule = rule })))
      × ((add_policy claims id (some rule) s).1.policies
          ≡ record { id = id; rule = rule } ∷ s.policies)
unfolding receive add_policy Policy.create_policy Policy.put_policy
add_policy-new claims id rule s new named = rw (named, new) (refl, refl)

kept : String → List Policy → List Policy
kept id ps = filter (λ p. not (p.id == id)) ps

-- what the handler answers and keeps for the id of a policy
remove_policy-kept :
    (claims : Claims) (id : String) (s : Server)
    → (id == "") ≡ false
    → is_some (Policy.get_policy id s.policies) ≡ true
    → (receive (resolved (remove_policy claims id s).0)
        ≡ ok (some (record { message = "policy deleted" })))
      × ((remove_policy claims id s).1.policies ≡ kept id s.policies)
unfolding receive remove_policy Policy.delete_policy kept
remove_policy-kept claims id s named found = rw (named, found) (refl, refl)

mem-kept_iff :
    (id : String) (q : Policy) (ps : List Policy) → Memᴰ q (kept id ps) ↔ (Memᴰ q ps × (q.id ≢ id))
unfolding kept
mem-kept_iff id q ps = (
  λ m.
      let (old, other) = (mem-filter_iff (λ p. not (p.id == id)) q ps).0 m in
      (old, λ e. absurd other ((eq_iff q.id id).1 e)),
  λ (old, other). (mem-filter_iff (λ p. not (p.id == id)) q ps).1 (old, differs other),
)
  where
    absurd : not (q.id == id) ≡ true → (q.id == id) ≡ true → ⊥
    absurd h k = cc

    differs : q.id ≢ id → not (q.id == id) ≡ true
    differs other = elim (Bool-cases (q.id == id)) [
      | inl e ↦ elim (other ((eq_iff q.id id).0 e)) [ ]
      | inr e ↦ rw e refl
    ]

module _ {W : Type 0} (net : Network W) (claims : Claims) (server : W → Server)
    (fresh : W → String) where
  fetch_policies_shows :
      (p : PoliciesPage) (env : Env W)
      → ServesPolicies net env.token claims server fresh
      → (fetch_policies net p env).0.policies ≡ (server env.world).policies
  unfolding fetch_policies Api.list_policies request receive list_policies
  fetch_policies_shows p env serves = rw (serves.lists env.world) refl

  then_refresh_shows :
      {A : Type 0} (f : PoliciesPage → PoliciesPage) (p : PoliciesPage) (r : Result A) (a : A)
      (env : Env W)
      → r ≡ ok a
      → ServesPolicies net env.token claims server fresh
      → (then_refresh net f p (r, env)).0.policies ≡ (server env.world).policies
  then_refresh_shows f p r a env e serves = rw e (fetch_policies_shows (f p) env serves)

  created_policy :
      (rule : NewPolicy) (env : Env W)
      → ServesPolicies net env.token claims server fresh
      → Policy.get_policy (fresh env.world) (server env.world).policies ≡ none
      → (rule.name == "" || rule.application == "") ≡ false
      → let new : Policy = record { id = fresh env.world; rule = rule } in
        let x = Api.create_policy net rule env in
        (x.0 ≡ ok (some new)) × ((server x.1.world).policies ≡ new ∷ (server env.world).policies)
  unfolding Api.create_policy request
  created_policy rule env serves unused named =
      let (answer, after) = serves.creates rule env.world in
      let (taken, stored) =
        add_policy-new claims (fresh env.world) rule (server env.world) unused named in
      (ap receive answer ∙ taken, ap (λ s. s.policies) after ∙ stored)

  shown_after_creation :
      (p : PoliciesPage) (env : Env W)
      → ServesPolicies net env.token claims server fresh
      → Policy.get_policy (fresh env.world) (server env.world).policies ≡ none
      → (p.form.policy_name == "" || p.form.target_app == "") ≡ false
      → (create_policy net p env).0.policies
        ≡ record { id = fresh env.world; rule = policy_of p.form } ∷ (server env.world).policies
  unfolding create_policy policy_of Api.create_policy request
  shown_after_creation p env serves unused named =
      let (taken, stored) = created_policy (policy_of p.form) env serves unused named in
      then_refresh_shows close_form p (Api.create_policy net (policy_of p.form) env).0 _
        (Api.create_policy net (policy_of p.form) env).1 taken serves
      ∙ stored

  -- Before a server that runs the policy handler, and whose next id is that of none of its policies, a
  -- form with a name and an application that is sent leaves the page showing the new policy, under that
  -- id, and the policies that the server had before, and no other.
  pub create_policy-shows :
      (p : PoliciesPage) (env : Env W)
      → ServesPolicies net env.token claims server fresh
      → Policy.get_policy (fresh env.world) (server env.world).policies ≡ none
      → (p.form.policy_name == "" || p.form.target_app == "") ≡ false
      → (q : Policy)
      → Memᴰ q (create_policy net p env).0.policies ↔ (
          (q ≡ record { id = fresh env.world; rule = policy_of p.form })
          ⊎ Memᴰ q (server env.world).policies)
  create_policy-shows p env serves unused named q =
      rw (shown_after_creation p env serves unused named) (mem-cons_iff q _ _)

  deleted_policy :
      (id : String) (env : Env W)
      → ServesPolicies net env.token claims server fresh
      → (id == "") ≡ false
      → is_some (Policy.get_policy id (server env.world).policies) ≡ true
      → let x = Api.delete_policy net id env in
        (x.0 ≡ ok (some (record { message = "policy deleted" })))
        × ((server x.1.world).policies ≡ kept id (server env.world).policies)
  unfolding Api.delete_policy request
  deleted_policy id env serves named found =
      let (answer, after) = serves.deletes id env.world in
      let (taken, stored) = remove_policy-kept claims id (server env.world) named found in
      (ap receive answer ∙ taken, ap (λ s. s.policies) after ∙ stored)

  shown_after_deletion :
      (id : String) (p : PoliciesPage) (env : Env W)
      → ServesPolicies net env.token claims server fresh
      → (id == "") ≡ false
      → is_some (Policy.get_policy id (server env.world).policies) ≡ true
      → (delete_policy net true id p env).0.policies ≡ kept id (server env.world).policies
  unfolding delete_policy Api.delete_policy request
  shown_after_deletion id p env serves named found =
      let (taken, stored) = deleted_policy id env serves named found in
      then_refresh_shows (λ q. q) p (Api.delete_policy net id env).0 _
        (Api.delete_policy net id env).1 taken serves
      ∙ stored

  -- Before a server that runs the policy handler, a confirmed deletion of a policy that the server
  -- has, under an id that is not empty, leaves the page showing the server's policies but those with
  -- that id, and no other.
  pub delete_policy-shows :
      (id : String) (p : PoliciesPage) (env : Env W)
      → ServesPolicies net env.token claims server fresh
      → (id == "") ≡ false
      → is_some (Policy.get_policy id (server env.world).policies) ≡ true
      → (q : Policy)
      → Memᴰ q (delete_policy net true id p env).0.policies
        ↔ (Memᴰ q (server env.world).policies × (q.id ≢ id))
  delete_policy-shows id p env serves named found q =
      rw (shown_after_deletion id p env serves named found) (mem-kept_iff id q _)
