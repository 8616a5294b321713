-- ===== src/Pages/Policies/Controls.antt =====
-- frontend/src/pages/PoliciesPage.tsx: the controls of the creation form and of the sandbox. A `select`
-- offers its options alone and a range gives a number, so a choice is its value.
use nexus_cloud_identity_acc.Common.{String, Bool, Option, none, some, ◌≡◌, refl, if◌then◌else◌}
use nexus_cloud_identity_acc.Common.Int.{ℤ}
use nexus_cloud_identity_acc.Types.{User}
use nexus_cloud_identity_acc.Pages.Policies.{
  Sandbox, PoliciesPage, policy_of, type_max_risk, can_manage,
}

-- the controls of the form
pub data FormControl : Type 0 where
  types_name picks_role picks_app types_risk : String → FormControl
  checks_mfa checks_trusted : Bool → FormControl

unfoldable pub edit_form : FormControl → PoliciesPage → PoliciesPage
unfolding type_max_risk
edit_form (types_name s) p = record p { form = record p.form { policy_name = s } }
edit_form (picks_role s) p = record p { form = record p.form { target_role = s } }
edit_form (picks_app s) p = record p { form = record p.form { target_app = s } }
edit_form (types_risk s) p = type_max_risk s p
edit_form (checks_mfa b) p = record p { form = record p.form { require_mfa = b } }
edit_form (checks_trusted b) p = record p { form = record p.form { require_trusted = b } }

-- the controls of the sandbox
pub data SandboxControl : Type 0 where
  picks_resource : String → SandboxControl
  slides_risk : ℤ → SandboxControl
  checks_verified checks_device : Bool → SandboxControl

unfoldable pub edit_sandbox : SandboxControl → PoliciesPage → PoliciesPage
edit_sandbox (picks_resource s) p = record p { sandbox = record p.sandbox { app = s } }
edit_sandbox (slides_risk n) p = record p { sandbox = record p.sandbox { risk = n } }
edit_sandbox (checks_verified b) p = record p { sandbox = record p.sandbox { mfa = b } }
edit_sandbox (checks_device b) p = record p { sandbox = record p.sandbox { trusted = b } }

-- the button that opens the form, for those who may manage policies
unfoldable pub toggle_label : Option User → PoliciesPage → Option String
unfolding can_manage
toggle_label u p =
    if can_manage u then some (if p.form.shown then "Cancel" else "Create Access Policy") else none

-- the button of the sandbox: whether it is disabled, and its label
unfoldable pub evaluate_button : Sandbox → Bool × String
evaluate_button s =
    (s.is_evaluating, if s.is_evaluating then "Evaluating..." else "Evaluate Access Policy")

-- A control of the form changes neither what the sandbox sends and shows nor the list of policies.
pub edit_form_keeps :
    (c : FormControl) (p : PoliciesPage)
    → ((edit_form c p).sandbox ≡ p.sandbox)
      × ((edit_form c p).policies ≡ p.policies)
      × ((edit_form c p).alerts ≡ p.alerts)
unfolding edit_form
edit_form_keeps (types_name s) p = (refl, refl, refl)
edit_form_keeps _ p = (refl, refl, refl)

-- A control of the sandbox changes neither the policy that the form sends nor the decision shown.
pub edit_sandbox_keeps :
    (c : SandboxControl) (p : PoliciesPage)
    → (policy_of (edit_sandbox c p).form ≡ policy_of p.form)
      × ((edit_sandbox c p).sandbox.result ≡ p.sandbox.result)
      × ((edit_sandbox c p).policies ≡ p.policies)
unfolding edit_sandbox
edit_sandbox_keeps (picks_resource s) p = (refl, refl, refl)
edit_sandbox_keeps _ p = (refl, refl, refl)
