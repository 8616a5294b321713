-- ===== src/Pages/SignIn/Forms.antt =====
-- What the two forms do with the answer of a sign-in or a registration.
use mathlib.Core.List.{Memᴰ}
use nexus_cloud_identity_acc.Common.{
  ◌≤◌, ◌<◌, false, none, some, List, [], ◌∷◌, ◌≡◌, refl, arith, All, All-mem, utf16_length, ◌⊎◌,
}
use nexus_cloud_identity_acc.Browser.{Thrown, ok, thrown, Network}
use nexus_cloud_identity_acc.Types.{role_name}
use nexus_cloud_identity_acc.Auth
use nexus_cloud_identity_acc.Auth.{App}
use nexus_cloud_identity_acc.Pages.SignIn.{
  LoginForm, RegisterForm, RoleOption, role_options, register_form, selected_role, submit_login,
  submit_register, message_or, Edit, types_username, types_password, picks_option, edit,
}

-- A sign-in that ends has either gone to the dashboard with no error shown, or shows the thrown
-- error's message and has gone nowhere; which of them is decided by the provider's `login`, the button
-- is enabled again, and the fields are kept.
pub submit_login_ends :
    {W : Type 0} (net : Network W) (f : LoginForm) (a : App W)
    → let (f', to, b) = submit_login net f a in
      let r = Auth.login net f.username f.password a in
      (b ≡ r.1)
      × (f'.is_submitting ≡ false)
      × (f'.username ≡ f.username)
      × (f'.password ≡ f.password)
      × (((r.0 ≡ ok tt) × (to ≡ some "/dashboard") × (f'.error ≡ none))
          ⊎ ((e : Thrown) × (r.0 ≡ thrown e)
              × (to ≡ none)
              × (f'.error ≡ some (message_or "Authentication failed. Please try again." e))))
unfolding submit_login
submit_login_ends net f a = ground arith

-- A registration is sent exactly when the password has at least eight UTF-16 units; one that is not
-- sent changes neither the session nor the server, and shows why.
pub submit_register_short :
    {W : Type 0} (net : Network W) (f : RegisterForm) (a : App W)
    → let (f', to, b) = submit_register net f a in
      ((utf16_length f.password < 8)
        × (b ≡ a)
        × (to ≡ none)
        × (f'.error ≡ some "Password must be at least 8 characters.")
        × (f'.is_submitting ≡ f.is_submitting))
      ⊎ ((8 ≤ utf16_length f.password)
          × (b ≡ (Auth.register net f.username f.password (role_name f.role) a).1)
          × (f'.is_submitting ≡ false))
unfolding submit_register
submit_register_short net f a = ground arith

pub run_edits : RegisterForm → List Edit → RegisterForm
run_edits f [] = f
run_edits f (e ∷ es) = run_edits (edit f e) es

-- an edit that the page allows: the `select` offers only the listed options
abbrev pub Offered : Edit → Type 0
Offered (picks_option o) = Memᴰ o role_options
Offered _ = Unit

-- the option that the pill under the `select` shows is there, and is the one of the form's role
abbrev pub IsSelected : RegisterForm → Type 0
IsSelected f = (o : RoleOption) × (selected_role f.role ≡ some o) × (o.value ≡ f.role)

Found : RoleOption → Type 0
Found o = selected_role o.value ≡ some o

role_options-Found : All Found role_options
unfolding Found selected_role
role_options-Found = (refl, (refl, (refl, (refl, (refl, tt)))))

edit-IsSelected : (f : RegisterForm) (e : Edit) → IsSelected f → Offered e → IsSelected (edit f e)
unfolding edit Found
edit-IsSelected f (types_username s) h _ = h
edit-IsSelected f (types_password s) h _ = h
edit-IsSelected f (picks_option o) h m = (o, All-mem Found role_options role_options-Found m, refl)

run_edits-IsSelected :
    (f : RegisterForm) (es : List Edit)
    → IsSelected f
    → All Offered es
    → IsSelected (run_edits f es)
unfolding run_edits
run_edits-IsSelected f [] h _ = h
run_edits-IsSelected f (e ∷ es) h o =
    run_edits-IsSelected (edit f e) es (edit-IsSelected f e h o.0) o.1

-- After any edits of a fresh registration form that pick offered options, the option that the page
-- looks up with `find(…)!` exists and is that of the form's role.
pub register_form-IsSelected :
    (es : List Edit) → All Offered es → IsSelected (run_edits register_form es)
register_form-IsSelected es h =
    run_edits-IsSelected register_form es (unfold register_form selected_role in (_, refl, refl)) h
