-- ===== src/Examples/Accounts.antt =====
-- A password hash and a signer of tokens, with their laws.
use nexus_cloud_identity_acc.Common.{
  ◌<◌, String, Bool, true, false, none, some, ◌≡◌, refl, ap, sym, ◌∙◌, ◌==◌, ◌&&◌, nat_eq, ltb,
  arith, if◌then◌else◌, eq_iff, Bool-cases, inl, inr,
}
use nexus_cloud_identity_acc.Types.{developer, role_name}
use nexus_cloud_identity_acc.Types.Roles.{role_eq_iff}
use nexus_cloud_identity_acc.Backend.Bearer.{trim_space}
use nexus_cloud_identity_acc.Backend.Accounts.{Account}
use nexus_cloud_identity_acc.Backend.Accounts.Service.{
  Bcrypt, BcryptLaws, Jwt, JwtLaws, Moment, TokenClaims, claims_for,
}
use nexus_cloud_identity_acc.Backend.Accounts.NewAccount.{registered_account}

abbrev pub bcrypt : Bcrypt
bcrypt = record {
  generate = λ salt password. some password;
  compare = λ hash password. hash == password;
}

pub bcrypt-BcryptLaws : BcryptLaws bcrypt
bcrypt-BcryptLaws = record {
  compare-generate = λ salt password hash e. (eq_iff hash password).1 (cc e);
}

abbrev pub moment : Moment
moment = record {
  now = 1700000000;
  user_id = "u-7";
  event_id = "e-7";
  token_id = "t-7";
  salt = "salt";
  remote_addr = "10.0.0.1:4000";
  user_agent = "browser";
}

abbrev pub grace : Account
grace = registered_account moment "grace" "password1" developer

abbrev pub expected : TokenClaims
expected = claims_for moment grace

-- whether claims are those expected
abbrev same : TokenClaims → Bool
same c =
    c.user_id == "u-7"
    && c.username == "grace"
    && role_name c.role == "developer"
    && c.issuer == "nexus-identity-platform"
    && nat_eq c.issued_at 1700000000
    && nat_eq c.expires_at 1700086400
    && c.token_id == "t-7"

-- It signs the expected claims alone.
abbrev pub jwt : Jwt
jwt = record {
  sign = λ c. if same c then some "signed" else none;
  parse = λ now t. if ltb now 1700086400 then some expected else none;
}

both : (a c : Bool) → (a && c) ≡ true → (a ≡ true) × (c ≡ true)
both true c h = (refl, h)
both false c h = cc h

same_sound : (c : TokenClaims) → same c ≡ true → c ≡ expected
same_sound c h =
    let (h1, token) = both _ (c.token_id == "t-7") h in
    let (h2, expires) = both _ (nat_eq c.expires_at 1700086400) h1 in
    let (h3, issued) = both _ (nat_eq c.issued_at 1700000000) h2 in
    let (h4, issuer) = both _ (c.issuer == "nexus-identity-platform") h3 in
    let (h5, role) = both _ (role_name c.role == "developer") h4 in
    let (id, name) = both (c.user_id == "u-7") (c.username == "grace") h5 in
    let at : c.issued_at ≡ 1700000000 = ground arith in
    let until : c.expires_at ≡ 1700086400 = ground arith in
    λ i. record {
      user_id = (eq_iff c.user_id "u-7").0 id i;
      username = (eq_iff c.username "grace").0 name i;
      role = (role_eq_iff c.role developer).0 role i;
      issuer = (eq_iff c.issuer "nexus-identity-platform").0 issuer i;
      issued_at = at i;
      expires_at = until i;
      token_id = (eq_iff c.token_id "t-7").0 token i;
    }

sign_inv :
    (c : TokenClaims) (t : String)
    → (if same c then some "signed" else none) ≡ some t
    → (c ≡ expected) × ("signed" ≡ t)
sign_inv c t h = elim (Bool-cases (same c)) [
  | inl e ↦ (same_sound c e, let k = rw e at h in cc k)
  | inr e ↦ cc (rw e at h)
]

signed_bare : trim_space "signed" ≡ "signed"
unfolding trim_space
signed_bare = refl

pub jwt-JwtLaws : JwtLaws jwt
jwt-JwtLaws = record {
  parse-sign = λ c t now e early.
      let (is, text) = sign_inv c t e in
      let sooner : now < 1700086400 = rw (ap (λ x. x.expires_at) is) at early in
      let soon : ltb now 1700086400 ≡ true = ground arith in rw soon (ap some (sym is));
  sign-ne-empty = λ c t e. ap (λ x. x == "") (sym (sign_inv c t e).1);
  trim_space-sign =
      λ c t e. let text = (sign_inv c t e).1 in ap trim_space (sym text) ∙ signed_bare ∙ text;
}
