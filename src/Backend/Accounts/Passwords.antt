-- ===== src/Backend/Accounts/Passwords.antt =====
-- The length of a password, as the registration form and as the service count it.
use nexus_cloud_identity_acc.Common.{
  ◌≤◌, String, true, false, Option, none, some, ◌≡◌, ◌≢◌, arith, utf16_length, if_rule, ltb,
  Option-cases, inl, inr,
}
use nexus_cloud_identity_acc.Common.Maps.{lookup}
use nexus_cloud_identity_acc.Types.{Role}
use nexus_cloud_identity_acc.Pages.SignIn.{RegisterForm, register_started}
use nexus_cloud_identity_acc.Backend.Bearer.{trim_space}
use nexus_cloud_identity_acc.Backend.Accounts.{
  Account, Answer, failed, weak_password, MemoryUserStore, create_user,
}
use nexus_cloud_identity_acc.Backend.Accounts.Service
use nexus_cloud_identity_acc.Backend.Accounts.Service.{
  Bcrypt, Moment, utf8_length, hashed, with_role,
}

-- a character has no more units of UTF-16 than bytes of UTF-8
utf16_length-le : (s : String) → utf16_length s ≤ utf8_length s
unfolding utf8_length
utf16_length-le String.[] = omega arith
utf16_length-le (String.◌∷◌ c s) = ground (arith, utf16_length-le s)

hashed-ne-weak :
    (m : Moment) (username : String) (r : Role) (o : Option String) (s : MemoryUserStore)
    → (hashed m username r o s).0 ≢ failed weak_password
unfolding create_user
hashed-ne-weak m username r none s = λ h. cc h
hashed-ne-weak m username r (some hash) s = elim (Option-cases (lookup username s.by_username)) [
  | inl free ↦ rw (free, create_user) (λ h. cc h)
  | inr (v, taken) ↦ rw (taken, create_user) (λ h. cc h)
]

abbrev NotWeak : Answer Account × MemoryUserStore → Type 0
NotWeak x = x.0 ≢ failed weak_password

with_role-NotWeak :
    (b : Bcrypt) (m : Moment) (username password : String) (role : Option Role)
    (s : MemoryUserStore)
    → NotWeak (with_role b m username password role s)
with_role-NotWeak b m username password none s = λ h. cc h
with_role-NotWeak b m username password (some r) s =
    hashed-ne-weak m username r (b.generate m.salt password) s

-- The service never refuses as too short a password that the registration form sends.
pub register_started-strong :
    (f : RegisterForm) (b : Bcrypt) (m : Moment) (username : String) (role : Option Role)
    (s : MemoryUserStore)
    → (register_started f).1 ≡ true
    → (Service.register b m username f.password role s).0 ≢ failed weak_password
unfolding register_started Service.register
register_started-strong f b m username role s sent =
    let strong : ltb (utf8_length f.password) 8 ≡ false =
      ground (arith, utf16_length-le f.password) in
    if_rule NotWeak (ltb (utf8_length (trim_space username)) 3) (λ h. cc h)
      (if_rule NotWeak (ltb 50 (utf8_length (trim_space username))) (λ h. cc h)
        (rw strong (with_role-NotWeak b m (trim_space username) f.password role s)))
