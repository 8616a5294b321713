-- ===== src/Pages/Settings/Screen.antt =====
-- frontend/src/pages/SettingsPage.tsx: the whole page.
use nexus_cloud_identity_acc.Common.{String, Option, List, [], ◌∷◌}
use nexus_cloud_identity_acc.Types.{User}
use nexus_cloud_identity_acc.Pages.View.{Heading}
use nexus_cloud_identity_acc.Pages.Settings.{Profile, profile_card, inspector}

-- the note on the storage of the token: the words in front of a paragraph, and the paragraph
abbrev pub storage_note : List (String × String)
storage_note =
    ("Why not localStorage?", "")
    ∷ (
      "",
      "In accordance with security best practices, NEXUS stores JWT tokens in React memory / session storage, preventing persistent exposure to cross-site scripting (XSS) attacks.",
    )
    ∷ (
      "Token Expiration:",
      "Tokens are issued with a 24-hour expiration window signed via HS256 with keys loaded securely from AWS Secrets Manager.",
    )
    ∷ []

pub record SettingsScreen : Type 0 where
  pub heading : Heading
  pub card : String × String
  pub labels : List String
  pub profile : Option Profile
  pub note : String
  pub paragraphs : List (String × String)
  pub inspector_card : String × String
  pub payload_label : String
  pub payload : String
  pub token_label : String
  pub token : String

module _ {Claims : Type 0} (decode : String → Option Claims) (pretty : Claims → String) where
  unfoldable pub settings_screen : Option User → Option String → SettingsScreen
  unfolding profile_card inspector
  settings_screen u token =
      let (payload, raw) = inspector decode pretty token in
      record {
        heading = record {
          title = "Session & Profile Settings";
          subtitle =
              "Authenticated identity context, active session claims, and cryptographic token inspection";
        };
        card = ("Authenticated Identity", "Verified");
        labels =
            "Username" ∷ "Assigned Role" ∷ "Account Status" ∷ "MFA Verified" ∷ "Identity ID" ∷ [];
        profile = profile_card u;
        note = "Security Architecture & Storage Note";
        paragraphs = storage_note;
        inspector_card = ("JWT Token Inspector (Decoded Claims)", "RFC 7519 Compliant");
        payload_label = "Decoded Payload Claims:";
        payload = payload;
        token_label = "Raw Signed Token:";
        token = raw;
      }
