-- ===== src/Backend/Http.antt =====
-- `writeJSON` and `writeError`, which each package of the backend has its own copy of.
use nexus_cloud_identity_acc.Common.{ℕ, String, none, some}
use nexus_cloud_identity_acc.Browser.{Response}

abbrev pub failure : {T : Type 0} → ℕ → String → Response T
failure status msg = record {
  status = status;
  body = some (record { value = none; error = some msg; message = none });
}

abbrev pub reply : {T : Type 0} → ℕ → T → Response T
reply status v = record {
  status = status;
  body = some (record { value = some v; error = none; message = none });
}

-- a JSON object with a field `message`
abbrev pub reply_message : {T : Type 0} → ℕ → String → T → Response T
reply_message status msg v = record {
  status = status;
  body = some (record { value = some v; error = none; message = some msg });
}
