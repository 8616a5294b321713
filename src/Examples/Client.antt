-- ===== src/Examples/Client.antt =====
-- The client's requests at the example server.
use nexus_cloud_identity_acc.Common.{[], ◌∷◌}
use nexus_cloud_identity_acc.Browser.{Headers}

-- options that set a header of the client's own
abbrev custom : Headers
custom = ("Content-Type", "text/plain") ∷ ("Authorization", "none") ∷ []
