-- ===== src/ToMatrix/Attachments/Resent.antt =====
-- Edits of posts with files (server/sync_to_matrix.go).
use mattermost_plugin_matrix.Prelude.{Bool, true, ◌&&◌, not, List, [], ◌∷◌, ◌==◌}
use mattermost_plugin_matrix.ToMatrix.Attachments.{FileAttachment}

-- If each of the attachments has an address.
abbrev pub have_addresses : List FileAttachment → Bool
have_addresses [] = true
have_addresses (f ∷ fs) = not (f.mxc_uri == []) && have_addresses fs
