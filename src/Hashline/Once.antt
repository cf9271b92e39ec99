-- ===== src/Hashline/Once.antt =====
-- An anchor is good for one edit.
use darius.Base.{String, Key, string_key, Reply, ok, err}
use darius.Hashline.{EditResult, EditError}

module _ {H : Type 0} ⦃same_hash : Key H⦄ (compute_anchor : String → H) where
  content_of : Reply (EditError H) (EditResult H) → String
  content_of (ok r) = r.final_content
  content_of (err e) = ""
