-- ===== src/Hashline.antt =====
-- crates/darius-hashline: edits that are anchored to the hash of a file's content (src/anchors.rs,
-- src/edits.rs) on the file system in memory (src/filesystem.rs).
-- The hash is blake3, a parameter. `PathBuf` is taken as its text.
pub mod Edits
pub mod Once
use darius.Base.{
  ℕ, String, Bool, true, false, not, ◌||◌, ◌&&◌, Option, none, some, List, [], ◌∷◌, ◌++◌, ltb,
  length, take, drop, lines, if◌then◌else◌, ◌⧺◌, ends_with, str_eq, Key, string_key, Dict, get, put,
  Reply, ok, err,
}

-- Without `ast_boundary`, which nothing reads.
pub record FileAnchor (H : Type 0) : Type 0 where
  pub path : String
  pub hash : H
  pub line_count : ℕ

-- `EditOp`; the cut range is read nowhere.
pub record EditOp (H : Type 0) : Type 0 where
  pub anchor : FileAnchor H
  pub put_lines : List String

pub record EditResult (H : Type 0) : Type 0 where
  pub new_hash : H
  pub applied : Bool
  pub stale_rejected : Bool
  pub final_content : String

pub data FilesystemError : Type 0 where
  not_found io : String → FilesystemError

pub data EditError (H : Type 0) : Type 0 where
  stale_anchor : (path : String) → (expected actual : H) → EditError H
  invalid_range : (start end lines : ℕ) → EditError H
  not_found : String → EditError H
  filesystem : FilesystemError → EditError H

-- `InMemoryFilesystem`.
abbrev pub Files : Type 0
Files = Dict String String

unfoldable pub exists : String → Files → Bool
exists path files = elim (get path files) [ none ↦ false | some _ ↦ true ]

unfoldable pub join : List String → String
join [] = ""
join (l ∷ []) = l
join (l ∷ m ∷ ls) = l ⧺ "\n" ⧺ join (m ∷ ls)

-- The lines between `start` and `end` replaced.
unfoldable pub replace_lines : ℕ → ℕ → List String → List String → List String
replace_lines start end put_lines ls = take start ls ++ (put_lines ++ drop end ls)

-- The new content: its lines, and the last line feed of the old one.
unfoldable pub new_content : String → List String → String
new_content content new_lines =
    if ends_with "\n" content then join new_lines ⧺ "\n" else join new_lines

module _ {H : Type 0} ⦃same_hash : Key H⦄ (compute_anchor : String → H) where
  unfoldable pub anchor_for : String → String → FileAnchor H
  anchor_for path content = record {
    path = path;
    hash = compute_anchor content;
    line_count = length (lines content);
  }

  unfoldable pub anchors_match : FileAnchor H → FileAnchor H → Bool
  anchors_match a b = same_hash.same a.hash b.hash && str_eq a.path b.path

  abbrev pub Answer : Type 0
  Answer = Reply (EditError H) (EditResult H) × Files

  abbrev pub written : FileAnchor H → String → Files → Answer
  written anchor content files = (
    ok (record {
      new_hash = compute_anchor content;
      applied = true;
      stale_rejected = false;
      final_content = content;
    }),
    put anchor.path content files,
  )

  -- What both edits do with the content that they read.
  unfoldable pub edit : FileAnchor H → List String → ℕ → ℕ → String → Files → Answer
  edit anchor put_lines start end content files =
      let ls = lines content in
      if not (same_hash.same (compute_anchor content) anchor.hash)
      then (err (stale_anchor anchor.path anchor.hash (compute_anchor content)), files)
      else if ltb (length ls) start || ltb (length ls) end
      then (err (invalid_range start end (length ls)), files)
      else written anchor (new_content content (replace_lines start end put_lines ls)) files

  unfoldable pub apply_put : EditOp H → ℕ → ℕ → Files → Answer
  apply_put op start end files = elim (get op.anchor.path files) [
    | none ↦ (err (filesystem (FilesystemError.not_found op.anchor.path)), files)
    | some content ↦ edit op.anchor op.put_lines start end content files
  ]

  unfoldable pub apply_cut : EditOp H → ℕ → ℕ → Files → Answer
  apply_cut op start end files = elim (get op.anchor.path files) [
    | none ↦ (err (filesystem (FilesystemError.not_found op.anchor.path)), files)
    | some content ↦ edit op.anchor [] start end content files
  ]
