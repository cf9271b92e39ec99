-- ===== src/Examples/Files.antt =====
-- A file of three lines, and a gate with one approval. The hash of a text is the text itself.
use darius.Base.{
  ◌≡◌, refl, ◌⊎◌, String, true, false, Option, some, List, [], ◌∷◌, get, string_key, err, ends_with,
  starts_with, has_text, to_slashes,
}
use darius.Hashline.{EditOp, EditResult, EditError, Files, apply_put}
use darius.Hashline.Edits.{Rejected, Applied, apply_put_exact}
use darius.Safety.{InstructionWriteGate, is_protected_path}

abbrev same_text : String → String
same_text s = s

abbrev op : EditOp String
op = record {
  anchor = record { path = "a.txt"; hash = "x\ny\nz\n"; line_count = 3 };
  put_lines = "w" ∷ [];
}

abbrev files : Files
files = ("a.txt", "x\ny\nz\n") ∷ []

abbrev edited : EditResult String
edited = record {
  new_hash = "x\nw\nz\n";
  applied = true;
  stale_rejected = false;
  final_content = "x\nw\nz\n";
}

apply_put_exact_example :
    ((e : EditError String) × (Rejected same_text op 1 2 files e
        × (apply_put same_text op 1 2 files ≡ (err e, files))))
    ⊎ ((content : String) × ((get "a.txt" files ≡ some content)
          × Applied same_text op.anchor op.put_lines 1 2 content files
              (apply_put same_text op 1 2 files)))
apply_put_exact_example = apply_put_exact same_text op 1 2 files

abbrev gate : InstructionWriteGate
gate = record { approved_tokens = "tok" ∷ []; approved_paths = [] }

protected : is_protected_path "docs/AGENTS.md" ≡ true
unfolding is_protected_path ends_with starts_with has_text to_slashes
protected = refl

abbrev requests : List (String × Option String)
requests = ("docs/AGENTS.md", some "tok") ∷ ("docs/AGENTS.md", some "tok") ∷ []
