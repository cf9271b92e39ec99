-- ===== src/Hashline/Edits.antt =====
-- What an edit does, and that it does it only to the content that its anchor is of.
use darius.Base.{
  ℕ, zero, suc, ◌+◌, ◌-◌, ◌≤◌, ◌<◌, ◌≡◌, refl, sym, subst, ◌∙◌, ◌⊎◌, inl, inr, String, Bool, true,
  false, ◌||◌, none, some, List, [], ◌∷◌, ◌++◌, ltb, ltb-false, length, length-append, take, drop,
  lines, Bool-cases, Option-cases, arith, Key, string_key, get, get-put, get-put_other, ok, err, ap,
  ◌⧺◌, ends_with, join as joined, if◌then◌else◌,
}
use darius.Hashline.{
  FileAnchor, EditOp, EditResult, EditError, stale_anchor, invalid_range, filesystem,
  FilesystemError, Files, Answer, replace_lines, new_content, written, edit, apply_put, join,
}

length-drop {ℓ} : {A : Type ℓ} (n : ℕ) (xs : List A) → length (drop n xs) ≡ length xs - n
length-drop zero xs = omega arith
length-drop (suc n) [] = omega arith
length-drop (suc n) (x ∷ xs) = omega (arith, length-drop n xs)

length-take {ℓ} : {A : Type ℓ} (n : ℕ) (xs : List A) → n ≤ length xs → length (take n xs) ≡ n
length-take zero xs h = omega arith
length-take (suc n) [] h = omega arith
length-take (suc n) (x ∷ xs) h = omega (arith, length-take n xs (omega arith))

-- Replacing the lines from `start` to `end` leaves as many lines as there were, less the range, and
-- the ones put in; where `end` is before `start`, it leaves that many more.
pub length-replace_lines :
    (start end : ℕ) (put_lines ls : List String)
    → start ≤ length ls
    → end ≤ length ls
    → length (replace_lines start end put_lines ls) + end ≡ length ls + length put_lines + start
unfolding replace_lines
length-replace_lines start end put_lines ls a b = omega (
  arith,
  length-append (take start ls) (put_lines ++ drop end ls),
  length-append put_lines (drop end ls),
  length-take start ls a,
  length-drop end ls,
)

-- The text of an edit: the lines before `start`, the new ones, and those from `end` on, joined by line
-- feeds, and with a line feed at the end where the old text had one.
abbrev pub edited : ℕ → ℕ → List String → String → String
edited start end put_lines content =
    let text =
      joined "\n" (take start (lines content) ++ (put_lines ++ drop end (lines content))) in
    if ends_with "\n" content then text ⧺ "\n" else text

-- The answer that tells of it.
abbrev pub result_of : {H : Type 0} → (String → H) → String → EditResult H
result_of compute_anchor text = record {
  new_hash = compute_anchor text;
  applied = true;
  stale_rejected = false;
  final_content = text;
}

join-lines : (ls : List String) → join ls ≡ joined "\n" ls
unfolding join
join-lines [] = refl
join-lines (l ∷ []) = refl
join-lines (l ∷ m ∷ ls) = ap (λ t. l ⧺ "\n" ⧺ t) (join-lines (m ∷ ls))

new_content-edited :
    (start end : ℕ) (put_lines : List String) (content : String)
    → new_content content (replace_lines start end put_lines (lines content))
      ≡ edited start end put_lines content
unfolding new_content replace_lines
new_content-edited start end put_lines content =
    let ls = take start (lines content) ++ (put_lines ++ drop end (lines content)) in
    ap (λ t. if ends_with "\n" content then t ⧺ "\n" else t) (join-lines ls)

module _ {H : Type 0} ⦃same_hash : Key H⦄ (compute_anchor : String → H) where
  -- An edit that was made of a content, and what it left.
  pub record Applied (anchor : FileAnchor H) (put_lines : List String) (start end : ℕ)
      (content : String) (files : Files) (answer : Answer compute_anchor) : Type 0 where
    pub anchored : same_hash.same (compute_anchor content) anchor.hash ≡ true
    pub starts : start ≤ length (lines content)
    pub ends : end ≤ length (lines content)
    pub replies : answer.0 ≡ ok (result_of compute_anchor (edited start end put_lines content))
    pub stored : get anchor.path answer.1 ≡ some (edited start end put_lines content)
    pub others :
        (path : String)
        → string_key.same anchor.path path ≡ false
        → get path answer.1 ≡ get path files

  both : (a b : Bool) → (a || b) ≡ false → (a ≡ false) × (b ≡ false)
  both false b e = (refl, e)
  both true b e = cc e

  -- Why an edit of a content is rejected, and the error that says it.
  abbrev pub Unfit : FileAnchor H → ℕ → ℕ → String → EditError H → Type 0
  Unfit anchor start end content e =
      ((same_hash.same (compute_anchor content) anchor.hash ≡ false)
        × (e ≡ stale_anchor anchor.path anchor.hash (compute_anchor content)))
      ⊎ (((length (lines content) < start) ⊎ (length (lines content) < end))
          × (e ≡ invalid_range start end (length (lines content))))

  over_range : (n s e : ℕ) → (ltb n s || ltb n e) ≡ true → (n < s) ⊎ (n < e)
  over_range n s e o = elim (Bool-cases (ltb n s)) [
    | inl a ↦ inl (ground (arith, a))
    | inr a ↦ inr (ground (arith, a, o))
  ]

  written-Applied :
      (anchor : FileAnchor H) (put_lines : List String) (start end : ℕ) (content : String)
      (files : Files) (answer : Answer compute_anchor)
      → same_hash.same (compute_anchor content) anchor.hash ≡ true
      → start ≤ length (lines content)
      → end ≤ length (lines content)
      → answer
        ≡ written compute_anchor anchor
            (new_content content (replace_lines start end put_lines (lines content)))
            files
      → Applied anchor put_lines start end content files answer
  written-Applied anchor put_lines start end content files answer q s t e =
      let text = edited start end put_lines content in
      let e' : answer ≡ written compute_anchor anchor text files =
        e
        ∙ ap (λ c. written compute_anchor anchor c files)
            (new_content-edited start end put_lines content) in
      record {
        anchored = q;
        starts = s;
        ends = t;
        replies = ap (λ (r : Answer compute_anchor). r.0) e';
        stored =
            ap (λ (r : Answer compute_anchor). get anchor.path r.1) e'
            ∙ get-put anchor.path text files;
        others = λ path n.
            ap (λ (r : Answer compute_anchor). get path r.1) e'
            ∙ get-put_other anchor.path path text files n;
      }

  edit_cases :
      (anchor : FileAnchor H) (put_lines : List String) (start end : ℕ) (content : String)
      (files : Files)
      → ((e : EditError H) × (Unfit anchor start end content e
            × (edit compute_anchor anchor put_lines start end content files ≡ (err e, files))))
        ⊎ Applied anchor put_lines start end content files
            (edit compute_anchor anchor put_lines start end content files)
  unfolding edit
  edit_cases anchor put_lines start end content files =
      let n = length (lines content) in
      elim (Bool-cases (same_hash.same (compute_anchor content) anchor.hash)) [
        | inr q ↦ inl (
          stale_anchor anchor.path anchor.hash (compute_anchor content),
          (inl (q, refl), rw (edit, q)),
        )
        | inl q ↦ elim (Bool-cases (ltb n start || ltb n end)) [
          | inl over ↦ inl (
            invalid_range start end n,
            (inr (over_range n start end over, refl), rw (edit, q, over)),
          )
          | inr fits ↦
              let (s, t) = both (ltb n start) (ltb n end) fits in
              inr (
                written-Applied anchor put_lines start end content files _ q (ltb-false n start s)
                  (ltb-false n end t) (rw (edit, q, fits)))
        ]
      ]

  pub put-found :
      (op : EditOp H) (start end : ℕ) (files : Files) (content : String)
      → get op.anchor.path files ≡ some content
      → apply_put compute_anchor op start end files
        ≡ edit compute_anchor op.anchor op.put_lines start end content files
  unfolding apply_put
  put-found op start end files content e = rw (apply_put, e)

  put-missing :
      (op : EditOp H) (start end : ℕ) (files : Files)
      → get op.anchor.path files ≡ none
      → apply_put compute_anchor op start end files
        ≡ (err (filesystem (FilesystemError.not_found op.anchor.path)), files)
  unfolding apply_put
  put-missing op start end files e = rw (apply_put, e)

  abbrev pub Rejected : EditOp H → ℕ → ℕ → Files → EditError H → Type 0
  Rejected op start end files e =
      ((get op.anchor.path files ≡ none)
        × (e ≡ filesystem (FilesystemError.not_found op.anchor.path)))
      ⊎ ((content : String) × ((get op.anchor.path files ≡ some content)
            × Unfit op.anchor start end content e))

  -- `apply_put` answers an error, the one that says so, and leaves the files as they are where the
  -- file is not there, its content has another hash than the anchor, or an end of the range lies behind
  -- it. Else it succeeds: behind it the file has the lines before `start`, the ones put in and those from `end`
  -- on, joined by line feeds and with one at the end where there was one; the answer has that text and
  -- its hash; and every other file is as it was.
  pub apply_put_exact :
      (op : EditOp H) (start end : ℕ) (files : Files)
      → ((e : EditError H) × (Rejected op start end files e
            × (apply_put compute_anchor op start end files ≡ (err e, files))))
        ⊎ ((content : String) × ((get op.anchor.path files ≡ some content)
              × Applied op.anchor op.put_lines start end content files
                  (apply_put compute_anchor op start end files)))
  apply_put_exact op start end files = elim (Option-cases (get op.anchor.path files)) [
    | inl e ↦ inl (
      filesystem (FilesystemError.not_found op.anchor.path),
      (inl (e, refl), put-missing op start end files e),
    )
    | inr (content, e) ↦ elim (edit_cases op.anchor op.put_lines start end content files) [
      | inl (x, (u, q)) ↦
          inl (x, (inr (content, (e, u)), put-found op start end files content e ∙ q))
      | inr a ↦ inr (
        content,
        (
          e,
          subst (λ r. Applied op.anchor op.put_lines start end content files r)
              (sym (put-found op start end files content e)) a,
        ),
      )
    ]
  ]
