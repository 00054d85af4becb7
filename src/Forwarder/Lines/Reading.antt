-- ===== src/Forwarder/Lines/Reading.antt =====
-- How `load_config` reads a line that holds a setting, and one that holds nothing.
use remote_trans.Base.{
  ℕ, ◌≡◌, refl, ap, ap₂, ◌∙◌, false, some, List, [], ◌∷◌, ◌++◌, arith, All, All-append,
  append_assoc, append-nil, sym, ◌==◌,
}
use remote_trans.Forwarder.Lines.{
  trim, split_at_equals, invalid, setting, starts_comment, read_trimmed, read_line,
}
use remote_trans.Forwarder.Lines.Trim.{
  Blank, White, Solid, is_empty-append, cut_white-All, cut_white-behind, trim-text, trim-Solid,
  trim-line_feed,
}

abbrev pub NoEquals : List ℕ → Type 0
NoEquals = All (λ c. (c == 61) ≡ false)

-- A key is not white anywhere, has no '=' in it and does not start with '#'.
pub record IsKey (key : List ℕ) : Type 0 where
  pub solid : Solid key
  pub no_equals : NoEquals key
  pub no_comment : starts_comment key ≡ false

split_at_equals-append :
    (cs ds : List ℕ) → NoEquals cs → split_at_equals (cs ++ 61 ∷ ds) ≡ some (cs, ds)
unfolding split_at_equals
split_at_equals-append [] ds v = refl
split_at_equals-append (c ∷ cs) ds v = rw (v.0, split_at_equals-append cs ds v.1)

Blank-NoEquals : (bs : List ℕ) → Blank bs → NoEquals bs
Blank-NoEquals [] v = tt
Blank-NoEquals (b ∷ bs) v = (ground (arith, v.0), Blank-NoEquals bs v.1)

Blank-White : (bs : List ℕ) → Blank bs → White bs
Blank-White [] v = tt
Blank-White (b ∷ bs) v = (ground (arith, v.0), Blank-White bs v.1)

-- A setting as a configuration file has it.
abbrev pub written : List ℕ → List ℕ → List ℕ → List ℕ → List ℕ
written key before behind value = key ++ (before ++ 61 ∷ (behind ++ value))

module _ (x : ℕ) (xs before behind value : List ℕ) (k : IsKey (x ∷ xs)) (vb : Blank before)
    (vh : Blank behind) (vv : Solid value) where
  trim-written :
      (bs ws : List ℕ)
      → Blank bs
      → White ws
      → trim (bs ++ (written (x ∷ xs) before behind value ++ ws))
        ≡ written (x ∷ xs) before behind value
  trim-written bs ws v w =
      trim-text bs x (xs ++ (before ++ 61 ∷ (behind ++ value))) ws v k.solid.1.0
        (cut_white-behind xs _ (is_empty-append before _ refl) (
          cut_white-behind before _ refl (
            cut_white-behind (61 ∷ []) _ (is_empty-append behind value vv.0)
              (cut_white-behind behind value vv.0 (cut_white-All value vv.1)))))
        w

  split-written :
      split_at_equals (written (x ∷ xs) before behind value)
      ≡ some ((x ∷ xs) ++ before, behind ++ value)
  split-written =
      ap split_at_equals (sym (append_assoc (x ∷ xs) before (61 ∷ (behind ++ value))))
      ∙ split_at_equals-append ((x ∷ xs) ++ before) (behind ++ value) (
          All-append (λ c. (c == 61) ≡ false) (x ∷ xs) before k.no_equals
            (Blank-NoEquals before vb))

  read_trimmed-written :
      read_trimmed (written (x ∷ xs) before behind value) ≡ setting (x ∷ xs) value
  unfolding read_trimmed
  read_trimmed-written =
      rw (k.no_comment, split-written)
        (ap₂ setting (trim-Solid [] (x ∷ xs) before tt k.solid (Blank-White before vb)) (
          ap (λ cs. trim (behind ++ cs)) (sym (append-nil value))
          ∙ trim-Solid behind value [] vh vv tt))

-- `load_config` reads a setting back from the line that holds it: with blanks in front of the key and
-- on both sides of the '=', and white space at the end, the key and the value are found as they are,
-- if neither has white space in it and neither is empty, and the key has no '=' and no '#' at its
-- start.
pub read_line-written :
    (bs key before behind value ws : List ℕ)
    → IsKey key
    → Solid value
    → Blank bs
    → Blank before
    → Blank behind
    → White ws
    → read_line (bs ++ (written key before behind value ++ ws)) ≡ setting key value
unfolding read_line
read_line-written bs [] before behind value ws k vv v vb vh w = absurd (ground (arith, k.solid.0))
read_line-written bs (x ∷ xs) before behind value ws k vv v vb vh w =
    ap read_trimmed (trim-written x xs before behind value k vb vh vv bs ws v w)
    ∙ read_trimmed-written x xs before behind value k vb vh vv

-- A line with nothing but blanks and its line feed is not skipped, as empty lines are meant to be, but
-- reported as invalid.
pub read_line-line_feed : (bs : List ℕ) → Blank bs → read_line (bs ++ 10 ∷ []) ≡ invalid
unfolding read_line read_trimmed split_at_equals
read_line-line_feed bs v = rw (trim-line_feed bs v)
