-- ===== src/Forwarder/Lines/Trim.antt =====
-- What `trim` leaves of a line.
use remote_trans.Base.{ℕ, ◌≡◌, refl, ap, ◌∙◌, true, false, List, [], ◌∷◌, ◌++◌, arith, All}
use remote_trans.Forwarder.Lines.{
  is_blank, is_white, is_empty, skip_blanks, cut_white, cut_end, trim,
}

abbrev pub Blank : List ℕ → Type 0
Blank = All (λ c. is_blank c ≡ true)

abbrev pub White : List ℕ → Type 0
White = All (λ c. is_white c ≡ true)

-- A character and more, none of them white.
abbrev pub Solid : List ℕ → Type 0
Solid cs = (is_empty cs ≡ false) × All (λ c. is_white c ≡ false) cs

pub skip_blanks-append : (bs cs : List ℕ) → Blank bs → skip_blanks (bs ++ cs) ≡ skip_blanks cs
unfolding skip_blanks
skip_blanks-append [] cs v = refl
skip_blanks-append (b ∷ bs) cs v = rw (v.0) (skip_blanks-append bs cs v.1)

is_blank-of_solid : (c : ℕ) → is_white c ≡ false → is_blank c ≡ false
is_blank-of_solid c h = ground (arith, h)

pub skip_blanks-Solid : (c : ℕ) (cs : List ℕ) → is_white c ≡ false → skip_blanks (c ∷ cs) ≡ c ∷ cs
unfolding skip_blanks
skip_blanks-Solid c cs h = rw (is_blank-of_solid c h)

cut_white-White : (ws : List ℕ) → White ws → cut_white ws ≡ []
unfolding cut_white
cut_white-White [] v = refl
cut_white-White (c ∷ ws) v = rw (cut_white-White ws v.1, v.0)

-- White space at the end does not count.
cut_white-append : (cs ws : List ℕ) → White ws → cut_white (cs ++ ws) ≡ cut_white cs
unfolding cut_white
cut_white-append [] ws v = cut_white-White ws v
cut_white-append (c ∷ cs) ws v = rw (cut_white-append cs ws v)

pub cut_white-All : (cs : List ℕ) → All (λ c. is_white c ≡ false) cs → cut_white cs ≡ cs
unfolding cut_white
cut_white-All [] v = refl
cut_white-All (c ∷ cs) v = ground (arith, v.0, cut_white-All cs v.1)

pub is_empty-append : (cs ds : List ℕ) → is_empty ds ≡ false → is_empty (cs ++ ds) ≡ false
is_empty-append [] ds h = h
is_empty-append (c ∷ cs) ds h = refl

-- Text that does not end in white space stays as it is behind anything.
pub cut_white-behind :
    (cs ds : List ℕ) → is_empty ds ≡ false → cut_white ds ≡ ds → cut_white (cs ++ ds) ≡ cs ++ ds
unfolding cut_white
cut_white-behind [] ds e v = v
cut_white-behind (c ∷ cs) ds e v = rw (cut_white-behind cs ds e v, is_empty-append cs ds e)

-- `trim` takes away blanks in front of, and white space behind, a text that begins with a character
-- that is not white and does not end in white space.
pub trim-text :
    (bs : List ℕ) (c : ℕ) (cs ws : List ℕ)
    → Blank bs
    → is_white c ≡ false
    → cut_white cs ≡ cs
    → White ws
    → trim (bs ++ ((c ∷ cs) ++ ws)) ≡ c ∷ cs
unfolding trim
trim-text bs c cs ws vb vc vd vw =
    ap cut_end (skip_blanks-append bs ((c ∷ cs) ++ ws) vb ∙ skip_blanks-Solid c (cs ++ ws) vc)
    ∙ ap (◌∷◌ c) (cut_white-append cs ws vw ∙ vd)

pub trim-Solid : (bs cs ws : List ℕ) → Blank bs → Solid cs → White ws → trim (bs ++ (cs ++ ws)) ≡ cs
trim-Solid bs [] ws vb v vw = cc
trim-Solid bs (c ∷ cs) ws vb v vw = trim-text bs c cs ws vb v.1.0 (cut_white-All cs v.1.1) vw

-- A line of blanks and a line feed is not trimmed to nothing: the line feed stays.
pub trim-line_feed : (bs : List ℕ) → Blank bs → trim (bs ++ 10 ∷ []) ≡ 10 ∷ []
unfolding trim skip_blanks cut_white
trim-line_feed bs v = ap cut_end (skip_blanks-append bs (10 ∷ []) v)
