-- ===== src/Security/Paths/Normal.antt =====
-- The elements of a path that NormalizeRepoPath gives.
use kube_op.Prelude.{
  ◌≡◌, ◌≢◌, refl, ap, sym, ◌∙◌, Bool, true, false, ◌||◌, inl, inr, ◌⊎◌, List, [], ◌∷◌, any, All,
  if◌then◌else◌, Result, ok, err, Bool-cases, arith,
}
use kube_op.Text.{
  Text, text, is_empty, same, trim_space, to_lower, has_prefix, contains, split, join,
}
use kube_op.Text.Equality.{same_iff}
use kube_op.Text.Pieces.{Without, split-Without, split-join}
use kube_op.Security.Paths.{
  PathFailure, backslash, encoded_traversal, control_character, colon, traversal, absolute,
  is_control, is_dot_dot, clean_up, clean_part, clean_parts, rev_onto, cleaned, is_abs, clean,
  checked, normalize_repo_path,
}

-- A name: not empty, not ".", not "..", and without a slash.
pub record IsName (part : Text) : Type 0 where
  pub not_empty : is_empty part ≡ false
  pub not_dot : same part (text ".") ≡ false
  pub not_dot_dot : is_dot_dot part ≡ false
  pub no_slash : Without b'/' part

-- On the stack ".." stands only below the names.
abbrev AllDots : List Text → Type 0
AllDots stack = All (λ part. part ≡ text "..") stack

abbrev IsStack : List Text → Type 0
IsStack [] = Unit
IsStack (part ∷ stack) = IsStack stack × (IsName part ⊎ ((part ≡ text "..") × AllDots stack))

AllDots-IsStack : (stack : List Text) → AllDots stack → IsStack stack
AllDots-IsStack [] h = tt
AllDots-IsStack (part ∷ stack) h = (AllDots-IsStack stack h.1, inr h)

below_dots :
    (top : Text) (stack : List Text)
    → is_dot_dot top ≡ true
    → IsStack (top ∷ stack)
    → AllDots (top ∷ stack)
below_dots top stack e (h, inl name) = absurd (ground (arith, e, name.not_dot_dot))
below_dots top stack e (h, inr dots) = dots

clean_up-IsStack :
    (rooted : Bool) (stack : List Text) → IsStack stack → IsStack (clean_up rooted stack)
clean_up-IsStack true [] h = tt
clean_up-IsStack false [] h = (tt, inr (refl, tt))
clean_up-IsStack rooted (top ∷ stack) h = elim (Bool-cases (is_dot_dot top)) [
  | inl e ↦ rw e (h, inr (refl, below_dots top stack e h))
  | inr e ↦ rw e h.0
]

clean_part-IsStack :
    (rooted : Bool) (part : Text) (stack : List Text)
    → Without b'/' part
    → IsStack stack
    → IsStack (clean_part rooted part stack)
clean_part-IsStack rooted part stack w h =
    elim (Bool-cases (is_empty part || same part (text "."))) [
      | inl e ↦ rw e h
      | inr e ↦ elim (Bool-cases (is_dot_dot part)) [
        | inl f ↦ rw (e, f) (clean_up-IsStack rooted stack h)
        | inr f ↦
            rw (e, f)
              (
                h,
                inl (record {
                  not_empty = ground (arith, e);
                  not_dot = ground (arith, e);
                  not_dot_dot = f;
                  no_slash = w;
                }),
              )
      ]
    ]

clean_parts-IsStack :
    (rooted : Bool) (parts stack : List Text)
    → All (Without b'/') parts
    → IsStack stack
    → IsStack (clean_parts rooted parts stack)
clean_parts-IsStack rooted [] stack w h = h
clean_parts-IsStack rooted (part ∷ parts) stack w h =
    clean_parts-IsStack rooted parts (clean_part rooted part stack) w.1
      (clean_part-IsStack rooted part stack w.0 h)

-- The elements in order are names, or the first is "..".
abbrev pub AllNames : List Text → Type 0
AllNames parts = All (λ part. IsName part) parts

only_names :
    (stack acc : List Text)
    → IsStack stack
    → AllNames stack ⊎ ((rest : List Text) × (rev_onto stack acc ≡ text ".." ∷ rest))
only_names [] acc h = inl tt
only_names (part ∷ stack) acc (h, inl name) = elim (only_names stack (part ∷ acc) h) [
  | inl names ↦ inl (name, names)
  | inr first ↦ inr first
]
only_names (part ∷ []) acc (h, inr (e, dots)) = inr (acc, ap (λ p. p ∷ acc) e)
only_names (part ∷ top ∷ stack) acc (h, inr (e, dots)) =
    elim (only_names (top ∷ stack) (part ∷ acc) h) [
      | inl names ↦ absurd (
          let is_dots = (same_iff top (text "..")).1 dots.0 in
          ground (arith, names.0.not_dot_dot, is_dots))
      | inr first ↦ inr first
    ]

AllNames-rev_onto :
    (stack acc : List Text) → AllNames stack → AllNames acc → AllNames (rev_onto stack acc)
AllNames-rev_onto [] acc h k = k
AllNames-rev_onto (part ∷ stack) acc h k = AllNames-rev_onto stack (part ∷ acc) h.1 (h.0, k)

-- The checks refuse a cleaned path that does not consist of names.
dot_refused : (out : Text) → checked (text ".") ≡ ok out → is_empty out ≢ false
unfolding same
dot_refused [] h e = cc
dot_refused (c ∷ out) h e = cc

rooted_refused : (parts : List Text) (out : Text) → checked (cleaned true parts) ≢ ok out
unfolding same
rooted_refused parts out h = cc

dots_refused : (rest : List Text) (out : Text) → checked (cleaned false (text ".." ∷ rest)) ≢ ok out
unfolding join same has_prefix
dots_refused [] out h = cc
dots_refused (part ∷ rest) out h = cc

Names-Without : (parts : List Text) → AllNames parts → All (Without b'/') parts
Names-Without [] h = tt
Names-Without (part ∷ parts) h = (h.0.no_slash, Names-Without parts h.1)

unchanged_if_checked :
    (dot rooted above : Bool) (path out : Text)
    → (let r : Result PathFailure Text =
          if dot
          then ok []
          else if rooted
          then err absolute
          else if above
          then err traversal
          else ok path in
        r ≡ ok out)
    → is_empty out ≡ false
    → path ≡ out
unchanged_if_checked true rooted above path [] h e = cc
unchanged_if_checked true rooted above path (c ∷ out) h e = cc
unchanged_if_checked false true above path out h e = cc
unchanged_if_checked false false true path out h e = cc
unchanged_if_checked false false false path out h e = cc

checked-unchanged : (path out : Text) → checked path ≡ ok out → is_empty out ≡ false → path ≡ out
checked-unchanged path out h e =
    unchanged_if_checked (same path (text ".")) (is_abs path)
      (has_prefix path (text "../") || same path (text "..")) path out h e

checked-AllNames :
    (parts : List Text) (out : Text)
    → AllNames parts ⊎ ((rest : List Text) × (parts ≡ text ".." ∷ rest))
    → checked (cleaned false parts) ≡ ok out
    → is_empty out ≡ false
    → AllNames (split b'/' out)
checked-AllNames [] out k h e = absurd (dot_refused out h e)
checked-AllNames (part ∷ parts) out (inl names) h e =
    rw
      (
        sym (checked-unchanged (join b'/' (part ∷ parts)) out h e),
        split-join b'/' part parts (Names-Without (part ∷ parts) names),
      )
      names
checked-AllNames (part ∷ parts) out (inr (rest, first)) h e =
    absurd (dots_refused rest out (ap (λ ps. checked (cleaned false ps)) (sym first) ∙ h))

cleaned-AllNames :
    (rooted : Bool) (parts : List Text) (out : Text)
    → All (Without b'/') parts
    → checked (cleaned rooted (rev_onto (clean_parts rooted parts []) [])) ≡ ok out
    → is_empty out ≡ false
    → AllNames (split b'/' out)
cleaned-AllNames true parts out w h e =
    absurd (rooted_refused (rev_onto (clean_parts true parts []) []) out h)
cleaned-AllNames false parts out w h e =
    let stack = clean_parts false parts [] in
    checked-AllNames (rev_onto stack []) out
      (elim (only_names stack [] (clean_parts-IsStack false parts [] w tt)) [
        | inl names ↦ inl (AllNames-rev_onto stack [] names tt)
        | inr first ↦ inr first
      ])
      h e

all_passed :
    (blank a b c d : Bool) (f g h k : PathFailure) (r : Result PathFailure Text) (out : Text)
    → (if blank
        then ok []
        else if a
        then err f
        else if b
        then err g
        else if c
        then err h
        else if d
        then err k
        else r)
      ≡ ok out
    → is_empty out ≡ false
    → r ≡ ok out
all_passed true a b c d f g h k r [] e n = cc
all_passed true a b c d f g h k r (x ∷ out) e n = cc
all_passed false true b c d f g h k r out e n = cc
all_passed false false true c d f g h k r out e n = cc
all_passed false false false true d f g h k r out e n = cc
all_passed false false false false true f g h k r out e n = cc
all_passed false false false false false f g h k r out e n = e

-- A path that NormalizeRepoPath gives, and that is not empty, consists of names between single
-- slashes: no element is empty, "." or "..", so it is relative and stays below the root.
pub normalize_repo_path-AllNames :
    (input out : Text)
    → normalize_repo_path input ≡ ok out
    → is_empty out ≡ false
    → AllNames (split b'/' out)
unfolding normalize_repo_path clean
normalize_repo_path-AllNames input out h e =
    let t = trim_space input in
    cleaned-AllNames (is_abs t) (split b'/' t) out (split-Without b'/' t)
      (all_passed (is_empty t) (contains t (text "\\")) (contains (to_lower t) (text "%2e"))
        (any is_control t) (contains t (text ":")) backslash encoded_traversal control_character
        colon (checked (clean t)) out h e)
      e
