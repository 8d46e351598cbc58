-- ===== src/UserLabels.antt =====
-- User names in kubeconfigs: SanitizeUserLabel and ResolveUserLabel of internal/service/labels.go.
mod Tests
use kube_op.Prelude.{
  ℕ, ◌≡◌, ◌≢◌, refl, Bool, true, false, not, ◌&&◌, ◌||◌, ◌⊎◌, inl, inr, [], ◌∷◌, ◌++◌, take, length,
  ltb, ◌==◌, All, if◌then◌else◌, arith, Bool-cases,
}
use kube_op.Text.{Text, text, is_empty, trim, trim_space, to_lower}
use kube_op.Text.Collapse.{is_alnum, is_dash, dash_unless}
use kube_op.Text.Trim.{Begins, Ends, trim-All, trim-Begins, trim-Ends}
use kube_op.UsageWriter.Names.{or_text}

abbrev is_allowed : ℕ → Bool
is_allowed c = is_alnum c || c == b'.' || c == b'_' || c == b'-'

-- The loop; `prev_dash` tells that a dash was written last.
unfoldable label_run : Bool → Text → Text
label_run prev_dash [] = []
label_run prev_dash (c ∷ s) =
    let rest = label_run (if is_allowed c then c == b'-' else true) s in
    if is_allowed c then c ∷ rest else dash_unless prev_dash rest

-- `SanitizeUserLabel`
unfoldable sanitize_user_label : Text → Text
unfolding label_run trim trim_space to_lower
sanitize_user_label s =
    if is_empty s
    then []
    else or_text (trim is_dash (label_run false (to_lower (trim_space s)))) (text "user")

-- `ResolveUserLabel`
unfoldable resolve_user_label : Text → Text → Text → Text
unfolding sanitize_user_label trim_space
resolve_user_label name email user_id =
    let short =
      if ltb 8 (length (trim_space user_id))
      then take 8 (trim_space user_id)
      else trim_space user_id in
    if not (is_empty (sanitize_user_label name))
    then sanitize_user_label name
    else if not (is_empty (sanitize_user_label email))
    then sanitize_user_label email
    else if is_empty short
    then text "user"
    else text "user-" ++ short

-- Bytes of the set [a-z0-9._-], and no dash at either end.
record IsUserLabel (s : Text) : Type 0 where
  nonempty : is_empty s ≡ false
  bytes : All (λ c. is_allowed c ≡ true) s
  begins : Begins is_dash s
  ends : Ends is_dash s

label_run-All :
    (prev_dash : Bool) (s : Text) → All (λ c. is_allowed c ≡ true) (label_run prev_dash s)
unfolding label_run
label_run-All prev_dash [] = tt
label_run-All prev_dash (c ∷ s) = elim (Bool-cases (is_allowed c)) [
  | inl e ↦ rw e (e, label_run-All (c == b'-') s)
  | inr e ↦ rw e (dash_unless-All prev_dash (label_run true s) (label_run-All true s))
]
  where
    dash_unless-All :
        (last : Bool) (s : Text)
        → All (λ c. is_allowed c ≡ true) s
        → All (λ c. is_allowed c ≡ true) (dash_unless last s)
    dash_unless-All true s h = h
    dash_unless-All false s h = (refl, h)

or_user-IsUserLabel :
    (s : Text)
    → All (λ c. is_allowed c ≡ true) s
    → Begins is_dash s
    → Ends is_dash s
    → IsUserLabel (or_text s (text "user"))
or_user-IsUserLabel [] h b e = record {
  nonempty = refl;
  bytes = (refl, (refl, (refl, (refl, tt))));
  begins = refl;
  ends = refl;
}
or_user-IsUserLabel (c ∷ s) h b e = record { nonempty = refl; bytes = h; begins = b; ends = e }

sanitize_user_label-IsUserLabel : (c : ℕ) (s : Text) → IsUserLabel (sanitize_user_label (c ∷ s))
unfolding sanitize_user_label
sanitize_user_label-IsUserLabel c s =
    let run = label_run false (to_lower (trim_space (c ∷ s))) in
    or_user-IsUserLabel (trim is_dash run)
      (trim-All is_dash (λ c. is_allowed c ≡ true) run
        (label_run-All false (to_lower (trim_space (c ∷ s)))))
      (trim-Begins is_dash run) (trim-Ends is_dash run)

-- If the name is not the empty string, then the label is that of the name, whatever the email and
-- the id; it is not empty, has only bytes of the set a-z, 0-9, dot, underscore and dash, and no dash
-- at either end.
resolve_user_label-IsUserLabel :
    (name email user_id : Text)
    → name ≢ []
    → (resolve_user_label name email user_id ≡ sanitize_user_label name)
      × IsUserLabel (resolve_user_label name email user_id)
unfolding resolve_user_label
resolve_user_label-IsUserLabel [] email user_id h = absurd (h refl)
resolve_user_label-IsUserLabel (c ∷ name) email user_id h =
    let label = sanitize_user_label-IsUserLabel c name in
    (rw label.nonempty refl, rw label.nonempty label)
