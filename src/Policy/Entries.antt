-- ===== src/Policy/Entries.antt =====
-- The entries of a list: parsed ones are trimmed and not empty, and normalising them only lowers
-- their case and sorts them.
use kube_op.Prelude.{◌≡◌, ◌≢◌, refl, ap, ◌∙◌, List, [], ◌∷◌, map, All, All-append, if◌then◌else◌}
use kube_op.Text.{Text, is_empty, trim_space, to_lower, split}
use kube_op.Text.Trim.{trim_space_idem}
use kube_op.Text.Case.{to_lower_idem, trim_space-to_lower}
use kube_op.Policy.{
  trimmed_parts, parse_lines, parse_list, lowered_entries, normalise_list, sort_texts,
}
use kube_op.Policy.Order.{IsSorted, sort_texts-IsSorted, sort_texts_of_IsSorted, All-sort_texts}

-- Not empty, and with no white space at its ends.
abbrev pub IsTrimmed : Text → Type 0
IsTrimmed s = (s ≢ []) × (trim_space s ≡ s)

abbrev pub IsLowered : Text → Type 0
IsLowered s = IsTrimmed s × (to_lower s ≡ s)

trimmed_parts-IsTrimmed : (parts : List Text) → All IsTrimmed (trimmed_parts parts)
unfolding trimmed_parts
trimmed_parts-IsTrimmed [] = tt
trimmed_parts-IsTrimmed (part ∷ parts) =
    keep (trim_space part) _ (trim_space_idem part) (trimmed_parts-IsTrimmed parts)
  where
    keep :
        (t : Text) (rest : List Text)
        → trim_space t ≡ t
        → All IsTrimmed rest
        → All IsTrimmed (if is_empty t then rest else t ∷ rest)
    keep [] rest e h = h
    keep (c ∷ t) rest e h = ((λ (n : c ∷ t ≡ []). cc, e), h)

parse_lines-IsTrimmed : (lines : List Text) → All IsTrimmed (parse_lines lines)
unfolding parse_lines
parse_lines-IsTrimmed [] = tt
parse_lines-IsTrimmed (line ∷ lines) =
    All-append IsTrimmed _ _ (trimmed_parts-IsTrimmed (split b',' line))
      (parse_lines-IsTrimmed lines)

pub parse_list-IsTrimmed : (raw : Text) → All IsTrimmed (parse_list raw)
unfolding parse_list
parse_list-IsTrimmed raw = parse_lines-IsTrimmed (split 10 raw)

to_lower-ne-nil : (s : Text) → s ≢ [] → to_lower s ≢ []
unfolding to_lower
to_lower-ne-nil [] h = absurd (h refl)
to_lower-ne-nil (c ∷ s) h = λ e. cc

pub to_lower-IsLowered : (s : Text) → IsTrimmed s → IsLowered (to_lower s)
to_lower-IsLowered s (ne, e) =
    ((to_lower-ne-nil s ne, trim_space-to_lower s ∙ ap to_lower e), to_lower_idem s)

keep_entry :
    (t : Text) (rest : List Text) → t ≢ [] → (if is_empty t then rest else t ∷ rest) ≡ t ∷ rest
keep_entry [] rest h = absurd (h refl)
keep_entry (c ∷ t) rest h = refl

lowered_entries_of_IsTrimmed :
    (es : List Text) → All IsTrimmed es → lowered_entries es ≡ map to_lower es
unfolding lowered_entries
lowered_entries_of_IsTrimmed [] h = refl
lowered_entries_of_IsTrimmed (s ∷ es) ((ne, e), h) =
    rw (e, lowered_entries_of_IsTrimmed es h) (keep_entry (to_lower s) _ (to_lower-ne-nil s ne))

All-map-to_lower : (es : List Text) → All IsTrimmed es → All IsLowered (map to_lower es)
All-map-to_lower [] h = tt
All-map-to_lower (s ∷ es) h = (to_lower-IsLowered s h.0, All-map-to_lower es h.1)

map-to_lower_of_IsLowered : (es : List Text) → All IsLowered es → map to_lower es ≡ es
map-to_lower_of_IsLowered [] h = refl
map-to_lower_of_IsLowered (s ∷ es) h = rw (h.0.1, map-to_lower_of_IsLowered es h.1) refl

IsLowered→IsTrimmed : (es : List Text) → All IsLowered es → All IsTrimmed es
IsLowered→IsTrimmed [] h = tt
IsLowered→IsTrimmed (s ∷ es) h = (h.0.0, IsLowered→IsTrimmed es h.1)

module _ (es : List Text) (h : All IsTrimmed es) where
  pub normalise_list_lem : normalise_list es ≡ sort_texts (map to_lower es)
  unfolding normalise_list
  normalise_list_lem = ap sort_texts (lowered_entries_of_IsTrimmed es h)

  -- What a policy holds after parsing: lowered, trimmed, non-empty entries in order.
  pub normalise_list-IsNormal : All IsLowered (normalise_list es) × IsSorted (normalise_list es)
  normalise_list-IsNormal = rw normalise_list_lem (
    All-sort_texts IsLowered (map to_lower es) (All-map-to_lower es h),
    sort_texts-IsSorted (map to_lower es),
  )

pub normalise_list_of_IsNormal :
    (es : List Text) → All IsLowered es → IsSorted es → normalise_list es ≡ es
normalise_list_of_IsNormal es h k =
    normalise_list_lem es (IsLowered→IsTrimmed es h)
    ∙ ap sort_texts (map-to_lower_of_IsLowered es h)
    ∙ sort_texts_of_IsSorted es k
