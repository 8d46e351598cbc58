-- ===== src/Dns/PowerDns/Sets.antt =====
-- The record sets after a patch.
use kube_op.Prelude.{
  map, inl, inr, ◌⊎◌, Bool-cases, ℕ, ◌≡◌, refl, ap, sym, ◌∙◌, false, ◌&&◌, List, [], ◌∷◌, ◌++◌,
  Option, none, if◌then◌else◌, arith,
}
use mathlib.Core.List.{append-nil, append_assoc}
use kube_op.Text.{Text, text, is_empty, same, trim_space, has_suffix}
use kube_op.Text.Search.{EndsIn, has_suffix_iff}
use kube_op.Text.Equality.{same_iff, is_empty_iff}
use kube_op.Security.{Addr, invalid, v4, v6}
use kube_op.Dns.{default_ttl}
use kube_op.Dns.PowerDns.{
  ChangeType, replace, delete, RrSet, ensure_trailing_dot, split_records, replacing, ensure_sets,
  patch_zone, patch_some, ensure_records,
}

-- What a set makes of the contents by its name and type.
abbrev pub contents_of : ChangeType → List Text → List Text
contents_of replace contents = contents
contents_of delete contents = []

abbrev pub changed : Text → Text → List RrSet → List Text → List Text
changed name type [] old = old
changed name type (s ∷ sets) old =
    changed name type sets
      (if same s.name name && same s.type type then contents_of s.change s.contents else old)

-- What PowerDNS documents: a patch that succeeds changes the sets that it names.
abbrev pub IsPatchApi :
    {Z : Type 0} → (List RrSet → Z → Z × Option ℕ) → (Z → Text → Text → List Text) → Type 0
IsPatchApi {Z} patch contents =
    (sets : List RrSet) (z : Z)
    → (patch_zone patch sets z).1 ≡ none
    → (name type : Text)
    → contents (patch_zone patch sets z).0 name type ≡ changed name type sets (contents z name type)

abbrev pub or_kept : List Text → List Text → List Text
or_kept [] old = old
or_kept (c ∷ contents) old = c ∷ contents

-- The new contents by a name and a type, from those of the two families.
abbrev pub family : Text → Text → Text → List Text → List Text → List Text → List Text
family host name type four six old =
    if same host name && same (text "A") type
    then or_kept four old
    else if same host name && same (text "AAAA") type
    then or_kept six old
    else old

-- The addresses of each family, in order.
abbrev pub v4_numbers : List Addr → List ℕ
v4_numbers [] = []
v4_numbers (v4 n ∷ addrs) = n ∷ v4_numbers addrs
v4_numbers (v6 n ∷ addrs) = v4_numbers addrs
v4_numbers (invalid ∷ addrs) = v4_numbers addrs

abbrev pub v6_numbers : List Addr → List ℕ
v6_numbers [] = []
v6_numbers (v6 n ∷ addrs) = n ∷ v6_numbers addrs
v6_numbers (v4 n ∷ addrs) = v6_numbers addrs
v6_numbers (invalid ∷ addrs) = v6_numbers addrs

split_records_lem :
    (print : Addr → Text) (addrs : List Addr) (four six : List Text)
    → split_records print addrs four six ≡ (
      four ++ map (λ n. print (v4 n)) (v4_numbers addrs),
      six ++ map (λ n. print (v6 n)) (v6_numbers addrs),
    )
unfolding split_records
split_records_lem print [] four six = rw (append-nil four, append-nil six) refl
split_records_lem print (invalid ∷ addrs) four six = split_records_lem print addrs four six
split_records_lem print (v4 n ∷ addrs) four six =
    split_records_lem print addrs (four ++ (print (v4 n) ∷ [])) six
    ∙ rw (append_assoc four (print (v4 n) ∷ []) (map (λ n. print (v4 n)) (v4_numbers addrs))) refl
split_records_lem print (v6 n ∷ addrs) four six =
    split_records_lem print addrs four (six ++ (print (v6 n) ∷ []))
    ∙ rw (append_assoc six (print (v6 n) ∷ []) (map (λ n. print (v6 n)) (v6_numbers addrs))) refl

one_family : (type : Text) → (same (text "A") type && same (text "AAAA") type) ≡ false
one_family type = ground (arith, same_iff (text "A") type, same_iff (text "AAAA") type)

changed-replacing :
    (host name type : Text) (ttl : ℕ) (four six old : List Text)
    → changed name type
        (replacing host (text "A") ttl four ++ replacing host (text "AAAA") ttl six)
        old
      ≡ family host name type four six old
changed-replacing host name type ttl [] [] old = ground arith
changed-replacing host name type ttl (c ∷ four) [] old = ground arith
changed-replacing host name type ttl [] (c ∷ six) old = ground (arith, one_family type)
changed-replacing host name type ttl (c ∷ four) (d ∷ six) old = ground (arith, one_family type)

-- The trimmed host with a dot at its end, which is added if it is missing; a blank one stays blank.
abbrev pub IsFullName : Text → Text → Type 0
IsFullName host full =
    ((trim_space host ≡ []) × (full ≡ []))
    ⊎ ((EndsIn (trim_space host) (text ".") × (full ≡ trim_space host))
        ⊎ ((¬ EndsIn (trim_space host) (text ".")) × (full ≡ trim_space host ++ text ".")))

ensure_trailing_dot-IsFullName : (host : Text) → IsFullName host (ensure_trailing_dot host)
unfolding ensure_trailing_dot
ensure_trailing_dot-IsFullName host =
    let v = trim_space host in
    elim (Bool-cases (is_empty v)) [
      | inl e ↦ let n = (is_empty_iff v).0 e in rw e (inl (n, n))
      | inr e ↦ elim (Bool-cases (has_suffix v (text "."))) [
        | inl d ↦ rw (e, d) (inr (inl ((has_suffix_iff v (text ".")).0 d, refl)))
        | inr d ↦
            rw (e, d) (inr (inr (λ k. (let again = (has_suffix_iff v (text ".")).1 k in cc), refl)))
      ]
    ]

module _ {Z : Type 0} (patch : List RrSet → Z → Z × Option ℕ)
    (contents : Z → Text → Text → List Text) (is_api : IsPatchApi patch contents) where
  patch_some-contents :
      (sets : List RrSet) (z : Z)
      → (patch_some patch sets z).1 ≡ none
      → (name type : Text)
      → contents (patch_some patch sets z).0 name type
        ≡ changed name type sets (contents z name type)
  patch_some-contents [] z h name type = cc
  patch_some-contents (s ∷ sets) z h name type = is_api (s ∷ sets) z h name type

-- If PowerDNS applies the sets of a patch that succeeds, then ensuring the records of a host, with at
-- least one address, without error makes the A records of its full name the printed IPv4 addresses
-- and its AAAA records the printed IPv6 addresses, in their order, but leaves those of a family
-- without an address as they were; no other set changes. The full name is the trimmed host with a
-- dot at its end.
pub ensure_records-contents :
    {Z : Type 0} (patch : List RrSet → Z → Z × Option ℕ) (contents : Z → Text → Text → List Text)
    (print : Addr → Text) (host : Text) (addr : Addr) (addrs : List Addr) (ttl : ℕ) (z : Z)
    → IsPatchApi patch contents
    → is_empty host ≡ false
    → (ensure_records patch print host (addr ∷ addrs) ttl z).1 ≡ none
    → (full : Text) × IsFullName host full
      × ((name type : Text)
          → contents (ensure_records patch print host (addr ∷ addrs) ttl z).0 name type
            ≡ family full name type
                (map (λ n. print (v4 n)) (v4_numbers (addr ∷ addrs)))
                (map (λ n. print (v6 n)) (v6_numbers (addr ∷ addrs)))
                (contents z name type))
unfolding ensure_records
ensure_records-contents patch contents print host addr addrs ttl z is_api named h =
    let full = ensure_trailing_dot host in
    let sets = ensure_sets print full (addr ∷ addrs) (default_ttl ttl) in
    let (four, six) = split_records print (addr ∷ addrs) [] [] in
    let e : ensure_records patch print host (addr ∷ addrs) ttl z ≡ patch_some patch sets z =
      rw named refl in
    let split = split_records_lem print (addr ∷ addrs) [] [] in
    (
      full,
      ensure_trailing_dot-IsFullName host,
      λ name type. rw e (
          patch_some-contents patch contents is_api sets z (ap (λ x. x.1) (sym e) ∙ h) name type
          ∙ changed-replacing full name type (default_ttl ttl) four six (contents z name type)
          ∙ ap (λ (c : List Text × List Text). family full name type c.0 c.1 (contents z name type))
              split),
    )
