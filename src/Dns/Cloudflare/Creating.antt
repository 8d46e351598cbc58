-- ===== src/Dns/Cloudflare/Creating.antt =====
-- The loop that creates the records that are missing.
use kube_op.Prelude.{
  ℕ, ◌≡◌, ◌↔◌, ap, sym, ◌∙◌, true, inl, inr, ◌⊎◌, List, [], ◌∷◌, Option, none, if◌then◌else◌,
  and_then-succeeds, arith,
}
use kube_op.Text.{Text}
use kube_op.Text.Equality.{same_iff}
use kube_op.Dns.{DnsRecord, Api, DnsFailure}
use kube_op.Dns.Cloudflare.{is_desired, has_cloudflare_record, create_record, create_missing}
use kube_op.Dns.Cloudflare.Loops.{IsZoneApi, IsCreated, create_unless-IsCreated}

is_desired-cons_iff :
    (t v type content : Text) (ds : List (Text × Text))
    → (is_desired ((type, content) ∷ ds) t v ≡ true)
      ↔ (((t ≡ type) × (v ≡ content)) ⊎ (is_desired ds t v ≡ true))
unfolding is_desired
is_desired-cons_iff t v type content ds = ground (arith, same_iff type t, same_iff content v)

module _ {Z : Type 0} (api : Api Z) (Holds : Z → DnsRecord → Type 0) {page : ℕ}
    {stored_name : Text → Text} (is_api : IsZoneApi api Holds page stored_name) where
  pub create_missing-IsCreated :
      (existing : List DnsRecord) (host : Text) (ttl : ℕ) (ds : List (Text × Text)) (z : Z)
      → stored_name host ≡ host
      → (create_missing api existing host ttl ds z).1 ≡ none
      → IsCreated api Holds is_api host
          (λ t v. is_desired ds t v ≡ true)
          (λ t v. has_cloudflare_record existing host t v ≡ true)
          z
          (create_missing api existing host ttl ds z).0
  unfolding create_missing is_desired
  create_missing-IsCreated existing host ttl [] z canonical h = record {
    keeps = λ r k. k;
    adds = λ r k. inl k;
    serves = λ t v k. absurd (ground arith);
  }
  create_missing-IsCreated existing host ttl ((type, content) ∷ ds) z canonical h =
      let b = has_cloudflare_record existing host type content in
      let step : Z × Option DnsFailure =
        if b then (z, none) else create_record api host type content ttl z in
      let next : Z → Z × Option DnsFailure = λ y. create_missing api existing host ttl ds y in
      let (done, goes) = and_then-succeeds step next h in
      let first =
        create_unless-IsCreated api Holds is_api b host type content ttl z canonical done in
      let rest =
        create_missing-IsCreated existing host ttl ds step.0 canonical
          (ap (λ (x : Z × Option DnsFailure). x.1) (sym goes) ∙ h) in
      rw goes (record {
        keeps = λ r k. rest.keeps r (first.keeps r k);
        adds = λ r k. elim (rest.adds r k) [
          | inl held ↦ elim (first.adds r held) [
            | inl old ↦ inl old
            | inr (named, e) ↦
                inr (named, (is_desired-cons_iff r.type r.content type content ds).1 (inl e))
          ]
          | inr (named, d) ↦
              inr (named, (is_desired-cons_iff r.type r.content type content ds).1 (inr d))
        ];
        serves = λ t v k. elim ((is_desired-cons_iff t v type content ds).0 k) [
          | inl e ↦ elim (first.serves t v e) [
            | inl skipped ↦ inl (rw (e.0, e.1) skipped)
            | inr (new, held, named, typed, valued) ↦
                inr (new, rest.keeps new held, named, typed, valued)
          ]
          | inr d ↦ rest.serves t v d
        ];
      })
