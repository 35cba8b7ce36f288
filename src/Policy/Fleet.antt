-- ===== src/Policy/Fleet.antt =====
-- A fleet of Policies, whose names may be the same in different namespaces, over one MinIO.
use provider_minio.Base.GoMap.{GoMap, has_key}
use provider_minio.Runtime.{is_ok, ok, World, Result-cases, has_annotation}
use provider_minio.Base.{
  Bool-cases, ℕ, String, ◌≡◌, refl, sym, ap, ◌∙◌, inl, inr, Bool, true, false, arith,
}
use provider_minio.Apis.Policy.{Policy}
use provider_minio.Client.Admin.{Admin}
use provider_minio.Client.Iam.{Iam}
use provider_minio.Policy.Render.{policy_created_annotation_key}
use provider_minio.Policy.Create.{create, create_document}
use provider_minio.Policy.Update.{update, update_document}
use provider_minio.Policy.Observe.{observe}
use provider_minio.Policy.Ownership.{is_claimed, create_claims_policy, policy_exists_iff}
use provider_minio.Fleet.{Handlers, Fleet, Reach, IsMove, IsOwning, out_of_date}
use provider_minio.Fleet.Alone.{owned_alone}

abbrev pub handlers : {S P : Type 0} → Admin S → Iam P → Handlers S Policy
handlers admin iam = record {
  observe = observe admin iam;
  create = create admin iam;
  update = update admin iam;
}

-- What is relied on: the listing tells which policies there are, one that was added is there, and the
-- others stay.
pub record IsKeeping {S : Type 0} (admin : Admin S) : Type 0 where
  pub has : S → String → Bool
  pub listed :
      (s : S) (policies : GoMap String) (name : String)
      → admin.list_canned_policies s ≡ ok policies
      → has_key name policies ≡ has s name
  pub added :
      (s : S) (name document : String)
      → (admin.add_canned_policy s name document).0 ≡ ok tt
      → has (admin.add_canned_policy s name document).1 name ≡ true
  pub kept :
      (s : S) (name other document : String)
      → has s name ≡ true
      → has (admin.add_canned_policy s other document).1 name ≡ true

abbrev policy_name : Policy → String
policy_name p = p.meta.name

module _ {S P : Type 0} (admin : Admin S) (iam : Iam P) (law : IsKeeping admin) where
  abbrev Moves : World S Policy → World S Policy → Type 0
  Moves w w' = IsMove is_claimed policy_name law.has w w'

  -- A document is written or not.
  create_document-keeps :
      (p : Policy) (w : World S Policy) (n : String)
      → law.has w.outside n ≡ true
      → law.has (create_document admin iam p w).1.outside n ≡ true
  unfolding create_document
  create_document-keeps p w n e = grind (arith, law.kept)

  update_document-keeps :
      (p : Policy) (w : World S Policy) (n : String)
      → law.has w.outside n ≡ true
      → law.has (update_document admin iam p w).1.outside n ≡ true
  unfolding update_document
  update_document-keeps p w n e = grind (arith, law.kept)

  create_document-adds :
      (p : Policy) (w : World S Policy)
      → is_ok (create_document admin iam p w).0 ≡ true
      → law.has (create_document admin iam p w).1.outside p.meta.name ≡ true
  unfolding create_document
  create_document-adds p w h = grind (arith, law.added)

  observe_same :
      (w : World S Policy)
      → ((observe admin iam w).1.outside ≡ w.outside)
        × ((observe admin iam w).1.resource.meta ≡ w.resource.meta)
  unfolding observe
  observe_same w = (ground arith, ground arith)

  look-IsMove : (w : World S Policy) → Moves w (observe admin iam w).1
  look-IsMove w =
      let (outside, meta) = observe_same w in
      record {
        same_name = ground (arith, meta);
        keeps = λ n e. ap (λ s. law.has s n) outside ∙ e;
        claims =
            λ own. inl (ap (λ m. has_annotation policy_created_annotation_key m) (sym meta) ∙ own);
      }

  pub create-has :
      (w : World S Policy)
      → ((n : String)
          → law.has w.outside n ≡ true
          → law.has (create admin iam w).1.outside n ≡ true)
        × (is_ok (create admin iam w).0 ≡ true
            → (law.has w.outside w.resource.meta.name ≡ false)
              × (law.has (create admin iam w).1.outside w.resource.meta.name ≡ true))
  unfolding create
  create-has w = elim (Result-cases (admin.list_canned_policies w.outside)) [
    | inl (policies, l) ↦
        let told = law.listed w.outside policies w.resource.meta.name l in
        (
          λ n e. ground (arith, create_document-keeps w.resource w n),
          λ h. (ground (arith, told), ground (arith, create_document-adds w.resource w)),
        )
    | inr (inl (e, l)) ↦ (λ n e. ground arith, λ h. absurd (ground arith))
    | inr (inr l) ↦ (λ n e. ground arith, λ h. absurd (ground arith))
  ]

  make-IsMove : (w : World S Policy) → Moves w (create admin iam (observe admin iam w).1).1
  make-IsMove w =
      let seen = (observe admin iam w).1 in
      let (outside, meta) = observe_same w in
      let (kept, _, _) = create_claims_policy admin iam seen in
      let (keeps, claims) = create-has seen in
      let same : seen.resource.meta.name ≡ w.resource.meta.name = ap (λ m. m.name) meta in
      record {
        same_name = ground (arith, kept, same);
        keeps = λ n e. keeps n (ap (λ s. law.has s n) outside ∙ e);
        claims = λ own. elim (Bool-cases (is_ok (create admin iam seen).0)) [
          | inl made ↦
              let (absent, there) = claims made in
              inr (
                sym (ap (λ s. law.has s w.resource.meta.name) outside)
                    ∙ (ap (law.has seen.outside) (sym same) ∙ absent),
                ap (law.has (create admin iam seen).1.outside) (sym same) ∙ there,
              )
          | inr failed ↦ inl (
              ap (λ m. has_annotation policy_created_annotation_key m) (sym meta)
              ∙ ground (arith, kept))
        ];
      }

  update_same :
      (w : World S Policy)
      → ((n : String)
          → law.has w.outside n ≡ true
          → law.has (update admin iam w).1.outside n ≡ true)
        × ((update admin iam w).1.resource.meta.name ≡ w.resource.meta.name)
  unfolding update update_document
  update_same w = (λ n e. ground (arith, update_document-keeps w.resource w n), ground arith)

  change-IsMove :
      (w : World S Policy)
      → (observe admin iam w).0 ≡ ok out_of_date
      → Moves w (update admin iam (observe admin iam w).1).1
  change-IsMove w stale =
      let (outside, meta) = observe_same w in
      let (keeps, name) = update_same (observe admin iam w).1 in
      record {
        same_name = name ∙ ap (λ m. m.name) meta;
        keeps = λ n e. keeps n (ap (λ s. law.has s n) outside ∙ e);
        claims = λ own. inl ((policy_exists_iff admin iam w stale).0 refl).0;
      }

  owning : IsOwning (handlers admin iam)
  owning = record {
    is_own = is_claimed;
    name = policy_name;
    has = law.has;
    looks = look-IsMove;
    makes = λ w absent. make-IsMove w;
    changes = change-IsMove;
  }

  -- Whatever reconciliations follow each other, each of one Policy and as the reconciler makes them, and
  -- as long as no policy is removed: from a fleet in which no Policy is claimed, no fleet is reached in
  -- which two claimed Policies have the same name, though their namespaces may differ.
  pub one_claimant :
      {f g : Fleet S Policy} (i j : ℕ)
      → ((k : ℕ) → is_claimed (f.objects k) ≡ false)
      → Reach (handlers admin iam) f g
      → is_claimed (g.objects i) ≡ true
      → is_claimed (g.objects j) ≡ true
      → (g.objects i).meta.name ≡ (g.objects j).meta.name
      → i ≡ j
  unfolding owning
  one_claimant = owned_alone (handlers admin iam) owning
