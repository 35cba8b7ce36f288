-- ===== src/User/Fleet.antt =====
-- A fleet of Users, which may ask for the same user of MinIO, over one MinIO.
use provider_minio.Runtime.{World}
use provider_minio.Base.{ℕ, ◌≡◌, sym, ap, ◌∙◌, inl, inr, Bool, true, false, arith}
use provider_minio.Apis.User.{User, get_user_name}
use provider_minio.Client.Admin.{Admin, Generate}
use provider_minio.Client.Kube.{Kube, Url, Dial}
use provider_minio.User.Create.{create}
use provider_minio.User.Update.{update}
use provider_minio.User.Observe.{observe}
use provider_minio.User.Ownership.{is_own}
use provider_minio.Fleet.{Handlers, Fleet, Reach, IsMove, IsOwning}
use provider_minio.Fleet.Alone.{owned_alone}
use provider_minio.User.Keeping.{
  IsKeeping, create_resource, create-keeps, create-adds, update-keeps, update-resource,
}

module _ {S : Type 0} (admin : Admin S) (generate : Generate S)
    (law : IsKeeping admin generate) where
  module _ {Pool Cert : Type 0} (kube : Kube S) (dial : Dial S Pool Cert) (url : Url)
      (tls_settings : Bool) where
    abbrev Moves : World S User → World S User → Type 0
    Moves w w' = IsMove is_own get_user_name law.has w w'

    -- Observe writes the status alone, and takes nothing for the object's own that was not.
    observe_same :
        (w : World S User)
        → let seen = (observe admin kube dial url tls_settings w).1 in
          (seen.outside ≡ w.outside)
          × (get_user_name seen.resource ≡ get_user_name w.resource)
          × (is_own seen.resource ≡ true → is_own w.resource ≡ true)
    unfolding observe get_user_name
    observe_same w = (ground arith, ground arith, λ own. ground arith)

    look-IsMove : (w : World S User) → Moves w (observe admin kube dial url tls_settings w).1
    look-IsMove w =
        let (outside, name, own) = observe_same w in
        record {
          same_name = name;
          keeps = λ n e. ap (λ s. law.has s n) outside ∙ e;
          claims = λ o. inl (own o);
        }

    change-IsMove :
        (w : World S User)
        → Moves w (update admin kube (observe admin kube dial url tls_settings w).1).1
    change-IsMove w =
        let seen = (observe admin kube dial url tls_settings w).1 in
        let (outside, name, own) = observe_same w in
        let kept = update-resource admin generate law kube seen in
        record {
          same_name = ap get_user_name kept ∙ name;
          keeps = λ n e.
              update-keeps admin generate law kube seen n (ap (λ s. law.has s n) outside ∙ e);
          claims = λ o. inl (own (ap is_own (sym kept) ∙ o));
        }

    make-IsMove :
        (w : World S User)
        → Moves w (create admin generate (observe admin kube dial url tls_settings w).1).1
    make-IsMove w =
        let seen = (observe admin kube dial url tls_settings w).1 in
        let (outside, name, own) = observe_same w in
        let (kept, same) = create_resource admin generate seen in
        record {
          same_name = same ∙ name;
          keeps = λ n e. create-keeps admin generate law seen n (ap (λ s. law.has s n) outside ∙ e);
          claims = λ o. elim kept [
            | inl made ↦
                let (absent, there) = create-adds admin generate law seen made in
                inr (
                  sym (ap (λ s. law.has s (get_user_name w.resource)) outside)
                      ∙ (ap (law.has seen.outside) (sym name) ∙ absent),
                  ap (law.has (create admin generate seen).1.outside) (sym name) ∙ there,
                )
            | inr unchanged ↦ inl (own (ap is_own (sym unchanged) ∙ o))
          ];
        }

    abbrev pub handlers : Handlers S User
    handlers = record {
      observe = observe admin kube dial url tls_settings;
      create = create admin generate;
      update = update admin kube;
    }

    owning : IsOwning handlers
    owning = record {
      is_own = is_own;
      name = get_user_name;
      has = law.has;
      looks = look-IsMove;
      makes = λ w absent. make-IsMove w;
      changes = λ w stale. change-IsMove w;
    }

    -- Whatever reconciliations follow each other, each of one User and as the reconciler makes them, and
    -- as long as no user is removed: from a fleet in which no User is taken for the object's own, no
    -- fleet is reached in which two objects have the same user for their own.
    pub one_user :
        {f g : Fleet S User} (i j : ℕ)
        → ((k : ℕ) → is_own (f.objects k) ≡ false)
        → Reach handlers f g
        → is_own (g.objects i) ≡ true
        → is_own (g.objects j) ≡ true
        → get_user_name (g.objects i) ≡ get_user_name (g.objects j)
        → i ≡ j
    unfolding owning
    one_user = owned_alone handlers owning
