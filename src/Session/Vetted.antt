-- ===== src/Session/Vetted.antt =====
-- On the plans of resource_plan, crates/reference-core/src/session.rs.
use reference_library.Common.{
  ◌≡◌, refl, ◌≤◌, subst, String, Bool, true, false, not, Option, some, List, [], ◌∷◌, ◌||◌, ◌&&◌,
  ltb, any, str_eq, arith, Bool-cases, Option-cases, inl, inr,
}
use reference_library.Errors.{
  CoreError, source_revision_changed, unsupported_preview, resource_too_large, asset_not_found,
}
use reference_library.Fallible.{ok, ok_or, reject_if, Holds, Holds-ok, Holds->>=, Holds-reject_if}
use reference_library.Protocol.States.{ResourceProfile}
use reference_library.Server.Engine.{lookup, is_present}
use reference_library.Session.Authority.{Filesystem, AuthorizedRoot, open_file}
use reference_library.Session.State.{LibrarySession, connection}
use reference_library.Session.Resources.{
  Candidate, ResourcePlan, max_source_bytes, is_present_location, mime_supported, plan_of, vetted,
  pick, candidates, reject_path_shaped_id, resource_plan,
}

negated : (b : Bool) → not b ≡ false → b ≡ true
negated b h = ground arith

guarded :
    (P : Unit {0} → Type 0) (test : Bool) (cause : CoreError)
    → (test ≡ false → P tt)
    → Holds P (reject_if test cause)
unfolding Holds
guarded P false cause f = f refl
guarded P true cause f = tt

module _ {File : Type 0} (uuid_parses : String → Bool) (fs : Filesystem File)
    (session : LibrarySession File) (asset_id : String) (profile : ResourceProfile)
    (job_id : Option String) where
  -- A plan for the asset and the profile that are asked for, of a media type that the profile has, within
  -- the size limit, and with a root that the session may read.
  pub record IsVetted (plan : ResourcePlan File) : Type 0 where
    pub asset : plan.asset_id ≡ asset_id
    pub asked : plan.profile ≡ profile
    pub supported : mime_supported profile plan.source_mime_type ≡ true
    pub bounded : plan.source_length ≤ max_source_bytes
    pub authorized : is_present (lookup session.authorized_roots plan.root_id) ≡ true

  Fits : Candidate → Type 0
  Fits c =
      (mime_supported profile c.revision.mime_detected ≡ true)
      × (c.revision.byte_size ≤ max_source_bytes)

  vetted-Fits :
      (c : Candidate) (done : Unit {0}) → vetted uuid_parses fs profile c ≡ ok done → Fits c
  unfolding Fits Holds
  vetted-Fits c done h =
      subst (λ made. Holds (λ _. Fits c) made) h
        (Holds-reject_if (λ _. Fits c)
          (not (
            uuid_parses c.location.id
            && uuid_parses c.location.root_id
            && uuid_parses c.revision.id))
          source_revision_changed _
          (λ _.
            Holds-reject_if (λ _. Fits c) (not (mime_supported profile c.revision.mime_detected))
              unsupported_preview _
              (λ mime.
                guarded (λ _. Fits c) (ltb max_source_bytes c.revision.byte_size) resource_too_large
                  (λ size. (negated _ mime, ground (arith, size))))))

  plan_of-IsVetted :
      (c : Candidate) (authority : AuthorizedRoot File)
      → Fits c
      → lookup session.authorized_roots c.location.root_id ≡ some authority
      → Holds IsVetted (plan_of uuid_parses fs c asset_id profile job_id authority)
  unfolding Fits
  plan_of-IsVetted c authority fits there =
      Holds->>= IsVetted (open_file fs authority c.location.relative_path) _ (λ file _.
        Holds->>= IsVetted (ok_or c.revision.quick_fingerprint source_revision_changed) _
          (λ fingerprint _. Holds-ok IsVetted _ (record {
            asset = refl;
            asked = refl;
            supported = fits.0;
            bounded = fits.1;
            authorized = rw there refl;
          })))

  pick-IsVetted :
      (saw_present : Bool) (cs : List Candidate)
      → Holds IsVetted (pick uuid_parses fs session asset_id profile job_id saw_present cs)
  unfolding pick Holds
  pick-IsVetted saw_present [] = tt
  pick-IsVetted saw_present (c ∷ cs) =
      Holds->>= IsVetted (vetted uuid_parses fs profile c) _ (λ done passed.
        elim (Bool-cases (is_present_location c.location)) [
          | inr elsewhere ↦ rw elsewhere (pick-IsVetted (saw_present || false) cs)
          | inl here ↦
              rw here (elim (Option-cases (lookup session.authorized_roots c.location.root_id)) [
                | inl unknown ↦
                    rw unknown (pick-IsVetted (saw_present || is_present_location c.location) cs)
                | inr (authority, there) ↦
                    rw there (plan_of-IsVetted c authority (vetted-Fits c done passed) there)
              ])
        ])

  -- A plan that is made is for the asset and the profile that are asked for, of a media type
  -- that the profile has, within the limit on a source, and of a root that the session may read.
  pub resource_plan-IsVetted :
      (plan : ResourcePlan File)
      → resource_plan uuid_parses fs session asset_id profile job_id ≡ ok plan
      → IsVetted plan
  unfolding resource_plan Holds
  resource_plan-IsVetted plan h =
      subst (λ made. Holds IsVetted made) h
        (Holds->>= IsVetted (reject_path_shaped_id asset_id) _ (λ shaped _.
          Holds-reject_if IsVetted (not (uuid_parses asset_id)) asset_not_found _ (λ _.
            Holds->>= IsVetted (connection session) _ (λ db _.
              Holds-reject_if IsVetted
                (not (
                  any (λ a. str_eq a.id asset_id && str_eq a.library_id session.library_id)
                    db.assets))
                asset_not_found _ (λ _. pick-IsVetted false (candidates db asset_id))))))
