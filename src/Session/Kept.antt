-- ===== src/Session/Kept.antt =====
-- On the scans that the operations of crates/reference-core/src/session.rs start.
use reference_library.Common.{
  ℕ, ◌≡◌, refl, String, Bool, false, not, some, List, [], ◌∷◌, ◌++◌, str_eq, any, subst, Apart,
  Apart-snoc, Apart-keep_if, any-false, arith, Bool-cases, inl, inr,
}
use reference_library.Errors.{root_scan_in_progress, root_not_found, root_permission_required}
use reference_library.Fallible.{Result, ok, err, ok_or, Holds, Holds-ok, Holds->>=, Holds-reject_if}
use reference_library.Protocol.States.{ResourceProfile}
use reference_library.Database.{Db, JobRow, bump_revision}
use reference_library.Editorial.Collections.{validate_uuid}
use reference_library.Server.Engine.{lookup}
use reference_library.Session.Evidence.{validate_root_evidence}
use reference_library.Session.Authority.{Filesystem, AuthorizedRoot, open_root}
use reference_library.Session.State.{
  is_root, LibrarySession, active_in, insert_job, scan_job, connection, committed,
}
use reference_library.Session.Roots.{
  upsert_root, put_under_scan, add_root_in, begin_scan, root_name, chosen_root,
}
use reference_library.Session.Bind.{
  idle_root, connect_root, set_scanning, bind_root_in, scan_bound_root_in,
}
use reference_library.Session.Jobs.{prune_jobs}
use reference_library.Session.Resources.{resource_plan, queued_job, start_resource_in}
use reference_library.Session.OneScan.{collide, collide-right, any_none, collide-active}

insert_job-appends :
    (row : JobRow) (db made : Db) → insert_job row db ≡ ok made → made.jobs ≡ db.jobs ++ (row ∷ [])
unfolding insert_job
insert_job-appends row db made h = elim (Bool-cases (any (λ j. str_eq j.id row.id) db.jobs)) [
  | inl taken ↦ cc (rw (insert_job, taken) at h)
  | inr free ↦ ground (arith, rw (insert_job, free) at h)
]

-- No two scans of one root are under way.
abbrev pub HasOneScan : Db → Type 0
HasOneScan db = Apart collide db.jobs

-- A scan of an idle root goes behind the jobs that are there.
appended-HasOneScan :
    (jobs : List JobRow) (root_id job_id library_id : String) (timestamp : ℕ)
    → any (active_in root_id) jobs ≡ false
    → Apart collide jobs
    → Apart collide (jobs ++ (scan_job job_id library_id root_id timestamp ∷ []))
appended-HasOneScan jobs root_id job_id library_id timestamp idle h =
    let new = scan_job job_id library_id root_id timestamp in
    Apart-snoc collide jobs new
      (any-false (active_in root_id) (active_in root_id) (λ job. collide job new) jobs idle idle
        (λ job k _. collide-active job new root_id refl k))
      h

inserted-HasOneScan :
    (root_id job_id library_id : String) (timestamp : ℕ) (db later : Db)
    → insert_job (scan_job job_id library_id root_id timestamp) db ≡ ok later
    → any (active_in root_id) db.jobs ≡ false
    → HasOneScan db
    → HasOneScan later
inserted-HasOneScan root_id job_id library_id timestamp db later inserted idle one =
    rw (insert_job-appends (scan_job job_id library_id root_id timestamp) db later inserted)
      (appended-HasOneScan db.jobs root_id job_id library_id timestamp idle one)

module _ {File : Type 0} where
  -- The session that is left has no two scans of one root.
  abbrev pub Keeps : {A : Type 0} → Result (A × LibrarySession File) → Type 0
  Keeps made = Holds (λ a. HasOneScan a.1.db) made

  pub committed-HasOneScan :
      {A : Type 0} (session : LibrarySession File) (made : Result (A × LibrarySession File))
      → Keeps made
      → HasOneScan session.db
      → HasOneScan (committed session made).1.db
  unfolding Holds
  committed-HasOneScan session (err cause) k h = h
  committed-HasOneScan session (ok a) k h = k

  connection-db :
      (session : LibrarySession File) (db : Db) → connection session ≡ ok db → db ≡ session.db
  connection-db session db h = ground (arith, h)

  idle_root-db :
      (uuid_parses : String → Bool) (session : LibrarySession File) (root_id : String) (db : Db)
      → idle_root uuid_parses session root_id ≡ ok db
      → db ≡ session.db
  unfolding idle_root Holds
  idle_root-db uuid_parses session root_id db h =
      subst (λ made. Holds (λ found. found ≡ session.db) made) h
        (Holds->>= _ (validate_uuid uuid_parses root_id root_not_found) _ (λ valid _.
          Holds->>= _ (connection session) _ (λ found connected.
            Holds-reject_if _ (not (any (is_root session.library_id root_id) found.roots))
              root_not_found _
              (λ _.
                Holds-reject_if _ (any (active_in root_id) found.jobs) root_scan_in_progress _ (λ _.
                  Holds-ok (λ found. found ≡ session.db) found
                    (connection-db session found connected))))))

  module _ (fs : Filesystem File) where
    begin_scan-Keeps :
        (session : LibrarySession File) (db : Db) (authority : AuthorizedRoot File)
        (name root_id job_id : String) (timestamp : ℕ)
        → HasOneScan db
        → Keeps (begin_scan fs session db authority name root_id job_id timestamp)
    unfolding begin_scan bump_revision put_under_scan upsert_root
    begin_scan-Keeps session db authority name root_id job_id timestamp one =
        Holds-reject_if _ _ _ _ (λ idle.
          Holds->>= _
            (insert_job (scan_job job_id session.library_id root_id timestamp)
              (put_under_scan fs session db authority name root_id timestamp))
            _
            (λ later inserted. Holds-ok _ _ (
              inserted-HasOneScan root_id job_id session.library_id timestamp
                (put_under_scan fs session db authority name root_id timestamp) later inserted idle
                one)))

    pub add_root_in-Keeps :
        (session : LibrarySession File) (path raw new_root_id job_id : String) (timestamp : ℕ)
        → HasOneScan session.db
        → Keeps (add_root_in fs session path raw new_root_id job_id timestamp)
    unfolding add_root_in
    add_root_in-Keeps session path raw new_root_id job_id timestamp one =
        Holds->>= _ _ _ (λ db connected.
          let here : HasOneScan db = rw (connection-db session db connected) one in
          Holds->>= _ (open_root fs path) _ (λ authority _. Holds->>= _ (root_name raw) _ (λ name _.
            Holds->>= _ (chosen_root fs session db authority new_root_id) _ (λ root_id _.
              begin_scan-Keeps session db authority name root_id job_id timestamp here))))

    module _ (uuid_parses : String → Bool) where
      pub bind_root_in-Keeps :
          (session : LibrarySession File) (root_id path : String) (timestamp : ℕ)
          → HasOneScan session.db
          → Keeps (bind_root_in uuid_parses fs session root_id path timestamp)
      unfolding bind_root_in idle_root bump_revision connect_root
      bind_root_in-Keeps session root_id path timestamp one = Holds->>= _ _ _ (λ db idle.
          let here : HasOneScan db = rw (idle_root-db uuid_parses session root_id db idle) one in
          Holds->>= _ (open_root fs path) _ (λ authority _.
            Holds->>= _ (validate_root_evidence fs db root_id authority) _ (λ same _.
              Holds-reject_if _ (any (active_in root_id) db.jobs) root_scan_in_progress _
                (λ _. Holds-ok _ _ here))))

      pub scan_bound_root_in-Keeps :
          (session : LibrarySession File) (root_id job_id : String) (timestamp : ℕ)
          → HasOneScan session.db
          → Keeps (scan_bound_root_in uuid_parses session root_id job_id timestamp)
      unfolding scan_bound_root_in bump_revision set_scanning
      scan_bound_root_in-Keeps session root_id job_id timestamp one =
          Holds->>= _ (validate_uuid uuid_parses root_id root_not_found) _ (λ valid _.
            Holds->>= _ (connection session) _ (λ db connected.
              let here : HasOneScan db = rw (connection-db session db connected) one in
              Holds-reject_if _ (not (any (is_root session.library_id root_id) db.roots))
                root_not_found _
                (λ _.
                  Holds->>= _
                    (ok_or (lookup session.authorized_roots root_id) root_permission_required) _
                    (λ authority _.
                      Holds-reject_if _ (any (active_in root_id) db.jobs) root_scan_in_progress _
                        (λ idle.
                          Holds->>= _
                            (insert_job (scan_job job_id session.library_id root_id timestamp)
                              (set_scanning session root_id timestamp db))
                            _
                            (λ later inserted. Holds-ok _ _ (
                              inserted-HasOneScan root_id job_id session.library_id timestamp
                                (set_scanning session root_id timestamp db) later inserted idle
                                here)))))))

      pub start_resource_in-Keeps :
          (session : LibrarySession File) (asset_id : String) (profile : ResourceProfile)
          (job_id : String) (timestamp : ℕ)
          → HasOneScan session.db
          → Keeps (start_resource_in uuid_parses fs session asset_id profile job_id timestamp)
      unfolding start_resource_in prune_jobs
      start_resource_in-Keeps session asset_id profile job_id timestamp one =
          Holds->>= _ (resource_plan uuid_parses fs session asset_id profile (some job_id)) _
            (λ plan _. Holds->>= _ (connection session) _ (λ db connected.
              let here : HasOneScan db = rw (connection-db session db connected) one in
              let new = queued_job job_id session.library_id plan.root_id timestamp in
              Holds->>= _ (insert_job new db) _ (λ later inserted.
                let there : HasOneScan later = rw (insert_job-appends new db later inserted) (
                  Apart-snoc collide db.jobs new
                    (any_none (λ job. collide job new) db.jobs (λ job. collide-right job new refl))
                    here) in
                Holds-ok _ _ (Apart-keep_if _ collide later.jobs there))))
