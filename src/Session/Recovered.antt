-- ===== src/Session/Recovered.antt =====
-- On opening a Library: recover_interrupted_scan and mark_linked_roots_unbound of
-- crates/reference-core/src/session.rs.
use reference_library.Common.{
  ℕ, ◌≡◌, refl, String, Bool, true, false, not, List, [], ◌∷◌, ◌&&◌, ◌||◌, str_eq, any,
  if◌then◌else◌, arith, Bool-cases, inl, inr,
}
use reference_library.Database.{Db, RootRow, update_where, bump_revision}
use reference_library.Session.State.{LibrarySession, is_active}
use reference_library.Session.Bind.{
  opened_session, is_scanning, is_linked, recover_interrupted_scan, mark_linked_roots_unbound,
}
use reference_library.Session.Ledger.{recovered_idle}

-- A root that a new session may not use: it is being scanned, or linked and said to be reachable.
abbrev pub is_unsafe : RootRow → Bool
is_unsafe r =
    is_scanning r
    || (is_linked r && not (str_eq r.state "needs_permission" || str_eq r.state "error"))

abbrev set_state : (state : String) → (timestamp : ℕ) → RootRow → RootRow
set_state state timestamp r = record r { state = state; updated_at_ms = timestamp }

&&_last : (a : Bool) → (a && false) ≡ false
&&_last a = ground arith

not_unsafe : (a b : Bool) → (a && not (b || true)) ≡ false
not_unsafe a b = ground arith

safe_row :
    (a b : ℕ) (r : RootRow)
    → (let s = if is_scanning r then set_state "error" a r else r in
        is_unsafe (
          if is_linked s && not (str_eq s.state "error")
          then set_state "needs_permission" b s
          else s))
      ≡ false
safe_row a b r = elim (Bool-cases (is_linked r)) [
  | inl linked ↦ elim (Bool-cases (is_scanning r)) [
    | inl scanning ↦ rw (scanning, linked) (&&_last _)
    | inr still ↦
        rw (still, linked)
          (elim (Bool-cases (str_eq r.state "error")) [
            | inl failed ↦ rw (failed, still, failed) (not_unsafe _ _)
            | inr fine ↦ rw fine (&&_last _)
          ])
  ]
  | inr embedded ↦ elim (Bool-cases (is_scanning r)) [
    | inl scanning ↦ rw (scanning, embedded) (rw embedded refl)
    | inr still ↦ rw (still, embedded, still, embedded) refl
  ]
]

safe_rows :
    (a b : ℕ) (rows : List RootRow)
    → any is_unsafe (
        update_where
          (λ r. is_linked r && not (str_eq r.state "error"))
          (set_state "needs_permission" b)
          (update_where is_scanning (set_state "error" a) rows))
      ≡ false
safe_rows a b [] = refl
safe_rows a b (r ∷ rows) = rw (safe_row a b r) (safe_rows a b rows)

-- A Library that has been opened has no active job and no root that is being scanned, and every
-- linked root of it needs a new permission or is in error.
pub opened_session-safe :
    (File : Type 0) (session_id library_id : String) (recovered_at unbound_at : ℕ) (db : Db)
    → let session : LibrarySession File =
        opened_session session_id library_id recovered_at unbound_at db in
      (any is_active session.db.jobs ≡ false) × (any is_unsafe session.db.roots ≡ false)
unfolding opened_session mark_linked_roots_unbound recover_interrupted_scan bump_revision
opened_session-safe File session_id library_id recovered_at unbound_at db = (
  recovered_idle recovered_at unbound_at db,
  elim (Bool-cases (any is_active db.jobs || any is_scanning db.roots)) [
    | inl changed ↦
        rw (recover_interrupted_scan, changed) (safe_rows recovered_at unbound_at db.roots)
    | inr nothing ↦
        rw (recover_interrupted_scan, nothing) (safe_rows recovered_at unbound_at db.roots)
  ],
)
