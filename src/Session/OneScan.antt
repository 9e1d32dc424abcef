-- ===== src/Session/OneScan.antt =====
-- On the scans that run at once: the jobs of crates/reference-core/src/session.rs.
use reference_library.Common.{
  ◌≡◌, refl, String, Bool, true, false, Option, none, some, List, [], ◌∷◌, ◌&&◌, str_eq, any,
  eq_iff, Apart, arith, Bool-cases, ||_neither, inl, inr,
}
use reference_library.Database.{JobRow, update_where}
use reference_library.Session.Authority.{is_text}
use reference_library.Session.State.{is_active, active_in}

-- A scan that is queued or running.
abbrev pub scans_now : JobRow → Bool
scans_now job = is_active job && str_eq job.job_kind "initial_scan"

abbrev pub shares_root : Option String → Option String → Bool
shares_root none other = false
shares_root (some root_id) other = is_text other root_id

-- Two scans of one root.
abbrev pub collide : JobRow → JobRow → Bool
collide a b = scans_now a && scans_now b && shares_root a.root_id b.root_id

alone : (job : JobRow) (jobs : List JobRow) → is_active job ≡ false → any (collide job) jobs ≡ false
alone job [] h = refl
alone job (other ∷ jobs) h = rw (h, alone job jobs h) refl

-- Where no job is active no scans collide.
pub Apart-idle : (jobs : List JobRow) → any is_active jobs ≡ false → Apart collide jobs
Apart-idle [] h = tt
Apart-idle (job ∷ jobs) h =
    let both = ||_neither (is_active job) (any is_active jobs) h in
    (alone job jobs both.0, Apart-idle jobs both.1)

shares_root-is_text :
    (a : Option String) (root_id : String) → shares_root a (some root_id) ≡ is_text a root_id
shares_root-is_text none root_id = refl
shares_root-is_text (some x) root_id = ground (arith, eq_iff root_id x, eq_iff x root_id)

idle_apart : (a s n t : Bool) → (t && a) ≡ false → ((a && s) && n && t) ≡ false
idle_apart a s n t h = ground arith

-- A scan of a root without active jobs meets no other.
pub collide-active :
    (job new : JobRow) (root_id : String)
    → new.root_id ≡ some root_id
    → active_in root_id job ≡ false
    → collide job new ≡ false
collide-active job new root_id named idle =
    rw (named, shares_root-is_text job.root_id root_id)
      (idle_apart (is_active job) (str_eq job.job_kind "initial_scan") (scans_now new)
        (is_text job.root_id root_id) idle)

module _ {A : Type 0} (r : A → A → Bool) (p : A → Bool) (f : A → A) where
  any-update_where :
      (a b : A) (xs : List A)
      → ((other : A) → r a other ≡ false → r b other ≡ false)
      → ((other : A) → p other ≡ true → r b other ≡ false → r b (f other) ≡ false)
      → any (r a) xs ≡ false
      → any (r b) (update_where p f xs) ≡ false
  any-update_where a b [] left right h = refl
  any-update_where a b (x ∷ xs) left right h =
      ground (arith, left x, right x, any-update_where a b xs left right)

  -- A change to rows that relates no two of them keeps them apart.
  pub Apart-update_where :
      (xs : List A)
      → ((x y : A) → p x ≡ true → r x y ≡ false → r (f x) y ≡ false)
      → ((x y : A) → p y ≡ true → r x y ≡ false → r x (f y) ≡ false)
      → Apart r xs
      → Apart r (update_where p f xs)
  Apart-update_where [] left right h = tt
  Apart-update_where (x ∷ xs) left right h =
      let rest = Apart-update_where xs left right h.1 in
      elim (Bool-cases (p x)) [
        | inl changed ↦ rw changed (
          any-update_where x (f x) xs (λ other k. left x other changed k) (right (f x)) h.0,
          rest,
        )
        | inr same ↦ rw same (any-update_where x x xs (λ other k. k) (right x) h.0, rest)
      ]

&&_false : (a b : Bool) → (a && false && b) ≡ false
&&_false a b = ground arith

-- A job that is no scan under way collides with none, on either side.
pub collide-left : (x y : JobRow) → scans_now x ≡ false → collide x y ≡ false
collide-left x y h = rw h refl

pub collide-right : (x y : JobRow) → scans_now y ≡ false → collide x y ≡ false
collide-right x y h = rw h (&&_false (scans_now x) (shares_root x.root_id y.root_id))

-- What ends jobs keeps scans apart.
pub Apart-ended :
    (p : JobRow → Bool) (f : JobRow → JobRow) (jobs : List JobRow)
    → ((x : JobRow) → p x ≡ true → scans_now (f x) ≡ false)
    → Apart collide jobs
    → Apart collide (update_where p f jobs)
Apart-ended p f jobs ends h =
    Apart-update_where collide p f jobs (λ x y chosen k. collide-left (f x) y (ends x chosen))
      (λ x y chosen k. collide-right x (f y) (ends y chosen)) h

pub any_none {ℓ} :
    {A : Type ℓ} (q : A → Bool) (xs : List A) → ((x : A) → q x ≡ false) → any q xs ≡ false
any_none q [] h = refl
any_none q (x ∷ xs) h = rw (h x, any_none q xs h) refl
