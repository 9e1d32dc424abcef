-- ===== src/Session/Authority.antt =====
-- `AuthorizedRoot` and the checks on identifiers and relative paths of
-- crates/reference-core/src/session.rs, on Unix. The file system and the JSON of an identity policy
-- are parameters; a path is the text that `to_string_lossy` makes of it, a path inside a root its bytes.
use reference_library.Common.{
  ℕ, zero, suc, ◌/◌, ◌%◌, ◌^◌, String, Bool, true, false, not, Option, none, some, List, [], ◌∷◌,
  ◌++◌, ◌&&◌, ◌||◌, str_eq, ◌==◌, if◌then◌else◌,
}
use reference_library.Errors.{root_permission_required, root_identity_mismatch, location_missing}
use reference_library.Fallible.{Result, ok, err, ◌>>=◌, ◌>>◌, reject_if, ok_or}

-- What names a directory or a file on its machine.
pub record Identity : Type 0 where
  pub dev : ℕ
  pub ino : ℕ

pub record Metadata : Type 0 where
  pub identity : Identity
  pub is_dir : Bool
  pub len : ℕ

-- `{"authorityIdentity": {"kind", "device", "inode"}}`, where each is there and of its type.
pub record Policy : Type 0 where
  pub kind : Option String
  pub device : Option ℕ
  pub inode : Option ℕ

-- `File` is an open descriptor; `fingerprint` hashes a file of a size before a deadline.
pub record Filesystem (File : Type 0) : Type 0 where
  pub canonicalize : String → Option String
  pub metadata : String → Option Metadata
  pub open_directory : String → Option File
  pub file_metadata : File → Option Metadata
  pub open_relative_file : File → List ℕ → Option File
  pub fingerprint : File → (size : ℕ) → Option String
  pub policy_to_string : Policy → String
  pub policy_from_str : String → Option Policy

pub record AuthorizedRoot (File : Type 0) : Type 0 where
  pub canonical_path : String
  pub directory : File

abbrev pub identity_kind : String
identity_kind = "unix-device-inode-v1"

abbrev pub same_identity : Identity → Identity → Bool
same_identity a b = a.dev == b.dev && a.ino == b.ino

-- `identity[..].as_u64() == Some(n)`
abbrev pub is_number : Option ℕ → ℕ → Bool
is_number none n = false
is_number (some m) n = m == n

abbrev pub is_text : Option String → String → Bool
is_text none t = false
is_text (some s) t = str_eq s t

-- `path.components()` holds a `..`, by the bytes between slashes.
abbrev pub is_parent : List ℕ → Bool
is_parent (a ∷ b ∷ []) = a == b'.' && b == b'.'
is_parent other = false

abbrev pub has_parent : List ℕ → List ℕ → Bool
has_parent before [] = is_parent before
has_parent before (b ∷ bytes) =
    if b == b'/'
    then is_parent before || has_parent [] bytes
    else has_parent (before ++ (b ∷ [])) bytes

abbrev pub is_absolute : List ℕ → Bool
is_absolute [] = false
is_absolute (b ∷ bytes) = b == b'/'

abbrev pub no_bytes : List ℕ → Bool
no_bytes [] = true
no_bytes (b ∷ bytes) = false

unfoldable pub validate_relative : List ℕ → Result (Unit {0})
validate_relative bytes =
    reject_if (no_bytes bytes || is_absolute bytes || has_parent [] bytes) location_missing

module _ {File : Type 0} (fs : Filesystem File) where
  unfoldable pub open_root : String → Result (AuthorizedRoot File)
  open_root path = do
    canonical_path ← ok_or (fs.canonicalize path) root_permission_required
    expected ← ok_or (fs.metadata canonical_path) root_permission_required
    reject_if (not expected.is_dir) root_permission_required
    directory ← ok_or (fs.open_directory canonical_path) root_permission_required
    actual ← ok_or (fs.file_metadata directory) root_permission_required
    reject_if (not (same_identity actual.identity expected.identity)) root_identity_mismatch
    ok (record { canonical_path = canonical_path; directory = directory })

  unfoldable pub open_file : AuthorizedRoot File → List ℕ → Result File
  unfolding validate_relative
  open_file root bytes = do
    validate_relative bytes
    ok_or (fs.open_relative_file root.directory bytes) location_missing

  abbrev pub both_same : Option Metadata → Option Metadata → Bool
  both_same (some left) (some right) = same_identity left.identity right.identity
  both_same left right = false

  unfoldable pub same_directory : AuthorizedRoot File → AuthorizedRoot File → Bool
  same_directory a b = both_same (fs.file_metadata a.directory) (fs.file_metadata b.directory)

  abbrev pub is_ok_and_same : AuthorizedRoot File → Result (AuthorizedRoot File) → Bool
  is_ok_and_same a (ok current) =
      both_same (fs.file_metadata a.directory) (fs.file_metadata current.directory)
  is_ok_and_same a (err cause) = false

  unfoldable pub provider_path_matches_authority : AuthorizedRoot File → Bool
  unfolding open_root
  provider_path_matches_authority a = is_ok_and_same a (open_root a.canonical_path)

  abbrev pub policy_of : Identity → Policy
  policy_of identity = record {
    kind = some identity_kind;
    device = some identity.dev;
    inode = some identity.ino;
  }

  unfoldable pub identity_policy_json : AuthorizedRoot File → String
  identity_policy_json a = elim (fs.file_metadata a.directory) [
    | some metadata ↦ fs.policy_to_string (policy_of metadata.identity)
    | none ↦ "{}"
  ]

  abbrev pub policy_matches : Option Policy → Option Metadata → Bool
  policy_matches (some policy) (some metadata) =
      is_text policy.kind identity_kind
      && is_number policy.device metadata.identity.dev
      && is_number policy.inode metadata.identity.ino
  policy_matches policy metadata = false

  unfoldable pub matches_identity_policy : AuthorizedRoot File → String → Bool
  matches_identity_policy a policy =
      policy_matches (fs.policy_from_str policy) (fs.file_metadata a.directory)

-- `u64::to_be_bytes`: the lowest byte of the first `n` bytes goes last.
abbrev pub to_be_bytes : ℕ → ℕ → List ℕ
to_be_bytes zero value = []
to_be_bytes (suc n) value = (value / (256 ^ n)) % 256 ∷ to_be_bytes n value
