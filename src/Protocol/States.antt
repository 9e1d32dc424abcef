-- ===== src/Protocol/States.antt =====
-- The enumerations of crates/reference-protocol/src/lib.rs and their spellings.
use reference_library.Common.{String}

pub data AssetProjection : Type 0 where
  contact_sheet_tiny contact_sheet_standard contact_sheet_detailed : AssetProjection

pub data JobState : Type 0 where
  queued running completed failed cancelled : JobState

-- `JobState::as_str`
unfoldable pub job_state_as_str : JobState → String
job_state_as_str JobState.queued = "queued"
job_state_as_str JobState.running = "running"
job_state_as_str JobState.completed = "completed"
job_state_as_str JobState.failed = "failed"
job_state_as_str JobState.cancelled = "cancelled"

pub data AssetSort : Type 0 where
  created_ascending created_descending name_ascending name_descending : AssetSort
  size_ascending size_descending review_state : AssetSort

pub data ReviewState : Type 0 where
  unreviewed keep maybe reject : ReviewState

-- `ReviewState::as_str`
unfoldable pub review_state_as_str : ReviewState → String
review_state_as_str ReviewState.unreviewed = "unreviewed"
review_state_as_str ReviewState.keep = "keep"
review_state_as_str ReviewState.maybe = "maybe"
review_state_as_str ReviewState.reject = "reject"

pub data AvailabilityFilter : Type 0 where
  present missing needs_permission unavailable offline_volume : AvailabilityFilter
  unreadable unsupported : AvailabilityFilter

pub data ResourceProfile : Type 0 where
  grid_standard preview : ResourceProfile

pub data CancellationState : Type 0 where
  cancellation_requested already_terminal unknown_job : CancellationState

pub data CanonicalEntity : Type 0 where
  library roots sources source_revisions locations asset_origins assets : CanonicalEntity
  collections collection_memberships : CanonicalEntity
