-- ===== src/Examples/Service.antt =====
-- A service of one open session, which is its name.
use reference_library.Common.{ℕ, ◌≡◌, refl, ◌≤◌, ◌⊎◌, String, false, none, [], ◌∷◌, arith}
use reference_library.Errors.{CoreError, rendition_cache_failure}
use reference_library.Fallible.{Result, ok, err}
use reference_library.Protocol.Limits.{protocol_version}
use reference_library.Protocol.States.{ResourceProfile}
use reference_library.Protocol.Results.{SessionOpened, CollectionSummary}
use reference_library.Protocol.Command.{Command, ClientFrame}
use reference_library.Server.Engine.{CommandEngine, SessionCalls}
use reference_library.Server.Jobs.{Waited}
use reference_library.Server.Api.{SessionApi}
use reference_library.Server.Call.{scan_count, scan_job}
use reference_library.Server.Arms.{Afterwards}
use reference_library.Server.Execute.{execute}
use reference_library.Server.Execute.Capacity.{execute-HasRoom}
use reference_library.Server.Execute.Refused.{IsRefusal, execute-IsRefusal}
use reference_library.Server.Execute.Quiet.{Announces, execute-Announces}
use reference_library.Server.Loop.{Input, Next, receive}
use reference_library.Server.Loop.Answered.{AnswersWith, Accepts, receive-AnswersWith}
use reference_library.Server.Loop.Ended.{receive-no_jobs, receive-eof}

abbrev opened : String → SessionOpened
opened name = record { session_id = "s1"; library_id = "l1"; schema_version = 2; name = name }

abbrev named : String → Result (CollectionSummary × ℕ)
named name = ok (record { collection_id = "c1"; name = name; asset_count = 0; revision = 1 }, 7)

abbrev failed : CoreError
failed = rendition_cache_failure

abbrev api : SessionApi String Unit Unit
api = record {
  create = λ path name. ok name;
  open_at = λ path. ok path;
  opened = opened;
  close = λ s. ok tt;
  add_root = λ s path name. (ok ("r1", "j3"), s);
  query_roots = λ s. ok [];
  reauthorize_root = λ s root path. (err failed, s);
  rescan_root = λ s root. (ok (root, "j3"), s);
  query_assets = λ s offset limit projection. err failed;
  query_asset_index_at_revision = λ s offset limit projection query revision. err failed;
  get_asset = λ s id. err failed;
  update_asset = λ s id revision patch. (err failed, s);
  query_jobs = λ s offset limit query. err failed;
  list_collections = λ s. ok [];
  create_collection = λ s name. (named name, name);
  rename_collection = λ s id revision name. (named name, name);
  delete_collection = λ s id. (ok 8, s);
  set_collection_membership = λ s id ids member. (ok (1, 9), s);
  authorize_resource = λ s id profile. (err failed, s);
  resolve_location = λ s id. err failed;
  canonical_dump = λ s. ok tt;
  canonical_digest = λ s. (err failed, s);
  canonical_page = λ s digest entity cursor limit. (err failed, s);
  job_state = λ s id. ok none;
}

abbrev calls : SessionCalls String
calls = record {
  start_resource = λ s id profile. (ok "j4", s);
  fail_resource_job = λ s id cause. (ok tt, s);
}

abbrev in_time : String → Waited
in_time id = Waited.completed

abbrev engine : CommandEngine String
engine = record {
  sessions = ("s1", "main") ∷ [];
  jobs = ("j1", scan_job "s1") ∷ [];
  events = [];
  event_sequence = 0;
  resource_queue = [];
  running = [];
  responses = [];
  resource_inflight = 0;
}

abbrev frame : Command → ClientFrame
frame command = record { protocol_version = protocol_version; request_id = "q1"; command = command }

execute-HasRoom_example :
    Afterwards
      (λ made. scan_count made.1.jobs ≤ 2)
      (execute api in_time "1.0" false engine (frame (Command.add_root "s1" "/photos" "Photos")))
execute-HasRoom_example =
    execute-HasRoom api in_time "1.0" false engine
      (frame (Command.add_root "s1" "/photos" "Photos")) (omega arith)

execute-IsRefusal_example :
    Afterwards
      (IsRefusal engine)
      (execute api in_time "1.0" false engine (frame (Command.close_library "s2")))
execute-IsRefusal_example =
    execute-IsRefusal api in_time "1.0" false engine (frame (Command.close_library "s2")) "s2" refl
      refl

execute-Announces_example :
    Afterwards
      (Announces engine.events)
      (execute api in_time "1.0" false engine (frame (Command.create_collection "s1" "Sky")))
execute-Announces_example =
    execute-Announces api in_time "1.0" false engine (frame (Command.create_collection "s1" "Sky"))

abbrev authorize : ClientFrame
authorize = frame (Command.authorize_resource "s1" "a1" ResourceProfile.preview)

receive-AnswersWith_example :
    AnswersWith authorize.request_id
      (receive api calls in_time "1.0" false engine (Input.request authorize)).0
    ⊎ Accepts engine (receive api calls in_time "1.0" false engine (Input.request authorize))
unfolding reference_library.Server.Reply.valid_request_id
receive-AnswersWith_example = receive-AnswersWith api calls in_time "1.0" engine authorize refl

receive-no_jobs_example : (record engine { jobs = []; sessions = [] }).jobs ≡ []
unfolding receive reference_library.Server.Reply.valid_request_id execute
    reference_library.Server.Jobs.stop_all_jobs reference_library.Server.Jobs.reap_finished_scans
    reference_library.Server.Jobs.stop_jobs_for_session
receive-no_jobs_example =
    receive-no_jobs api calls in_time "1.0" false engine
      (record engine { jobs = []; sessions = [] }) (Input.request (frame Command.shutdown)) refl

receive-eof_example :
    receive api calls in_time "1.0" false engine Input.eof
    ≡ ([], Next.ends (record engine { jobs = [] }))
receive-eof_example = receive-eof api calls in_time "1.0" false engine (λ id. refl)
