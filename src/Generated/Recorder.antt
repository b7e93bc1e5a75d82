-- ===== src/Generated/Recorder.antt =====
-- `createRecorder` of controller.go, the same for the two kinds: the event recorder of the context,
-- or a new one. `Rc` stands for recorders, `B` for broadcasters, `Wt` for watches.
use test_concurrent_reconcil.Base.{String, Option, none, some, List, [], ◌∷◌}
use test_concurrent_reconcil.Kube.{M, pure, ◌>>=◌, ◌>>◌}

-- What the code calls of client-go and knative.dev/pkg. `start_recording_to_sink` has the event
-- client of the context; `when_done` runs an action in a goroutine once the context is done.
pub record Recording (W Rc B Wt : Type 0) : Type 0 where
  pub get_event_recorder : Option Rc
  pub new_broadcaster : M W B
  pub start_logging : B → M W Wt
  pub start_recording_to_sink : B → M W Wt
  pub new_recorder : B → String → M W Rc
  pub stop : Wt → M W (Unit {0})
  pub when_done : M W (Unit {0}) → M W (Unit {0})

module _ {W Rc B Wt : Type 0} (lib : Recording W Rc B Wt) where
  abbrev pub stop_all : List Wt → M W (Unit {0})
  stop_all [] = pure tt
  stop_all (w ∷ watches) = lib.stop w >> stop_all watches

  abbrev pub recorder_or_new : String → Option Rc → M W Rc
  recorder_or_new agent_name (some recorder) = pure recorder
  recorder_or_new agent_name none = do
    event_broadcaster ← lib.new_broadcaster
    logging ← lib.start_logging event_broadcaster
    recording ← lib.start_recording_to_sink event_broadcaster
    recorder ← lib.new_recorder event_broadcaster agent_name
    lib.when_done (stop_all (logging ∷ recording ∷ []))
    pure recorder

  unfoldable pub job_create_recorder : String → M W Rc
  job_create_recorder agent_name = recorder_or_new agent_name lib.get_event_recorder

  unfoldable pub run_create_recorder : String → M W Rc
  run_create_recorder agent_name = recorder_or_new agent_name lib.get_event_recorder
