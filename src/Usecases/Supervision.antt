-- ===== src/Usecases/Supervision.antt =====
-- The requests and replies of usecases/src/supervision.rs; its effects stand in Alert.
use pm.Base.{Option, List, [], Text, codes, join, Result}
use pm.Usecases.Launch.{StartOutcome}
use pm.Usecases.Messages.{error_message, resolve_message}
use pm.Usecases.Ports.{UsecaseError, SpecResolveError}
use pm.Usecases.Record.{ProcessView}
use pm.Usecases.Selector.{AppSelector, to_string}

pub data SupervisionRequest : Type 0 where
  start : (services : List Text) → SupervisionRequest
  list stop_all : SupervisionRequest
  describe stop restart delete reset : AppSelector → SupervisionRequest
  signal : (selector : AppSelector) (name : Text) → SupervisionRequest

pub data SupervisionReply : Type 0 where
  started :
      (outcomes : List StartOutcome) (refused : List Text) (reason unsaved : Option Text)
      → SupervisionReply
  listed : List ProcessView → SupervisionReply
  described : ProcessView → SupervisionReply
  stopped restarted deleted was_reset : (name : Text) → SupervisionReply
  signalled : (name signal : Text) → SupervisionReply
  stopped_all restarted_all deleted_all reset_all : (names : List Text) → SupervisionReply

pub data SupervisionFailure : Type 0 where
  usecase_failure : UsecaseError → SupervisionFailure
  spec_failure : SpecResolveError → SupervisionFailure

abbrev pub SupervisionOutcome : Type 0
SupervisionOutcome = Result SupervisionReply SupervisionFailure

unfoldable pub failure_message : SupervisionFailure → Text
failure_message (usecase_failure e) = error_message e
failure_message (spec_failure e) = resolve_message e

unfoldable pub action : SupervisionRequest → Text
action (start services) = codes "start"
action list = codes "list"
action (describe selector) = codes "describe"
action (stop selector) = codes "stop"
action (restart selector) = codes "restart"
action (delete selector) = codes "delete"
action (reset selector) = codes "reset"
action (signal selector name) = codes "signal"
action stop_all = codes "stop_all"

unfoldable pub target : SupervisionRequest → Text
target (start services) = join (codes ",") services
target list = []
target stop_all = []
target (describe selector) = to_string selector
target (stop selector) = to_string selector
target (restart selector) = to_string selector
target (delete selector) = to_string selector
target (reset selector) = to_string selector
target (signal selector name) = to_string selector
