-- ===== src/Testreporter/Messages.antt =====
-- The messages of testreporter/messages.go, one record for each struct. A time is a number of
-- nanoseconds; a nil slice and an empty one are the same list.
use interchaintest.Base.{String, Bool, List, ℤ}

abbrev pub Time : Type 0
Time = ℤ

pub record BeginSuiteMessage : Type 0 where
  pub started_at : Time

pub record FinishSuiteMessage : Type 0 where
  pub finished_at : Time

pub record BeginTestMessage : Type 0 where
  pub name : String
  pub started_at : Time

pub record FinishTestMessage : Type 0 where
  pub name : String
  pub finished_at : Time
  pub failed : Bool
  pub skipped : Bool

pub record PauseTestMessage : Type 0 where
  pub name : String
  pub at : Time

pub record ContinueTestMessage : Type 0 where
  pub name : String
  pub at : Time

pub record TestErrorMessage : Type 0 where
  pub name : String
  pub at : Time
  pub message : String

pub record TestSkipMessage : Type 0 where
  pub name : String
  pub at : Time
  pub message : String

pub record RelayerExecMessage : Type 0 where
  pub name : String
  pub started_at : Time
  pub finished_at : Time
  pub container_name : String
  pub command : List String
  pub stdout : String
  pub stderr : String
  pub exit_code : ℤ
  pub error : String

-- `Message`: an interface that these nine structs implement.
pub data Message : Type 0 where
  begin_suite : BeginSuiteMessage → Message
  finish_suite : FinishSuiteMessage → Message
  begin_test : BeginTestMessage → Message
  finish_test : FinishTestMessage → Message
  pause_test : PauseTestMessage → Message
  continue_test : ContinueTestMessage → Message
  test_error : TestErrorMessage → Message
  test_skip : TestSkipMessage → Message
  relayer_exec : RelayerExecMessage → Message

-- `typ`
unfoldable pub typ : Message → String
typ (begin_suite m) = "BeginSuite"
typ (finish_suite m) = "FinishSuite"
typ (begin_test m) = "BeginTest"
typ (finish_test m) = "FinishTest"
typ (pause_test m) = "PauseTest"
typ (continue_test m) = "ContinueTest"
typ (test_error m) = "TestError"
typ (test_skip m) = "TestSkip"
typ (relayer_exec m) = "RelayerExec"

-- `WrappedMessage`
pub record WrappedMessage : Type 0 where
  pub type_name : String
  pub message : Message

-- `JSONMessage`
unfoldable pub json_message : Message → WrappedMessage
json_message m = record { type_name = typ m; message = m }
