-- ===== src/Api.antt =====
-- src/api.rs: the validation of requests, the merge of an update into a stored configuration, the
-- names and destinations that requests stand for.
pub mod Merge
pub mod MergeLaws
pub mod Taken
pub mod MergeTaken
pub mod Validate
pub mod ValidateLaws
pub mod Assign
pub mod AssignLaws
pub mod Names
pub mod Gateway
pub mod CreateInput
pub mod Delete
pub mod CreateOutput
pub mod Endpoints
pub mod UpdateInput
pub mod UpdateOutput
pub mod Stored
pub mod CreateOutputLaws
pub mod StoredCreate
pub mod StoredOutput
pub mod StoredDelete
pub mod StoredUpdate
pub mod StoredUpdateOutput
pub mod Requests
pub mod LoadInputs
pub mod LoadOutputs
pub mod LoadLaws
pub mod LoadRows
pub mod LoadKept
pub mod LoadComplete
pub mod LoadReads
pub mod LoadSucceeds
pub mod UniqueOutputs
pub mod DeleteLaws
