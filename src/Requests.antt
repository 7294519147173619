-- ===== src/Requests.antt =====
-- internal/server/params.go: the requests of the tools that are modelled. The JSON tags are left out; an
-- address that the server has parsed is a number below 2^64, and an `int` is an integer.
use ida_pilot.Common.{ℕ, String, Bool, List}
use ida_pilot.Common.Int.{ℤ}

pub record GetFunctionsRequest : Type 0 where
  pub session_id : String
  pub offset : ℤ
  pub limit : ℤ
  pub regex : String
  pub case_sens : Bool
  pub named_only : Bool

pub record GetImportsRequest : Type 0 where
  pub session_id : String
  pub offset : ℤ
  pub limit : ℤ
  pub of_module : String
  pub regex : String
  pub case_sens : Bool

pub record GetExportsRequest : Type 0 where
  pub session_id : String
  pub offset : ℤ
  pub limit : ℤ
  pub regex : String
  pub case_sens : Bool

pub record GetStringsRequest : Type 0 where
  pub session_id : String
  pub offset : ℤ
  pub limit : ℤ
  pub regex : String
  pub case_sens : Bool

pub record GetSegmentsRequest : Type 0 where
  pub session_id : String

pub record GetEntryPointRequest : Type 0 where
  pub session_id : String

pub record SetCommentRequest : Type 0 where
  pub session_id : String
  pub address : ℕ
  pub comment : String
  pub scope : String
  pub repeatable : Bool
  pub function_address : ℕ

pub record SetNameRequest : Type 0 where
  pub session_id : String
  pub address : ℕ
  pub name : String

pub record DeleteNameRequest : Type 0 where
  pub session_id : String
  pub address : ℕ

pub record SetLvarTypeRequest : Type 0 where
  pub session_id : String
  pub function_address : ℕ
  pub lvar_name : String
  pub lvar_type : String

pub record SetGlobalTypeRequest : Type 0 where
  pub session_id : String
  pub address : ℕ
  pub type : String

pub record SetFunctionTypeRequest : Type 0 where
  pub session_id : String
  pub address : ℕ
  pub prototype : String

pub record GetGlobalsRequest : Type 0 where
  pub session_id : String
  pub regex : String
  pub case_sensitive : Bool
  pub offset : ℤ
  pub limit : ℤ

pub record GetStructsRequest : Type 0 where
  pub session_id : String
  pub name : String
  pub regex : String
  pub case_sensitive : Bool

pub record GetEnumsRequest : Type 0 where
  pub session_id : String
  pub name : String
  pub regex : String
  pub case_sensitive : Bool

pub record FindBinaryRequest : Type 0 where
  pub session_id : String
  pub start : ℕ
  pub end : ℕ
  pub pattern : String
  pub search_up : Bool

pub record FindTextRequest : Type 0 where
  pub session_id : String
  pub start : ℕ
  pub end : ℕ
  pub needle : String
  pub case_sensitive : Bool
  pub unicode : Bool

pub record ImportIl2cppRequest : Type 0 where
  pub session_id : String
  pub script_path : String
  pub il2cpp_path : String
  pub fields : List String

pub record ImportFlutterRequest : Type 0 where
  pub session_id : String
  pub meta_json_path : String

pub record QueryRequest : Type 0 where
  pub session_id : String
  pub category : String
  pub regex : String
  pub case_sensitive : Bool
  pub offset : ℤ
  pub limit : ℤ
  pub named_only : Bool
  pub of_module : String
  pub name : String

pub record GetReferencesRequest : Type 0 where
  pub session_id : String
  pub address : String
  pub mode : String
  pub direction : String

pub record SearchRequest : Type 0 where
  pub session_id : String
  pub mode : String
  pub needle : String
  pub case_sensitive : Bool
  pub unicode : Bool
  pub pattern : String
  pub search_up : Bool
  pub start : String
  pub end : String

pub record CrossReferenceRequest : Type 0 where
  pub source_session_id : String
  pub target_session_id : String
  pub address : String

pub record CrossSearchRequest : Type 0 where
  pub session_ids : List String
  pub mode : String
  pub regex : String
  pub needle : String
  pub limit : ℤ

pub record SetMetadataRequest : Type 0 where
  pub session_id : String
  pub address : String
  pub action : String
  pub name : String
  pub comment : String
  pub scope : String
  pub repeatable : Bool
  pub function_address : String

pub record SetTypeRequest : Type 0 where
  pub session_id : String
  pub address : String
  pub target : String
  pub type : String
  pub prototype : String
  pub function_address : String
  pub lvar_name : String

pub record ImportMetadataRequest : Type 0 where
  pub session_id : String
  pub format : String
  pub script_path : String
  pub il2cpp_path : String
  pub fields : List String
  pub meta_json_path : String

pub record GetXrefsRequest : Type 0 where
  pub session_id : String
  pub address : ℕ
  pub direction : String

pub record DataRefRequest : Type 0 where
  pub session_id : String
  pub address : ℕ

pub record StringXrefRequest : Type 0 where
  pub session_id : String
  pub address : ℕ
