-- ===== src/Tools/World.antt =====
-- What the tool handlers work on: the kernel and the files of a run; and what they take from outside.
use pluto_agent_platform.Common.{String, Bool, Option, none, some, List, if◌then◌else◌}
use pluto_agent_platform.Common.Dict.{lookup, insert}
use pluto_agent_platform.Protocol.Actor.{ActorRef}
use pluto_agent_platform.Protocol.Parse.{Value}
use pluto_agent_platform.Kernel.Host.{Host, Kernel}

-- `PlutoToolHandlerDeps`, and the file system behind its sidecars. `iso_string` is
-- `new Date(text).toISOString()`, which throws on a text that is no date. Whether a file can be
-- written is the file system's matter. `schema_summary` is the text of zod's issues.
pub record Deps : Type 0 where
  pub host : Host
  pub open host use *
  pub run_id : String
  pub schema_version : String
  pub iso_string : String → Option String
  pub artifact_path : String → String
  pub writable : String → Bool
  pub transcript : String → String
  pub prompt_view : Kernel → ActorRef → Value
  pub schema_summary : Value → String

-- The kernel, the artifact files by their ids and `evidence/final-reconciliation.json`.
pub record World : Type 0 where
  pub kernel : Kernel
  pub artifacts : List (String × String)
  pub evidence : Option Value

pub record PlutoToolSession : Type 0 where
  pub current_actor : ActorRef
  pub is_lead : Bool
  pub run_dir : Option String

pub data ToolErrorCode : Type 0 where
  bad_args lead_only internal : ToolErrorCode

-- `PlutoToolResult`. The first chunk of its content is a JSON text, which every reader parses again, or a
-- plain text. The details of an error are left out.
pub data PlutoToolResult : Type 0 where
  ok_json : Value → PlutoToolResult
  ok_text : String → PlutoToolResult
  error : ToolErrorCode → String → PlutoToolResult

abbrev pub Handler : Type 0
Handler = PlutoToolSession → Value → World → PlutoToolResult × World

-- `artifactSidecar.write`: the path, or nothing where it throws.
unfoldable pub write_artifact : Deps → String → String → World → Option String × World
unfolding insert
write_artifact d id body w =
    if d.writable (d.artifact_path id)
    then (some (d.artifact_path id), record w { artifacts = insert id body w.artifacts })
    else (none, w)

unfoldable pub read_artifact_file : World → String → Option String
unfolding lookup
read_artifact_file w id = lookup id w.artifacts
