-- ===== src/Execution.antt =====
-- src/core/execution-runtime.js: the dry run of a listed command, behind an approval. What a run does to the
-- outside is the list of its effects: progress events that it appends, and commands that it executes. The
-- engine's `execFileSync` and its test of a JSON text are arguments. A command id that names a property
-- of `Object.prototype` is not modelled.
pub mod Guard
mod Tests
use gpao_t.Prelude.{
  String, Bool, true, false, not, ◌&&◌, ◌||◌, Option, none, some, List, [], ◌∷◌, ◌++◌, ◌==◌,
  if◌then◌else◌, or_text, append, collect, is_empty, is_none, is_text, trim, join, Outcome,
  returned, threw,
}

pub record Command : Type 0 where
  pub program : String
  pub args : List String
  pub label : String
  pub expected_mutation : Bool
  pub recursive_surface : Bool

pub record Env : Type 0 where
  pub now : String
  pub millis : String
  pub exec_path : String
  pub cli_path : String
  pub execute : String → List String → Outcome String
  pub is_json : String → Bool

-- `SAFE_DRY_RUN_COMMANDS`
abbrev pub safe_commands : Env → List (String × Command)
safe_commands env =
    (
      "model-invocation-check",
      record {
        program = env.exec_path;
        args = env.cli_path ∷ "adapters" ∷ "model-invocation-check" ∷ [];
        label = "Model invocation check";
        expected_mutation = false;
        recursive_surface = false;
      },
    )
    ∷ (
      "work-surface-check",
      record {
        program = env.exec_path;
        args = env.cli_path ∷ "control" ∷ "work-surface-check" ∷ [];
        label = "Work Surface check";
        expected_mutation = false;
        recursive_surface = true;
      },
    )
    ∷ (
      "stage-4-production-hardening-check",
      record {
        program = env.exec_path;
        args = env.cli_path ∷ "control" ∷ "stage-4-production-hardening-check" ∷ [];
        label = "Stage 4 production hardening check";
        expected_mutation = false;
        recursive_surface = false;
      },
    )
    ∷ []

abbrev pub command_in : String → List (String × Command) → Option Command
command_in id [] = none
command_in id ((key, c) ∷ commands) = if key == id then some c else command_in id commands

unfoldable pub find_command : Env → String → Option Command
find_command env id = command_in id (safe_commands env)

-- An approval: `confirmed` and `allow_recursive` say whether the field is `true`, an absent text is the empty
-- one where it is only a default, and `allow_mutation` is none where it is no Boolean.
pub record Approval : Type 0 where
  pub confirmed : Bool
  pub command_id : Option String
  pub authority_tier : Option String
  pub allow_mutation : Option Bool
  pub allow_recursive : Bool
  pub session_key : String
  pub run_id : String

abbrev pub is_exactly_false : Option Bool → Bool
is_exactly_false none = false
is_exactly_false (some b) = not b

unfoldable pub approval_checks : (id : String) → Option Command → Approval → List (Bool × String)
approval_checks id command a =
    (is_none command, "unknown_command")
    ∷ (not a.confirmed, "confirmation_missing")
    ∷ (not (is_text a.command_id id), "command_scope_mismatch")
    ∷ (not (is_text a.authority_tier "dry_run"), "authority_tier_not_dry_run")
    ∷ (not (is_exactly_false a.allow_mutation), "mutation_not_blocked")
    ∷ []

-- `verifyExecutionRuntimeApproval`, its findings.
unfoldable pub verify_approval : Env → (id : String) → Approval → List String
unfolding approval_checks find_command
verify_approval env id a = collect (approval_checks id (find_command env id) a)

pub data ProgressStatus : Type 0 where
  stopped running complete error : ProgressStatus

pub record Progress : Type 0 where
  pub run_id : String
  pub session_key : String
  pub tool_name : String
  pub status : ProgressStatus
  pub summary : String
  pub command : Option String

pub data Effect : Type 0 where
  noted : Progress → Effect
  executed : (program : String) → (args : List String) → Effect

-- `renderCommand`
unfoldable pub render_command : Command → String
render_command c = join " " (c.program ∷ c.args)

abbrev pub tool_name_of : (id : String) → Option Command → String
tool_name_of id none = id
tool_name_of id (some c) = or_text c.label id

abbrev pub rendered : Option Command → Option String
rendered none = none
rendered (some c) = some (render_command c)

-- `appendExecutionProgress`, the event that it hands on.
unfoldable pub progress_of :
    Env → (id : String) → Approval → Option Command → ProgressStatus → (summary : String) → Progress
unfolding render_command
progress_of env id a command status summary = record {
  run_id = or_text a.run_id (append "execution-runtime." (append env.millis (append "." id)));
  session_key = or_text a.session_key "agent:main:main";
  tool_name = tool_name_of id command;
  status = status;
  summary = summary;
  command = rendered command;
}

pub data Output : Type 0 where
  empty : Output
  json text failure : String → Output

-- `parseJsonOrText`
unfoldable pub parse_output : Env → String → Output
parse_output env stdout =
    let t = trim stdout in if t == "" then empty else if env.is_json t then json t else text t

pub data InvocationStatus : Type 0 where
  blocked failed_dry_run_invocation completed_dry_run_invocation : InvocationStatus

pub record Invocation : Type 0 where
  pub status : InvocationStatus
  pub command_id : String
  pub findings : List String
  pub progress_events : List Progress
  pub output : Option Output

-- An answer that ran nothing, with its one event.
unfoldable pub blocked_with :
    (id : String) → (findings : List String) → Progress → Invocation × List Effect
blocked_with id findings p = (
  record {
    status = blocked;
    command_id = id;
    findings = findings;
    progress_events = p ∷ [];
    output = none;
  },
  noted p ∷ [],
)

-- The answer after the execution of a command, whose result is at hand.
unfoldable pub ran_with :
    Env
    → (id : String) → Approval
    → Command
    → (findings : List String) → Outcome String
    → Invocation × List Effect
unfolding progress_of parse_output
ran_with env id a c findings (returned stdout) =
    let started = progress_of env id a (some c) running (append c.label " dry-run을 실행 중입니다.") in
    let ended = progress_of env id a (some c) complete (append c.label " dry-run이 통과했습니다.") in
    (
      record {
        status = completed_dry_run_invocation;
        command_id = id;
        findings = findings;
        progress_events = started ∷ ended ∷ [];
        output = some (parse_output env stdout);
      },
      noted started ∷ executed c.program c.args ∷ noted ended ∷ [],
    )
ran_with env id a c findings (threw message) =
    let started = progress_of env id a (some c) running (append c.label " dry-run을 실행 중입니다.") in
    let ended = progress_of env id a (some c) error (append c.label " dry-run이 실패했습니다.") in
    (
      record {
        status = failed_dry_run_invocation;
        command_id = id;
        findings = findings;
        progress_events = started ∷ ended ∷ [];
        output = some (failure message);
      },
      noted started ∷ executed c.program c.args ∷ noted ended ∷ [],
    )

-- The branches of `invokeExecutionRuntimeDryRun` after the command was looked up.
unfoldable pub invoke_command :
    Env
    → (id : String) → Approval
    → (findings : List String) → Option Command
    → Invocation × List Effect
unfolding blocked_with ran_with
invoke_command env id a findings none =
    blocked_with id findings (progress_of env id a none stopped "알 수 없는 dry-run 명령이라 실행하지 않았습니다.")
invoke_command env id a findings (some c) =
    if not (is_empty findings)
    then blocked_with id findings
        (progress_of env id a (some c) stopped "승인 조건이 맞지 않아 dry-run 실행을 차단했습니다.")
    else if c.recursive_surface && not a.allow_recursive
    then blocked_with id (findings ++ "recursive_surface_command_requires_explicit_approval" ∷ [])
        (progress_of env id a (some c) stopped "재귀 표면 dry-run은 별도 승인이 없어 실행하지 않았습니다.")
    else ran_with env id a c findings (env.execute c.program c.args)

-- `invokeExecutionRuntimeDryRun`
unfoldable pub invoke_dry_run : Env → (id : String) → Approval → Invocation × List Effect
unfolding invoke_command verify_approval
invoke_dry_run env id a = invoke_command env id a (verify_approval env id a) (find_command env id)
