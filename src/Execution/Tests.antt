-- ===== src/Execution/Tests.antt =====
-- A dry run with an approval, and the recursive one without its own.
use gpao_t.Prelude.{String, true, false, ◌≡◌, refl, some, [], ◌∷◌, returned}
use gpao_t.Execution.{Env, Approval, invoke_dry_run}
use gpao_t.Execution.Guard.{Guarded, invoke_dry_run-Guarded}

abbrev env : Env
env = record {
  now = "2026-06-01T09:00:00.000Z";
  millis = "1780304400000";
  exec_path = "node";
  cli_path = "bin/gpao-t.js";
  execute = λ program args. returned "ok";
  is_json = λ text. false;
}

abbrev approval : (id : String) → Approval
approval id = record {
  confirmed = true;
  command_id = some id;
  authority_tier = some "dry_run";
  allow_mutation = some false;
  allow_recursive = false;
  session_key = "";
  run_id = "";
}

recursive_run :
    (invoke_dry_run env "work-surface-check" (approval "work-surface-check")).0.findings
    ≡ "recursive_surface_command_requires_explicit_approval" ∷ []
unfolding invoke_dry_run
recursive_run = refl

invoke_dry_run-Guarded_example :
    Guarded env "model-invocation-check"
      (approval "model-invocation-check")
      (invoke_dry_run env "model-invocation-check" (approval "model-invocation-check"))
invoke_dry_run-Guarded_example =
    invoke_dry_run-Guarded env "model-invocation-check" (approval "model-invocation-check")
