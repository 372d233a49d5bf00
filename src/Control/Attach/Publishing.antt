-- ===== src/Control/Attach/Publishing.antt =====
-- internal/workforce/control/attach.go, `RunAttach`, from step 7: the manifest and its file.
use agents_coworkers.Prelude.{ℕ, true, false, String, Option, none, some}
use agents_coworkers.Recovery.Errors.{Error, Result, ok, err}
use agents_coworkers.Recovery.Lease.{Dir}
use agents_coworkers.Control.Types.{RunManifest}
use agents_coworkers.Control.Manifest.{read_manifest}
use agents_coworkers.Control.Manifest.Writing.{content_at, to_option, write_manifest_atomic}
use agents_coworkers.Control.Attempt.{Attempt, done, exits}
use agents_coworkers.Control.Attach.{AttachOptions, Site, Findings}
use agents_coworkers.Control.Attach.Reading.{gather}

module _ (h : Site) where
  -- 7. The manifest.
  unfoldable pub manifest_of : Findings → RunManifest
  manifest_of f = record {
    schema_version = "run-manifest/v1-draft";
    run_id = (f.spec).run_id;
    run_spec_sha256 = f.spec_sha256;
    generated_at = h.now;
    generated_by = "coworkers attach";
    target = record {
      target_root = f.root;
      execution_workspace = f.workspace;
      baseline_sha = (f.spec).target.baseline_sha;
      current_head = (f.worktree).head;
      branch = (f.session).branch;
      repository_identity = f.repository;
    };
    endpoints = record {
      ao_url = (f.ao).url;
      ao_identity = (f.ao).identity;
      ao_discovery_source = (f.ao).discovery_source;
      ao_pid = (f.ao).pid;
      ao_pid_status = (f.ao).pid_status;
      gateway_probe = record {
        url = (f.gateway).url;
        catalog_path = "/v1/models";
        catalog_status = (f.gateway).catalog_status;
        observed_models = (f.gateway).observed_models;
        provider_call_performed = false;
        credential_eligibility = "NOT_OBSERVED";
      };
    };
    session_binding = record {
      session_id = (f.session).id;
      project_id = (f.session).project_id;
      session_branch = (f.session).branch;
    };
    worktree_binding = record {
      canonical_path = f.workspace;
      worktree_branch = (f.session).branch;
      head = (f.worktree).head;
      is_clean = f.is_clean;
      dirty_policy = (f.spec).workspace_policy.execution_workspace_dirty_policy;
      porcelain_sha256 = f.porcelain_sha256;
      verified_porcelain = true;
    };
    attached_session_profile = record {
      kind = (f.session).kind;
      harness = (f.session).harness;
      model = (f.session).model;
      reasoning_effort = f.effort;
      status = "VERIFIED";
    };
    lease = record {
      workspace_root = f.workspace;
      run_owner = (f.spec).run_id;
      task_id = "__run__";
      owner_id = (f.spec).run_id;
      observed_state = (f.lease).observed_state;
      observed_pid = (f.lease).observed_pid;
    };
    source_provenance = record {
      cli_proxy_api_sha = "2430354330af80b645f9ffb1a51e1e7c72c4cc8e";
      source_audit_only = true;
    };
  }

  -- `ReadManifest` of the path, if it succeeds.
  abbrev pub reread : AttachOptions → RunManifest → Dir → Result String → Option RunManifest
  reread o m d (err x) = none
  reread o m d (ok path) =
      to_option h.disk m (read_manifest h.disk.reader o.manifest_path (content_at h.disk m path d))

  abbrev pub or_new : RunManifest → Option RunManifest → RunManifest
  or_new m none = m
  or_new m (some existing) = existing

  abbrev pub publish :
      AttachOptions → RunManifest → Option Error × Dir → Option RunManifest × ℕ × Dir
  publish o m (some x, d) = (none, 2, d)
  publish o m (none, d) = (some (or_new m (reread o m d (h.disk.absolute o.manifest_path))), 0, d)

  abbrev pub conclude : AttachOptions → Dir → Attempt Findings → Option RunManifest × ℕ × Dir
  conclude o d (exits code) = (none, code, d)
  conclude o d (done f) =
      publish o (manifest_of f) (write_manifest_atomic h.disk (manifest_of f) o.manifest_path d)

  -- `RunAttach`: the manifest that it returns, its exit code and the files after it.
  unfoldable pub run_attach : AttachOptions → Dir → Option RunManifest × ℕ × Dir
  run_attach o d = conclude o d (gather h o d)
