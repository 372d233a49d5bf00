-- ===== src/Recovery/Artifacts.antt =====
-- internal/recovery/checkpoint.go, `GitArtifactReader`: the artifact of a task in its workspace. The
-- functions on paths, the file's SHA-256 and git are parameters.
use Prim.Native.String.{◌++◌ as ◌<>◌}
use agents_coworkers.Prelude.{
  ◌≡◌, Bool, true, false, ◌||◌, String, ◌==◌, Option, none, some, if◌then◌else◌, if-intro,
}
use agents_coworkers.Prelude.Text.{codes, strip_prefix, trim_space}
use agents_coworkers.Recovery.Errors.{other, Result, ok, err, result-intro}
use agents_coworkers.Recovery.World.{ArtifactObservation}

pub record ArtifactHost : Type 0 where
  pub abs : String → Result String
  pub join : String → String → String
  pub rel : String → String → Result String
  pub is_abs : String → Bool
  pub separator : String
  -- the hexadecimal SHA-256 of a file that is opened and read
  pub file_sha256 : String → Result String
  -- `git rev-parse HEAD` and `git branch --show-current`
  pub git_head : String → Result String
  pub git_branch : String → Result String

module _ (h : ArtifactHost) where
  abbrev pub is_some : {A : Type 0} → Option A → Bool
  is_some none = false
  is_some (some a) = true

  -- The path that leads from the root to the file leaves the root.
  abbrev pub escapes : String → Bool
  escapes rel =
      rel == ".."
      || h.is_abs rel
      || is_some (strip_prefix (codes (".." <> h.separator)) (codes rel))

  unfoldable pub read_state : String → String → Result ArtifactObservation
  read_state root sha = elim (h.git_head root) [
    | err x ↦ err x
    | ok head ↦ elim (h.git_branch root) [
      | err x ↦ err x
      | ok branch ↦
          ok (record { sha256 = sha; git_head = trim_space head; branch = trim_space branch })
    ]
  ]

  unfoldable pub digest_target : String → String → Result ArtifactObservation
  digest_target root target = elim (h.file_sha256 target) [
    | err x ↦ err x
    | ok sha ↦ read_state root sha
  ]

  unfoldable pub check_target : String → String → Result ArtifactObservation
  check_target root target = elim (h.rel root target) [
    | err x ↦ err (other "artifact path escapes root")
    | ok rel ↦
        if escapes rel then err (other "artifact path escapes root") else digest_target root target
  ]

  -- `GitArtifactReader.Observe`
  unfoldable pub observe_git_artifact : String → String → Result ArtifactObservation
  observe_git_artifact dir name = elim (h.abs dir) [
    | err x ↦ err x
    | ok root ↦ elim (h.abs (h.join root name)) [
      | err x ↦ err x
      | ok target ↦ check_target root target
    ]
  ]

  -- What is observed is the digest of a file to which the way from the root does not leave it.
  abbrev pub Inside : String → String → Result ArtifactObservation → Type 0
  Inside dir name (err x) = Unit
  Inside dir name (ok o) =
      (root : String) × (target : String) × (rel : String) × (h.abs dir ≡ ok root)
      × (h.abs (h.join root name) ≡ ok target)
      × (h.rel root target ≡ ok rel)
      × (escapes rel ≡ false)
      × (h.file_sha256 target ≡ ok o.sha256)

  observe_git_artifact-Inside :
      (dir name : String) → Inside dir name (observe_git_artifact dir name)
  unfolding observe_git_artifact check_target digest_target read_state
  observe_git_artifact-Inside dir name =
      let P = Inside dir name in
      result-intro P (h.abs dir) (λ x _. tt)
        λ root a.
          result-intro P (h.abs (h.join root name)) (λ x _. tt)
            λ target b.
              result-intro P (h.rel root target) (λ x _. tt)
                λ rel c.
                  if-intro P (escapes rel) (λ _. tt)
                    λ e.
                      result-intro P (h.file_sha256 target) (λ x _. tt)
                        λ sha f.
                          result-intro P (h.git_head root) (λ x _. tt)
                            λ head _.
                              result-intro P (h.git_branch root) (λ x _. tt)
                                λ branch _. (root, target, rel, a, b, c, e, f)
