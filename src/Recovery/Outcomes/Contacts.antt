-- ===== src/Recovery/Outcomes/Contacts.antt =====
-- When a step of internal/recovery/dispatcher.go leaves AO alone.
use agents_coworkers.Prelude.{
  ℕ, ◌≡◌, refl, ◌⊎◌, inl, inr, Bool, true, false, ◌||◌, ◌&&◌, not, ◌==◌, String, arith, if-intro,
}
use agents_coworkers.Recovery.Errors.{Error, Result, ok, err}
use agents_coworkers.Recovery.Checkpoint.{TaskState, Checkpoint, blocked, terminal}
use agents_coworkers.Recovery.World.{
  ArtifactObservation, Action, History, Environment, World, loaded, lease_asked, lease_released,
  log,
}
use agents_coworkers.Recovery.Dispatcher.{after_artifact, step_loaded, step}
use agents_coworkers.Recovery.Endings.{is_uncertain, is_delivered, not_due, block}
use agents_coworkers.Recovery.Outcomes.{is_administrative, contacts}
use agents_coworkers.Recovery.Outcomes.Rules.{After, finish_rule, finish_with_rule, step_rule}

-- The artifact, the commit and the branch of the workspace are those of the record.
abbrev pub verified : Checkpoint → Result ArtifactObservation → Bool
verified c (err x) = false
verified c (ok a) =
    a.sha256 == c.artifact_sha256
    && a.git_head == c.git_head
    && (c.session_branch == "" || a.branch == c.session_branch)

-- Since a history with `n` contacts AO was left alone, and the disk kept its state or is blocked.
abbrev Quiet : ℕ → TaskState → World → Type 0
Quiet n s w = (contacts w.trace ≡ n) × ((w.disk.state ≡ s) ⊎ (w.disk.state ≡ blocked))

admin_Quiet :
    (n : ℕ) (s : TaskState) (a : Action) (v : World)
    → is_administrative a ≡ true
    → Quiet n s v
    → Quiet n s (log a v)
admin_Quiet n s loaded v h q = q
admin_Quiet n s (lease_asked o t) v h q = q
admin_Quiet n s lease_released v h q = q
admin_Quiet n s _ v h q = cc

module _ (n : ℕ) (s : TaskState) (e : Environment) (now : ℕ) (c : Checkpoint) where
  block-Quiet :
      (kind : String) (x : Error) (w : World) → Quiet n s w → After (Quiet n s) (block e c kind x w)
  unfolding block
  block-Quiet kind x w q = finish_with_rule (Quiet n s) e _ w x q (q.0, inr refl)

  after_artifact-Quiet :
      (r : Result ArtifactObservation) (w : World)
      → verified c r ≡ false
      → Quiet n s w
      → After (Quiet n s) (after_artifact e now c (r, w))
  unfolding after_artifact
  after_artifact-Quiet (err x) w f q = block-Quiet _ x w q
  after_artifact-Quiet (ok a) w f q =
      if-intro (After (Quiet n s)) (not (a.sha256 == c.artifact_sha256)) (λ _. block-Quiet _ _ w q)
        λ i.
          if-intro (After (Quiet n s)) (not (a.git_head == c.git_head)) (λ _. block-Quiet _ _ w q)
            λ j.
              if-intro (After (Quiet n s))
                (not (c.session_branch == "") && not (a.branch == c.session_branch))
                (λ _. block-Quiet _ _ w q) (λ k. absurd (ground (arith, f, i, j, k)))

  step_loaded-Quiet :
      (w : World)
      → (terminal c ≡ true) ⊎ (verified c (e.read_artifact w.trace c.artifact_path) ≡ false)
      → c.state ≡ s
      → Quiet n s w
      → After (Quiet n s) (step_loaded e now c w)
  unfolding step_loaded
  step_loaded-Quiet w f p q =
      if-intro (After (Quiet n s)) (terminal c) (λ _. finish_rule (Quiet n s) e c w q (q.0, inl p))
        λ t.
          if-intro (After (Quiet n s))
            ((is_uncertain c.state || is_delivered c.state) && not_due now c.next_retry_at)
            (λ _. record { at = q }) λ _. after_artifact-Quiet _ _ (ground (arith, f, t)) q

-- If the record on disk is terminal, or whatever the workspace answers does not match the artifact,
-- the commit and the branch of the record, then a step asks AO nothing, and leaves the state on
-- disk as it was or blocked.
pub step_unverified_quiet :
    (e : Environment) (w : World)
    → (terminal w.disk ≡ true)
      ⊎ ((h : History) → verified w.disk (e.read_artifact h w.disk.artifact_path) ≡ false)
    → (contacts (step e w).world.trace ≡ contacts w.trace)
      × (((step e w).world.disk.state ≡ w.disk.state) ⊎ ((step e w).world.disk.state ≡ blocked))
step_unverified_quiet e w f =
    (step_rule (Quiet (contacts w.trace) w.disk.state) e w.disk w.trace
      (admin_Quiet (contacts w.trace) w.disk.state) w refl refl (refl, inl refl)
      λ v p m q. step_loaded-Quiet _ _ e _ _ v (rw p (at_trace v f)) (rw p) q).at
  where
    at_trace :
        (v : World)
        → (terminal w.disk ≡ true)
          ⊎ ((h : History) → verified w.disk (e.read_artifact h w.disk.artifact_path) ≡ false)
        → (terminal w.disk ≡ true)
          ⊎ (verified w.disk (e.read_artifact v.trace w.disk.artifact_path) ≡ false)
    at_trace v (inl t) = inl t
    at_trace v (inr g) = inr (g v.trace)
