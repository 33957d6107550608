-- ===== src/Scheduler/Service/Preparing.antt =====
-- `prepare_workspace` of scheduler/service.rs.
use opendaemon.Prelude.{
  String, Bool, true, false, ◌≡◌, refl, sym, subst, ◌∙◌, ◌⊎◌, inl, inr, some, none, Result, ok, err,
}
use opendaemon.Security.{DirectoryGrant}
use opendaemon.Task.Model.{Task, TaskStatus}
use opendaemon.Store.World.{Db}
use opendaemon.Store.Exec.{raise}
use opendaemon.Store.Logic.{
  Reads-pure, Reads-map_err, Ensures, Ensures-read, Ensures-weaken, Ensures-failure,
  Ensures-of_Reads,
}
use opendaemon.Store.Logic.Writes.{Ensures-bind}
use opendaemon.Store.Rows.{task_by_id}
use opendaemon.Store.Tasks.Reading.{Reads-get}
use opendaemon.Store.Tasks.Moves.{Moved, stayed, moved}
use opendaemon.Store.Grants
use opendaemon.Store.Grants.{grant_by_id}
use opendaemon.Store.Grants.Effects
use opendaemon.Scheduler.Errors.{map_directory_error, from_store_error}
use opendaemon.Scheduler.Service
use opendaemon.Scheduler.Service.{
  Op, Preparer, filled, payload, transition, is_ended, is_waiting, mark_preparing_if, prepared,
}
use opendaemon.Scheduler.Service.Preserves.{Call}
use opendaemon.Scheduler.Service.Promises.{
  Reached, Readied, MaybeReadied, MaybeReadied-of, preparation_failed, Done, Left,
  Ensures-transition, Ensures-then_pure,
}

Ensures-mark_preparing_if :
    (b : Bool) (id : String)
    → Ensures (λ _. Unit) (λ d _ d'. Readied b id d d') (MaybeReadied b id) (mark_preparing_if b id)
unfolding mark_preparing_if Service.mark_preparing
Ensures-mark_preparing_if true id =
    Ensures-weaken _ (λ d u. tt) (λ d u d' p h. h) (λ d d' p m. inl m)
      (Ensures-then_pure _ tt (Ensures-transition id TaskStatus.preparing none))
Ensures-mark_preparing_if false id =
    Ensures-weaken _ (λ d u. tt) (λ d t d' u h. h.0) (λ d d' u n. absurd n)
      (Ensures-of_Reads {Pre = λ _. Unit} {T = λ _ _. ⊥} _ (Reads-pure tt))

module _ {Workspace Error : Type 0} where
  abbrev Refusal : Result Workspace Error → String → Db → Db → Type 0
  Refusal r id d d' = (x : Error) × (r ≡ err x) × Moved id TaskStatus.failed preparation_failed d d'

  Ensures-prepared :
      (id : String) (r : Result Workspace Error)
      → Ensures
          (λ _. Unit)
          (λ d _ d'. (d' ≡ d) × ((workspace : Workspace) × (r ≡ ok workspace)))
          (Refusal r id)
          (prepared id r)
  unfolding prepared Service.fail_task raise
  Ensures-prepared id (ok workspace) =
      Ensures-weaken _ (λ d u. tt) (λ d t d' u h. (h.0, (workspace, refl))) (λ d d' u n. absurd n)
        (Ensures-of_Reads {Pre = λ _. Unit} {T = λ _ _. ⊥} _ (Reads-pure workspace))
  Ensures-prepared id (err x) = Ensures-failure _ left (
      Ensures-weaken _ (λ d u. tt) (λ d a d' u h. absurd (let (t, d₁, m, n) = h in n))
        (λ d d' u h. h)
        (Ensures-bind {Pre = λ _. Unit} {R = λ _ _ _ _. ⊥} {U = λ _ _ _. ⊥} _ _
          (Ensures-transition id TaskStatus.failed (some preparation_failed))
          λ t. record { at = λ w p. inl refl }))
    where
      left :
          (d d' : Db)
          → Unit {0}
          → Moved id TaskStatus.failed preparation_failed d d'
            ⊎ ((t : Task) × (d₁ : Db) × Reached id TaskStatus.failed preparation_failed d d₁
                × ((d' ≡ d₁) ⊎ ⊥))
          → (d' ≡ d) ⊎ Refusal (err x) id d d'
      left d d' p (inl m) = inr (x, refl, m)
      left d d' p (inr (t, d₁, (u, stayed found ended terminal same), inl e)) = inl (e ∙ same)
      left d d' p (inr (t, d₁, (u, moved m found), inl e)) =
          inr (x, refl, subst (Moved id _ _ d) (sym e) m)
      left d d' p (inr (t, d₁, reached, inr n)) = absurd n

  pub Ensures-prepare_workspace :
      (id : String) (prepare : Preparer Workspace Error)
      → Ensures
          (λ _. Unit)
          (λ d _ d'. Done (Call.prepare_workspace id prepare) d d')
          (Left (Call.prepare_workspace id prepare))
          (Service.prepare_workspace id prepare)
  unfolding Service.prepare_workspace
  Ensures-prepare_workspace id prepare =
      Ensures-read {Pre = λ _. Unit} _ _ (Reads-map_err from_store_error _ (Reads-get id)) λ t.
        Ensures-read _ _
          (Reads-map_err map_directory_error _ (Grants.Effects.Reads-get t.directory_id))
          λ g.
            Ensures-weaken _ (λ d q. tt)
              (λ d u d' q h.
                let (v, d₁, ready, (same, (workspace, answered))) = h in
                (
                  t,
                  g,
                  workspace,
                  q.0.1,
                  q.1,
                  answered,
                  subst (Readied (is_waiting t.status) id d) (sym same) ready,
                ))
              (λ d d' q h. left t g d d' q.0.1 q.1 h)
              (Ensures-bind {Pre = λ _. Unit} _ _
                (Ensures-mark_preparing_if (is_waiting t.status) id)
                λ u. Ensures-prepared id (prepare t.id g t.workspace_mode))
    where
      left :
          (t : Task) (g : DirectoryGrant) (d d' : Db)
          → task_by_id id d ≡ some t
          → grant_by_id t.directory_id d ≡ some g
          → MaybeReadied (is_waiting t.status) id d d'
            ⊎ ((u : Unit {0}) × (d₁ : Db) × Readied (is_waiting t.status) id d d₁
                × ((d' ≡ d₁) ⊎ Refusal (prepare t.id g t.workspace_mode) id d₁ d'))
          → Left (Call.prepare_workspace id prepare) d d'
      left t g d d' found granted (inl ready) = (t, g, d', found, granted, ready, inl refl)
      left t g d d' found granted (inr (u, d₁, ready, rest)) =
          (t, g, d₁, found, granted, MaybeReadied-of (is_waiting t.status) id d d₁ ready, rest)
