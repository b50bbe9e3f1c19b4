-- ===== src/Backup/Quiet.antt =====
-- Panics and saves in the methods that create backup and restore jobs.
use pishop_operator.Base.{String}
use pishop_operator.Client.Rules.{Quiet, quiet}
use pishop_operator.Reconciler.{Reconciler}
use pishop_operator.Provisioning.Quiet.{ParsesLiterals, must_parse-Quiet}
use pishop_operator.Backup.{
  JobSpec, build_job, create_backup_job, create_backup, create_restore_job, restore_backup,
}

module _ (r : Reconciler) (parses : ParsesLiterals r) where
  build_job-Quiet :
      (prefix app script number : String) (spec : JobSpec)
      → Quiet (build_job r prefix app script number spec)
  unfolding build_job
  build_job-Quiet prefix app script number spec =
      search
        (quiet, must_parse-Quiet, parses.cpu_0m, parses.memory_0, parses.cpu_500m, parses.memory_1)
        depth 8

  pub create_backup-Quiet : Quiet (create_backup r)
  unfolding create_backup create_backup_job
  create_backup-Quiet = search (quiet, build_job-Quiet) depth 8

  pub restore_backup-Quiet : (name : String) → Quiet (restore_backup r name)
  unfolding restore_backup create_restore_job
  restore_backup-Quiet name = search (quiet, build_job-Quiet) depth 8
