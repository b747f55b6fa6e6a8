-- ===== src/Tests/Reports.antt =====
-- A job of the portal whose type is not run, and the theorem on its report.
use mathlib.Core.List.{Memᴰ}
use cpodoperator.Base.{◌≡◌, refl, some, [], ◌∷◌, nat_eq, arith}
use text.Mathlib.TextEquality.{eq_iff}
use cpodoperator.Sync.Portal.{Cluster}
use cpodoperator.Sync.Jobs.{job_type_check, start}
use cpodoperator.Sync.Observer.{JobState, get_job_states, observe_jobs, observe_job}
use cpodoperator.Sync.Observer.Nodes.{gpu_summaries, stat_nodes}
use cpodoperator.Sync.Observer.Payload.{observe, get_resource_info, get_existing_artifacts, Payload}
use cpodoperator.Sync.Uploader as Uploader
use cpodoperator.Sync.Uploader.{begin, after_send, upload}
use cpodoperator.Sync.Text.{codes_eq}
use cpodoperator.Sync.Reports.{start-reported}
use cpodoperator.Tests.Converge.{willing}
use cpodoperator.Tests.Sync.{unknown_job}
use cpodoperator.Tests.Observer.{idle, world, payload_for}

abbrev asking : Cluster
asking = record willing { get_assigned_job_list = λ w. (w, some (unknown_job ∷ [])) }

abbrev sent : Payload
sent = payload_for (start asking ([], [])).1

start-reported_example :
    ((upload (after_send begin sent).link).1 ≡ some sent)
    × ((q : JobState) × Memᴰ q sent.job_status
        × (q.name ≡ "other")
        × (q.job_status ≡ "createfailed"))
unfolding observe get_job_states observe_jobs observe_job get_resource_info get_existing_artifacts
    gpu_summaries stat_nodes begin job_type_check codes_eq nat_eq
start-reported_example =
    start-reported asking idle [] [] [] [] [] unknown_job world "cpod-1" world.jobs sent begin tt
      refl refl tt refl refl (ground (arith, eq_iff "cpod-1" "")) refl refl Uploader.start refl
