-- ===== src/ImageProcessor/Demo.antt =====
-- The course of examples/image_processor/main.go: sample images, a task of each kind for each of them,
-- and the results.
use spool.Prelude.{
  ℕ, zero, suc, ◌+◌, ◌-◌, ◌≤◌, ◌≡◌, String, Bool, true, false, Option, none, some, List, [], ◌∷◌,
  length, ◌==◌, str_eq, if◌then◌else◌, arith, refl,
}
use spool.Env.{World}
use spool.Effect.{Result, ok, err}
use spool.Task.{Priority, new_task, with_priority, priority_low, priority_normal, priority_high}
use spool.Task.Registry
use spool.Queue.{Queue}
use spool.Storage.{Storage}
use spool.Storage
use spool.Prelude
use spool.ImageProcessor.{rect, create_sample_image}
use spool.ImageProcessor.Handlers.{Library, save_image, rgba_image}

module _ (w : World) where
  open w use {S, Ctx, now}

  -- `name i` is the file of the sample i; one that cannot be saved is left out.
  unfoldable pub generate_sample_images : Library w → (ℕ → String) → List ℕ → S → List String × S
  unfolding save_image create_sample_image rgba_image
  generate_sample_images l name [] s = ([], s)
  generate_sample_images l name (i ∷ rest) s =
      let img =
        rgba_image (rect (Prelude.pos 400) (Prelude.pos 300)) (create_sample_image 400 300 i) in
      let (failed, s1) = save_image w l (name i) img s in
      let (images, s2) = generate_sample_images l name rest s1 in
      elim failed [ some e ↦ (images, s2) | none ↦ (name i ∷ images, s2) ]

  -- A kind of task, its priority and its payload, with none where `json.Marshal` fails.
  pub record Job : Type 0 where
    pub kind : String
    pub priority : Priority
    pub payload : Option String

  -- `payload kind image i` is the payload of a kind of task for the image at the place i.
  unfoldable pub jobs_of : (String → String → ℕ → Option String) → String → ℕ → List Job
  jobs_of payload image i =
      record {
        kind = "image_thumbnail";
        priority = priority_high;
        payload = payload "image_thumbnail" image i;
      }
      ∷ record {
        kind = "image_grayscale";
        priority = priority_normal;
        payload = payload "image_grayscale" image i;
      }
      ∷ record {
        kind = "image_resize";
        priority = priority_low;
        payload = payload "image_resize" image i;
      }
      ∷ record {
        kind = "image_watermark";
        priority = priority_normal;
        payload = payload "image_watermark" image i;
      }
      ∷ []

  module _ (q : Queue w) (new_id : S → String × S) where
    -- The tasks of one image: the others are left out after one that cannot be made.
    unfoldable pub submit_jobs : Ctx → List Job → S → List String × S
    unfolding new_task with_priority
    submit_jobs ctx [] s = ([], s)
    submit_jobs ctx (job ∷ rest) s =
        let (id, s1) = new_id s in
        elim (new_task job.kind job.payload id (now s1)) [
          | none ↦ ([], s1)
          | some t ↦
              let (result, s2) = q.enqueue ctx (some (with_priority t job.priority)) s1 in
              let (ids, s3) = submit_jobs ctx rest s2 in
              elim result [ err e ↦ (ids, s3) | ok _ ↦ (t.id ∷ ids, s3) ]
        ]

    unfoldable pub submit_image_tasks :
        (String → String → ℕ → Option String) → Ctx → List String → ℕ → S → List String × S
    unfolding jobs_of submit_jobs
    submit_image_tasks payload ctx [] i s = ([], s)
    submit_image_tasks payload ctx (image ∷ rest) i s =
        let (ids, s1) = submit_jobs ctx (jobs_of payload image i) s in
        let (more, s2) = submit_image_tasks payload ctx rest (suc i) s1 in
        (Prelude.◌++◌ ids more, s2)

  -- What a `select` of the monitor takes.
  pub data MonitorCase : Type 0 where
    ticked timed_out : MonitorCase

  pub data Monitored : Type 0 where
    all_done gave_up still_waiting : Monitored

  module _ (store : Storage w) where
    is_failure : Registry.Result → Bool
    is_failure r = if r.success then false else if str_eq r.error "" then false else true

    -- The completed and the failed tasks among those that have a result.
    unfoldable pub count_results : Ctx → List String → S → ℕ × ℕ × S
    unfolding is_failure
    count_results ctx [] s = (0, 0, s)
    count_results ctx (id ∷ rest) s =
        let (found, s1) = store.get_result ctx id s in
        let (completed, failed, s2) = count_results ctx rest s1 in
        elim found [
          | err e ↦ (completed, failed, s2)
          | ok r ↦
              if r.success
              then (suc completed, failed, s2)
              else if is_failure r
              then (completed, suc failed, s2)
              else (completed, failed, s2)
        ]

    unfoldable pub monitor_tasks : Ctx → List String → List MonitorCase → S → Monitored × S
    unfolding count_results
    monitor_tasks ctx ids [] s = (still_waiting, s)
    monitor_tasks ctx ids (timed_out ∷ cases) s = (gave_up, s)
    monitor_tasks ctx ids (ticked ∷ cases) s =
        let (completed, failed, s') = count_results ctx ids s in
        let later = monitor_tasks ctx ids cases s' in
        if completed + failed == length ids then (all_done, s') else later

    -- No task is counted twice.
    pub count_results_le :
        (ctx : Ctx) (ids : List String) (s : S)
        → (count_results ctx ids s).0 + (count_results ctx ids s).1 ≤ length ids
    unfolding count_results
    count_results_le ctx [] s = omega arith
    count_results_le ctx (id ∷ rest) s =
        go (store.get_result ctx id s).0 refl
          (count_results_le ctx rest (store.get_result ctx id s).1)
      where
        go :
            (found : Result Storage.Error Registry.Result)
            → (store.get_result ctx id s).0 ≡ found
            → (count_results ctx rest (store.get_result ctx id s).1).0
                + (count_results ctx rest (store.get_result ctx id s).1).1
              ≤ length rest
            → (count_results ctx (id ∷ rest) s).0 + (count_results ctx (id ∷ rest) s).1
              ≤ length (id ∷ rest)
        go found e h = ground (arith, e, h)
