-- ===== src/Mobile/Background.antt =====
-- mobile/src/attachments/backgroundUploadTask.ts, over the host's registrations.
use flow_logix.Common.{
  ℕ, ◌*◌, Bool, true, false, Option, List, [], ◌∷◌, ◌++◌, Text, codes, contains, keep, not, text_eq,
  get_or_else, put, if◌then◌else◌,
}
use flow_logix.Mobile.Network.{Monitor, is_suitable_for_large_upload}

pub data BackgroundTaskResult : Type 0 where
  new_data no_data failed : BackgroundTaskResult

pub record BackgroundRegisterOptions : Type 0 where
  pub minimum_interval_seconds : ℕ
  pub stop_on_terminate : Bool
  pub start_on_boot : Bool

-- The tasks that the host knows: `Executor` is what `defineTask` is given.
pub record BackgroundTaskHost (Executor : Type 0) : Type 0 where
  pub defined : List (Text × Executor)
  pub registered : List (Text × BackgroundRegisterOptions)

abbrev pub default_upload_task_name : Text
default_upload_task_name = codes "flowlogix.attachment-upload"

-- `process` gives the queue that it leaves, and whether it returns or throws.
unfoldable pub run_background_upload_once {ℓ} :
    {Queue : Type ℓ} → Monitor → Queue → (Queue → Queue × Bool) → Queue × BackgroundTaskResult
unfolding is_suitable_for_large_upload
run_background_upload_once network queue process =
    if not (is_suitable_for_large_upload network)
    then (queue, no_data)
    else ((process queue).0, (if (process queue).1 then new_data else failed))

abbrev pub names : {Executor : Type 0} → List (Text × Executor) → List Text
names [] = []
names ((name, e) ∷ tasks) = name ∷ names tasks

module _ {Executor : Type 0} where
  abbrev pub is_registered : BackgroundTaskHost Executor → Text → Bool
  is_registered host name = contains name (names host.registered)

  unfoldable pub register_background_upload_task :
      Option Text
      → Option ℕ
      → Executor
      → BackgroundTaskHost Executor
      → BackgroundTaskHost Executor × Text
  register_background_upload_task task_name interval executor host =
      let name = get_or_else task_name default_upload_task_name in
      let host' : BackgroundTaskHost Executor = record host {
        defined = put name executor host.defined;
      } in
      (
        if is_registered host' name then host' else record host' {
          registered =
              host.registered
              ++ (
                name,
                record {
                  minimum_interval_seconds = get_or_else interval (15 * 60);
                  stop_on_terminate = false;
                  start_on_boot = true;
                },
              )
                ∷ [];
        },
        name,
      )

  unfoldable pub unregister_background_upload_task :
      Option Text → BackgroundTaskHost Executor → BackgroundTaskHost Executor
  unregister_background_upload_task task_name host =
      let name = get_or_else task_name default_upload_task_name in
      if is_registered host name
      then record host { registered = keep (λ task. not (text_eq task.0 name)) host.registered }
      else host
