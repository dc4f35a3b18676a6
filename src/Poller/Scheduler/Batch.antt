-- ===== src/Poller/Scheduler/Batch.antt =====
-- internal/poller/scheduler.go: processPluginBatch and ensureCredentials, the worker that polls the
-- monitors of one plugin. What comes from outside is the record `World`: the order in which the
-- liveness results arrive is the order of its list. No other goroutine takes the lock in between
-- (Reachable.antt has the single steps in any order), one clock reading serves the batch, and a Go
-- map is ranged over in the order of its list.
use nmslite.Common.{
  ℕ, suc, ℤ, pos, String, str_eq, Bool, true, false, not, ◌||◌, Option, none, some, List, [], ◌∷◌,
  ◌++◌, if◌then◌else◌,
}
use nmslite.Database.{address}
use nmslite.Auth.Credentials.{Credentials}
use nmslite.Poller.Events.{PollTask, PollResult}
use nmslite.Poller.Scheduler.{ScheduledMonitor, Scheduler, object, modify}
use nmslite.Poller.Scheduler.Outcome.{handle_success, handle_failure}

pub record World : Type 0 where
  -- pluginManager.Get finds the plugin
  pub known : Bool
  -- the results of checkLiveness, an address and whether it answered
  pub arrivals : List (ℕ × Bool)
  -- the plugin semaphore is taken before the context ends
  pub slot : Bool
  -- the i-th uuid.New().String()
  pub request_ids : ℕ → String
  -- credService.DecryptContainer
  pub decrypt : List ℕ → Option Credentials
  -- pluginManager.Poll; `none` is an error
  pub poll : List PollTask → Option (List PollResult)
  pub now : ℤ

-- monitorByRequestID
abbrev pub Requests : Type 0
Requests = List (String × ℕ)

unfoldable pub find_request : String → Requests → Option ℕ
find_request k [] = none
find_request k ((j, a) ∷ m) = if str_eq j k then some a else find_request k m

unfoldable pub add_request : String → ℕ → Requests → Requests
add_request k a [] = (k, a) ∷ []
add_request k a ((j, b) ∷ m) = if str_eq j k then (k, a) ∷ m else (j, b) ∷ add_request k a m

-- handledRequests
unfoldable pub is_handled : String → List String → Bool
is_handled k [] = false
is_handled k (j ∷ handled) = str_eq j k || is_handled k handled

-- ensureCredentials: the cached credentials, or those decrypted now, which are cached.
unfoldable pub ensure_credentials :
    (List ℕ → Option Credentials) → Scheduler → ℕ → Option Credentials × Scheduler
ensure_credentials decrypt s a =
    let sm = object s a in
    elim sm.credentials [
      | some cred ↦ (some cred, s)
      | none ↦ elim sm.encrypted_credentials [
        | [] ↦ (none, s)
        | byte ∷ bytes ↦ elim (decrypt (byte ∷ bytes)) [
          | none ↦ (none, s)
          | some cred ↦ (some cred, modify s a (record sm { credentials = some cred }))
        ]
      ]
    ]

unfoldable pub fail_all : ℤ → Scheduler → List ℕ → Scheduler
fail_all now s [] = s
fail_all now s (a ∷ rest) = fail_all now (handle_failure s a now) rest

-- The loop that collects the live monitors, and fails the others.
unfoldable pub collect_live : ℤ → Scheduler → List (ℕ × Bool) → Scheduler × List ℕ
collect_live now s [] = (s, [])
collect_live now s ((a, true) ∷ rest) = let (s', live) = collect_live now s rest in (s', a ∷ live)
collect_live now s ((a, false) ∷ rest) = collect_live now (handle_failure s a now) rest

abbrev pub task_of : String → ScheduledMonitor → Credentials → PollTask
task_of request_id sm cred = record {
  request_id = request_id;
  target = address sm.monitor.ip_address;
  port = elim sm.monitor.port [ none ↦ pos 0 | some p ↦ p ];
  credentials = cred;
}

-- What phase 2 has built.
pub record Tasks : Type 0 where
  pub scheduler : Scheduler
  pub tasks : List PollTask
  pub requests : Requests

-- One round of phase 2, for the i-th request.
unfoldable pub add_task : World → ℕ → Tasks → ℕ → Tasks
unfolding add_request
add_task w i t a =
    let (found, s) = ensure_credentials w.decrypt t.scheduler a in
    elim found [
      | none ↦ record t { scheduler = handle_failure s a w.now }
      | some cred ↦ record {
        scheduler = s;
        tasks = t.tasks ++ task_of (w.request_ids i) (object s a) cred ∷ [];
        requests = add_request (w.request_ids i) a t.requests;
      }
    ]

unfoldable pub build_tasks : World → ℕ → Tasks → List ℕ → Tasks
unfolding add_task
build_tasks w i t [] = t
build_tasks w i t (a ∷ rest) = build_tasks w (suc i) (add_task w i t a) rest

-- Phase 4: the results, in order; those of unknown requests are skipped.
unfoldable pub handle_results :
    ℤ → Requests → Scheduler × List String → List PollResult → Scheduler × List String
handle_results now requests (s, handled) [] = (s, handled)
handle_results now requests (s, handled) (result ∷ rest) =
    handle_results now requests
      (elim (find_request result.request_id requests) [
        | none ↦ (s, handled)
        | some a ↦ (
          if str_eq result.status "success"
              then handle_success s a result now
              else handle_failure s a now,
          result.request_id ∷ handled,
        )
      ])
      rest

-- Tasks with no result fail.
unfoldable pub fail_missing : ℤ → List String → Scheduler → Requests → Scheduler
fail_missing now handled s [] = s
fail_missing now handled s ((k, a) ∷ rest) =
    fail_missing now handled (if is_handled k handled then s else handle_failure s a now) rest

unfoldable pub fail_requests : ℤ → Scheduler → Requests → Scheduler
fail_requests now s [] = s
fail_requests now s ((k, a) ∷ rest) = fail_requests now (handle_failure s a now) rest

-- Phases 3 and 4.
unfoldable pub run_tasks : World → Scheduler → Requests → List PollTask → Scheduler
unfolding handle_results fail_missing fail_requests
run_tasks w s requests [] = s
run_tasks w s requests (task ∷ tasks) = elim (w.poll (task ∷ tasks)) [
  | none ↦ fail_requests w.now s requests
  | some results ↦
      let (s', handled) = handle_results w.now requests (s, []) results in
      fail_missing w.now handled s' requests
]

-- From the live monitors on.
unfoldable pub poll_live : World → Scheduler → List ℕ → Scheduler
unfolding build_tasks run_tasks
poll_live w s [] = s
poll_live w s (a ∷ live) =
    if not w.slot
    then fail_all w.now s (a ∷ live)
    else (let t =
          build_tasks w 0 (record { scheduler = s; tasks = []; requests = [] }) (a ∷ live) in
        run_tasks w t.scheduler t.requests t.tasks)

unfoldable pub process_plugin_batch : World → Scheduler → List ℕ → Scheduler
unfolding collect_live poll_live
process_plugin_batch w s monitors =
    if not w.known
    then fail_all w.now s monitors
    else (let (s', live) = collect_live w.now s w.arrivals in poll_live w s' live)
