-- ===== src/Winrm/Program/Answers.antt =====
-- plugin/windows-winrm/main.go: every task is answered, in its order.
use nmslite.Common.{
  ℕ, ap, sym, ◌∙◌, subst, ℤ, pos, negsuc, ◌==◌, ==_iff, ◌≡◌, ◌≢◌, ◌⊎◌, refl, inl, inr, Bool, true,
  false, ◌||◌, Option, none, some, List, [], ◌∷◌, ◌++◌, if◌then◌else◌, arith, Bool-cases,
  List-cases,
}
use nmslite.Common.Results.{Result, ok, err, Result-cases}
use nmslite.Protocols.Schemas.{codes}
use nmslite.Winrm.{Text, PluginInput}
use nmslite.Winrm.Client.{ClientError, created, make_client, not_created}
use nmslite.Winrm.Collector.{collect}
use nmslite.Winrm.Wmi.{CollectError}
use nmslite.Winrm.Program.{Setup, Output, port_of, connected, process_task, process_tasks, main}

module _ (s : Setup) where
  -- The port of a task, 5985 where it is 0.
  abbrev pub IsPort : PluginInput → ℤ → Type 0
  IsPort task port =
      ((task.port ≡ pos 0) × (port ≡ pos 5985)) ⊎ ((task.port ≢ pos 0) × (port ≡ task.port))

  -- How the device of a task is connected to: by NTLM with the domain in front of the user where there is
  -- a domain, and else by NewClient, with the shared parameters as they are.
  pub data Connects (decorated : Bool) (task : PluginInput)
      : Option s.library.Connection → Type 0 where
    with_domain :
        (port : ℤ)
        → IsPort task port
        → task.credentials.domain ≢ []
        → Connects decorated task (
            s.library.new_client_ntlm task.target port
              (task.credentials.domain ++ b'\\' ∷ task.credentials.username)
              task.credentials.password)
    without_domain :
        (port : ℤ)
        → IsPort task port
        → task.credentials.domain ≡ []
        → Connects decorated task (
            s.library.new_client decorated task.target port task.credentials.username
              task.credentials.password)

  -- How the output of a task must end: failed where there is no connection or nothing can be collected,
  -- without metrics and with the error, and else with the metrics that are collected, the time, and no error.
  pub data Answers (decorated : Bool) (task : PluginInput) (o : Output s) : Type 0 where
    with_metrics :
        (client : s.library.Connection)
        → Connects decorated task (some client)
        → collect s.floats s.parsers s.library client ≡ ok o.metrics
        → o.request_id ≡ task.request_id
        → o.status ≡ codes "success"
        → o.timestamp ≡ s.now
        → o.error ≡ []
        → Answers decorated task o
    not_connected :
        Connects decorated task none
        → o.request_id ≡ task.request_id
        → o.status ≡ codes "failed"
        → o.metrics ≡ []
        → o.error ≡ codes "WinRM connection failed: " ++ s.client_error not_created
        → Answers decorated task o
    not_collected :
        (client : s.library.Connection) (e : CollectError)
        → Connects decorated task (some client)
        → collect s.floats s.parsers s.library client ≡ err e
        → o.request_id ≡ task.request_id
        → o.status ≡ codes "failed"
        → o.metrics ≡ []
        → o.error ≡ codes "Metric collection failed: " ++ s.collect_error e
        → Answers decorated task o

  abbrev pub has_domain : PluginInput → Bool
  has_domain task = elim task.credentials.domain [ [] ↦ false | c ∷ cs ↦ true ]

  -- One answer for each task, in order. The shared parameters are decorated from the first task with a
  -- domain on.
  abbrev pub AllAnswered : Bool → List PluginInput → List (Output s) → Type 0
  AllAnswered decorated [] [] = Unit
  AllAnswered decorated (t ∷ ts) (o ∷ os) =
      Answers decorated t o × AllAnswered (decorated || has_domain t) ts os
  AllAnswered decorated _ _ = ⊥

  port_lem :
      (p : ℤ)
      → ((p ≡ pos 0)
          × ((elim p [ pos n ↦ if n == 0 then pos 5985 else pos n | negsuc n ↦ negsuc n ])
              ≡ pos 5985))
        ⊎ ((p ≢ pos 0)
            × ((elim p [ pos n ↦ if n == 0 then pos 5985 else pos n | negsuc n ↦ negsuc n ]) ≡ p))
  port_lem (negsuc n) = inr (λ e. absurd (ground (arith, e)), refl)
  port_lem (pos n) = elim (Bool-cases (n == 0)) [
    | inl e ↦ inl (ap pos ((==_iff n 0).0 e), rw e refl)
    | inr e ↦ inr (λ q. absurd (ground (arith, e, q)), rw e refl)
  ]

  connected-Answers :
      (decorated : Bool) (task : PluginInput) (r : Result ClientError s.library.Connection)
      (o : Option s.library.Connection)
      → created s.library o ≡ r
      → Connects decorated task o
      → Answers decorated task (connected s task r)
  connected-Answers decorated task r none e h =
      subst (λ r. Answers decorated task (connected s task r)) e
        (not_connected h refl refl refl refl)
  connected-Answers decorated task r (some client) e h =
      subst (λ r. Answers decorated task (connected s task r)) e
        (elim (Result-cases (collect s.floats s.parsers s.library client)) [
          | inr (x, g) ↦ rw g (not_collected client x h g refl refl refl refl)
          | inl (ms, g) ↦ rw g (with_metrics client h g refl refl refl refl)
        ])

  process_task-Answers :
      (decorated : Bool) (task : PluginInput)
      → Answers decorated task (process_task s decorated task).0
        × ((process_task s decorated task).1 ≡ (decorated || has_domain task))
  unfolding process_task make_client
  process_task-Answers decorated task =
      let port = port_of s task in
      let c = task.credentials in
      let made = make_client s.library decorated task.target port c in
      elim (List-cases c.domain) [
        | inl e ↦
            let o = s.library.new_client decorated task.target port c.username c.password in
            let m : (created s.library o, decorated) ≡ made = rw (e, make_client) refl in
            (
              connected-Answers decorated task made.0 o (ap (λ p. p.0) m)
                  (without_domain port (port_lem task.port) e),
              sym (ap (λ p. p.1) m) ∙ rw e (ground arith),
            )
        | inr (b, bs, e) ↦
            let o =
              s.library.new_client_ntlm task.target port (c.domain ++ b'\\' ∷ c.username)
                c.password in
            let m : (created s.library o, true) ≡ made = rw (e, make_client) refl in
            (
              connected-Answers decorated task made.0 o (ap (λ p. p.0) m)
                  (with_domain port (port_lem task.port) (λ q. absurd (ground (arith, e, q)))),
              sym (ap (λ p. p.1) m) ∙ rw e (ground arith),
            )
      ]

  process_tasks-AllAnswered :
      (decorated : Bool) (tasks : List PluginInput)
      → AllAnswered decorated tasks (process_tasks s decorated tasks)
  unfolding process_tasks
  process_tasks-AllAnswered decorated [] = tt
  process_tasks-AllAnswered decorated (task ∷ tasks) =
      let (answered, after) = process_task-Answers decorated task in
      (
        answered,
        subst (λ b. AllAnswered b tasks (process_tasks s (process_task s decorated task).1 tasks))
            after (process_tasks-AllAnswered (process_task s decorated task).1 tasks),
      )

  -- For an input that is not empty and is read as tasks, the program writes what encoding/json makes of
  -- outputs that answer the tasks one by one, in their order. Each stands under its task's request id and
  -- holds the metrics that were collected from its device, or it is failed, without metrics and with
  -- the error, where there is no connection or nothing can be collected. A task with a domain is connected by
  -- NTLM, and so, as far as the library reads the shared parameters, is every task without one that comes
  -- after such a task. Where the outputs cannot be encoded, nothing is written for any task.
  pub main_lem :
      (c : ℕ) (input : Text) (tasks : List PluginInput)
      → s.read_tasks (c ∷ input) ≡ some tasks
      → (outputs : List (Output s)) × AllAnswered false tasks outputs
        × (main s (c ∷ input) ≡ s.write_outputs outputs)
  unfolding main
  main_lem c input tasks e =
      (process_tasks s false tasks, process_tasks-AllAnswered false tasks, rw (e, main) refl)
