-- ===== src/Discovery/Worker/Runs/Running.antt =====
-- internal/discovery/worker.go: no run of a profile is left marked as running.
use nmslite.Common.{
  ℕ, ◌≡◌, ◌⊎◌, ◌∙◌, refl, ap, inl, inr, String, Bool, true, false, none, [], ◌∷◌, ◌++◌, ◌==◌,
  if◌then◌else◌, Assoc, find, insert, erase, find-insert, find-erase, arith, Option-cases,
}
use nmslite.Discovery.Worker.{
  publish_completed_event, execute_discovery, status_of, start_run, handle_discovery_started_event,
}
use nmslite.Discovery.World.{
  Profile, DiscoveryRequestEvent, ProfileLookup, found, not_found, database_error, World, Worker,
}
use nmslite.Discovery.Worker.Runs.{is_running, Arrives, execute_discovery-Executed}

publish-running :
    (w : World) (s : Worker) (event : DiscoveryRequestEvent) (status : String) (count : ℕ)
    → (publish_completed_event w s event status count).running_profiles ≡ s.running_profiles
unfolding publish_completed_event
publish-running w s event status count = ground arith

ProfileLookup-cases :
    (l : ProfileLookup)
    → ((profile : Profile) × (l ≡ found profile)) ⊎ ((l ≡ not_found) ⊎ (l ≡ database_error))
ProfileLookup-cases (found profile) = inl (profile, refl)
ProfileLookup-cases not_found = inr (inl refl)
ProfileLookup-cases database_error = inr (inr refl)

find-run :
    (id j : ℕ) (m after : Assoc Bool)
    → after ≡ insert id true m
    → find j (erase id after) ≡ (if id == j then none else find j m)
find-run id j m after e = ground (arith, find-erase id j after, find-insert id j true m, e)

start_run-running :
    (w : World) (event : DiscoveryRequestEvent) (s : Worker) (j : ℕ)
    → Arrives w
    → (find j (start_run w event s).running_profiles ≡ find j s.running_profiles)
      ⊎ (find j (start_run w event s).running_profiles
          ≡ (if event.profile_id == j then none else find j s.running_profiles))
unfolding start_run
start_run-running w event s j h = elim (ProfileLookup-cases (w.get_profile event.profile_id)) [
  | inr (inl e) ↦ inl (rw (e, start_run) (ap (find j) (publish-running w s event "failed" 0)))
  | inr (inr e) ↦ inl (rw (e, start_run) (ap (find j) (publish-running w s event "failed" 0)))
  | inl (profile, e) ↦
      let started : Worker = record s {
        running_profiles = insert event.profile_id true s.running_profiles;
        updates = s.updates ++ (profile.id, "running", 0) ∷ [];
      } in
      let r = execute_discovery w profile started in
      let sent = execute_discovery-Executed w profile started h in
      let status = status_of r.1 r.2 r.3 in
      let updated : Worker = record r.0 {
        updates = r.0.updates ++ (profile.id, status, r.1) ∷ [];
      } in
      inr (
        rw (e, start_run)
          (find-run event.profile_id j s.running_profiles _
            (publish-running w updated event status r.1 ∙ sent.running)))
]

-- A request leaves the set of running profiles as it was, whatever happens in the run: a profile can
-- be discovered again after a run that fails, and a duplicate request does not end the run that is
-- in progress.
handle_discovery_started_event-is_running :
    (w : World) (event : DiscoveryRequestEvent) (s : Worker) (j : ℕ)
    → Arrives w
    → is_running (handle_discovery_started_event w event s) j ≡ is_running s j
unfolding handle_discovery_started_event
handle_discovery_started_event-is_running w event s j h =
    elim (Option-cases (find event.profile_id s.running_profiles)) [
      | inl e ↦
          rw (e, handle_discovery_started_event)
            (ground (arith, e, start_run-running w event s j h))
      | inr (true, e) ↦
          rw (e, handle_discovery_started_event)
            (ground (arith, publish-running w s event "failed" 0))
      | inr (false, e) ↦
          rw (e, handle_discovery_started_event)
            (ground (arith, e, start_run-running w event s j h))
    ]
