-- ===== src/EventLoop/Log.antt =====
-- The activity log never grows past fifty entries.
use iaas_platform.Base.{◌≡◌, ◌≤◌, List, length, length-pop, arith}
use iaas_platform.World.{World, Task, Reply, LogEntry, Job, remove_toast, refresh_detail}
use iaas_platform.World.Ops.{push_entry}
use iaas_platform.EventLoop.{
  Event, back_to_sign_in, handle, resume, run_job, Step, user, answer, timeout, time, Reach, here,
  next,
}

-- The bound that `addActivityLog` keeps.
abbrev pub LogIsBounded : World → Type 0
LogIsBounded w = length w.state.activity_log ≤ 50

length-push_entry :
    (e : LogEntry) (l : List LogEntry) → length l ≤ 50 → length (push_entry e l) ≤ 50
unfolding push_entry
length-push_entry e l h = ground (arith, length-pop e l)

handle-activity_log :
    (e : Event) (w : World) → (handle e w).state.activity_log ≡ w.state.activity_log
unfolding handle
handle-activity_log back_to_sign_in w = ground arith
handle-activity_log _ w = ground arith

resume-LogIsBounded :
    (t : Task) (f : Reply t) (w : World) → LogIsBounded w → LogIsBounded (resume t f w)
unfolding resume
resume-LogIsBounded Task.forgot_done f w h = grind (arith, length-push_entry)
resume-LogIsBounded _ f w h = grind (arith, length-push_entry)

run_job-activity_log :
    (j : Job) (w : World) → (run_job j w).state.activity_log ≡ w.state.activity_log
unfolding run_job
run_job-activity_log (remove_toast e) w = ground arith
run_job-activity_log refresh_detail w = ground arith

Step-LogIsBounded : {v w : World} → Step v w → LogIsBounded v → LogIsBounded w
Step-LogIsBounded (user w e) h = rw (handle-activity_log e w) h
Step-LogIsBounded (answer w before after p f _) h = resume-LogIsBounded p.task f _ h
Step-LogIsBounded (timeout w before after t _ _) h = rw run_job-activity_log h
Step-LogIsBounded (time w ms) h = h

-- However clicks, answers and timers interleave, the activity log never holds more than fifty
-- entries, if it does not at the start.
pub Reach-LogIsBounded : {v w : World} → LogIsBounded v → Reach v w → LogIsBounded w
Reach-LogIsBounded h here = h
Reach-LogIsBounded h (next r s) = Step-LogIsBounded s (Reach-LogIsBounded h r)
