-- ===== src/EventLoop/Toasts.antt =====
-- Every toast goes away: the timers that remove them.
use iaas_platform.Base.{
  ℕ, ◌+◌, ◌≡◌, ◌≢◌, ◌⊎◌, inl, inr, refl, false, Option, none, some, List, [], ◌∷◌, ◌++◌, not, keep,
  ◌==◌, arith, All, Bool-cases,
}
use iaas_platform.Base.Text.{Text}
use iaas_platform.Rows.{Markup}
use iaas_platform.World.{
  World, Toast, Timer, Kind, Task, Reply, Job, remove_toast, refresh_detail, Storage,
}
use iaas_platform.World.Ops.{without_first}
use iaas_platform.Session.{initial, init}
use iaas_platform.EventLoop.{
  Event, back_to_sign_in, close_toast, handle, resume, run_job, Step, user, answer, timeout, time,
  Reach, here, next,
}

-- A timer that is due at `due` and removes the toast `e`.
abbrev pub HasTimer : ℕ → ℕ → List Timer → Type 0
HasTimer e due [] = ⊥
HasTimer e due (t ∷ l) = ((t.due ≡ due) × (t.job ≡ remove_toast e)) ⊎ HasTimer e due l

-- Each toast has one, three seconds after it was shown.
abbrev pub Timed : List Toast → List Timer → Type 0
Timed [] l = Unit
Timed (x ∷ s) l = HasTimer x.element (x.id + 3000) l × Timed s l

Timed-timer : (s : List Toast) (l : List Timer) (t : Timer) → Timed s l → Timed s (t ∷ l)
Timed-timer [] l t h = tt
Timed-timer (x ∷ s) l t h = (inr h.0, Timed-timer s l t h.1)

Timed-append :
    (s : List Toast) (l : List Timer) (x : Toast)
    → Timed s l
    → HasTimer x.element (x.id + 3000) l
    → Timed (s ++ (x ∷ [])) l
Timed-append [] l x h k = (k, tt)
Timed-append (y ∷ s) l x h k = (h.0, Timed-append s l x h.1 k)

-- What `toast` adds.
Timed-toast :
    (s : List Toast) (l : List Timer) (e now : ℕ) (msg : Markup) (kind : Kind)
    → Timed s l
    → Timed
        (s ++ (record { element = e; id = now; msg = msg; kind = kind } ∷ []))
        (record { due = now + 3000; job = remove_toast e } ∷ l)
Timed-toast s l e now msg kind h =
    Timed-append s _ (record { element = e; id = now; msg = msg; kind = kind })
      (Timed-timer s l _ h) (inl (refl, refl))

Timed-without_first :
    (id : ℕ) (s : List Toast) (l : List Timer) → Timed s l → Timed (without_first id s) l
unfolding without_first
Timed-without_first id [] l h = tt
Timed-without_first id (x ∷ s) l h = elim (Bool-cases (x.id == id)) [
  | inl same ↦ rw same h.1
  | inr other ↦ rw other (h.0, Timed-without_first id s l h.1)
]

handle-Timed :
    (e : Event) (w : World)
    → Timed w.toasts w.timers
    → Timed (handle e w).toasts (handle e w).timers
unfolding handle
handle-Timed (close_toast id) w h = ground (arith, Timed-without_first id w.toasts w.timers h)
handle-Timed back_to_sign_in w h = grind (arith, Timed-toast)
handle-Timed _ w h = grind (arith, Timed-toast)

resume-Timed :
    (t : Task) (f : Reply t) (w : World)
    → Timed w.toasts w.timers
    → Timed (resume t f w).toasts (resume t f w).timers
unfolding resume
resume-Timed Task.forgot_done f w h = grind (arith, Timed-toast)
resume-Timed _ f w h = grind (arith, Timed-toast, Timed-timer)

HasTimer-remove :
    (e due : ℕ) (before : List Timer) (t : Timer) (after : List Timer)
    → t.job ≢ remove_toast e
    → HasTimer e due (before ++ (t ∷ after))
    → HasTimer e due (before ++ after)
HasTimer-remove e due [] t after n (inl (d, j)) = absurd (n j)
HasTimer-remove e due [] t after n (inr rest) = rest
HasTimer-remove e due (x ∷ before) t after n (inl same) = inl same
HasTimer-remove e due (x ∷ before) t after n (inr rest) =
    inr (HasTimer-remove e due before t after n rest)

other_toast : (e f : ℕ) → (f == e) ≡ false → remove_toast e ≢ remove_toast f
other_toast e f n same = ground arith

Timed-keep :
    (s : List Toast) (before : List Timer) (t : Timer) (after : List Timer) (e : ℕ)
    → t.job ≡ remove_toast e
    → Timed s (before ++ (t ∷ after))
    → Timed (keep (λ x. not (x.element == e)) s) (before ++ after)
Timed-keep [] before t after e j h = tt
Timed-keep (x ∷ s) before t after e j h = elim (Bool-cases (x.element == e)) [
  | inl same ↦ rw same (Timed-keep s before t after e j h.1)
  | inr other ↦ rw other (
    HasTimer-remove x.element (x.id + 3000) before t after (rw j (other_toast e x.element other))
        h.0,
    Timed-keep s before t after e j h.1,
  )
]

Timed-remove :
    (s : List Toast) (before : List Timer) (t : Timer) (after : List Timer)
    → t.job ≡ refresh_detail
    → Timed s (before ++ (t ∷ after))
    → Timed s (before ++ after)
Timed-remove [] before t after j h = tt
Timed-remove (x ∷ s) before t after j h = (
  HasTimer-remove x.element (x.id + 3000) before t after (rw j (λ e. cc)) h.0,
  Timed-remove s before t after j h.1,
)

run_job-Timed :
    (w : World) (before : List Timer) (t : Timer) (after : List Timer) (j : Job)
    → t.job ≡ j
    → Timed w.toasts (before ++ (t ∷ after))
    → let w' = run_job j (record w { timers = before ++ after }) in Timed w'.toasts w'.timers
unfolding run_job
run_job-Timed w before t after (remove_toast e) j h = Timed-keep w.toasts before t after e j h
run_job-Timed w before t after refresh_detail j h =
    ground (arith, Timed-remove w.toasts before t after j h)

Step-Timed : {v w : World} → Step v w → Timed v.toasts v.timers → Timed w.toasts w.timers
Step-Timed (user w e) h = handle-Timed e w h
Step-Timed (answer w before after p f _) h = resume-Timed p.task f _ h
Step-Timed (timeout w before after t e _) h = run_job-Timed w before t after t.job refl (rw e at h)
Step-Timed (time w ms) h = h

Reach-Timed : {v w : World} → Timed v.toasts v.timers → Reach v w → Timed w.toasts w.timers
Reach-Timed h here = h
Reach-Timed h (next r s) = Step-Timed s (Reach-Timed h r)

init-Timed :
    (s : Storage) (now : ℕ) (t : Option Text)
    → Timed (init t (initial s now)).toasts (init t (initial s now)).timers
unfolding init initial
init-Timed s now none = ground arith
init-Timed s now (some t) = ground arith

HasTimer-found :
    (e due : ℕ) (l : List Timer)
    → HasTimer e due l
    → (before : List Timer) × (after : List Timer) × (l
        ≡ before ++ (record { due = due; job = remove_toast e } ∷ after))
HasTimer-found e due [] h = elim h [ ]
HasTimer-found e due (t ∷ l) (inl (d, j)) = ([], l, ground arith)
HasTimer-found e due (t ∷ l) (inr rest) =
    let (before, after, same) = HasTimer-found e due l rest in (t ∷ before, after, ground arith)

Timed-middle :
    (a : List Toast) (x : Toast) (b : List Toast) (l : List Timer)
    → Timed (a ++ (x ∷ b)) l
    → HasTimer x.element (x.id + 3000) l
Timed-middle [] x b l h = h.0
Timed-middle (y ∷ a) x b l h = Timed-middle a x b l h.1

keep-none :
    (e : ℕ) (s : List Toast)
    → All (λ (x : Toast). x.element ≢ e) (keep (λ (x : Toast). not (x.element == e)) s)
keep-none e [] = tt
keep-none e (x ∷ s) = elim (Bool-cases (x.element == e)) [
  | inl same ↦ rw same (keep-none e s)
  | inr other ↦ rw other (ground arith, keep-none e s)
]

-- Whatever happened since the page was opened, a timer waits for each toast that is shown: it is due
-- three seconds after the toast was made, and once it runs the toast is gone.
pub Reach-toasts_expire :
    (s : Storage) (now : ℕ) (t : Option Text) {w : World} (a : List Toast) (x : Toast)
    (b : List Toast)
    → Reach (init t (initial s now)) w
    → w.toasts ≡ a ++ (x ∷ b)
    → let job : Job = remove_toast x.element in
      (before : List Timer) × (after : List Timer) × (w.timers
        ≡ before ++ (record { due = x.id + 3000; job = job } ∷ after))
      × All (λ (y : Toast). y.element ≢ x.element) (run_job job w).toasts
unfolding run_job
Reach-toasts_expire s now t a x b r shown =
    let timed = Reach-Timed (init-Timed s now t) r in
    let (before, after, waits) =
      HasTimer-found x.element (x.id + 3000) _ (Timed-middle a x b _ (rw shown at timed)) in
    (before, after, waits, keep-none x.element _)
