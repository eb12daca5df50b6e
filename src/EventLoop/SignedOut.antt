-- ===== src/EventLoop/SignedOut.antt =====
-- Late answers after a logout.
use iaas_platform.Base.{ℕ, ◌+◌, ◌≡◌, none, List, arith}
use iaas_platform.World.{
  World, Task, Reply, Pending, login_page, sign_in, forgot_done, reset_done, log_in_done,
  sign_up_done, me_done,
}
use iaas_platform.World.Ops.{get_main, get_tab, put_main, put_tab}
use iaas_platform.Session.{logout}
use iaas_platform.EventLoop.{resume}

-- The calls of the page behind the login.
abbrev pub IsInside : Task → Type 0
IsInside forgot_done = ⊥
IsInside reset_done = ⊥
IsInside log_in_done = ⊥
IsInside sign_up_done = ⊥
IsInside me_done = ⊥
IsInside _ = Unit

pub record IsSignedOut (w : World) : Type 0 where
  pub page : w.page ≡ login_page sign_in
  pub token : w.state.token ≡ none
  pub stored : w.storage.token ≡ none

logout-IsSignedOut : (w : World) → IsSignedOut (logout w)
unfolding logout
logout-IsSignedOut w = record { page = ground arith; token = ground arith; stored = ground arith }

resume-IsSignedOut :
    (t : Task) (f : Reply t) (w : World) → IsInside t → IsSignedOut w → IsSignedOut (resume t f w)
unfolding resume get_main get_tab put_main put_tab
resume-IsSignedOut _ f w i h = record {
  page = ground arith;
  token = ground arith;
  stored = ground arith;
}

-- Any calls that answer one after the other, with any time in between.
pub data Answers (w : World) : World → Type 0 where
  here : Answers w w
  answers :
      {v : World}
      → Answers w v
      → (t : Task) (f : Reply t) (pending : List Pending) (ms : ℕ) → IsInside t
      → Answers w (resume t f (record v { pending = pending; now = v.now + ms }))

-- After a logout the form of the login stays, and nobody is signed in or remembered, whichever
-- calls of the page behind the login are answered after it, and however.
pub logout-Answers : (w : World) {v : World} → Answers (logout w) v → IsSignedOut v
logout-Answers w here = logout-IsSignedOut w
logout-Answers w (answers {v} l t f pending ms i) =
    let h = logout-Answers w l in
    resume-IsSignedOut t f _ i (record { page = h.page; token = h.token; stored = h.stored })
