-- ===== src/Api/Laws.antt =====
-- What `api` and `asArray` guarantee to the handlers.
use iaas_platform.Base.{ℕ, ◌≤◌, ◌<◌, ◌≡◌, ◌↔◌, none, some}
use iaas_platform.Base.{arith}
use iaas_platform.Api.{Fetched, replied, rejected, Body, success, settle}

settle_success :
    {A : Type 0} (f : Fetched A) (status : ℕ) (value : A)
    → settle f ≡ success status value
    → (200 ≤ status)
      × (status < 300)
      × (b : Body A) × (f ≡ replied status (some b))
      × (b.value ≡ value)
unfolding settle
settle_success rejected status value e = cc
settle_success (replied s none) status value e = cc
settle_success (replied s (some b)) status value e =
    (ground arith, ground arith, b, ground arith, ground arith)

-- `api` reports success exactly when `fetch` replied with a status of 200 to 299 and a JSON body,
-- and it then hands over that status and what the body decodes to.
pub settle_success_iff :
    {A : Type 0} (f : Fetched A) (status : ℕ) (value : A)
    → (settle f ≡ success status value) ↔ (
        (200 ≤ status)
        × (status < 300)
        × (b : Body A) × (f ≡ replied status (some b))
        × (b.value ≡ value))
unfolding settle
settle_success_iff f status value =
    (settle_success f status value, λ (lo, hi, b, e, v). rw (e, ← v) (ground arith))
