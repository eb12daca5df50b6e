-- ===== src/Server/Orgs/Pages.antt =====
-- The pages of `ListMembers` of internal/organizations/service.go one after the other, with the
-- limits of `PageParams` of internal/httpx/pagination.go.
use iaas_platform.Base.{
  ℕ, zero, suc, ◌+◌, ◌*◌, ◌≤◌, ◌≡◌, refl, ap, sym, ◌∙◌, true, false, Option, none, some, List, [],
  ◌∷◌, ◌++◌, take, length, arith,
}
use native.Mathlib.Nat.{suc-mul, zero-mul, mul-le-mul_left}
use iaas_platform.Base.Text.{Text}
use iaas_platform.Server.Paging.{page_params, page_params-limit}
use iaas_platform.Server.Orgs.{Directory, OrgMember, is_admin, find_member}
use iaas_platform.Server.Orgs.Service.{Faults, drop, members_of, list_members}

abbrev page_of : Option (List OrgMember × ℕ) → List OrgMember
page_of none = []
page_of (some p) = p.0

-- A number of pages from an offset on, put together.
unfoldable pub pages : Faults → ℕ → ℕ → ℕ → Directory → ℕ → ℕ → List OrgMember
unfolding list_members
pages f org caller limit w zero offset = []
pages f org caller limit w (suc n) offset =
    page_of (list_members f org caller limit offset w)
    ++ pages f org caller limit w n (offset + limit)

take-drop : (k : ℕ) (l : List OrgMember) → take k l ++ drop k l ≡ l
unfolding drop
take-drop zero l = refl
take-drop (suc k) [] = refl
take-drop (suc k) (m ∷ l) = ap (λ (t : List OrgMember). m ∷ t) (take-drop k l)

drop-nil : (k : ℕ) → drop k [] ≡ []
unfolding drop
drop-nil zero = refl
drop-nil (suc k) = refl

drop-add : (a b : ℕ) (l : List OrgMember) → drop (a + b) l ≡ drop b (drop a l)
unfolding drop
drop-add zero b l = let same : zero + b ≡ b = omega arith in rw same refl
drop-add (suc a) b [] = drop-nil (suc a + b) ∙ sym (drop-nil b)
drop-add (suc a) b (m ∷ l) =
    let same : suc a + b ≡ suc (a + b) = omega arith in rw same (drop-add a b l)

drop-all : (k : ℕ) (l : List OrgMember) → length l ≤ k → drop k l ≡ []
unfolding drop
drop-all zero [] h = refl
drop-all zero (m ∷ l) h = ground arith
drop-all (suc k) [] h = refl
drop-all (suc k) (m ∷ l) h = drop-all k l (omega arith)

list_members-admin :
    (f : Faults) (org caller limit offset : ℕ) (w : Directory) (a : OrgMember)
    → f.find_member ≡ false
    → f.find_all ≡ false
    → f.count ≡ false
    → find_member org caller w.now w.members ≡ some a
    → is_admin a ≡ true
    → page_of (list_members f org caller limit offset w)
      ≡ take limit (drop offset (members_of org w.members))
unfolding list_members
list_members-admin f org caller limit offset w a b c d e s = simp (b, c, d, e, s, list_members) refl

pages-drop :
    (f : Faults) (org caller limit n offset : ℕ) (w : Directory) (a : OrgMember)
    → f.find_member ≡ false
    → f.find_all ≡ false
    → f.count ≡ false
    → find_member org caller w.now w.members ≡ some a
    → is_admin a ≡ true
    → length (members_of org w.members) ≤ offset + n * limit
    → pages f org caller limit w n offset ≡ drop offset (members_of org w.members)
unfolding pages
pages-drop f org caller limit zero offset w a b c d e s h =
    sym (drop-all offset (members_of org w.members) (omega (arith, zero-mul limit)))
pages-drop f org caller limit (suc n) offset w a b c d e s h =
    let l = members_of org w.members in
    let rest =
      pages-drop f org caller limit n (offset + limit) w a b c d e s
        (omega (arith, suc-mul n limit)) in
    rw (list_members-admin f org caller limit offset w a b c d e s, rest, drop-add offset limit l)
      (take-drop limit (drop offset l))

-- The pages that `ListMembers` shows an admin, one after the other from the first on with the limit
-- that `PageParams` makes of any query, put together are the members of the organization, each once
-- and in order, as soon as there are as many pages as there are members; where no call fails and the
-- members do not change meanwhile.
pub pages_cover :
    (f : Faults) (org caller n : ℕ) (limit offset : Text) (w : Directory) (a : OrgMember)
    → f.find_member ≡ false
    → f.find_all ≡ false
    → f.count ≡ false
    → find_member org caller w.now w.members ≡ some a
    → is_admin a ≡ true
    → length (members_of org w.members) ≤ n
    → pages f org caller (page_params limit offset).0 w n 0 ≡ members_of org w.members
unfolding drop
pages_cover f org caller n limit offset w a b c d e s h =
    let least = (page_params-limit limit offset).0 in
    let more : n ≤ n * (page_params limit offset).0 = omega (arith, mul-le-mul_left n least) in
    pages-drop f org caller (page_params limit offset).0 n 0 w a b c d e s (omega (arith, more))
