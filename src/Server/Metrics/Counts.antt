-- ===== src/Server/Metrics/Counts.antt =====
-- What a histogram and its labels say: internal/metrics/metrics.go.
use iaas_platform.Base.{
  ℕ, suc, ◌+◌, ◌%◌, ◌<◌, ◌≡◌, refl, sym, ap, All, ◌∙◌, inl, inr, List, [], ◌∷◌, map, length, arith,
  ◌==◌, if◌then◌else◌, Bool-cases,
}
use iaas_platform.Base.Text.{Text}
use iaas_platform.Server.Metrics.{
  Float, Sample, replace_all, escape_label, uint64_range, count_in, observe,
}

-- How a reader of the text format takes an escaped value.
unfoldable pub unescape : Text → Text
unescape [] = []
unescape (c ∷ []) = c ∷ []
unescape (c ∷ d ∷ s) =
    let plain = c ∷ unescape (d ∷ s) in
    let escaped = (if d == b'n' then 10 else d) ∷ unescape s in if c == 92 then escaped else plain

-- The three replacements at once.
unfoldable escape_all : Text → Text
escape_all [] = []
escape_all (c ∷ s) =
    let rest = escape_all s in
    if c == 92
    then 92 ∷ 92 ∷ rest
    else if c == 34
    then 92 ∷ 34 ∷ rest
    else if c == 10
    then 92 ∷ b'n' ∷ rest
    else c ∷ rest

escape_label-all : (v : Text) → escape_label v ≡ escape_all v
unfolding escape_label replace_all escape_all
escape_label-all [] = refl
escape_label-all (c ∷ s) = ground (arith, escape_label-all s)

unescape-escape_all : (v : Text) → unescape (escape_all v) ≡ v
unfolding escape_all unescape
unescape-escape_all [] = refl
unescape-escape_all (c ∷ s) = ground (arith, unescape-escape_all s)

-- A reader of the text format takes the escaped value of a label back as it was.
label_read_back : (v : Text) → unescape (escape_label v) ≡ v
label_read_back v = ap unescape (escape_label-all v) ∙ unescape-escape_all v

module _ {Q : Type 0} (float : Float Q) where
  -- `Observe` of each value in turn.
  unfoldable pub observe_all : List Q → List Q → Sample Q → Sample Q
  unfolding observe
  observe_all buckets [] s = s
  observe_all buckets (v ∷ l) s = observe_all buckets l (observe float buckets v s)

  -- How many of the values are at most the boundary.
  unfoldable pub values_below : Q → List Q → ℕ
  values_below b [] = 0
  values_below b (v ∷ l) =
      let rest = values_below b l in if float.at_most v b then suc rest else rest

  abbrev zeros : List Q → List ℕ
  zeros l = map (λ b. 0) l

  -- The counts after the values, from given counts.
  unfoldable raised : List Q → List Q → List ℕ → List ℕ
  unfolding values_below
  raised vs [] counts = counts
  raised vs (b ∷ l) [] = []
  raised vs (b ∷ l) (n ∷ counts) = ((n + values_below b vs) % uint64_range) ∷ raised vs l counts

  abbrev Reduced : List ℕ → Type 0
  Reduced l = All (λ (n : ℕ). n < uint64_range) l

  raised-none : (l : List Q) (counts : List ℕ) → Reduced counts → raised [] l counts ≡ counts
  unfolding raised values_below
  raised-none [] counts h = refl
  raised-none (b ∷ l) [] h = refl
  raised-none (b ∷ l) (n ∷ counts) (a, h) =
      let m : (n + 0) % uint64_range ≡ n = omega (arith, a) in rw (m, raised-none l counts h) refl

  raised-count_in :
      (v : Q) (vs l : List Q) (counts : List ℕ)
      → raised vs l (count_in float v l counts) ≡ raised (v ∷ vs) l counts
  unfolding raised values_below count_in
  raised-count_in v vs [] counts = refl
  raised-count_in v vs (b ∷ l) [] = refl
  raised-count_in v vs (b ∷ l) (n ∷ counts) = elim (Bool-cases (float.at_most v b)) [
    | inl e ↦
        let k = values_below b vs in
        let m : ((n + 1) % uint64_range + k) % uint64_range ≡ (n + suc k) % uint64_range =
          omega arith in
        simp (e, m, raised-count_in v vs l counts) refl
    | inr e ↦ simp (e, raised-count_in v vs l counts) refl
  ]

  count_in-Reduced :
      (v : Q) (l : List Q) (counts : List ℕ) → Reduced counts → Reduced (count_in float v l counts)
  unfolding count_in
  count_in-Reduced v [] counts h = h
  count_in-Reduced v (b ∷ l) [] h = tt
  count_in-Reduced v (b ∷ l) (n ∷ counts) (a, h) =
      (ground (arith, a), count_in-Reduced v l counts h)

  observe_all-bucket_counts :
      (buckets vs : List Q) (s : Sample Q)
      → Reduced s.bucket_counts
      → (observe_all buckets vs s).bucket_counts ≡ raised vs buckets s.bucket_counts
  unfolding observe_all observe
  observe_all-bucket_counts buckets [] s h = sym (raised-none buckets s.bucket_counts h)
  observe_all-bucket_counts buckets (v ∷ vs) s h =
      observe_all-bucket_counts buckets vs (observe float buckets v s)
        (count_in-Reduced v buckets s.bucket_counts h)
      ∙ raised-count_in v vs buckets s.bucket_counts

  observe_all-count :
      (buckets vs : List Q) (s : Sample Q)
      → s.count < uint64_range
      → (observe_all buckets vs s).count ≡ (s.count + length vs) % uint64_range
  unfolding observe_all observe
  observe_all-count buckets [] s h = omega (arith, h)
  observe_all-count buckets (v ∷ vs) s h =
      let n : (s.count + 1) % uint64_range < uint64_range = omega arith in
      omega (arith, observe_all-count buckets vs (observe float buckets v s) n)

  raised-zeros :
      (vs l : List Q) → raised vs l (zeros l) ≡ map (λ b. values_below b vs % uint64_range) l
  unfolding raised
  raised-zeros vs [] = refl
  raised-zeros vs (b ∷ l) =
      let m : (0 + values_below b vs) % uint64_range ≡ values_below b vs % uint64_range =
        omega arith in
      rw (m, raised-zeros vs l) refl

  zeros-Reduced : (l : List Q) → Reduced (zeros l)
  zeros-Reduced [] = tt
  zeros-Reduced (b ∷ l) = (omega arith, zeros-Reduced l)

  abbrev pub fresh_sample : List Text → Q → List Q → Sample Q
  fresh_sample labels zero_sum buckets = record {
    label_kv = labels;
    sum = zero_sum;
    count = 0;
    bucket_counts = zeros buckets;
  }

  -- After any observations, in any order, each bucket of a new histogram counts the values that are at
  -- most its boundary, also those of the buckets before it, and the count of the sample is the number
  -- of observations; both modulo 2^64, for any boundaries and any comparison of float64.
  pub histogram_counts :
      (buckets vs : List Q) (labels : List Text) (zero_sum : Q)
      → ((observe_all buckets vs (fresh_sample labels zero_sum buckets)).bucket_counts
          ≡ map (λ b. values_below b vs % uint64_range) buckets)
        × ((observe_all buckets vs (fresh_sample labels zero_sum buckets)).count
            ≡ length vs % uint64_range)
  histogram_counts buckets vs labels zero_sum =
      let s = fresh_sample labels zero_sum buckets in
      (
        observe_all-bucket_counts buckets vs s (zeros-Reduced buckets) ∙ raised-zeros vs buckets,
        omega (arith, observe_all-count buckets vs s (omega arith)),
      )
