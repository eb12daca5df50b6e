-- ===== src/Server/Metrics.antt =====
-- The samples of internal/metrics/metrics.go and the lines that they are written as. The arithmetic
-- and the text of a float64 are parameters; counts are `uint64`. The registry and the map from the
-- labels to the samples are left out.
pub mod Counts
use iaas_platform.Base.{ℕ, suc, ◌+◌, ◌%◌, Bool, List, [], ◌∷◌, ◌++◌, ◌==◌, if◌then◌else◌}
use iaas_platform.Base.Text.{Text, lit, show}

pub record Float (Q : Type 0) : Type 0 where
  pub plus : Q → Q → Q
  pub at_most : Q → Q → Bool
  pub format : Q → Text

-- `sample` of a histogram.
pub record Sample (Q : Type 0) : Type 0 where
  pub label_kv : List Text
  pub sum : Q
  pub count : ℕ
  pub bucket_counts : List ℕ

-- `strings.ReplaceAll`, of one code point.
unfoldable pub replace_all : ℕ → Text → Text → Text
replace_all c r [] = []
replace_all c r (d ∷ s) = let rest = replace_all c r s in if d == c then r ++ rest else d ∷ rest

-- `escapeLabel`
unfoldable pub escape_label : Text → Text
unfolding replace_all
escape_label v =
    replace_all 10 (92 ∷ b'n' ∷ [])
      (replace_all 34 (92 ∷ 34 ∷ []) (replace_all 92 (92 ∷ 92 ∷ []) v))

-- A label with its value, as `WithLabelValues` writes it.
unfoldable pub label_pair : Text → Text → Text
unfolding escape_label
label_pair name value = name ++ (lit "=\"" ++ (escape_label value ++ lit "\""))

-- `strings.Join` with a comma.
unfoldable pub join : List Text → Text
join [] = []
join (s ∷ []) = s
join (s ∷ t ∷ l) = s ++ (b',' ∷ join (t ∷ l))

-- `labelString`
unfoldable pub label_string : List Text → Text
unfolding join
label_string [] = []
label_string (s ∷ l) = lit "{" ++ (join (s ∷ l) ++ lit "}")

abbrev pub uint64_range : ℕ
uint64_range = 18446744073709551616

module _ {Q : Type 0} (float : Float Q) where
  -- The loop of `Observe` over the boundaries.
  unfoldable pub count_in : Q → List Q → List ℕ → List ℕ
  count_in v [] counts = counts
  count_in v (b ∷ l) [] = []
  count_in v (b ∷ l) (n ∷ counts) =
      (if float.at_most v b then (n + 1) % uint64_range else n) ∷ count_in v l counts

  -- `Observe`
  unfoldable pub observe : List Q → Q → Sample Q → Sample Q
  unfolding count_in
  observe buckets v s = record s {
    sum = float.plus s.sum v;
    count = (s.count + 1) % uint64_range;
    bucket_counts = count_in v buckets s.bucket_counts;
  }

  -- The line of a bucket.
  unfoldable pub bucket_line : Text → List Text → Text → ℕ → Text
  unfolding label_string
  bucket_line name labels boundary n =
      name
      ++ (lit "_bucket{"
          ++ (label_string labels
              ++ (lit "le=\"" ++ (boundary ++ (lit "\"} " ++ (show n ++ lit "\n"))))))

  unfoldable pub bucket_lines : Text → List Text → List Q → List ℕ → Text
  unfolding bucket_line
  bucket_lines name labels [] counts = []
  bucket_lines name labels (b ∷ l) [] = []
  bucket_lines name labels (b ∷ l) (n ∷ counts) =
      bucket_line name labels (float.format b) n ++ bucket_lines name labels l counts

  -- The lines of a sample of a histogram, by `write`.
  unfoldable pub write_histogram : Text → List Q → Sample Q → Text
  unfolding bucket_lines label_string
  write_histogram name buckets s =
      bucket_lines name s.label_kv buckets s.bucket_counts
      ++ (bucket_line name s.label_kv (lit "+Inf") s.count
          ++ (name
              ++ (lit "_sum"
                  ++ (label_string s.label_kv
                      ++ (lit " "
                          ++ (float.format s.sum
                              ++ (lit "\n"
                                  ++ (name
                                      ++ (lit "_count"
                                          ++ (label_string s.label_kv
                                              ++ (lit " " ++ (show s.count ++ lit "\n"))))))))))))
