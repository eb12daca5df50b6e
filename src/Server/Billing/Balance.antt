-- ===== src/Server/Billing/Balance.antt =====
-- Whether invoices add up: `GenerateInvoice` of internal/billing/service.go.
use iaas_platform.Base.{
  ℕ, suc, ◌+◌, ◌%◌, ◌<◌, ◌≡◌, ap, ◌∙◌, inl, inr, Bool, false, List, [], ◌∷◌, ◌++◌, All, arith,
  Bool-cases, Option-cases,
}
use iaas_platform.Base.Text.{Text}
use iaas_platform.Server.Billing.{
  Float, Month, Invoice, InvoiceLineItem, Books, Faults, Item, items_of, int64_range, total_from,
  add_lines, unit_prices, record_usage, get_summary, new_invoice, generate_invoice,
  get_invoice_line_items,
}
use iaas_platform.Server.Billing.Lines.{
  lines_of, sum_of, Below, Below-lines_of, Below-suc, add_lines-other, add_lines-Below,
  add_lines-total,
}

-- The records of usage, the invoices, for which every line can be added, and the clock.
pub data Reach {Q : Type 0} (float : Float Q) (month : ℕ → Month) (w : Books Q)
    : Books Q → Type 0 where
  here : Reach float month w w
  records :
      {v : Books Q}
      → Reach float month w v
      → (f : Faults) (org instance_id : ℕ) (t : Text) (q : Q)
      → Reach float month w (record_usage float f org instance_id t q v).0
  generates :
      {v : Books Q}
      → Reach float month w v
      → (f : Faults) (org : ℕ) → ((n : ℕ) → f.line n ≡ false)
      → Reach float month w (generate_invoice float f month org v).0
  waits :
      {v : Books Q}
      → Reach float month w v
      → (ms : ℕ) → Reach float month w (record v { now = v.now + ms })

module _ {Q : Type 0} where
  abbrev AddsUp : List (InvoiceLineItem Q) → ℕ → List Invoice → Type 0
  AddsUp lines next l =
      All
        (λ (i : Invoice).
          (i.id < next) × (sum_of (lines_of i.id lines) % int64_range ≡ i.amount_cents))
        l

  pub record Balanced (w : Books Q) : Type 0 where
    pub invoices : AddsUp w.lines w.next_invoice w.invoices
    pub lines : Below w.next_invoice w.lines

  module _ (float : Float Q) (month : ℕ → Month) where
    record_usage-Balanced :
        (f : Faults) (org instance_id : ℕ) (t : Text) (q : Q) (w : Books Q)
        → Balanced w
        → Balanced (record_usage float f org instance_id t q w).0
    unfolding record_usage
    record_usage-Balanced f org instance_id t q w b = elim (Option-cases (unit_prices t)) [
      | inl e ↦ simp (e, record_usage) b
      | inr (n, e) ↦ elim (Bool-cases (float.at_most_zero q)) [
        | inl c ↦ simp (e, c, record_usage) b
        | inr c ↦ elim (Bool-cases f.record_usage) [
          | inl d ↦ simp (e, c, d, record_usage) b
          | inr d ↦ simp (e, c, d, record_usage) (record { invoices = b.invoices; lines = b.lines })
        ]
      ]
    ]

    older-AddsUp :
        (fails : ℕ → Bool) (n : ℕ) (l : List (Item float)) (lines : List (InvoiceLineItem Q))
        (next : ℕ) (k : List Invoice)
        → AddsUp lines next k
        → AddsUp (add_lines float fails next n l lines).0 (suc next) k
    older-AddsUp fails n l lines next [] h = tt
    older-AddsUp fails n l lines next (i ∷ k) ((a, b), h) = (
      (
        omega (arith, a),
        rw (add_lines-other float fails next i.id n l lines (ground (arith, a))) b,
      ),
      older-AddsUp fails n l lines next k h,
    )

    newest-AddsUp :
        (lines : List (InvoiceLineItem Q)) (next : ℕ) (k : List Invoice) (i : Invoice)
        → AddsUp lines next k
        → i.id < next
        → sum_of (lines_of i.id lines) % int64_range ≡ i.amount_cents
        → AddsUp lines next (k ++ (i ∷ []))
    newest-AddsUp lines next [] i h a b = ((a, b), tt)
    newest-AddsUp lines next (j ∷ k) i (c, h) a b = (c, newest-AddsUp lines next k i h a b)

    generate_invoice-Balanced :
        (f : Faults) (org : ℕ) (w : Books Q)
        → ((n : ℕ) → f.line n ≡ false)
        → Balanced w
        → Balanced (generate_invoice float f month org w).0
    unfolding generate_invoice new_invoice sum_of
    generate_invoice-Balanced f org w h b = elim (Bool-cases f.summary) [
      | inl e ↦ simp e b
      | inr e ↦ elim (Bool-cases f.invoice) [
        | inl c ↦ simp (e, c) b
        | inr c ↦
            let l = items_of float (get_summary float org (month w.now).period_start w.usage) in
            let none_yet : sum_of (lines_of w.next_invoice w.lines) ≡ 0 =
              ap sum_of (Below-lines_of w.next_invoice w.lines b.lines) in
            let total = add_lines-total float f.line w.next_invoice 0 l w.lines h in
            simp (e, c)
              (record {
                invoices =
                    newest-AddsUp _ _ w.invoices (new_invoice float month org w)
                      (older-AddsUp f.line 0 l w.lines w.next_invoice w.invoices b.invoices)
                      (omega arith)
                      (total ∙ ap (λ z. total_from float (z % int64_range) l) none_yet);
                lines =
                    add_lines-Below float f.line w.next_invoice 0 l w.lines
                      (Below-suc w.next_invoice w.lines b.lines);
              })
      ]
    ]

    Reach-Balanced : {w v : Books Q} → Balanced w → Reach float month w v → Balanced v
    Reach-Balanced b here = b
    Reach-Balanced b (records {v} r f org instance_id t q) =
        record_usage-Balanced f org instance_id t q v (Reach-Balanced b r)
    Reach-Balanced b (generates {v} r f org h) =
        generate_invoice-Balanced f org v h (Reach-Balanced b r)
    Reach-Balanced b (waits r ms) =
        let c = Reach-Balanced b r in record { invoices = c.invoices; lines = c.lines }

    AddsUp-sums :
        (v : Books Q) (k : List Invoice)
        → AddsUp v.lines v.next_invoice k
        → All
            (λ (i : Invoice).
              sum_of (get_invoice_line_items float i.id v) % int64_range ≡ i.amount_cents)
            k
    unfolding get_invoice_line_items lines_of
    AddsUp-sums v [] h = tt
    AddsUp-sums v (i ∷ k) ((a, b), h) = (b, AddsUp-sums v k h)

    -- From tables without invoices and lines, along every sequence of usage records, generated
    -- invoices and delays, whichever calls fail but those that add a line: the amount of every invoice
    -- is the sum of the amounts of its lines, modulo 2^64, for any arithmetic of float64.
    pub lines_add_up :
        {w v : Books Q}
        → w.invoices ≡ []
        → w.lines ≡ []
        → Reach float month w v
        → All
            (λ (i : Invoice).
              sum_of (get_invoice_line_items float i.id v) % int64_range ≡ i.amount_cents)
            v.invoices
    lines_add_up {w} {v} e g r =
        let b : Balanced w = record { invoices = rw e tt; lines = rw g tt } in
        AddsUp-sums v v.invoices (Reach-Balanced b r).invoices
