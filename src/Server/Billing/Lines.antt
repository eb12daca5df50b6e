-- ===== src/Server/Billing/Lines.antt =====
-- The lines of the invoices: `GenerateInvoice` of internal/billing/service.go.
use iaas_platform.Base.{
  ℕ, suc, ◌+◌, ◌%◌, ◌<◌, ◌≡◌, refl, ap, ◌∙◌, inl, inr, Bool, true, false, List, [], ◌∷◌, ◌++◌, keep,
  All, ◌==◌, arith, Bool-cases,
}
use iaas_platform.Server.Billing.{
  Float, InvoiceLineItem, Item, amount, line_of, int64_range, total_from, add_lines,
}

module _ {Q : Type 0} where
  -- The lines of an invoice.
  unfoldable pub lines_of : ℕ → List (InvoiceLineItem Q) → List (InvoiceLineItem Q)
  lines_of id l = keep (λ (x : InvoiceLineItem Q). x.invoice_id == id) l

  -- The sum of their amounts.
  unfoldable pub sum_of : List (InvoiceLineItem Q) → ℕ
  sum_of [] = 0
  sum_of (x ∷ l) = x.amount_cents + sum_of l

  lines_of-append :
      (id : ℕ) (l : List (InvoiceLineItem Q)) (x : InvoiceLineItem Q)
      → (x.invoice_id == id) ≡ true
      → sum_of (lines_of id (l ++ (x ∷ []))) ≡ sum_of (lines_of id l) + x.amount_cents
  unfolding lines_of sum_of
  lines_of-append id [] x e = ground (arith, e)
  lines_of-append id (y ∷ l) x e = ground (arith, lines_of-append id l x e)

  lines_of-append_other :
      (id : ℕ) (l : List (InvoiceLineItem Q)) (x : InvoiceLineItem Q)
      → (x.invoice_id == id) ≡ false
      → lines_of id (l ++ (x ∷ [])) ≡ lines_of id l
  unfolding lines_of
  lines_of-append_other id [] x e = ground (arith, e)
  lines_of-append_other id (y ∷ l) x e = ground (arith, lines_of-append_other id l x e)

  -- Every line belongs to an invoice with a smaller key.
  abbrev pub Below : ℕ → List (InvoiceLineItem Q) → Type 0
  Below n l = All (λ (x : InvoiceLineItem Q). x.invoice_id < n) l

  pub Below-lines_of : (n : ℕ) (l : List (InvoiceLineItem Q)) → Below n l → lines_of n l ≡ []
  unfolding lines_of
  Below-lines_of n [] h = refl
  Below-lines_of n (x ∷ l) (a, h) = ground (arith, a, Below-lines_of n l h)

  pub Below-suc : (n : ℕ) (l : List (InvoiceLineItem Q)) → Below n l → Below (suc n) l
  Below-suc n [] h = tt
  Below-suc n (x ∷ l) (a, h) = (omega (arith, a), Below-suc n l h)

  Below-append :
      (n : ℕ) (l : List (InvoiceLineItem Q)) (x : InvoiceLineItem Q)
      → Below n l
      → x.invoice_id < n
      → Below n (l ++ (x ∷ []))
  Below-append n [] x h b = (b, tt)
  Below-append n (y ∷ l) x (a, h) b = (a, Below-append n l x h b)

module _ {Q : Type 0} (float : Float Q) (fails : ℕ → Bool) (id : ℕ) where
  pub add_lines-other :
      (id' n : ℕ) (l : List (Item float)) (lines : List (InvoiceLineItem Q))
      → (id == id') ≡ false
      → lines_of id' (add_lines float fails id n l lines).0 ≡ lines_of id' lines
  unfolding add_lines
  add_lines-other id' n [] lines e = refl
  add_lines-other id' n (x ∷ l) lines e = ground (
    arith,
    add_lines-other id' (suc n) l lines e,
    add_lines-other id' (suc n) l (lines ++ (line_of float id x ∷ [])) e,
    lines_of-append_other id' lines (line_of float id x) e,
  )

  pub add_lines-Below :
      (n : ℕ) (l : List (Item float)) (lines : List (InvoiceLineItem Q))
      → Below (suc id) lines
      → Below (suc id) (add_lines float fails id n l lines).0
  unfolding add_lines
  add_lines-Below n [] lines h = h
  add_lines-Below n (x ∷ l) lines h = elim (Bool-cases (float.at_most_zero x.qty)) [
    | inl a ↦ simp a (add_lines-Below (suc n) l lines h)
    | inr a ↦ elim (Bool-cases (fails n)) [
      | inl b ↦ simp (a, b) h
      | inr b ↦
          simp (a, b)
            (add_lines-Below (suc n) l (lines ++ (line_of float id x ∷ []))
              (Below-append (suc id) lines (line_of float id x) h (omega arith)))
    ]
  ]

  pub add_lines-total :
      (n : ℕ) (l : List (Item float)) (lines : List (InvoiceLineItem Q))
      → ((k : ℕ) → fails k ≡ false)
      → sum_of (lines_of id (add_lines float fails id n l lines).0) % int64_range
        ≡ total_from float (sum_of (lines_of id lines) % int64_range) l
  unfolding add_lines total_from
  add_lines-total n [] lines h = refl
  add_lines-total n (x ∷ l) lines h = elim (Bool-cases (float.at_most_zero x.qty)) [
    | inl a ↦ simp a (add_lines-total (suc n) l lines h)
    | inr a ↦
        let s = sum_of (lines_of id lines) in
        let e : (s + amount float x) % int64_range
            ≡ (s % int64_range + amount float x) % int64_range =
          omega arith in
        simp (a, h n)
          (add_lines-total (suc n) l (lines ++ (line_of float id x ∷ [])) h
            ∙ ap (λ z. total_from float z l)
                (ap (λ z. z % int64_range)
                    (lines_of-append id lines (line_of float id x) (ground arith))
                  ∙ e))
  ]
