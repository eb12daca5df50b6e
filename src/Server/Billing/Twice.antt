-- ===== src/Server/Billing/Twice.antt =====
-- Invoices of the same month: `GenerateInvoice` of internal/billing/service.go.
use iaas_platform.Base.{ℕ, suc, ◌+◌, ◌≡◌, refl, ap, false, List, [], ◌∷◌, ◌++◌}
use iaas_platform.Server.Billing.{Float, Month, Books, Faults, new_invoice, generate_invoice}

append-two : {A : Type 0} → (l : List A) (a b : A) → (l ++ (a ∷ [])) ++ (b ∷ []) ≡ l ++ (a ∷ b ∷ [])
append-two [] a b = refl
append-two (c ∷ l) a b = ap (λ z. c ∷ z) (append-two l a b)

module _ {Q : Type 0} (float : Float Q) (month : ℕ → Month) where
  generated :
      (f : Faults) (org : ℕ) (w : Books Q)
      → f.summary ≡ false
      → f.invoice ≡ false
      → (generate_invoice float f month org w).0.invoices
        ≡ w.invoices ++ (new_invoice float month org w ∷ [])
  unfolding generate_invoice
  generated f org w s i = simp (s, i, generate_invoice) refl

  generated-rest :
      (f : Faults) (org : ℕ) (w : Books Q)
      → f.summary ≡ false
      → f.invoice ≡ false
      → ((generate_invoice float f month org w).0.usage ≡ w.usage)
        × ((generate_invoice float f month org w).0.next_invoice ≡ suc w.next_invoice)
        × ((generate_invoice float f month org w).0.now ≡ w.now)
  unfolding generate_invoice
  generated-rest f org w s i = (
    simp (s, i, generate_invoice) refl,
    simp (s, i, generate_invoice) refl,
    simp (s, i, generate_invoice) refl,
  )

  -- Usage is billed once more by every invoice that is generated in its month: two invoices for an
  -- organization in the same month, with no usage recorded in between, differ in nothing but their
  -- keys and the times at which they were made. Both are stored whether or not their lines could be added, so also where the first request
  -- was answered by an error.
  pub billed_twice :
      (f g : Faults) (org ms : ℕ) (w : Books Q)
      → f.summary ≡ false
      → f.invoice ≡ false
      → g.summary ≡ false
      → g.invoice ≡ false
      → month (w.now + ms) ≡ month w.now
      → (generate_invoice float g month org
          (record (generate_invoice float f month org w).0 { now = w.now + ms })).0.invoices
        ≡ w.invoices
          ++ (new_invoice float month org w
              ∷ record (new_invoice float month org w) {
                id = suc w.next_invoice;
                created_at = w.now + ms;
              }
              ∷ [])
  unfolding new_invoice
  billed_twice f g org ms w s i t j m =
      let v = record (generate_invoice float f month org w).0 { now = w.now + ms } in
      let (u, n, _) = generated-rest f org w s i in
      rw (generated g org v t j, generated f org w s i, u, n, m) (append-two w.invoices _ _)
