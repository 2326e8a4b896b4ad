-- ===== src/Ledger/Chain/Order.antt =====
-- The rows of a job, as SQLite orders them, after one row is added to the table.
use c_s_cool_stuff.Prelude.{
  ◌≤◌, String, ◌≡◌, refl, Bool, true, false, inl, inr, List, [], ◌∷◌, ◌++◌, str_eq, leb, keep_if,
  arith, All, Bool-cases,
}
use mathlib.Core.List.{append-nil}
use c_s_cool_stuff.Ledger.Platform.{Platform}
use c_s_cool_stuff.Ledger.Row.{Row}
use c_s_cool_stuff.Ledger.Store.{insert_by_seq, order_by_seq, job_rows}

module _ (p : Platform) where
  insert-append :
      (x r : Row p) (ys : List (Row p))
      → x.seq ≤ r.seq
      → insert_by_seq p x (ys ++ r ∷ []) ≡ insert_by_seq p x ys ++ r ∷ []
  unfolding insert_by_seq
  insert-append x r [] h = ground arith
  insert-append x r (y ∷ ys) h = ground (arith, insert-append x r ys h)

  order-append :
      (xs : List (Row p)) (r : Row p)
      → All (λ x. x.seq ≤ r.seq) xs
      → order_by_seq p (xs ++ r ∷ []) ≡ order_by_seq p xs ++ r ∷ []
  unfolding order_by_seq insert_by_seq
  order-append [] r h = refl
  order-append (x ∷ xs) r h = rw (order-append xs r h.1) (insert-append x r (order_by_seq p xs) h.0)

  All-insert :
      (P : Row p → Type 0) (x : Row p) (ys : List (Row p))
      → All P (insert_by_seq p x ys)
      → P x × All P ys
  unfolding insert_by_seq
  All-insert P x [] h = h
  All-insert P x (y ∷ ys) h = elim (Bool-cases (leb x.seq y.seq)) [
    | inl first ↦ rw first at h
    | inr later ↦
        let h' : P y × All P (insert_by_seq p x ys) = rw later at h in
        let (here, rest) = All-insert P x ys h'.1 in (here, (h'.0, rest))
  ]

  All-order : (P : Row p → Type 0) (xs : List (Row p)) → All P (order_by_seq p xs) → All P xs
  unfolding order_by_seq
  All-order P [] h = tt
  All-order P (x ∷ xs) h =
      let (here, rest) = All-insert P x (order_by_seq p xs) h in (here, All-order P xs rest)

  keep_if-append :
      (test : Row p → Bool) (xs : List (Row p)) (r : Row p)
      → keep_if test (xs ++ r ∷ []) ≡ keep_if test xs ++ keep_if test (r ∷ [])
  keep_if-append test [] r = refl
  keep_if-append test (x ∷ xs) r = ground (arith, keep_if-append test xs r)

  -- A row of another job leaves the rows of this one alone.
  pub job_rows-append_ne :
      (rows : List (Row p)) (r : Row p) (job : String)
      → str_eq r.job_id job ≡ false
      → job_rows p (rows ++ r ∷ []) job ≡ job_rows p rows job
  unfolding job_rows
  job_rows-append_ne rows r job h =
      rw (keep_if-append (λ x. str_eq x.job_id job) rows r, h, append-nil)

  -- A row whose number is not below the others' comes last.
  pub job_rows-append :
      (rows : List (Row p)) (r : Row p) (job : String)
      → str_eq r.job_id job ≡ true
      → All (λ x. x.seq ≤ r.seq) (job_rows p rows job)
      → job_rows p (rows ++ r ∷ []) job ≡ job_rows p rows job ++ r ∷ []
  unfolding job_rows
  job_rows-append rows r job h above =
      rw (keep_if-append (λ x. str_eq x.job_id job) rows r, h)
        (order-append (keep_if (λ x. str_eq x.job_id job) rows) r
          (All-order (λ x. x.seq ≤ r.seq) (keep_if (λ x. str_eq x.job_id job) rows) above))
