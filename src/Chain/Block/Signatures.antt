-- ===== src/Chain/Block/Signatures.antt =====
-- AuthorizationsFor of internal/chain/block.go over all transactions of a body.
use drivechain_esplora.Base.{
  ℕ, zero, suc, ◌+◌, ◌≤◌, ◌<◌, ◌≡◌, refl, sym, ap, ◌∙◌, some, List, [], ◌∷◌, ◌++◌, length, take,
  drop, sum_by, get_elem?, Result, ok, ◌>>=◌, arith,
}
use drivechain_esplora.Chain.Block.{
  Body, Transaction, Authorization, input_count, authorizations_for,
}

-- The signatures of the first `n` transactions, as AuthorizationsFor hands them out one by one.
pub dealt : Body → ℕ → Result (List Authorization)
dealt b zero = ok []
dealt b (suc n) = do front ← dealt b n; own ← authorizations_for b n; ok (front ++ own)

take_nil : {A : Type 0} (n : ℕ) → take {A = A} n [] ≡ []
take_nil zero = refl
take_nil (suc n) = refl

take-append_drop :
    {A : Type 0} (m n k : ℕ) (xs : List A) → k ≡ m + n → take m xs ++ take n (drop m xs) ≡ take k xs
take-append_drop zero n k xs e = ap (λ i. take i xs) (omega arith)
take-append_drop (suc m) n k [] e = take_nil n ∙ sym (take_nil k)
take-append_drop (suc m) n zero (x ∷ xs) e = absurd (omega arith)
take-append_drop (suc m) n (suc k) (x ∷ xs) e =
    ap (λ l. x ∷ l) (take-append_drop m n k xs (omega arith))

module _ (count : Transaction → ℕ) where
  sum_by-take :
      (txs : List Transaction) (n : ℕ) (tx : Transaction)
      → get_elem? txs n ≡ some tx
      → sum_by count (take (suc n) txs) ≡ sum_by count (take n txs) + count tx
  sum_by-take [] n tx e = cc
  sum_by-take (t ∷ txs) zero tx e = ground arith
  sum_by-take (t ∷ txs) (suc n) tx e = omega (arith, sum_by-take txs n tx e)

  sum_by-take_le : (txs : List Transaction) (n : ℕ) → sum_by count (take n txs) ≤ sum_by count txs
  sum_by-take_le txs zero = omega arith
  sum_by-take_le [] (suc n) = omega arith
  sum_by-take_le (t ∷ txs) (suc n) = omega (arith, sum_by-take_le txs n)

  take_all : (txs : List Transaction) → sum_by count (take (length txs) txs) ≡ sum_by count txs
  take_all [] = refl
  take_all (t ∷ txs) = omega (arith, take_all txs)

get_elem?-some :
    {A : Type 0} (xs : List A) (n : ℕ) → n < length xs → (x : A) × (get_elem? xs n ≡ some x)
get_elem?-some [] n h = absurd (omega arith)
get_elem?-some (x ∷ xs) zero h = (x, refl)
get_elem?-some (x ∷ xs) (suc n) h = get_elem?-some xs n (omega arith)

module _ (b : Body) (enough : sum_by input_count b.transactions ≤ length b.authorizations) where
  authorizations_for_lem :
      (n : ℕ) (tx : Transaction)
      → get_elem? b.transactions n ≡ some tx
      → authorizations_for b n
        ≡ ok (
            take
              (input_count tx)
              (drop (sum_by input_count (take n b.transactions)) b.authorizations))
  unfolding authorizations_for
  authorizations_for_lem n tx e = rw e (
      ground (
        arith,
        sum_by-take input_count b.transactions n tx e,
        sum_by-take_le input_count b.transactions (suc n),
      ))

  dealt_lem :
      (n : ℕ)
      → n ≤ length b.transactions
      → dealt b n ≡ ok (take (sum_by input_count (take n b.transactions)) b.authorizations)
  unfolding dealt
  dealt_lem zero h = ground arith
  dealt_lem (suc n) h =
      let (tx, e) = get_elem?-some b.transactions n (omega arith) in
      rw
        (
          dealt_lem n (omega arith),
          authorizations_for_lem n tx e,
          sum_by-take input_count b.transactions n tx e,
        )
        (ap ok (
          take-append_drop (sum_by input_count (take n b.transactions)) (input_count tx) _
            b.authorizations refl))

  -- With a signature for every input, the transactions' signatures joined in body order are the
  -- first signatures of the body, each once.
  pub dealt_all :
      dealt b (length b.transactions)
      ≡ ok (take (sum_by input_count b.transactions) b.authorizations)
  dealt_all =
      dealt_lem (length b.transactions) (omega arith)
      ∙ ap (λ k. ok (take k b.authorizations)) (take_all input_count b.transactions)
