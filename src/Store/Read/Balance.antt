-- ===== src/Store/Read/Balance.antt =====
-- Stats and UTXOs of internal/store/read.go on the same tables.
use Prim.Native.String.{String}
use drivechain_esplora.Base.{
  ℕ, ◌+◌, ◌≡◌, refl, sym, ap, ap₂, ◌∙◌, Bool, true, Option, none, some, List, [], ◌∷◌, Bytes, ◌==◌,
  length, keep, any, find?, sum_by, filter_map, sum_by-sort_by, any-find?, All, All-keep,
  fail_if-eq-ok, ltb, filter_map-some, ok, >>=-eq-ok, ok-injective, Bool-cases, inl, inr, arith,
  out_of_range,
}
use drivechain_esplora.Store.Tables.{max_int64, BlockRow, OutputRow, Db}
use drivechain_esplora.Store.Read.{
  TxoStats, Utxo, check_key_column, is_mine, mine, is_spent, is_unspent_mine, value_of, fits, stats,
  join_block, newer, select_utxos, utxos, join_with, scan_utxo,
}

some-injective : {A : Type 0} {a b : A} → some a ≡ some b → a ≡ b
some-injective e = cc

length-sum_by : {A : Type 0} (xs : List A) → length xs ≡ sum_by (λ _. 1) xs
length-sum_by [] = refl
length-sum_by (x ∷ xs) = omega (arith, length-sum_by xs)

-- The outputs of a key are its spent ones and its unspent ones.
mine_split :
    (f : OutputRow → ℕ) (column : String) (key : Bytes) (rows : List OutputRow)
    → sum_by f (keep (is_mine column key) rows)
      ≡ sum_by f (keep is_spent (keep (is_mine column key) rows))
        + sum_by f (keep (is_unspent_mine column key) rows)
mine_split f column key [] = refl
mine_split f column key (r ∷ rows) = elim (Bool-cases (is_mine column key r)) [
  | inl own ↦ elim (Bool-cases (is_spent r)) [
    | inl gone ↦ rw (own, gone) (omega (arith, mine_split f column key rows))
    | inr here ↦ rw (own, here) (omega (arith, mine_split f column key rows))
  ]
  | inr other ↦ rw other (mine_split f column key rows)
]

joined_sum :
    (f : OutputRow → ℕ) (g : Utxo → ℕ)
    → ((blocks : List BlockRow) (r : OutputRow) (u : Utxo)
        → join_block blocks r ≡ some u
        → g u ≡ f r)
    → (blocks : List BlockRow) (rows : List OutputRow)
    → All (λ (r : OutputRow). any (λ (b : BlockRow). b.height == r.height) blocks ≡ true) rows
    → sum_by g (filter_map (join_block blocks) rows) ≡ sum_by f rows
joined_sum f g h blocks [] a = refl
joined_sum f g h blocks (r ∷ rows) (p, a) =
    let (b, found) = any-find? (λ (b : BlockRow). b.height == r.height) blocks p in
    let join : join_block blocks r ≡ some (scan_utxo r b) = ap (join_with r) found in
    ap (sum_by g) (filter_map-some (join_block blocks) r (scan_utxo r b) rows join)
    ∙ ap₂ (λ x y. x + y) (h blocks r (scan_utxo r b) join) (joined_sum f g h blocks rows a)

join_with-value :
    (r : OutputRow) (o : Option BlockRow) (u : Utxo)
    → join_with r o ≡ some u
    → u.value_sats ≡ r.value_sats
join_with-value r none u e = absurd (ground arith)
join_with-value r (some b) u e = ap (λ (x : Utxo). x.value_sats) (sym (some-injective e))

join_block-value :
    (blocks : List BlockRow) (r : OutputRow) (u : Utxo)
    → join_block blocks r ≡ some u
    → u.value_sats ≡ r.value_sats
join_block-value blocks r u e =
    join_with-value r (find? (λ (b : BlockRow). b.height == r.height) blocks) u e

selected_sum :
    (f : OutputRow → ℕ) (g : Utxo → ℕ)
    → ((blocks : List BlockRow) (r : OutputRow) (u : Utxo)
        → join_block blocks r ≡ some u
        → g u ≡ f r)
    → (p : OutputRow → Bool) (d : Db)
    → All
        (λ (r : OutputRow). any (λ (b : BlockRow). b.height == r.height) d.blocks ≡ true)
        d.outputs
    → sum_by g (select_utxos p d) ≡ sum_by f (keep p d.outputs)
selected_sum f g h p d a =
    sum_by-sort_by newer g (filter_map (join_block d.blocks) (keep p d.outputs))
    ∙ joined_sum f g h d.blocks (keep p d.outputs) (All-keep _ p d.outputs a)

fits-eq-ok : (n m : ℕ) → fits n ≡ ok m → m ≡ n
fits-eq-ok n m e = sym (ok-injective ((fail_if-eq-ok (ltb max_int64 n) out_of_range (ok n) e).1))

-- Where every output stands in a block that the tables hold, what Stats says a key was funded with
-- is what it says was spent and what UTXOs lists, in value and in number.
pub stats-utxos :
    (column : String) (key : Bytes) (d : Db) (s : TxoStats) (us : List Utxo)
    → All
        (λ (r : OutputRow). any (λ (b : BlockRow). b.height == r.height) d.blocks ≡ true)
        d.outputs
    → stats column key d ≡ ok s
    → utxos column key d ≡ ok us
    → (s.funded_sum ≡ s.spent_sum + sum_by (λ (u : Utxo). u.value_sats) us)
      × (s.funded_count ≡ s.spent_count + length us)
unfolding stats utxos
stats-utxos column key d s us a es eu =
    let rows = mine column key d in
    let spends = keep is_spent rows in
    let (_, _, es₁) = >>=-eq-ok (check_key_column column) _ es in
    let (funded, ef, es₂) = >>=-eq-ok (fits (value_of rows)) _ es₁ in
    let (spent, ep, es₃) = >>=-eq-ok (fits (value_of spends)) _ es₂ in
    let made = ok-injective es₃ in
    let (_, _, eu₁) = >>=-eq-ok (check_key_column column) _ eu in
    let listed = ok-injective eu₁ in
    let value = λ (r : OutputRow). r.value_sats in
    (
      sym (ap (λ (x : TxoStats). x.funded_sum) made)
          ∙ fits-eq-ok (value_of rows) funded ef
          ∙ mine_split value column key d.outputs
          ∙ ap₂ (λ x y. x + y)
              (sym (fits-eq-ok (value_of spends) spent ep)
                ∙ ap (λ (x : TxoStats). x.spent_sum) made)
              (sym (
                  selected_sum value (λ (u : Utxo). u.value_sats) join_block-value
                    (is_unspent_mine column key) d a)
                ∙ ap (sum_by (λ (u : Utxo). u.value_sats)) listed),
      sym (ap (λ (x : TxoStats). x.funded_count) made)
          ∙ length-sum_by rows
          ∙ mine_split (λ _. 1) column key d.outputs
          ∙ ap₂ (λ x y. x + y)
              (sym (length-sum_by spends) ∙ ap (λ (x : TxoStats). x.spent_count) made)
              (sym (
                  selected_sum (λ _. 1) (λ _. 1) (λ _ _ _ _. refl) (is_unspent_mine column key) d a)
                ∙ ap (sum_by (λ _. 1)) listed
                ∙ sym (length-sum_by us)),
    )
