-- ===== src/Api/Limits.antt =====
-- How many rows a list route of internal/api answers at most.
use drivechain_esplora.Base.{
  ℕ, suc, ◌+◌, ◌-◌, ◌≤◌, ◌≡◌, refl, sym, ap, ◌∙◌, Option, none, some, List, [], ◌∷◌, ◌++◌, map,
  Bytes, length, take, drop, length-take, length-append, length-map, traverse_from, Error, Result,
  ok, err, >>=-eq-ok, ok-injective, arith,
}
use drivechain_esplora.Store.Tables.{Db}
use drivechain_esplora.Store.Query.{query, on_view}
use drivechain_esplora.Store.Tx as StoreTx
use drivechain_esplora.Store.Tx.Lookup
use drivechain_esplora.Store.Read
use drivechain_esplora.Store.Activity as StoreActivity
use drivechain_esplora.Store.Mempool.Query as Pending
use drivechain_esplora.Api.Reply.{Reply, refuse, reply, H, ◌>>=◌, answer, on_error, run, failed}
use drivechain_esplora.Api.Server.{
  Request, page_size, block_list_size, recent_list_size, activity_list_size, deposit_list_size,
  get_store, start_height, find_block,
}
use drivechain_esplora.Base.{◌==◌, ◌&&◌}
use drivechain_esplora.Chain.OutPoint.{deposit}
use drivechain_esplora.Store.Tables.{up_to}
use drivechain_esplora.Api.Esplora.{
  new_block, new_tx, new_utxo, recent_tx, pending_activity, new_activity,
}
use drivechain_esplora.Api.Blocks
use drivechain_esplora.Api.Blocks.{for_each, start_index}
use drivechain_esplora.Api.Mempool
use drivechain_esplora.Api.Address
use drivechain_esplora.Api.Address.{to_utxos}

-- What holds of a value that a step answers.
abbrev Post : {A : Type 0} → (A → Type 0) → Reply A × ℕ → Type 0
Post P (refuse s, k) = Unit
Post P (reply a, k) = P a

abbrev pub Gets : {A : Type 0} → (A → Type 0) → H A → Type 0
Gets P m = (n : ℕ) → Post P (m n)

abbrev pub AtMost : {A : Type 0} → ℕ → H (List A) → Type 0
AtMost limit m = Gets (λ xs. length xs ≤ limit) m

bind-Post :
    {A B : Type 0} (P : A → Type 0) (R : B → Type 0) (f : A → H B) (x : Reply A × ℕ)
    → ((a : A) → P a → Gets R (f a))
    → Post P x
    → Post R (let (r, k) = x in elim r [ reply a ↦ f a k | refuse s ↦ (refuse s, k) ])
bind-Post P R f (refuse s, k) h p = tt
bind-Post P R f (reply a, k) h p = h a p k

Gets->>= :
    {A B : Type 0} (P : A → Type 0) (R : B → Type 0) (m : H A) (f : A → H B)
    → Gets P m
    → ((a : A) → P a → Gets R (f a))
    → Gets R (m >>= f)
Gets->>= P R m f g h n = bind-Post P R f (m n) h (g n)

-- Whatever a step answers.
anything : {A : Type 0} (x : Reply A × ℕ) → Post (λ (_ : A). Unit {0}) x
anything (refuse s, k) = tt
anything (reply a, k) = tt

Gets-any : {A : Type 0} (m : H A) → Gets (λ (_ : A). Unit {0}) m
Gets-any m n = anything (m n)

then-AtMost :
    {A B : Type 0} (limit : ℕ) (m : H A) (f : A → H (List B))
    → ((a : A) → AtMost limit (f a))
    → AtMost limit (m >>= f)
then-AtMost limit m f h =
    Gets->>= (λ _. Unit {0}) (λ xs. length xs ≤ limit) m f (Gets-any m) (λ a _. h a)

Gets-query :
    {A : Type 0} (P : A → Type 0) (views : ℕ → Option Db) (status : Error → ℕ) (f : Db → Result A)
    → ((d : Db) (a : A) → f d ≡ ok a → P a)
    → Gets P (run status (query views f))
Gets-query P views status f h n = found (views n)
  where
    answered : (d : Db) (r : Result _) → f d ≡ r → Post P (on_error status r, n + 1)
    answered d (ok a) e = h d a e
    answered d (err x) e = tt

    found : (v : Option Db) → Post P (on_error status (on_view v f), n + 1)
    found none = tt
    found (some d) = answered d (f d) refl

length-traverse_from :
    {A B : Type 0} (f : ℕ → A → Result B) (i : ℕ) (xs : List A) (ys : List B)
    → traverse_from f i xs ≡ ok ys
    → length ys ≡ length xs
unfolding traverse_from
length-traverse_from f i [] ys e = sym (ap length (ok-injective e))
length-traverse_from f i (x ∷ xs) ys e =
    let (y, _, e₁) = >>=-eq-ok (f i x) _ e in
    let (zs, ez, e₂) = >>=-eq-ok (traverse_from f (i + 1) xs) _ e₁ in
    sym (ap length (ok-injective e₂)) ∙ ap suc (length-traverse_from f (i + 1) xs zs ez)

traversed :
    {A B : Type 0} (f : ℕ → A → Result B) (limit : ℕ) (xs : List A) (ys : List B)
    → traverse_from f 0 (take limit xs) ≡ ok ys
    → length ys ≤ limit
traversed f limit xs ys e =
    omega (arith, length-traverse_from f 0 (take limit xs) ys e, length-take limit xs)

for_each-AtMost : {A B : Type 0} (f : A → H B) (xs : List A) → AtMost (length xs) (for_each f xs)
for_each-AtMost f [] n = omega arith
for_each-AtMost f (x ∷ xs) n =
    then-AtMost (length (x ∷ xs)) (f x) (λ y. for_each f xs >>= λ ys. answer (y ∷ ys))
      (λ y.
        Gets->>= (λ ys. length ys ≤ length xs) (λ ys. length ys ≤ length (x ∷ xs)) (for_each f xs)
          (λ ys. answer (y ∷ ys)) (for_each-AtMost f xs) (λ ys p n. omega (arith, p)))
      n

-- The rows that a query finds within the limit, each as the route shows it.
shown_rows :
    {A B : Type 0} (limit : ℕ) (show : A → B) (views : ℕ → Option Db) (f : Db → Result (List A))
    → ((d : Db) (rows : List A) → f d ≡ ok rows → length rows ≤ limit)
    → AtMost limit (run failed (query views f) >>= λ rows. answer (map show rows))
shown_rows limit show views f h =
    Gets->>= (λ rows. length rows ≤ limit) (λ rows. length rows ≤ limit)
      (run failed (query views f)) (λ rows. answer (map show rows))
      (Gets-query (λ rows. length rows ≤ limit) views failed f h)
      (λ rows p n. omega (arith, p, length-map rows show))

module _ (q : Request) where
  blocks-AtMost : (raw : Bytes) → AtMost block_list_size (Blocks.blocks q raw)
  unfolding Blocks.blocks StoreTx.blocks
  blocks-AtMost raw = then-AtMost block_list_size (get_store q) _ (λ _.
      then-AtMost block_list_size (start_height q raw) _ (λ start.
        shown_rows block_list_size new_block q.views (StoreTx.blocks start block_list_size)
          (λ d rows e. traversed _ block_list_size _ rows e)))

  mempool_recent-AtMost : AtMost recent_list_size (Mempool.mempool_recent q)
  unfolding Mempool.mempool_recent Pending.mempool_recent
  mempool_recent-AtMost = then-AtMost recent_list_size (get_store q) _ (λ _.
      shown_rows recent_list_size recent_tx q.views (Pending.mempool_recent recent_list_size)
        (λ d rows e. traversed _ recent_list_size _ rows e))

  recent_activity-AtMost : AtMost activity_list_size (Mempool.recent_activity q)
  unfolding Mempool.recent_activity Pending.mempool_recent StoreActivity.activity
      StoreActivity.scan_activity
  recent_activity-AtMost = then-AtMost activity_list_size (get_store q) _ (λ _.
      Gets->>= (λ pending. length pending ≤ activity_list_size)
        (λ rows. length rows ≤ activity_list_size)
        (run failed (query q.views (Pending.mempool_recent activity_list_size))) _
        (Gets-query (λ rows. length rows ≤ activity_list_size) q.views failed
          (Pending.mempool_recent activity_list_size)
          (λ d rows e. traversed _ activity_list_size _ rows e))
        (λ pending p.
          let left = activity_list_size - length pending in
          Gets->>= (λ rows. length rows ≤ left) (λ rows. length rows ≤ activity_list_size)
            (run failed (query q.views (StoreActivity.activity left)))
            (λ confirmed. answer (map pending_activity pending ++ map new_activity confirmed))
            (Gets-query (λ rows. length rows ≤ left) q.views failed (StoreActivity.activity left)
              (λ d rows e. traversed _ left _ rows e))
            (λ confirmed c n. omega (
              arith,
              p,
              c,
              length-append (map pending_activity pending) (map new_activity confirmed),
              length-map pending pending_activity,
              length-map confirmed new_activity,
            ))))

  deposits-AtMost : (raw : Bytes) → AtMost deposit_list_size (Address.deposits q raw)
  unfolding Address.deposits Read.deposits to_utxos
  deposits-AtMost raw = then-AtMost deposit_list_size (get_store q) _ (λ _.
      then-AtMost deposit_list_size (start_height q raw) _ (λ start.
        shown_rows deposit_list_size new_utxo q.views
          (λ d. ok (Read.deposits none start deposit_list_size d))
          (λ d rows e. omega (
            arith,
            ap length (ok-injective e),
            length-take deposit_list_size (
                Read.select_utxos
                  (λ r.
                    r.kind == deposit
                    && Read.from_source none r
                    && up_to r.height (Read.clamp_height start))
                  d),
          ))))

  block_txs-AtMost :
      (encode58 : Bytes → Bytes) (raw raw_start : Bytes)
      → AtMost page_size (Blocks.block_txs q encode58 raw raw_start)
  unfolding Blocks.block_txs
  block_txs-AtMost encode58 raw raw_start = then-AtMost page_size (find_block q raw) _ (λ row.
      then-AtMost page_size (start_index q raw_start) _ (λ start.
        then-AtMost page_size
          (run failed (query q.views (λ d. ok (StoreTx.block_txids row.hash d)))) _
          (λ txids.
            let chosen = take page_size (drop start txids) in
            Gets->>= (λ rows. length rows ≤ length chosen) (λ rows. length rows ≤ page_size)
              (for_each (λ txid. run failed (Lookup.tx q.views txid)) chosen)
              (λ rows. answer (map (new_tx encode58) rows))
              (for_each-AtMost (λ txid. run failed (Lookup.tx q.views txid)) chosen)
              (λ rows p n. omega (
                arith,
                p,
                length-map rows (new_tx encode58),
                length-take page_size (drop start txids),
              )))))

  -- Whatever the tables hold, and however they change between two queries of a request, where these
  -- routes answer, GET /blocks lists at most 10 blocks, the transactions of a block at most 25, the
  -- recent mempool at most 10, the recent activity, unconfirmed and confirmed together, at most 25,
  -- and the deposits at most 50.
  pub routes-AtMost :
      (encode58 : Bytes → Bytes) (raw raw_start : Bytes)
      → AtMost block_list_size (Blocks.blocks q raw)
        × AtMost page_size (Blocks.block_txs q encode58 raw raw_start)
        × AtMost recent_list_size (Mempool.mempool_recent q)
        × AtMost activity_list_size (Mempool.recent_activity q)
        × AtMost deposit_list_size (Address.deposits q raw)
  routes-AtMost encode58 raw raw_start = (
    blocks-AtMost raw,
    block_txs-AtMost encode58 raw raw_start,
    mempool_recent-AtMost,
    recent_activity-AtMost,
    deposits-AtMost raw,
  )
