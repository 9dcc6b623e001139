-- ===== src/E2e/FakeNode.antt =====
-- internal/e2e/fakenode.go: a node over a chain in memory, behind its JSON-RPC listener. A Go map is the list
-- of its assignments, the last in front; every method runs under the lock, so it is one step. What
-- encoding/json writes is a parameter.
use Prim.Native.String.{String}
use text.Mathlib.Text.{◌==◌ as str_eq}
use drivechain_esplora.Base.{
  ℕ, zero, suc, ◌+◌, ◌-◌, Option, none, some, List, [], ◌∷◌, ◌++◌, Bytes, true, ltb, same, length,
  take, replicate, get_elem?, if◌then◌else◌,
}
use drivechain_esplora.Chain.Hash.{Hash, hash_string}
use drivechain_esplora.Chain.Block
use drivechain_esplora.Chain.Node.{Params, no_params, height_param, hash_param, tx_param}
use drivechain_esplora.Rpc.{Response, Answer}
pub mod Laws
pub mod Caught

pub record FakeNode : Type 0 where
  pub chain : List Hash
  pub blocks : List (Hash × Block.Block)
  pub index : List (Hash × Block.BlockIndex)
  pub submitted : List Bytes
  pub mempool : List Block.MempoolTx
  pub bundle : Bytes
  pub failed_height : Option ℕ

-- NewFakeNode
abbrev pub new : FakeNode
new = record {
  chain = [];
  blocks = [];
  index = [];
  submitted = [];
  mempool = [];
  bundle = [];
  failed_height = none;
}

-- SetWithdrawalBundle
unfoldable pub set_withdrawal_bundle : Bytes → Option ℕ → FakeNode → FakeNode
set_withdrawal_bundle bundle failed_height n = record n {
  bundle = bundle;
  failed_height = failed_height;
}

-- AddBlock
unfoldable pub add_block : Hash → Block.Block → Block.BlockIndex → FakeNode → FakeNode
add_block hash block index n = record n {
  chain = n.chain ++ (hash ∷ []);
  blocks = (hash, block) ∷ n.blocks;
  index = (hash, index) ∷ n.index;
}

-- SetMempool
unfoldable pub set_mempool : List Block.MempoolTx → FakeNode → FakeNode
set_mempool txs n = record n { mempool = txs }

-- Reorg
unfoldable pub reorg : ℕ → FakeNode → FakeNode
reorg height n =
    if ltb (height + 1) (length n.chain) then record n { chain = take (height + 1) n.chain } else n

-- A map at a key.
unfoldable pub at_hash : {A : Type 0} → Hash → List (Hash × A) → Option A
at_hash hash [] = none
at_hash hash ((h, a) ∷ m) = if same h hash then some a else at_hash hash m

-- What a method answers, before it is written as JSON.
pub data Value : Type 0 where
  nil : Value
  number : ℕ → Value
  hash : Hash → Value
  block : Block.Block → Value
  index : Block.BlockIndex → Value
  mempool_txs : List Block.MempoolTx → Value
  raw : Bytes → Value
  string : Bytes → Value

pub data Refusal : Type 0 where
  takes_one_height takes_one_hash takes_one_transaction : Refusal
  no_index : Hash → Refusal
  not_served : String → Refusal

pub data Dispatched : Type 0 where
  answers : Value → Dispatched
  refuses : Refusal → Dispatched

abbrev hash_or_nil : Option Hash → Dispatched
hash_or_nil none = answers nil
hash_or_nil (some h) = answers (hash h)

abbrev block_or_nil : Option Block.Block → Dispatched
block_or_nil none = answers nil
block_or_nil (some b) = answers (block b)

abbrev index_or_refused : Hash → Option Block.BlockIndex → Dispatched
index_or_refused h none = refuses (no_index h)
index_or_refused h (some i) = answers (index i)

abbrev number_or_nil : Option ℕ → Dispatched
number_or_nil none = answers nil
number_or_nil (some k) = answers (number k)

-- get_block_hash. A raw transaction is taken to be no height, and in hashParam no hash.
abbrev at_height : Params → FakeNode → Dispatched
at_height no_params n = refuses takes_one_height
at_height (height_param height) n = hash_or_nil (get_elem? n.chain height)
at_height (hash_param h) n = refuses takes_one_height
at_height (tx_param tx) n = refuses takes_one_height

-- hashParam, and the method behind it.
abbrev with_hash : Params → (Hash → Dispatched) → Dispatched
with_hash no_params k = refuses takes_one_hash
with_hash (height_param height) k = refuses takes_one_hash
with_hash (hash_param h) k = k h
with_hash (tx_param tx) k = refuses takes_one_hash

-- The submitted transaction's answer is a fixed hash.
abbrev submitted_txid : Hash
submitted_txid = 1 ∷ 2 ∷ 3 ∷ replicate 29 0

abbrev taken : Bytes → FakeNode → Dispatched × FakeNode
taken tx n = (
  answers (string (hash_string submitted_txid)),
  record n { submitted = n.submitted ++ (tx ∷ []) },
)

-- `written` is the JSON of a parameter, `marshal` that of a value, `refusal` the text of an error, and
-- `encode` the JSON of a response.
module _ (written : Params → Bytes) where
  abbrev submit : Params → FakeNode → Dispatched × FakeNode
  submit no_params n = (refuses takes_one_transaction, n)
  submit (height_param height) n = taken (written (height_param height)) n
  submit (hash_param h) n = taken (written (hash_param h)) n
  submit (tx_param tx) n = taken (written (tx_param tx)) n

  -- dispatch
  unfoldable pub dispatch : String → Params → FakeNode → Dispatched × FakeNode
  unfolding at_hash
  dispatch method params n =
      if str_eq method "getblockcount"
      then (answers (number (length n.chain)), n)
      else if str_eq method "get_best_sidechain_block_hash"
      then (hash_or_nil (get_elem? n.chain (length n.chain - 1)), n)
      else if str_eq method "get_block_hash"
      then (at_height params n, n)
      else if str_eq method "get_block"
      then (with_hash params (λ h. block_or_nil (at_hash h n.blocks)), n)
      else if str_eq method "get_block_index"
      then (with_hash params (λ h. index_or_refused h (at_hash h n.index)), n)
      else if str_eq method "list_mempool"
      then (answers (mempool_txs n.mempool), n)
      else if str_eq method "pending_withdrawal_bundle"
      then (answers (raw n.bundle), n)
      else if str_eq method "latest_failed_withdrawal_bundle_height"
      then (number_or_nil n.failed_height, n)
      else if str_eq method "submit_transaction"
      then submit params n
      else (refuses (not_served method), n)

  module _ (marshal : Value → Bytes) (refusal : Refusal → Bytes) (encode : Response → Bytes) where
    abbrev pub response : Dispatched → Response
    response (answers v) = record { result = marshal v; error = none }
    response (refuses r) = record {
      result = [];
      error =
          some (record { code = record { negative = true; size = 32000 }; message = refusal r });
    }

    -- serve, of a request that decodes: the status stays at 200.
    unfoldable pub serve : String → Params → FakeNode → Answer × FakeNode
    unfolding dispatch
    serve method params n =
        let (d, n') = dispatch method params n in
        (record { status = 200; body = encode (response d) }, n')
