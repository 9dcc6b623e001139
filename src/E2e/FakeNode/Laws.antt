-- ===== src/E2e/FakeNode/Laws.antt =====
-- internal/chain/node.go over internal/rpc/client.go over internal/e2e/fakenode.go: what the methods of a node
-- answer of a fake node's chain.
use Prim.Native.String.{String}
use drivechain_esplora.Base.{
  ℕ, ◌+◌, ◌-◌, ◌≡◌, refl, ap, ◌∙◌, List, [], ◌∷◌, Option, none, some, Bytes, length, get_elem?,
  get_elem?-lt, get_elem?-le, Result, ok, err, empty_chain, arith,
}
use drivechain_esplora.Chain.Hash.{Hash}
use drivechain_esplora.Chain.Node
use drivechain_esplora.Chain.Node.{
  Params, NodeJson, no_params, height_param, hash_param, result_or_failed, tip_of_count,
}
use drivechain_esplora.Rpc.{Response, Answer, call}
use drivechain_esplora.E2e.FakeNode.{
  FakeNode, Value, Refusal, Dispatched, answers, hash_or_nil, dispatch, response, serve,
}

module _ (json : NodeJson) (written : Params → Bytes) (marshal : Value → Bytes)
    (refusal : Refusal → Bytes) (encode : Response → Bytes) (decode : Bytes → Option Response)
    (n : FakeNode) where
  abbrev pub sent : Dispatched → Response
  sent = response written marshal refusal encode

  -- The node as a transport: each request reads the state `n`.
  abbrev pub post : String → Params → Option Answer
  post method params = some (serve written marshal refusal encode method params n).0

  -- The values that the methods of the chain answer: its length, its hashes, and nil.
  pub data Held : Value → Type 0 where
    count : Held (Value.number (length n.chain))
    hash : (k : ℕ) {h : Hash} → get_elem? n.chain k ≡ some h → Held (Value.hash h)
    no_hash : Held Value.nil

  -- What a tip height says of the other methods: the best hash stands at it, and no block above.
  abbrev pub IsTip : Result ℕ → Type 0
  IsTip (ok tip) =
      (x : Hash) × (Node.best_block_hash json decode post ≡ ok (some x))
      × (Node.block_hash_at json decode post tip ≡ ok (some x))
      × (Node.block_hash_at json decode post (tip + 1) ≡ ok none)
  IsTip (err e) =
      (e ≡ empty_chain)
      × (Node.best_block_hash json decode post ≡ ok none)
      × (Node.block_hash_at json decode post 0 ≡ ok none)

  -- What the client reads of what the node writes, for these values. It holds if the length is a
  -- uint32 and each hash has 32 bytes, as then each of them is read back into its Go type.
  pub record IsJson : Type 0 where
    pub envelope :
        {v : Value} → Held v → decode (encode (sent (answers v))) ≡ some (sent (answers v))
    pub number : json.number (marshal (Value.number (length n.chain))) ≡ some (length n.chain)
    pub hash :
        (k : ℕ) (h : Hash)
        → get_elem? n.chain k ≡ some h
        → json.hash_pointer (marshal (Value.hash h)) ≡ some (some h)
    pub no_hash : json.hash_pointer (marshal Value.nil) ≡ some none

  module _ (laws : IsJson) where
    abbrev read_as : {A : Type 0} → (Bytes → Option A) → Dispatched → Result A
    read_as out d =
        result_or_failed
          (call decode (some out) (some (record { status = 200; body = encode (sent d) })))

    read_answer :
        {A : Type 0} (out : Bytes → Option A) {v : Value} (a : A)
        → Held v
        → out (marshal v) ≡ some a
        → read_as out (answers v) ≡ ok a
    unfolding call
    read_answer out a held e = rw (laws.envelope held, e) refl

    read_hash :
        (k : ℕ) (found : Option Hash)
        → get_elem? n.chain k ≡ found
        → read_as json.hash_pointer (hash_or_nil found) ≡ ok found
    read_hash k none e = read_answer json.hash_pointer none no_hash laws.no_hash
    read_hash k (some h) e =
        read_answer json.hash_pointer (some h) (Held.hash k e) (laws.hash k h e)

    pub block_count-length : Node.block_count json decode post ≡ ok (length n.chain)
    unfolding Node.block_count serve dispatch
    block_count-length = read_answer json.number (length n.chain) count laws.number

    pub block_hash_at-get_elem? :
        (k : ℕ) → Node.block_hash_at json decode post k ≡ ok (get_elem? n.chain k)
    unfolding Node.block_hash_at serve dispatch
    block_hash_at-get_elem? k = read_hash k (get_elem? n.chain k) refl

    pub best_block_hash-get_elem? :
        Node.best_block_hash json decode post ≡ ok (get_elem? n.chain (length n.chain - 1))
    unfolding Node.best_block_hash serve dispatch
    best_block_hash-get_elem? =
        read_hash (length n.chain - 1) (get_elem? n.chain (length n.chain - 1)) refl

    last_held : (chain : List Hash) → n.chain ≡ chain → IsTip (tip_of_count (length chain))
    last_held [] e =
        (refl, best_block_hash-get_elem? ∙ rw e refl, block_hash_at-get_elem? 0 ∙ rw e refl)
    last_held (h ∷ hs) e =
        let (x, at) = get_elem?-lt (h ∷ hs) (length hs) (omega arith) in
        let answers_at : (k : ℕ) → ok (get_elem? n.chain k) ≡ ok (get_elem? (h ∷ hs) k) =
          λ k. ap (λ c. ok (get_elem? c k)) e in
        let above = get_elem?-le (h ∷ hs) (length hs + 1) (omega arith) in
        (
          x,
          best_block_hash-get_elem?
              ∙ ap (λ c. ok (get_elem? c (length c - 1))) e
              ∙ ap (λ k. ok (get_elem? (h ∷ hs) k)) (pred-suc hs)
              ∙ ap (λ o. ok o) at,
          block_hash_at-get_elem? (length hs) ∙ answers_at (length hs) ∙ ap (λ o. ok o) at,
          block_hash_at-get_elem? (length hs + 1)
              ∙ answers_at (length hs + 1)
              ∙ ap (λ o. ok o) above,
        )
      where
        pred-suc : (hs : List Hash) → length (h ∷ hs) - 1 ≡ length hs
        pred-suc hs = omega arith

    -- Through Call, a TipHeight that answers is the height that the fake node's best hash stands
    -- at: BestBlockHash answers a hash, BlockHashAt answers the same at the tip height, and nil one
    -- above; and a TipHeight that fails does so with the error of an empty chain, where
    -- BestBlockHash and BlockHashAt of 0 answer nil; if encoding/json reads back the node's block
    -- count, its hashes and nil.
    pub tip_height-IsTip : IsTip (Node.tip_height json decode post)
    unfolding Node.tip_height
    tip_height-IsTip = rw block_count-length (last_held n.chain refl)
