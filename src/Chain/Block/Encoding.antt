-- ===== src/Chain/Block/Encoding.antt =====
-- What CoinbaseTxid of internal/chain/block.go hashes.
use drivechain_esplora.Base.{
  ◌≡◌, refl, sym, ap, ◌∙◌, Option, none, some, ◌++◌, Bytes, length, take, drop, take-append,
  drop-append, arith, subst,
}
use drivechain_esplora.Chain.Hash.{Hash, IsHash}
use drivechain_esplora.Chain.Block.{Header, option_bytes, coinbase_encoding}

abbrev pub IsOptionHash : Option Hash → Type 0
IsOptionHash none = Unit
IsOptionHash (some h) = IsHash h

pub record IsHeader (h : Header) : Type 0 where
  pub root : IsHash h.merkle_root
  pub main : IsHash h.prev_main_hash
  pub side : IsOptionHash h.prev_side_hash

-- Equal front lengths split an equation between concatenations.
pub append_split :
    (xs ys us vs : Bytes) → length xs ≡ length us → xs ++ ys ≡ us ++ vs → (xs ≡ us) × (ys ≡ vs)
append_split xs ys us vs el e = (
  sym (take-append xs ys)
      ∙ ap (take (length xs)) e
      ∙ subst (λ n. take n (us ++ vs) ≡ us) (sym el) (take-append us vs),
  sym (drop-append xs ys)
      ∙ ap (drop (length xs)) e
      ∙ subst (λ n. drop n (us ++ vs) ≡ vs) (sym el) (drop-append us vs),
)

option_bytes-injective : (a b : Option Hash) → option_bytes a ≡ option_bytes b → a ≡ b
option_bytes-injective none none e = refl
option_bytes-injective none (some b) e = ground arith
option_bytes-injective (some a) none e = ground arith
option_bytes-injective (some a) (some b) e = ground arith

-- What CoinbaseTxid hashes determines the header, among headers whose hashes are 32 bytes.
pub coinbase_encoding-injective :
    (h k : Header) → IsHeader h → IsHeader k → coinbase_encoding h ≡ coinbase_encoding k → h ≡ k
unfolding coinbase_encoding
coinbase_encoding-injective h k vh vk e =
    let (er, e₁) = append_split h.merkle_root _ k.merkle_root _ (vh.root.0 ∙ sym vk.root.0) e in
    let (em, e₂) =
      append_split h.prev_main_hash _ k.prev_main_hash _ (vh.main.0 ∙ sym vk.main.0) e₁ in
    let es = option_bytes-injective h.prev_side_hash k.prev_side_hash e₂ in
    λ i. record { merkle_root = er i; prev_side_hash = es i; prev_main_hash = em i }
