-- ===== src/Chain/OutPoint/Key.antt =====
-- The 37-byte key of internal/chain/outpoint.go: Key and OutPointFromKey.
use drivechain_esplora.Base.{
  ◌≡◌, ◌∙◌, sym, ap, [], ◌++◌, Bytes, length, take, drop, length-append, take-append, drop-append,
  append-nil, subst, ok, ok-injective, arith,
}
use drivechain_esplora.Chain.Text.{put_u32}
use drivechain_esplora.Chain.Text.Laws.{get_u32-put_u32, length-put_u32}
use drivechain_esplora.Chain.OutPoint.{OutPoint, IsOutPoint, key, out_point_from_key}

take_source : (s v : Bytes) → length s ≡ 32 → take 32 (s ++ v) ≡ s
take_source s v e = subst (λ n. take n (s ++ v) ≡ s) e (take-append s v)

drop_source : (s v : Bytes) → length s ≡ 32 → drop 32 (s ++ v) ≡ v
drop_source s v e = subst (λ n. drop n (s ++ v) ≡ v) e (drop-append s v)

-- OutPointFromKey reverses Key on every outpoint of a known kind whose source is 32 bytes and whose
-- vout is a u32.
pub out_point_from_key-key : (o : OutPoint) → IsOutPoint o → out_point_from_key (key o) ≡ ok o
unfolding out_point_from_key key
out_point_from_key-key o v = ground (
  arith,
  take_source o.source (put_u32 o.vout) v.hashed.0,
  drop_source o.source (put_u32 o.vout) v.hashed.0,
  get_u32-put_u32 o.vout [],
  append-nil (put_u32 o.vout),
)

-- A key is 37 bytes wide.
pub length-key : (o : OutPoint) → IsOutPoint o → length (key o) ≡ 37
unfolding key
length-key o v =
    omega (arith, length-append o.source (put_u32 o.vout), length-put_u32 o.vout, v.hashed)

-- Two outpoints of known kinds, with sources of 32 bytes, that have one key are one outpoint, so
-- the index never takes one coin for another.
pub key-injective : (o p : OutPoint) → IsOutPoint o → IsOutPoint p → key o ≡ key p → o ≡ p
key-injective o p vo vp e =
    ok-injective
      (sym (out_point_from_key-key o vo) ∙ ap out_point_from_key e ∙ out_point_from_key-key p vp)
