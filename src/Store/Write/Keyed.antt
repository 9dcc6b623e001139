-- ===== src/Store/Write/Keyed.antt =====
-- The primary key of the table of blocks, under the statements of internal/store/write.go.
use drivechain_esplora.Base.{
  ◌≡◌, refl, ◌∙◌, Bool, false, List, [], ◌∷◌, ◌++◌, ◌==◌, any, keep, any-append, any-keep-false,
  Bool-cases, inl, inr, arith,
}
use drivechain_esplora.Store.Tables.{BlockRow}

-- `height` is the primary key of the table.
abbrev pub Keyed : List BlockRow → Type 0
Keyed [] = Unit
Keyed (r ∷ rs) = (any (λ (x : BlockRow). x.height == r.height) rs ≡ false) × Keyed rs

pub Keyed-keep : (q : BlockRow → Bool) (rows : List BlockRow) → Keyed rows → Keyed (keep q rows)
Keyed-keep q [] k = tt
Keyed-keep q (r ∷ rows) (k, ks) = elim (Bool-cases (q r)) [
  | inl e ↦
      rw e (any-keep-false (λ (x : BlockRow). x.height == r.height) q rows k, Keyed-keep q rows ks)
  | inr e ↦ rw e (Keyed-keep q rows ks)
]

pub Keyed-snoc :
    (rows : List BlockRow) (row : BlockRow)
    → any (λ (x : BlockRow). x.height == row.height) rows ≡ false
    → Keyed rows
    → Keyed (rows ++ (row ∷ []))
Keyed-snoc [] row new k = (refl, tt)
Keyed-snoc (r ∷ rows) row new (k, ks) = (
  any-append (λ (x : BlockRow). x.height == r.height) rows (row ∷ []) ∙ ground (arith, k),
  Keyed-snoc rows row (ground arith) ks,
)
