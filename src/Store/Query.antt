-- ===== src/Store/Query.antt =====
-- The queries of one request: `views i` is what the i-th query finds, the contents of the database at
-- that moment, or nothing for a query that fails, so the tables may change between two queries.
use drivechain_esplora.Base.{ℕ, ◌+◌, Option, none, some, Result, ok, err, query_failed}
use drivechain_esplora.Store.Tables.{Db}
pub mod Laws

abbrev pub Q : Type 0 → Type 0
Q A = ℕ → Result A × ℕ

infixl 5 ◌>>=◌ ◌>>◌
abbrev pub ◌>>=◌ : {A B : Type 0} → Q A → (A → Q B) → Q B
◌>>=◌ m f n = let (r, k) = m n in elim r [ ok a ↦ f a k | err e ↦ (err e, k) ]

abbrev pub ◌>>◌ : {A B : Type 0} → Q A → Q B → Q B
m >> k = m >>= λ _. k

abbrev pub pure : {A : Type 0} → A → Q A
pure a n = (ok a, n)

abbrev pub lift : {A : Type 0} → Result A → Q A
lift r n = (r, n)

abbrev pub on_view : {A : Type 0} → Option Db → (Db → Result A) → Result A
on_view (some d) f = f d
on_view none f = err query_failed

module _ (views : ℕ → Option Db) where
  abbrev pub query : {A : Type 0} → (Db → Result A) → Q A
  query f n = (on_view (views n) f, n + 1)
