-- ===== src/Api/Address/Paging.antt =====
-- A client that pages an address history of internal/api/address.go from its end: each page continues at the
-- last row of the page before.
use Prim.Native.String.{String}
use drivechain_esplora.Base.{
  ℕ, zero, suc, ◌+◌, ◌≤◌, ◌<◌, ◌^◌, ◌≡◌, refl, ap, subst, true, Option, none, some, List, [], ◌∷◌,
  map, Bytes, ◌==◌, keep, distinct, filter_map, cons_some, All, All-keep, All-append, All-mono,
  All-take, All-sort_by, All-zip, All-kept, Result, ok, err, >>=-eq-ok, ok-injective, Bool-cases,
  inl, inr, arith,
}
use drivechain_esplora.Store.Tables.{up_to, Spent, OutputRow, Db}
use drivechain_esplora.Store.Read.{
  TxRef, check_key_column, clamp_height, creation, spend_ref, same_ref, touched, mine, ref_before,
  history,
}
use drivechain_esplora.Api.Server.{page_size}
use drivechain_esplora.Api.Address.{before_row}

-- The heights of the index, which are below 2 ^ 31.
abbrev SmallSpent : Option Spent → Type 0
SmallSpent none = Unit
SmallSpent (some s) = s.height < 2 ^ 31

abbrev pub Small : OutputRow → Type 0
Small r = (r.height < 2 ^ 31) × SmallSpent r.spent

-- The cursor behind a page: the row above its last one says where the next page starts.
abbrev next_of : List TxRef → Option ℕ
next_of [] = none
next_of (r ∷ []) = before_row r.height
next_of (r ∷ (s ∷ rs)) = next_of (s ∷ rs)

abbrev next_page : Result (List TxRef) → Option ℕ
next_page (err _) = none
next_page (ok refs) = next_of refs

abbrev one_more : Option ℕ → Option ℕ
one_more none = none
one_more (some n) = some (n + 1)

module _ (column : String) (key : Bytes) (d : Db) where
  abbrev turn : ℕ → Option ℕ → (ℕ → Option ℕ) → Option ℕ
  turn before none rest = some 1
  turn before (some b) rest = one_more (rest b)

  -- How many pages the client reads, or none where `fuel` pages are not enough.
  unfoldable pub crawl : ℕ → ℕ → Option ℕ
  crawl zero before = none
  crawl (suc fuel) before =
      turn before (next_page (history column key before page_size d)) (crawl fuel)

abbrev SmallRef : TxRef → Type 0
SmallRef r = r.height < 2 ^ 31

distinct_low : (refs : List TxRef) → All SmallRef refs → All SmallRef (distinct same_ref refs)
distinct_low [] a = tt
distinct_low (r ∷ refs) (p, a) =
    (p, All-keep SmallRef _ (distinct same_ref refs) (distinct_low refs a))

created_low : (rows : List OutputRow) → All Small rows → All SmallRef (map creation rows)
created_low [] a = tt
created_low (r ∷ rows) ((p, _), a) = (p, created_low rows a)

cons_low :
    (s : Option Spent) (refs : List TxRef)
    → SmallSpent s
    → All SmallRef refs
    → All SmallRef (cons_some (spend_ref s) refs)
cons_low none refs p a = a
cons_low (some s) refs p a = (p, a)

spends_low :
    (rows : List OutputRow)
    → All Small rows
    → All SmallRef (filter_map (λ (r : OutputRow). spend_ref r.spent) rows)
spends_low [] a = tt
spends_low (r ∷ rows) ((_, p), a) = cons_low r.spent _ p (spends_low rows a)

touched_low : (rows : List OutputRow) → All Small rows → All SmallRef (touched rows)
touched_low rows a =
    distinct_low _
      (All-append SmallRef _ _ (created_low _ (All-keep Small _ rows a)) (spends_low rows a))

page_below :
    (column : String) (key : Bytes) (before : ℕ) (d : Db) (refs : List TxRef)
    → All Small d.outputs
    → history column key before page_size d ≡ ok refs
    → All (λ (r : TxRef). r.height ≤ before) refs
unfolding history clamp_height
page_below column key before d refs small e =
    let (_, _, e₁) = >>=-eq-ok (check_key_column column) _ e in
    let chosen = λ (r : TxRef). up_to r.height (clamp_height before) in
    let all = touched (mine column key d) in
    subst (All (λ (r : TxRef). r.height ≤ before)) (ok-injective e₁) (
      All-take _ page_size _ (
        All-sort_by ref_before _ _ (
          All-mono _ _ (λ r (up, low). ground arith) (keep chosen all)
            (All-zip (λ (r : TxRef). chosen r ≡ true) SmallRef (keep chosen all)
              (All-kept chosen all)
              (All-keep SmallRef chosen all (touched_low _ (All-keep Small _ d.outputs small)))))))

next_below :
    (before b : ℕ) (refs : List TxRef)
    → All (λ (r : TxRef). r.height ≤ before) refs
    → next_of refs ≡ some b
    → b < before
next_below before b [] a e = absurd (ground arith)
next_below before b (r ∷ []) (p, a) e = elim (Bool-cases (r.height == 0)) [
  | inl bottom ↦ absurd (ground arith)
  | inr above ↦ ground arith
]
next_below before b (r ∷ (s ∷ rs)) (p, a) e = next_below before b (s ∷ rs) a e

turned :
    (column : String) (key : Bytes) (d : Db) (fuel before : ℕ)
    → ((b : ℕ) → b < before → (pages : ℕ) × (crawl column key d fuel b ≡ some pages))
    → (next : Option ℕ) → ((b : ℕ) → next ≡ some b → b < before)
    → (pages : ℕ) × (turn column key d before next (crawl column key d fuel) ≡ some pages)
turned column key d fuel before rest none below = (1, refl)
turned column key d fuel before rest (some b) below =
    let (pages, e) = rest b (below b refl) in (pages + 1, ap one_more e)

turned_page :
    (column : String) (key : Bytes) (d : Db) (fuel before : ℕ)
    → All Small d.outputs
    → ((b : ℕ) → b < before → (pages : ℕ) × (crawl column key d fuel b ≡ some pages))
    → (r : Result (List TxRef)) → history column key before page_size d ≡ r
    → (pages : ℕ) × (turn column key d before (next_page r) (crawl column key d fuel) ≡ some pages)
turned_page column key d fuel before small rest (err x) e = (1, refl)
turned_page column key d fuel before small rest (ok refs) e =
    turned column key d fuel before rest (next_of refs)
      (λ b h. next_below before b refs (page_below column key before d refs small e) h)

-- Whatever an index below height 2 ^ 31 holds, a client that pages a history from a height, and
-- continues each time at the cursor that the last row of the page makes, is done after at most one
-- page more than that height.
pub crawl_enough :
    (column : String) (key : Bytes) (d : Db) (fuel before : ℕ)
    → All Small d.outputs
    → before < fuel
    → (pages : ℕ) × (crawl column key d fuel before ≡ some pages)
unfolding crawl
crawl_enough column key d zero before small lt = absurd (omega arith)
crawl_enough column key d (suc fuel) before small lt =
    turned_page column key d fuel before small
      (λ b below. crawl_enough column key d fuel b small (omega (arith, lt, below)))
      (history column key before page_size d) refl
