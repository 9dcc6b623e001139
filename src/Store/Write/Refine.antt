-- ===== src/Store/Write/Refine.antt =====
-- Apply and Rollback of internal/store/write.go against the chain that they keep: a list of block hashes.
use drivechain_esplora.Base.{
  subst, any, ℕ, zero, suc, ◌+◌, ◌-◌, ◌≤◌, ◌<◌, ◌^◌, ◌≡◌, refl, sym, ap, ◌∙◌, true, false, Option,
  none, some, List, [], ◌∷◌, ◌++◌, Bytes, ◌==◌, discard, find?, take, length, get_elem?,
  length-append, length-take, ok, arith, Bool-cases, inl, inr, find?-discard, Bool, leb, ltb,
}
use drivechain_esplora.Chain.Hash.{Hash}
use drivechain_esplora.Store.Tables.{after, BlockRow, SyncState, Db, Block}
use drivechain_esplora.Store.State.{tip, hash_at, hash_of}
use drivechain_esplora.Store.Write.{apply, rollback, with_tip, tip_at}
use drivechain_esplora.Store.Write.Keyed.{Keyed, Keyed-keep, Keyed-snoc}
use drivechain_esplora.Store.Write.Rows.{apply-Wrote}
use drivechain_esplora.Store.Write.Level.{find?-append_new}
use drivechain_esplora.Store.Write.Gapless.{height-apart}

abbrev at_top : ℕ → Option Hash → Option (ℕ × Hash)
at_top k none = none
at_top k (some h) = some (k, h)

-- The height and the hash of the last block.
abbrev pub newest : List Hash → Option (ℕ × Hash)
newest chain = at_top (length chain - 1) (get_elem? chain (length chain - 1))

-- The database holds this chain and no other block, one row to a height.
pub record Holds (chain : List Hash) (d : Db) : Type 0 where
  pub hashes : (k : ℕ) → hash_at k d ≡ get_elem? chain k
  pub state : SyncState
  pub initialised : d.sync_state ≡ some state
  pub tip_newest : tip d ≡ newest chain
  pub keyed : Keyed d.blocks

get_elem?-snoc :
    (chain : List Hash) (h : Hash) → get_elem? (chain ++ (h ∷ [])) (length chain) ≡ some h
get_elem?-snoc [] h = refl
get_elem?-snoc (x ∷ xs) h = get_elem?-snoc xs h

get_elem?-other :
    (chain : List Hash) (h : Hash) (k : ℕ)
    → (k == length chain) ≡ false
    → get_elem? (chain ++ (h ∷ [])) k ≡ get_elem? chain k
get_elem?-other [] h zero e = absurd (ground arith)
get_elem?-other [] h (suc k) e = refl
get_elem?-other (x ∷ xs) h zero e = refl
get_elem?-other (x ∷ xs) h (suc k) e = get_elem?-other xs h k (ground arith)

newest-snoc : (chain : List Hash) (h : Hash) → newest (chain ++ (h ∷ [])) ≡ some (length chain, h)
newest-snoc chain h =
    let e : length (chain ++ (h ∷ [])) - 1 ≡ length chain =
      omega (arith, length-append chain (h ∷ [])) in
    rw (e, get_elem?-snoc chain h) refl

get_elem?-within :
    (n : ℕ) (chain : List Hash) (k : ℕ) → k < n → get_elem? (take n chain) k ≡ get_elem? chain k
get_elem?-within zero chain k lt = absurd (omega arith)
get_elem?-within (suc n) [] k lt = refl
get_elem?-within (suc n) (x ∷ xs) zero lt = refl
get_elem?-within (suc n) (x ∷ xs) (suc k) lt = get_elem?-within n xs k (omega (arith, lt))

get_elem?-beyond : (n : ℕ) (chain : List Hash) (k : ℕ) → n ≤ k → get_elem? (take n chain) k ≡ none
get_elem?-beyond zero chain k le = refl
get_elem?-beyond (suc n) [] k le = refl
get_elem?-beyond (suc n) (x ∷ xs) zero le = absurd (omega arith)
get_elem?-beyond (suc n) (x ∷ xs) (suc k) le = get_elem?-beyond n xs k (omega (arith, le))

pub get_elem?-end : (chain : List Hash) (k : ℕ) → length chain ≤ k → get_elem? chain k ≡ none
get_elem?-end [] k le = refl
get_elem?-end (x ∷ xs) zero le = absurd (omega arith)
get_elem?-end (x ∷ xs) (suc k) le = get_elem?-end xs k (omega (arith, le))

pub get_elem?-some :
    (chain : List Hash) (k : ℕ) → k < length chain → (h : Hash) × (get_elem? chain k ≡ some h)
get_elem?-some [] k lt = absurd (omega arith)
get_elem?-some (x ∷ xs) zero lt = (x, refl)
get_elem?-some (x ∷ xs) (suc k) lt = get_elem?-some xs k (omega (arith, lt))

find?-miss :
    (p : BlockRow → Bool) (rows : List BlockRow) (row : BlockRow)
    → p row ≡ false
    → find? p (rows ++ (row ∷ [])) ≡ find? p rows
find?-miss p [] row e = rw e refl
find?-miss p (r ∷ rows) row e = elim (Bool-cases (p r)) [
  | inl hit ↦ rw hit refl
  | inr miss ↦ rw miss (find?-miss p rows row e)
]

find?-gone :
    (p q : BlockRow → Bool) (rows : List BlockRow)
    → ((r : BlockRow) → p r ≡ true → q r ≡ true)
    → find? p (discard q rows) ≡ none
find?-gone p q [] h = refl
find?-gone p q (r ∷ rows) h = elim (Bool-cases (q r)) [
  | inl gone ↦ rw gone (find?-gone p q rows h)
  | inr kept ↦ rw kept (elim (Bool-cases (p r)) [
    | inl hit ↦ absurd (ground (arith, h r hit))
    | inr miss ↦ rw miss (find?-gone p q rows h)
  ])
]

hash_of-none : (o : Option BlockRow) → hash_of o ≡ none → o ≡ none
hash_of-none none e = refl
hash_of-none (some r) e = absurd (ground arith)

pub hash_of-some :
    (o : Option BlockRow) (h : Hash)
    → hash_of o ≡ some h
    → (r : BlockRow) × (o ≡ some r) × (r.hash ≡ h)
hash_of-some none h e = absurd (ground arith)
hash_of-some (some r) h e = (r, refl, ground arith)

find?-none-discard :
    (p q : BlockRow → Bool) (rows : List BlockRow)
    → find? p rows ≡ none
    → find? p (discard q rows) ≡ none
find?-none-discard p q [] e = refl
find?-none-discard p q (r ∷ rows) e = elim (Bool-cases (p r)) [
  | inl hit ↦ absurd (ground arith)
  | inr miss ↦
      let rest = find?-none-discard p q rows (rw miss at e) in
      elim (Bool-cases (q r)) [ inl gone ↦ rw gone rest | inr kept ↦ rw (kept, miss) rest ]
]

-- Apply of the next block appends its hash.
pub apply-Holds :
    (sha256 : Bytes → Bytes) (chain : List Hash) (b : Block) (d d' : Db) (n : ℕ)
    → Holds chain d
    → b.height ≡ length chain
    → apply sha256 b d ≡ ok (d', n)
    → Holds (chain ++ (b.hash ∷ [])) d'
unfolding hash_at tip
apply-Holds sha256 chain b d d' n i eh e =
    let w = apply-Wrote sha256 b d d' n e in
    let new : hash_at b.height d' ≡ some b.hash =
      ap (λ rows. hash_of (find? (λ (r : BlockRow). r.height == b.height) rows)) w.blocks
      ∙ ap hash_of (find?-append_new b.height d.blocks w.row w.new_height w.row_height)
      ∙ ap some w.row_hash in
    let state : d'.sync_state ≡ some (record i.state { tip = some (b.height, b.hash) }) =
      w.sync_state ∙ rw i.initialised refl in
    record {
      hashes = λ k. elim (Bool-cases (k == length chain)) [
        | inl here ↦
            let ek : k ≡ length chain = ground arith in
            ap (λ j. hash_at j d') (ek ∙ sym eh)
            ∙ new
            ∙ sym (ap (get_elem? (chain ++ (b.hash ∷ []))) ek ∙ get_elem?-snoc chain b.hash)
        | inr there ↦
            ap (λ rows. hash_of (find? (λ (r : BlockRow). r.height == k) rows)) w.blocks
            ∙ ap hash_of
                (find?-miss (λ r. r.height == k) d.blocks w.row (ground (arith, w.row_height, eh)))
            ∙ i.hashes k
            ∙ sym (get_elem?-other chain b.hash k there)
      ];
      state = record i.state { tip = some (b.height, b.hash) };
      initialised = state;
      tip_newest = rw (state, eh) (sym (newest-snoc chain b.hash));
      keyed = subst Keyed (sym w.blocks) (
          Keyed-snoc d.blocks w.row
            (ap (λ k. any (λ (r : BlockRow). r.height == k) d.blocks) w.row_height ∙ w.new_height)
            i.keyed);
    }

newest-take :
    (f : ℕ) (chain : List Hash) (h : Hash)
    → f < length chain
    → get_elem? chain f ≡ some h
    → newest (take (f + 1) chain) ≡ some (f, h)
newest-take f chain h lt at =
    let e : length (take (f + 1) chain) - 1 ≡ f = omega (arith, length-take (f + 1) chain, lt) in
    rw (e, get_elem?-within (f + 1) chain f (omega arith), at) refl

-- Rollback keeps the first blocks of the chain.
pub rollback-Holds :
    (f : ℕ) (chain : List Hash) (d : Db)
    → Holds chain d
    → f < length chain
    → length chain ≤ 2 ^ 31
    → Holds (take (f + 1) chain) (rollback f d)
unfolding hash_at tip rollback
rollback-Holds f chain d i lt small =
    let (h, at) = get_elem?-some chain f lt in
    let (row, found, eh) =
      hash_of-some (find? (λ (r : BlockRow). r.height == f) d.blocks) h (i.hashes f ∙ at) in
    let kept : (k : ℕ)
        → k ≤ f
        → find? (λ (r : BlockRow). r.height == k) (rollback f d).blocks
          ≡ find? (λ (r : BlockRow). r.height == k) d.blocks =
      λ k le.
        find?-discard (λ r. r.height == k) (λ r. after r.height f)
          (height-apart f k le (omega (arith, lt, small))) d.blocks in
    let dropped : (k : ℕ)
        → f < k
        → find? (λ (r : BlockRow). r.height == k) (rollback f d).blocks ≡ none =
      λ k lt'. elim (Bool-cases (ltb k (length chain))) [
        | inl held ↦
            find?-gone (λ r. r.height == k) (λ r. after r.height f) d.blocks (λ r e. ground arith)
        | inr end ↦
            find?-none-discard (λ r. r.height == k) (λ r. after r.height f) d.blocks
              (hash_of-none (find? (λ (r : BlockRow). r.height == k) d.blocks)
                (i.hashes k ∙ get_elem?-end chain k (ground arith)))
      ] in
    let state : (rollback f d).sync_state ≡ some (record i.state { tip = some (f, h) }) =
      ap (λ o. with_tip (tip_at f o) d.sync_state) (kept f (omega arith) ∙ found)
      ∙ rw (i.initialised, eh) refl in
    record {
      hashes = λ k. elim (Bool-cases (leb k f)) [
        | inl below ↦
            let le : k ≤ f = ground arith in
            ap hash_of (kept k le)
            ∙ i.hashes k
            ∙ sym (get_elem?-within (f + 1) chain k (omega (arith, le)))
        | inr above ↦
            ap hash_of (dropped k (ground arith))
            ∙ sym (get_elem?-beyond (f + 1) chain k (ground arith))
      ];
      state = record i.state { tip = some (f, h) };
      initialised = state;
      tip_newest = rw state (sym (newest-take f chain h lt at));
      keyed = Keyed-keep _ d.blocks i.keyed;
    }
