-- ===== src/Cfg/Offsets.antt =====
-- The maps from offsets to indices that src/cfg/build.rs makes of ascending offsets.
use ferro_jtype.Prelude.{
  ℕ, zero, suc, ◌+◌, ◌<◌, ◌≡◌, refl, sym, ◌∙◌, ap, ◌↔◌, ◌⊎◌, inl, inr, List, [], ◌∷◌, ◌++◌, some,
  All, get_elem?, ◌==◌, Bool-cases, append_assoc, append-nil, arith,
}
use ferro_jtype.Prelude.Map.{map_get, map_insert}
use ferro_jtype.Prelude.Members.{IsIn, IsAscending, All-lt_trans}
use ferro_jtype.Frame.Targets.{set_insert}
use ferro_jtype.Cfg.{OffsetMap}
use ferro_jtype.Cfg.Starts.{index_from}

pub IsIn-set_insert : (x n : ℕ) (ms : List ℕ) → IsIn x (set_insert n ms) ↔ ((x ≡ n) ⊎ IsIn x ms)
IsIn-set_insert x n [] = ground arith
IsIn-set_insert x n (m ∷ ms) = ground (arith, IsIn-set_insert x n ms)

All-set_insert :
    (a n : ℕ) (ms : List ℕ) → a < n → All (λ m. a < m) ms → All (λ m. a < m) (set_insert n ms)
All-set_insert a n [] h all = (h, tt)
All-set_insert a n (m ∷ ms) h (p, all) = ground (arith, All-set_insert a n ms h all)

pub set_insert-IsAscending : (n : ℕ) (ms : List ℕ) → IsAscending ms → IsAscending (set_insert n ms)
set_insert-IsAscending n [] h = (tt, tt)
set_insert-IsAscending n (m ∷ ms) (below, asc) =
    ground (arith, set_insert-IsAscending n ms asc, All-set_insert m n ms, All-lt_trans n m ms)

-- The entries that a list of ascending offsets makes.
abbrev pub numbered : ℕ → List ℕ → OffsetMap
numbered i [] = []
numbered i (offset ∷ offsets) = (offset, i) ∷ numbered (suc i) offsets

map_insert-last :
    (k v : ℕ) (known : OffsetMap)
    → All (λ (e : ℕ × ℕ). e.0 < k) known
    → map_insert k v known ≡ known ++ (k, v) ∷ []
map_insert-last k v [] h = refl
map_insert-last k v ((j, w) ∷ known) (p, h) = ground (arith, map_insert-last k v known h)

abbrev KeysBelow : OffsetMap → List ℕ → Type 0
KeysBelow known offsets = All (λ k. All (λ (e : ℕ × ℕ). e.0 < k) known) offsets

below_last :
    (known : OffsetMap) (offset i k : ℕ)
    → All (λ (e : ℕ × ℕ). e.0 < k) known
    → offset < k
    → All (λ (e : ℕ × ℕ). e.0 < k) (known ++ (offset, i) ∷ [])
below_last [] offset i k h lt = (lt, tt)
below_last (e ∷ known) offset i k (p, h) lt = (p, below_last known offset i k h lt)

all_below_last :
    (known : OffsetMap) (offset i : ℕ) (offsets : List ℕ)
    → KeysBelow known offsets
    → All (λ m. offset < m) offsets
    → KeysBelow (known ++ (offset, i) ∷ []) offsets
all_below_last known offset i [] h above = tt
all_below_last known offset i (k ∷ ks) (p, h) (lt, above) =
    (below_last known offset i k p lt, all_below_last known offset i ks h above)

index_from-append :
    (i : ℕ) (offsets : List ℕ) (known : OffsetMap)
    → IsAscending offsets
    → KeysBelow known offsets
    → index_from i offsets known ≡ known ++ numbered i offsets
index_from-append i [] known asc below = sym (append-nil known)
index_from-append i (o ∷ os) known (above, asc) (p, below) =
    let added = map_insert-last o i known p in
    let later =
      index_from-append (suc i) os (known ++ (o, i) ∷ []) asc
        (all_below_last known o i os below above) in
    ap (index_from (suc i) os) added
    ∙ later
    ∙ append_assoc known ((o, i) ∷ []) (numbered (suc i) os)

no_keys : (offsets : List ℕ) → KeysBelow [] offsets
no_keys [] = tt
no_keys (o ∷ os) = (tt, no_keys os)

pub index_from-numbered :
    (offsets : List ℕ) → IsAscending offsets → index_from 0 offsets [] ≡ numbered 0 offsets
index_from-numbered offsets asc = index_from-append 0 offsets [] asc (no_keys offsets)

-- What a look-up finds is the index of the key, and every key is found.
pub map_get-numbered :
    (i : ℕ) (offsets : List ℕ) (k j : ℕ)
    → map_get (numbered i offsets) k ≡ some j
    → (d : ℕ) × (j ≡ i + d) × (get_elem? offsets d ≡ some k)
map_get-numbered i [] k j e = cc
map_get-numbered i (o ∷ os) k j e = elim (Bool-cases (o == k)) [
  | inl same ↦ (0, ground arith, ground arith)
  | inr differs ↦
      let there : map_get (numbered (suc i) os) k ≡ some j = rw differs at e in
      let (d, at, found) = map_get-numbered (suc i) os k j there in (suc d, omega arith, found)
]

pub get_elem?-above :
    (a : ℕ) (offsets : List ℕ) (d k : ℕ)
    → All (λ m. a < m) offsets
    → get_elem? offsets d ≡ some k
    → a < k
get_elem?-above a (o ∷ os) zero k (p, all) e = ground arith
get_elem?-above a (o ∷ os) (suc d) k (p, all) e = get_elem?-above a os d k all e
get_elem?-above a [] d k all e = cc

pub numbered-map_get :
    (i : ℕ) (offsets : List ℕ) (d k : ℕ)
    → IsAscending offsets
    → get_elem? offsets d ≡ some k
    → map_get (numbered i offsets) k ≡ some (i + d)
numbered-map_get i (o ∷ os) zero k (above, asc) e = ground arith
numbered-map_get i (o ∷ os) (suc d) k (above, asc) e =
    ground (arith, numbered-map_get (suc i) os d k asc e, get_elem?-above o os d k above e)
numbered-map_get i [] d k asc e = cc

pub IsIn-get_elem? :
    (k : ℕ) (offsets : List ℕ) → IsIn k offsets → (d : ℕ) × (get_elem? offsets d ≡ some k)
IsIn-get_elem? k [] m = absurd m
IsIn-get_elem? k (o ∷ os) (inl e) = (0, ap some (sym e))
IsIn-get_elem? k (o ∷ os) (inr m) = let (d, e) = IsIn-get_elem? k os m in (suc d, e)

-- Ascending offsets keep the order of their indices.
pub get_elem?-lt :
    (offsets : List ℕ) (d e a b : ℕ)
    → IsAscending offsets
    → get_elem? offsets d ≡ some a
    → get_elem? offsets e ≡ some b
    → (a < b) ↔ (d < e)
get_elem?-lt [] d e a b asc ha hb = cc
get_elem?-lt (o ∷ os) zero zero a b asc ha hb = ground arith
get_elem?-lt (o ∷ os) zero (suc e) a b (above, asc) ha hb =
    ground (arith, get_elem?-above o os e b above hb)
get_elem?-lt (o ∷ os) (suc d) zero a b (above, asc) ha hb =
    ground (arith, get_elem?-above o os d a above ha)
get_elem?-lt (o ∷ os) (suc d) (suc e) a b (above, asc) ha hb =
    ground (arith, get_elem?-lt os d e a b asc ha hb)

pub numbered-index :
    (offsets : List ℕ) (i k : ℕ)
    → IsAscending offsets
    → get_elem? offsets i ≡ some k
    → map_get (numbered 0 offsets) k ≡ some i
numbered-index offsets i k asc e = ground (arith, numbered-map_get 0 offsets i k asc e)

pub index-numbered :
    (offsets : List ℕ) (i k : ℕ)
    → map_get (numbered 0 offsets) k ≡ some i
    → get_elem? offsets i ≡ some k
index-numbered offsets i k e =
    let (d, at, found) = map_get-numbered 0 offsets k i e in
    let same : i ≡ d = omega arith in rw same found
