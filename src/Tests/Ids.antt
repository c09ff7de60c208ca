-- ===== src/Tests/Ids.antt =====
-- A set of ids as a list, for the runs on concrete indexes.
use datacrystal.Base.{
  ℕ, ◌<◌, List, [], ◌∷◌, ◌++◌, Bool-cases, inl, inr, true, false, not, ◌==◌, ◌&&◌, ◌||◌, contains,
  contains-append, contains-filter, filter, All, All-map, ltb, leb, if◌then◌else◌, ◌≡◌, refl, ◌∙◌,
  arith, nat_eq,
}
use datacrystal.Query.Bitmap.{BitMap64, Ascending}
use datacrystal.Query.Keys.{Keys}

-- An id into an ascending list.
abbrev pub enter : List ℕ → ℕ → List ℕ
enter [] n = n ∷ []
enter (m ∷ ms) n =
    let rest = enter ms n in if ltb n m then n ∷ m ∷ ms else if n == m then m ∷ ms else m ∷ rest

abbrev pub ascend : List ℕ → List ℕ
ascend [] = []
ascend (m ∷ ms) = enter (ascend ms) m

contains-enter : (ms : List ℕ) (m n : ℕ) → contains (enter ms m) n ≡ (m == n || contains ms n)
contains-enter [] m n = refl
contains-enter (k ∷ ms) m n = ground (arith, contains-enter ms m n)

pub contains-ascend : (ms : List ℕ) (n : ℕ) → contains (ascend ms) n ≡ contains ms n
contains-ascend [] n = refl
contains-ascend (m ∷ ms) n = contains-enter (ascend ms) m n ∙ ground (arith, contains-ascend ms n)

All-enter :
    (b : ℕ) (ms : List ℕ) (m : ℕ) → b < m → All (λ k. b < k) ms → All (λ k. b < k) (enter ms m)
All-enter b [] m h all = (h, tt)
All-enter b (k ∷ ms) m h all = elim (Bool-cases (ltb m k)) [
  | inl y ↦ rw y (h, all)
  | inr n ↦ rw n (elim (Bool-cases (m == k)) [
    | inl y ↦ rw y all
    | inr q ↦ rw q (all.0, All-enter b ms m h all.1)
  ])
]

enter-Ascending : (ms : List ℕ) (m : ℕ) → Ascending ms → Ascending (enter ms m)
enter-Ascending [] m a = (tt, tt)
enter-Ascending (k ∷ ms) m a = elim (Bool-cases (ltb m k)) [
  | inl y ↦
      let below : m < k = ground (arith, y) in
      rw y ((below, All-map ms (λ j h. omega (arith, below, h)) a.0), a)
  | inr n ↦ rw n (elim (Bool-cases (m == k)) [
    | inl y ↦ rw y a
    | inr q ↦ rw q (All-enter k ms m (ground (arith, n, q)) a.0, enter-Ascending ms m a.1)
  ])
]

pub ascend-Ascending : (ms : List ℕ) → Ascending (ascend ms)
ascend-Ascending [] = tt
ascend-Ascending (m ∷ ms) = enter-Ascending (ascend ms) m (ascend-Ascending ms)

pub leb_total : (a b : ℕ) → (leb a b || leb b a) ≡ true
leb_total a b = ground arith

pub leb_trans : (a b c : ℕ) → leb a b ≡ true → leb b c ≡ true → leb a c ≡ true
leb_trans a b c h g = ground arith

pub leb_antisymm : (a b : ℕ) → leb a b ≡ true → leb b a ≡ true → a ≡ b
leb_antisymm a b h g = ground arith

pub contains-discard :
    (ms : List ℕ) (m n : ℕ)
    → contains (filter (λ k. not (m == k)) ms) n ≡ (not (m == n) && contains ms n)
contains-discard ms m n = contains-filter (λ k. not (m == k)) ms n ∙ ground arith

pub contains-common :
    (a b : List ℕ) (n : ℕ) → contains (filter (contains b) a) n ≡ (contains a n && contains b n)
contains-common a b n = contains-filter (contains b) a n

instance abbrev pub id_list : BitMap64 (List ℕ)
id_list = record {
  mem = contains;
  empty = [];
  add = λ ms m. m ∷ ms;
  discard = λ ms m. filter (λ k. not (m == k)) ms;
  union = λ a b. a ++ b;
  inter = λ a b. filter (contains b) a;
  iter = ascend;
  mem_empty = λ n. refl;
  mem_add = λ ms m n. refl;
  mem_discard = contains-discard;
  mem_union = λ a b n. contains-append a b n;
  mem_inter = contains-common;
  contains_iter = contains-ascend;
  ascending_iter = ascend-Ascending;
}

-- Numbers as keys; none of them is a string.
instance abbrev pub number_keys : Keys ℕ
number_keys = record {
  equal = nat_eq;
  le = leb;
  le_total = leb_total;
  le_trans = leb_trans;
  le_antisymm = leb_antisymm;
  substring = λ a b. false;
  prefix = λ a b. false;
}
