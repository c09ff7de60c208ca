-- ===== src/Query/Bitmap.antt =====
-- pyroaring's `BitMap64`, a set of ids that iterates in ascending order.
use datacrystal.Base.{
  ℕ, ◌<◌, List, [], ◌∷◌, Bool, false, ◌||◌, ◌&&◌, not, ◌==◌, ◌≡◌, contains, All, nat_eq,
}

-- A list in strictly ascending order.
abbrev pub Ascending : List ℕ → Type 0
Ascending [] = Unit
Ascending (x ∷ xs) = All (λ y. x < y) xs × Ascending xs

pub record BitMap64 (B : Type 0) : Type 0 where
  pub mem : B → ℕ → Bool
  pub empty : B
  pub add : B → ℕ → B
  pub discard : B → ℕ → B
  pub union : B → B → B
  pub inter : B → B → B
  pub iter : B → List ℕ
  pub mem_empty : (n : ℕ) → mem empty n ≡ false
  pub mem_add : (b : B) (m n : ℕ) → mem (add b m) n ≡ (m == n || mem b n)
  pub mem_discard : (b : B) (m n : ℕ) → mem (discard b m) n ≡ (not (m == n) && mem b n)
  pub mem_union : (a b : B) (n : ℕ) → mem (union a b) n ≡ (mem a n || mem b n)
  pub mem_inter : (a b : B) (n : ℕ) → mem (inter a b) n ≡ (mem a n && mem b n)
  pub contains_iter : (b : B) (n : ℕ) → contains (iter b) n ≡ mem b n
  pub ascending_iter : (b : B) → Ascending (iter b)
