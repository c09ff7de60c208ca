-- ===== src/Permissions/Authority.antt =====
-- What the predicates of _permissions.py amount to.
use datacrystal.Base.{
  false, ◌||◌, ◌&&◌, list_eq, list_beq, not, ◌≡◌, refl, ◌∙◌, List, [], ◌∷◌, map, ap, ◌==◌, arith,
  any, Bool-cases, inl, inr,
}
use datacrystal.Base.Int.{ℤ, pos, leb_ℤ, int_eq, max_or, max_from-reaches}
use datacrystal.Base.Dict
use datacrystal.Base.Dict.{get-put}
use datacrystal.Permissions.{
  Principal, level, is_owner, is_root, standing, authority_towards, can_read_row, root_principal,
  world, no_standing, executive,
}

any-map :
    (p : Principal) (f : ℤ) (groups : List ℤ)
    → any (leb_ℤ f) (map (level p) groups) ≡ any (λ g. leb_ℤ f (level p g)) groups
any-map p f [] = refl
any-map p f (g ∷ groups) = rw (any-map p f groups)

-- Authority towards a shared record reaches a floor exactly when the level in one of its groups
-- does.
pub authority-reaches :
    (p : Principal) (owner f g : ℤ) (groups : List ℤ)
    → leb_ℤ f (authority_towards p owner (g ∷ groups)) ≡ any (λ g. leb_ℤ f (level p g)) (g ∷ groups)
unfolding authority_towards standing max_or
authority-reaches p owner f g groups =
    max_from-reaches f (level p g) (map (level p) groups)
    ∙ ap (λ b. leb_ℤ f (level p g) || b) (any-map p f groups)

-- Nobody but the owner has standing towards an unshared record.
pub authority-unshared :
    (p : Principal) (owner : ℤ)
    → is_owner p owner ≡ false
    → authority_towards p owner [] ≡ no_standing
unfolding authority_towards standing max_or
authority-unshared p owner h = rw h

-- A session reads a row exactly when it is the root, or owns it, or holds the read floor in one of its
-- groups, or the row has no group and a read floor of at most `no_standing`.
pub can_read_row_iff :
    (p : Principal) (owner : ℤ) (groups : List ℤ) (read_floor : ℤ)
    → can_read_row p owner groups read_floor ≡ (
        is_root p
        || (is_owner p owner
            || (any (λ g. leb_ℤ read_floor (level p g)) groups
                || (groups == [] && leb_ℤ read_floor no_standing))))
unfolding can_read_row list_beq
can_read_row_iff p owner [] f = elim (Bool-cases (is_owner p owner)) [
  | inl o ↦ rw o (ground arith)
  | inr o ↦ rw (o, authority-unshared p owner o) (ground arith)
]
can_read_row_iff p owner (g ∷ groups) f = rw (authority-reaches p owner f g groups) (ground arith)

-- The anonymous principal owns nothing and is never the root, whatever its memberships.
pub anonymous_powerless :
    (p : Principal) (owner : ℤ) → p.uid ≡ pos 0 → (is_owner p owner ≡ false) × (is_root p ≡ false)
unfolding is_owner is_root
anonymous_powerless p owner h = (rw h, rw h)

-- The break-glass constructor gives a root, and only a named one.
pub root_principal-is_root :
    (uid : ℤ) (m : Dict.Dict ℤ ℤ) → is_root (root_principal uid m) ≡ not (uid == pos 0)
unfolding is_root root_principal
root_principal-is_root uid m = rw (get-put m world world executive) (ground arith)
