-- ===== src/Tests/References.antt =====
-- Two records that refer to a third, and the deletion of one.
use datacrystal.Base.{ℕ, List, [], ◌∷◌, refl}
use datacrystal.Base.Dict
use datacrystal.Query.Reverse.{
  Reverse, Inverse, apply_reverse, remove_reverse, remove_reverse-Inverse,
}
use datacrystal.Tests.Ids.{id_list}

abbrev unwatched : Reverse (List ℕ)
unwatched = record { reverse = []; reverse_refs = [] }

unwatched-Inverse : Inverse unwatched
unfolding Dict.get
unwatched-Inverse u n = refl

abbrev links : List (ℕ × List ℕ)
links = (2, 7 ∷ []) ∷ (3, 7 ∷ 2 ∷ []) ∷ []

remove_reverse-Inverse_example : Inverse (remove_reverse (apply_reverse unwatched links) (3 ∷ []))
remove_reverse-Inverse_example = remove_reverse-Inverse unwatched links (3 ∷ []) unwatched-Inverse
