-- ===== src/Query/ClassIndexes.antt =====
-- `ClassIndexes`: the extent, the postings, the unique maps, the sorted runs and the memory of what was
-- indexed last.
use datacrystal.Base.{
  ℕ, String, List, [], ◌∷◌, Option, none, some, Bool, true, false, not, ◌==◌, ◌||◌, contains, map,
  if◌then◌else◌, nat_eq, string_eq, option_eq,
}
use datacrystal.Base.Dict
use datacrystal.Base.Dict.{Dict}
use datacrystal.Query.Bitmap.{BitMap64}
use datacrystal.Query.Condition.{Value, scalar, many}
use datacrystal.Query.Keys.{Keys, key_eq}

-- The postings of a field: the ids under each key. `None` is a key; a list field has its elements as
-- keys.
abbrev pub Postings : Type 0 → Type 0 → Type 0
Postings K B = Dict (Option K) B

pub record ClassIndexes (K B : Type 0) : Type 0 where
  pub extent : B
  pub eq : Dict String (Postings K B)
  pub unique : Dict String (Dict K ℕ)
  pub list_fields : List String
  pub sorted_fields : List String
  pub sorted_keys : Dict String (List K)
  pub building : Bool
  pub last_values : Dict ℕ (Dict String (Value K))

-- The values of an object that a commit hands over, or that a record holds, by field.
abbrev pub Row : Type 0 → Type 0
Row K = Dict String (Value K)

-- What a list field and what any other field holds: its annotation says so.
abbrev pub as_list : {K : Type 0} → Value K → List (Option K)
as_list (many l) = l
as_list (scalar v) = []

abbrev pub as_scalar : {K : Type 0} → Value K → Option K
as_scalar (many l) = none
as_scalar (scalar v) = v

module _ {K : Type 0} ⦃o : Keys K⦄ where
  -- `insort`: behind the keys that are not above the new one
  unfoldable pub insort : List K → K → List K
  insort [] v = v ∷ []
  insort (k ∷ ks) v = let rest = insort ks v in if o.le k v then k ∷ rest else v ∷ k ∷ ks

  -- `sorted(keys)`
  unfoldable pub sort_keys : List K → List K
  unfolding insort
  sort_keys [] = []
  sort_keys (k ∷ ks) = insort (sort_keys ks) k

  -- `if holder.get(value) == oid: del holder[value]`
  unfoldable pub release : Dict K ℕ → K → ℕ → Dict K ℕ
  release holders v oid = if Dict.get holders v == some oid then Dict.remove holders v else holders

-- The keys of a column that are not `None`, in the order of the dict.
unfoldable pub present_keys : {K B : Type 0} → Postings K B → List K
present_keys [] = []
present_keys ((none, ids) ∷ col) = present_keys col
present_keys ((some k, ids) ∷ col) = k ∷ present_keys col

module _ {K B : Type 0} ⦃o : Keys K⦄ ⦃bm : BitMap64 B⦄ where
  unfoldable pub new_indexes :
      (indexed unique list_fields sorted_fields : List String) → ClassIndexes K B
  new_indexes indexed unique list_fields sorted_fields = record {
    extent = bm.empty;
    eq = map (λ f. (f, [])) indexed;
    unique = map (λ f. (f, [])) unique;
    list_fields = list_fields;
    sorted_fields = sorted_fields;
    sorted_keys = map (λ f. (f, [])) sorted_fields;
    building = false;
    last_values = [];
  }

  -- `postings.get(key)`, empty where there is none
  unfoldable pub posting_of : Postings K B → Option K → B
  posting_of col key = elim (Dict.get col key) [ none ↦ bm.empty | some ids ↦ ids ]

  -- `postings.setdefault(key, BitMap64()).add(oid)`
  unfoldable pub post : Postings K B → Option K → ℕ → Postings K B
  unfolding posting_of
  post col key oid = Dict.put col key (bm.add (posting_of col key) oid)

  -- `posting.discard(oid)` where there is one
  unfoldable pub unpost : Postings K B → Option K → ℕ → Postings K B
  unpost col key oid = elim (Dict.get col key) [
    | none ↦ col
    | some ids ↦ Dict.put col key (bm.discard ids oid)
  ]

  unfoldable pub post_all : Postings K B → List (Option K) → ℕ → Postings K B
  unfolding post
  post_all col [] oid = col
  post_all col (key ∷ keys) oid = post_all (post col key oid) keys oid

  unfoldable pub unpost_all : Postings K B → List (Option K) → ℕ → Postings K B
  unfolding unpost
  unpost_all col [] oid = col
  unpost_all col (key ∷ keys) oid = unpost_all (unpost col key oid) keys oid

  -- `_enter_sorted_run` on the runs; its guard against mixed datetimes is the order of `Keys`.
  unfoldable pub enter_sorted_run : ClassIndexes K B → String → Option K → Dict String (List K)
  unfolding insort
  enter_sorted_run ci field none = ci.sorted_keys
  enter_sorted_run ci field (some v) =
      if not (contains ci.sorted_fields field) || ci.building
      then ci.sorted_keys
      else elim (Dict.get ci.sorted_keys field) [
        | none ↦ ci.sorted_keys
        | some run ↦ Dict.put ci.sorted_keys field (insort run v)
      ]

  unfoldable pub index_list_field :
      ClassIndexes K B → ℕ → String → List (Option K) → ClassIndexes K B
  unfolding post_all
  index_list_field ci oid field keys = elim (Dict.get ci.eq field) [
    | none ↦ ci
    | some col ↦ record ci { eq = Dict.put ci.eq field (post_all col keys oid) }
  ]

  -- The runs after a key of a column is used: a key that is new enters the sorted run.
  unfoldable pub runs_after :
      ClassIndexes K B → String → Postings K B → Option K → Dict String (List K)
  unfolding enter_sorted_run
  runs_after ci field col value = elim (Dict.get col value) [
    | none ↦ enter_sorted_run ci field value
    | some ids ↦ ci.sorted_keys
  ]

  -- The postings of a scalar field.
  unfoldable pub index_eq : ClassIndexes K B → ℕ → String → Option K → ClassIndexes K B
  unfolding post runs_after
  index_eq ci oid field value = elim (Dict.get ci.eq field) [
    | none ↦ ci
    | some col ↦ record ci {
      eq = Dict.put ci.eq field (post col value oid);
      sorted_keys = runs_after ci field col value;
    }
  ]

  unfoldable pub index_unique : ClassIndexes K B → ℕ → String → Option K → ClassIndexes K B
  index_unique ci oid field none = ci
  index_unique ci oid field (some v) = elim (Dict.get ci.unique field) [
    | none ↦ ci
    | some holders ↦ record ci { unique = Dict.put ci.unique field (Dict.put holders v oid) }
  ]

  unfoldable pub index_scalar_field : ClassIndexes K B → ℕ → String → Option K → ClassIndexes K B
  unfolding index_eq index_unique
  index_scalar_field ci oid field value = index_unique (index_eq ci oid field value) oid field value

  unfoldable pub index_field : ClassIndexes K B → ℕ → String → Value K → ClassIndexes K B
  unfolding index_list_field index_scalar_field
  index_field ci oid field value =
      if contains ci.list_fields field
      then index_list_field ci oid field (as_list value)
      else index_scalar_field ci oid field (as_scalar value)

  unfoldable pub index_row : ClassIndexes K B → ℕ → Row K → ClassIndexes K B
  unfolding index_field
  index_row ci oid [] = ci
  index_row ci oid ((field, value) ∷ row) = index_row (index_field ci oid field value) oid row

  unfoldable pub unindex_list_field :
      ClassIndexes K B → ℕ → String → List (Option K) → ClassIndexes K B
  unfolding unpost_all
  unindex_list_field ci oid field keys = elim (Dict.get ci.eq field) [
    | none ↦ ci
    | some col ↦ record ci { eq = Dict.put ci.eq field (unpost_all col keys oid) }
  ]

  unfoldable pub unindex_eq : ClassIndexes K B → ℕ → String → Option K → ClassIndexes K B
  unfolding unpost
  unindex_eq ci oid field value = elim (Dict.get ci.eq field) [
    | none ↦ ci
    | some col ↦ record ci { eq = Dict.put ci.eq field (unpost col value oid) }
  ]

  unfoldable pub unindex_unique : ClassIndexes K B → ℕ → String → Option K → ClassIndexes K B
  unfolding release
  unindex_unique ci oid field none = ci
  unindex_unique ci oid field (some v) = elim (Dict.get ci.unique field) [
    | none ↦ ci
    | some holders ↦ record ci { unique = Dict.put ci.unique field (release holders v oid) }
  ]

  unfoldable pub unindex_field : ClassIndexes K B → ℕ → String → Value K → ClassIndexes K B
  unfolding unindex_list_field unindex_eq unindex_unique
  unindex_field ci oid field value =
      if contains ci.list_fields field
      then unindex_list_field ci oid field (as_list value)
      else unindex_unique (unindex_eq ci oid field (as_scalar value)) oid field (as_scalar value)

  -- `_unindex`
  unfoldable pub unindex : ClassIndexes K B → ℕ → Row K → ClassIndexes K B
  unfolding unindex_field
  unindex ci oid [] = ci
  unindex ci oid ((field, value) ∷ row) = unindex (unindex_field ci oid field value) oid row

  -- `old = self._last_values.pop(oid, None)`, and its un-indexing
  unfoldable pub forget : ClassIndexes K B → ℕ → ClassIndexes K B
  unfolding unindex
  forget ci oid = elim (Dict.get ci.last_values oid) [
    | none ↦ ci
    | some old ↦ unindex (record ci { last_values = Dict.remove ci.last_values oid }) oid old
  ]

  unfoldable pub insert : ClassIndexes K B → ℕ → Row K → ClassIndexes K B
  unfolding forget index_row
  insert ci oid row =
      let cleared = forget ci oid in
      let indexed = index_row (record cleared { extent = bm.add cleared.extent oid }) oid row in
      record indexed { last_values = Dict.put indexed.last_values oid row }

  unfoldable pub remove : ClassIndexes K B → ℕ → ClassIndexes K B
  unfolding forget
  remove ci oid =
      let cleared = forget ci oid in record cleared { extent = bm.discard cleared.extent oid }

  unfoldable pub begin_bulk : ClassIndexes K B → ClassIndexes K B
  begin_bulk ci = record ci { building = true }

  -- `seal`
  unfoldable pub seal : ClassIndexes K B → ClassIndexes K B
  seal ci = record ci { last_values = [] }

  unfoldable pub finalize_runs :
      Dict String (Postings K B) → List String → Dict String (List K) → Dict String (List K)
  unfolding present_keys sort_keys
  finalize_runs eq [] runs = runs
  finalize_runs eq (field ∷ fields) runs = finalize_runs eq fields (
      Dict.put runs field
        (sort_keys (elim (Dict.get eq field) [ none ↦ [] | some col ↦ present_keys col ])))

  unfoldable pub finalize_build : ClassIndexes K B → ClassIndexes K B
  unfolding finalize_runs
  finalize_build ci = record ci {
    sorted_keys = finalize_runs ci.eq ci.sorted_fields ci.sorted_keys;
    building = false;
  }
