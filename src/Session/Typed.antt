-- ===== src/Session/Typed.antt =====
-- Class ids and type rows through a commit, a failed one and its retry included.
use mathlib.Core.Path.{subst, subst₂}
use datacrystal.Base.{
  ℕ, true, List, [], ◌∷◌, ◌++◌, map, contains, ==_refl, ◌≡◌, sym, ap, arith, ◌∙◌, All, All-map,
  All-append, inl, inr, nat_eq,
}
use datacrystal.Contract.{Bytes, TypeRow}
use datacrystal.Ids.{next_tid}
use datacrystal.Storage.{Memory, StoredRecord, put_records, drop_all}
use datacrystal.Storage.Atomic.{IsAtomic}
use datacrystal.Pipeline.Replica.{has_cid, has_cid-append, IsTyped}
use datacrystal.Pipeline.Step.{IsTyped-weaken, IsTyped-put_records, IsTyped-drop_all}
use datacrystal.Session.Live.{Session}
use datacrystal.Session.Pending.{Services, Capture, records_of, pending_of, build_batch}
use datacrystal.Session.Capture.{capture_all}
use datacrystal.Session.Commit.{make_durable, p2_rollback, p3_finalize, run_p2, commit_racing}
use datacrystal.Session.Encoding.{Known, encode-Known}
use datacrystal.Session.Taken.{Taken, Taken-Same, Found-Same}
use datacrystal.Session.Outcome.{commit-cases}

-- The ids that the store takes for durable have rows in the backend.
abbrev pub HasRows : List ℕ → List TypeRow → Type 0
HasRows durable types = All (λ c. has_cid types c ≡ true) durable

-- The class ids of the store and of the records are known to the backend.
abbrev pub TypedBy : List ℕ → Memory → Type 0
TypedBy durable m = HasRows durable m.types × IsTyped m.objects m.types

abbrev pub IsTypedStore : {I Γ : Type 0} → Session I Γ → Type 0
IsTypedStore s = TypedBy s.types.durable_cids s.backend

TypedBy-move : (ds es : List ℕ) (m n : Memory) → es ≡ ds → n ≡ m → TypedBy ds m → TypedBy es n
TypedBy-move ds es m n p q h = subst₂ TypedBy (sym p) (sym q) h

has_cid-of_contains :
    (types : List TypeRow) (durable : List ℕ) (c : ℕ)
    → HasRows durable types
    → contains durable c ≡ true
    → has_cid types c ≡ true
has_cid-of_contains types [] c all h = cc
has_cid-of_contains types (d ∷ ds) c all h = ground (arith, has_cid-of_contains types ds c, all.0)

has_cid-weaken :
    (types more : List TypeRow) (c : ℕ) → has_cid types c ≡ true → has_cid (types ++ more) c ≡ true
has_cid-weaken types more c h = ground (arith, h, has_cid-append types more c)

has_own : (rows : List TypeRow) → HasRows (map (λ r. r.0) rows) rows
has_own [] = tt
has_own (r ∷ rows) =
    (rw (==_refl r.0), All-map (map (λ r. r.0) rows) (λ c h. ground (arith, h)) (has_own rows))

has_cid-records_of :
    (types rows : List TypeRow) (durable : List ℕ) (tid : ℕ) (es : List (ℕ × ℕ × Bytes))
    → HasRows durable types
    → All (λ e. Known durable rows e.1) es
    → All (λ r. has_cid (types ++ rows) r.cid ≡ true) (records_of tid es)
unfolding records_of
has_cid-records_of types rows durable tid [] all known = tt
has_cid-records_of types rows durable tid ((oid, cid, payload) ∷ es) all known = (
  ground (arith, known.0, has_cid-append types rows cid, has_cid-of_contains types durable cid all),
  has_cid-records_of types rows durable tid es all known.1,
)

-- A batch that is written, and its rows taken for durable.
write-TypedBy :
    (ds : List ℕ) (m n : Memory) (records : List StoredRecord) (rows : List TypeRow)
    (deletes : List ℕ)
    → TypedBy ds m
    → All (λ r. has_cid (m.types ++ rows) r.cid ≡ true) records
    → n.objects ≡ drop_all (put_records m.objects records) deletes
    → n.types ≡ m.types ++ rows
    → TypedBy (map (λ r. r.0) rows ++ ds) n
write-TypedBy ds m n records rows deletes (held, typed) new p q =
    subst₂ (λ objects types. HasRows (map (λ r. r.0) rows ++ ds) types × IsTyped objects types)
      (sym p) (sym q)
      (
        All-append (λ c. has_cid (m.types ++ rows) c ≡ true) (map (λ r. r.0) rows) ds
            (All-map (map (λ r. r.0) rows) (λ c h. ground (arith, h, has_cid-append m.types rows c))
              (has_own rows))
            (All-map ds (λ c h. has_cid-weaken m.types rows c h) held),
        IsTyped-drop_all (put_records m.objects records) (m.types ++ rows) deletes (
            IsTyped-put_records m.objects (m.types ++ rows) records new
              (IsTyped-weaken m.objects m.types rows typed)),
      )

module _ {I Γ : Type 0} (sv : Services I Γ) (atomic : IsAtomic sv.persist)
    (race : Session I Γ → Session I Γ) (backend : (s : Session I Γ) → (race s).backend ≡ s.backend)
    (durable : (s : Session I Γ) → (race s).types.durable_cids ≡ s.types.durable_cids) (at fuel : ℕ)
    (s : Session I Γ) where
  -- What P1 leaves with its capture.
  record Begun (c : Capture) (t : Session I Γ) : Type 0 where
    backend_same : t.backend ≡ s.backend
    durable_same : t.types.durable_cids ≡ s.types.durable_cids
    records :
        HasRows s.types.durable_cids s.backend.types
        → All (λ r. has_cid (s.backend.types ++ c.batch.new_types) r.cid ≡ true) c.batch.records

  begun : (c : Capture) (t : Session I Γ) → Taken sv at fuel s c t → Begun c t
  unfolding capture_all build_batch next_tid
  begun c t k =
      let same = Taken-Same sv at fuel s c t k in
      let found = Found-Same sv at fuel s c t k in
      let e = k.result in
      record {
        backend_same = ap (λ (p : Capture × Session I Γ). p.1.backend) e ∙ same.backend;
        durable_same = ap (λ (p : Capture × Session I Γ). p.1.types.durable_cids) e ∙ same.durable;
        records = λ rows.
            subst
              (λ (c : Capture).
                All (λ r. has_cid (s.backend.types ++ c.batch.new_types) r.cid ≡ true)
                  c.batch.records)
              (sym (ap (λ (p : Capture × Session I Γ). p.0) e))
              (has_cid-records_of s.backend.types k.encoded.1 s.types.durable_cids k.coded.alloc.tid
                k.encoded.0 rows
                (subst (λ ds. All (λ e. Known ds k.encoded.1 e.1) k.encoded.0) found.durable
                  (encode-Known sv.encode (pending_of k.found) [] k.found k.encoded k.coded
                    k.encoding).0));
      }

  -- Through any commit, failed ones included, the class ids that the store takes for durable have rows in
  -- the backend, and so has the class id of every record there.
  pub commit-IsTypedStore : IsTypedStore s → IsTypedStore (commit_racing sv race at fuel s).1
  unfolding p2_rollback run_p2 p3_finalize make_durable
  commit-IsTypedStore h = elim (commit-cases sv race at fuel s) [
    | inl k ↦ TypedBy-move _ _ _ _ k.same.durable k.same.backend h
    | inr (inl k) ↦
        let b = begun k.capture k.begun k.taken in
        rw k.result (
          TypedBy-move _ _ _ _ (durable k.begun ∙ b.durable_same)
            (atomic.raised k.capture.batch (race k.begun).backend k.error k.raised
              ∙ backend k.begun
              ∙ b.backend_same)
            h)
    | inr (inr k) ↦
        let b = begun k.capture k.begun k.taken in
        let same = backend k.begun ∙ b.backend_same in
        let batch = k.capture.batch in
        rw k.result (
          write-TypedBy (race k.begun).types.durable_cids (race k.begun).backend
            (sv.persist batch (race k.begun).backend).1 batch.records batch.new_types batch.deletes
            (TypedBy-move _ _ _ _ (durable k.begun ∙ b.durable_same) same h)
            (subst
              (λ (m : Memory).
                All (λ r. has_cid (m.types ++ batch.new_types) r.cid ≡ true) batch.records)
              (sym same) (b.records h.0))
            (atomic.objects batch (race k.begun).backend k.wrote)
            (atomic.types batch (race k.begun).backend k.wrote))
  ]
