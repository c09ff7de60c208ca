-- ===== src/Storage/Apply.antt =====
-- What a batch does to the in-memory backend.
use datacrystal.Base.{
  ℕ, String, Bool, true, false, eqb_iff, list_eq, length, string_eq, eqb, List, [], ◌∷◌, ◌++◌,
  Option, none, some, ◌==◌, contains, ◌≡◌, refl, arith, inl, inr, ◌⊎◌, ◌∙◌, ap, sym, Option-cases,
  if◌then◌else◌, nat_eq, ==_iff,
}
use mathlib.Core.Path.{subst}
use datacrystal.Base.Dict
use datacrystal.Base.Dict.{Dict, get-put, get-remove}
use datacrystal.Contract.{Bytes}
use datacrystal.Errors.{
  Error, Result, require, value_error, ok, err, Result-cases, ok-inj, >>=-eq-ok,
}
use datacrystal.Storage.Defs.{
  StoredRecord, StoredBlob, StreamedBlob, CommitBatch, Memory, load_many, put_records, put_blobs,
  drop_all, join, materialize_one, materialize, write_batch, apply,
}

pub get-drop_all :
    (d : Dict ℕ StoredRecord) (oids : List ℕ) (k : ℕ)
    → Dict.get (drop_all d oids) k ≡ (if contains oids k then none else Dict.get d k)
unfolding drop_all
get-drop_all d [] k = refl
get-drop_all d (oid ∷ oids) k =
    ground (arith, get-drop_all (Dict.remove d oid) oids k, get-remove d oid k)

-- The last record of a batch with an id.
abbrev pub written : List StoredRecord → ℕ → Option StoredRecord
written [] k = none
written (r ∷ rs) k = elim (written rs k) [
  | none ↦ if r.oid == k then some r else none
  | some w ↦ some w
]

abbrev pub or_else {ℓ} : {A : Type ℓ} → Option A → Option A → Option A
or_else none b = b
or_else (some a) b = some a

pub get-put_records :
    (d : Dict ℕ StoredRecord) (rs : List StoredRecord) (k : ℕ)
    → Dict.get (put_records d rs) k ≡ or_else (written rs k) (Dict.get d k)
unfolding put_records
get-put_records d [] k = refl
get-put_records d (r ∷ rs) k =
    ground (arith, get-put_records (Dict.put d r.oid r) rs k, get-put d r.oid k r)

pub get-load_many :
    (d : Dict ℕ StoredRecord) (oids : List ℕ) (k : ℕ)
    → Dict.get (load_many d oids) k ≡ (if contains oids k then Dict.get d k else none)
unfolding load_many
get-load_many d [] k = unfold Dict.get in refl
get-load_many d (oid ∷ oids) k = elim (Option-cases (Dict.get d oid)) [
  | inl n ↦ rw (n, load_many) (ground (arith, n, get-load_many d oids k, ==_iff oid k))
  | inr (r, h) ↦
      rw (h, load_many)
        (ground
          (arith, h, get-put (load_many d oids) oid k r, get-load_many d oids k, ==_iff oid k))
]

-- The last blob of a batch with an id.
abbrev pub written_blob : List StoredBlob → ℕ → Option StoredBlob
written_blob [] k = none
written_blob (b ∷ bs) k = elim (written_blob bs k) [
  | none ↦ if b.oid == k then some b else none
  | some w ↦ some w
]

get-put_blobs :
    (d : Dict ℕ StoredBlob) (bs : List StoredBlob) (k : ℕ)
    → Dict.get (put_blobs d bs) k ≡ or_else (written_blob bs k) (Dict.get d k)
unfolding put_blobs
get-put_blobs d [] k = refl
get-put_blobs d (b ∷ bs) k =
    ground (arith, get-put_blobs (Dict.put d b.oid b) bs k, get-put d b.oid k b)

-- The last value of a key in what a dict is updated with.
abbrev pub written_meta : List (String × String) → String → Option String
written_meta [] key = none
written_meta ((j, v) ∷ ps) key = elim (written_meta ps key) [
  | none ↦ if j == key then some v else none
  | some w ↦ some w
]

get-update_meta :
    (d : Dict String String) (ps : List (String × String)) (key : String)
    → Dict.get (Dict.update d ps) key ≡ or_else (written_meta ps key) (Dict.get d key)
unfolding Dict.update
get-update_meta d [] key = refl
get-update_meta d ((j, v) ∷ ps) key =
    ground (arith, get-update_meta (Dict.put d j v) ps key, get-put d j key v)

-- A stream that is read: its chunks are the content, which has the size and the digest that it names.
pub record IsRead (sha256 : Bytes → Bytes) (sb : StreamedBlob) (b : StoredBlob) : Type 0 where
  pub chunks : List Bytes
  pub opened : sb.chunks ≡ ok chunks
  pub content : b.content ≡ join chunks
  pub size : length b.content ≡ b.size
  pub digest : sha256 b.content ≡ b.hash
  pub named : (b.oid ≡ sb.oid) × (b.tid ≡ sb.tid) × (b.size ≡ sb.size) × (b.hash ≡ sb.hash)

abbrev pub AreRead : (Bytes → Bytes) → List StreamedBlob → List StoredBlob → Type 0
AreRead sha256 [] [] = Unit {0}
AreRead sha256 [] (b ∷ bs) = ⊥
AreRead sha256 (sb ∷ sbs) [] = ⊥
AreRead sha256 (sb ∷ sbs) (b ∷ bs) = IsRead sha256 sb b × AreRead sha256 sbs bs

-- The backend after a batch that went through, with the blobs that its streams were read to.
pub record Applied (sha256 : Bytes → Bytes) (batch : CommitBatch) (m m' : Memory) : Type 0 where
  pub streamed : List StoredBlob
  pub read : AreRead sha256 batch.blob_streams streamed
  pub types : m'.types ≡ m.types ++ batch.new_types
  pub objects :
      (k : ℕ)
      → Dict.get m'.objects k ≡ (
          if contains batch.deletes k
          then none
          else or_else (written batch.records k) (Dict.get m.objects k))
  pub blobs :
      (k : ℕ)
      → Dict.get m'.blobs k
        ≡ or_else
            (written_blob streamed k)
            (or_else (written_blob batch.blobs k) (Dict.get m.blobs k))
  pub meta :
      (key : String)
      → Dict.get m'.meta key ≡ or_else (written_meta batch.meta key) (Dict.get m.meta key)

require-ok : (b : Bool) (e : Error) → require b e ≡ ok tt → b ≡ true
require-ok true e h = refl
require-ok false e h = absurd (cc h)

module _ (sha256 : Bytes → Bytes) where
  materialize_one-IsRead :
      (sb : StreamedBlob) (b : StoredBlob) → materialize_one sha256 sb ≡ ok b → IsRead sha256 sb b
  unfolding materialize_one
  materialize_one-IsRead sb b h =
      let (cs, opened, h1) = >>=-eq-ok sb.chunks _ h in
      let (_, size, h2) = >>=-eq-ok (require (eqb (length (join cs)) sb.size) value_error) _ h1 in
      let (_, digest, h3) = >>=-eq-ok (require (sha256 (join cs) == sb.hash) value_error) _ h2 in
      let e = ok-inj h3 in
      record {
        chunks = cs;
        opened = opened;
        content = ap (λ (b : StoredBlob). b.content) (sym e);
        size = rw (sym e) ((eqb_iff _ _).0 (require-ok _ _ size));
        digest = rw (sym e) ((==_iff (sha256 (join cs)) sb.hash).0 (require-ok _ _ digest));
        named = rw (sym e) (refl, refl, refl, refl);
      }

  materialize-AreRead :
      (sbs : List StreamedBlob) (bs : List StoredBlob)
      → materialize sha256 sbs ≡ ok bs
      → AreRead sha256 sbs bs
  unfolding materialize
  materialize-AreRead [] [] h = tt
  materialize-AreRead [] (b ∷ bs) h = absurd (cc h)
  materialize-AreRead (sb ∷ sbs) bs h =
      let (b, one, h') = >>=-eq-ok (materialize_one sha256 sb) _ h in
      let (bs', rest, h'') = >>=-eq-ok (materialize sha256 sbs) _ h' in
      subst (AreRead sha256 (sb ∷ sbs)) (ok-inj h'')
        (materialize_one-IsRead sb b one, materialize-AreRead sbs bs' rest)

  -- All or nothing: a batch that raises has changed nothing. After one that does not, every stream was read to
  -- a blob of the size and the digest that it names; an object id has nothing if the batch deletes it, else what
  -- the batch writes last, else what was there; a blob id has the streamed blob, else the batch's, else what was
  -- there; a metadata key has the batch's value, else what was there; and the type rows are appended.
  pub apply_atomic :
      (batch : CommitBatch) (m : Memory)
      → ((e : Error) × ((apply sha256 batch m) ≡ (err e, m)))
        ⊎ ((apply sha256 batch m).0 ≡ ok tt) × Applied sha256 batch m (apply sha256 batch m).1
  unfolding apply write_batch
  apply_atomic batch m = elim (Result-cases (materialize sha256 batch.blob_streams)) [
    | inl (e, h) ↦ inl (e, rw h)
    | inr (bs, h) ↦ inr (
        rw h (
          refl,
          record {
            streamed = bs;
            read = materialize-AreRead batch.blob_streams bs h;
            types = refl;
            objects = λ k.
                get-drop_all (put_records m.objects batch.records) batch.deletes k
                ∙ ap (λ o. if contains batch.deletes k then none else o)
                    (get-put_records m.objects batch.records k);
            blobs = λ k.
                get-put_blobs (put_blobs m.blobs batch.blobs) bs k
                ∙ ap (λ o. or_else (written_blob bs k) o) (get-put_blobs m.blobs batch.blobs k);
            meta = λ key. get-update_meta m.meta batch.meta key;
          },
        ))
  ]

  -- The objects and the types after a batch that went through.
  pub apply-lem :
      (batch : CommitBatch) (m m' : Memory)
      → apply sha256 batch m ≡ (ok tt, m')
      → (m'.objects ≡ drop_all (put_records m.objects batch.records) batch.deletes)
        × (m'.types ≡ m.types ++ batch.new_types)
  unfolding apply write_batch
  apply-lem batch m m' h = elim (Result-cases (materialize sha256 batch.blob_streams)) [
    | inl (e, q) ↦ absurd (cc (rw q at h))
    | inr (bs, q) ↦
        let e = ap (λ (p : Result (Unit {0}) × Memory). p.1) (rw q at h) in
        (sym (ap (λ (m : Memory). m.objects) e), sym (ap (λ (m : Memory). m.types) e))
  ]
