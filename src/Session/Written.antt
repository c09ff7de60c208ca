-- ===== src/Session/Written.antt =====
-- The records that an encoded batch writes.
use mathlib.Core.Path.{subst}
use datacrystal.Base.{
  ℕ, Bool, true, false, List, [], ◌∷◌, Option, none, some, eqb, ◌≡◌, refl, sym, Bool-cases,
  Option-cases, inl, inr, nat_eq, if◌then◌else◌, ==_iff,
}
use datacrystal.Base.Dict
use datacrystal.Base.Dict.{Dict}
use datacrystal.Contract.{Bytes, TypeRow}
use datacrystal.Errors.{Result, ok, >>=-eq-ok}
use datacrystal.Storage.{StoredRecord}
use datacrystal.Storage.Apply.{written, or_else}
use datacrystal.Session.Live.{Value, Heap, Session, attributes}
use datacrystal.Session.Columns.{AreColumns, attributes-AreColumns}
use datacrystal.Session.Keys.{Lacks, HasOneEach, get-Lacks}
use datacrystal.Session.Encode.{
  EncodedBatch, cid_for, entity_payload, oid_for_encode, encode_pending,
}
use datacrystal.Session.Encoding.{encode-Round, ok-pair}
use datacrystal.Session.Pending.{records_of}

-- The record that is to be stored of an entity: its id and the commit's, and the coding of its columns, one value for
-- each name of its class.
pub record IsRecordOf (encode : (ℕ → Result ℕ) → List Value → Result Bytes) (h : Heap)
    (tid oid r : ℕ) (rec : StoredRecord) : Type 0 where
  pub own : rec.oid ≡ oid
  pub stamped : rec.tid ≡ tid
  pub values : List Value
  pub columns : AreColumns (h r) (h r).type.field_names values
  pub coded : encode (oid_for_encode h) values ≡ ok rec.payload

entity_payload-IsRecordOf :
    (encode : (ℕ → Result ℕ) → List Value → Result Bytes) (h : Heap) (tid oid r : ℕ)
    (rec : StoredRecord)
    → rec.oid ≡ oid
    → rec.tid ≡ tid
    → entity_payload encode h r ≡ ok rec.payload
    → IsRecordOf encode h tid oid r rec
unfolding entity_payload
entity_payload-IsRecordOf encode h tid oid r rec own stamped coded =
    let (values, shown, coded') = >>=-eq-ok (attributes (h r) (h r).type.field_names) _ coded in
    record {
      own = own;
      stamped = stamped;
      values = values;
      columns = attributes-AreColumns (h r) (h r).type.field_names values shown;
      coded = coded';
    }

-- What is written under an id: nothing, or the record of its entity.
abbrev pub WrittenAs :
    ((ℕ → Result ℕ) → List Value → Result Bytes)
    → Heap
    → ℕ
    → ℕ
    → Option ℕ
    → Option StoredRecord
    → Type 0
WrittenAs encode h tid k none w = w ≡ none
WrittenAs encode h tid k (some r) w =
    (rec : StoredRecord) × (w ≡ some rec) × IsRecordOf encode h tid k r rec

written_ne :
    (new : StoredRecord) (rs : List StoredRecord) (k : ℕ)
    → eqb new.oid k ≡ false
    → written (new ∷ rs) k ≡ written rs k
written_ne new rs k n = elim (Option-cases (written rs k)) [
  | inl e ↦ rw (e, n) refl
  | inr (w, e) ↦ rw e refl
]

written_eq :
    (new : StoredRecord) (rs : List StoredRecord) (k : ℕ)
    → eqb new.oid k ≡ true
    → written rs k ≡ none
    → written (new ∷ rs) k ≡ some new
written_eq new rs k y e = rw (e, y) refl

gone :
    (pending : Dict ℕ ℕ) (oid k : ℕ)
    → eqb oid k ≡ true
    → Lacks oid pending
    → Dict.get pending k ≡ none
gone pending oid k y none_else = rw (sym ((==_iff oid k).0 y)) (get-Lacks pending oid none_else)

-- What the backend holds under an id after a commit, given what it held: nothing if the id is deleted, else
-- the record of the entity that was buffered under it, else what was there.
abbrev pub StoredAs :
    ((ℕ → Result ℕ) → List Value → Result Bytes)
    → Heap
    → ℕ
    → ℕ
    → Option StoredRecord
    → Bool
    → Option ℕ
    → Option StoredRecord
    → Type 0
StoredAs encode h tid k old true p now = now ≡ none
StoredAs encode h tid k old false none now = now ≡ old
StoredAs encode h tid k old false (some r) now =
    (rec : StoredRecord) × (now ≡ some rec) × IsRecordOf encode h tid k r rec

pub StoredAs-of-WrittenAs :
    (encode : (ℕ → Result ℕ) → List Value → Result Bytes) (h : Heap) (tid k : ℕ)
    (old : Option StoredRecord) (gone : Bool) (p : Option ℕ) (w : Option StoredRecord)
    → WrittenAs encode h tid k (if gone then none else p) w
    → StoredAs encode h tid k old gone p (if gone then none else or_else w old)
StoredAs-of-WrittenAs encode h tid k old true p w x = refl
StoredAs-of-WrittenAs encode h tid k old false none w x = rw x refl
StoredAs-of-WrittenAs encode h tid k old false (some r) w (rec, e, is) = (rec, rw e refl, is)

module _ {I Γ : Type 0} (encode : (ℕ → Result ℕ) → List Value → Result Bytes) (tid : ℕ) where
  pub encode-written :
      (pending : Dict ℕ ℕ) (rows : List TypeRow) (s : Session I Γ) (out : EncodedBatch)
      (t : Session I Γ) (k : ℕ)
      → HasOneEach pending
      → encode_pending encode pending rows s ≡ (ok out, t)
      → WrittenAs encode s.heap tid k (Dict.get pending k) (written (records_of tid out.0) k)
  unfolding encode_pending Dict.get records_of
  encode-written [] rows s out t k one h = rw (sym (ok-pair _ out _ t h).0) refl
  encode-written ((oid, r) ∷ pending) rows s out t k one h =
      let round = encode-Round encode oid r pending rows s out t h in
      let c = cid_for (s.heap r).type s.types s.alloc rows in
      let rest = encode-written pending c.3 _ round.rest t k one.1 round.going in
      let rs = records_of tid round.rest.0 in
      let new : StoredRecord = record {
        oid = oid;
        cid = c.0;
        tid = tid;
        payload = round.payload;
      } in
      rw round.made (elim (Bool-cases (eqb oid k)) [
        | inr n ↦ rw n (
            subst (WrittenAs encode s.heap tid k (Dict.get pending k)) (sym (written_ne new rs k n))
              rest)
        | inl y ↦ rw y (
          new,
          written_eq new rs k y (
              subst (λ o. WrittenAs encode s.heap tid k o (written rs k))
                (gone pending oid k y one.0) rest),
          entity_payload-IsRecordOf encode s.heap tid k r new ((==_iff oid k).0 y) refl round.coded,
        )
      ])
