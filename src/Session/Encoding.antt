-- ===== src/Session/Encoding.antt =====
-- What a successful `_encode_pending` has made.
use mathlib.Core.Path.{subst}
use datacrystal.Base.{
  ℕ, true, List, [], ◌∷◌, contains, ◌||◌, ◌≡◌, sym, ap, arith, ◌∙◌, All, inl, inr, nat_eq,
  Option-cases, Bool-cases,
}
use datacrystal.Contract.{Bytes, TypeRow}
use datacrystal.Errors.{Result, ok, Result-cases, ok-inj}
use datacrystal.Exec
use datacrystal.Exec.{Exec, ◌>>=◌}
use datacrystal.Ids.{IdAllocator, next_cid}
use datacrystal.Pipeline.Replica.{has_cid, has_cid-append}
use datacrystal.Session.Live.{Value, TypeInfo, TypeTable, Session}
use datacrystal.Session.Encode.{
  EncodedBatch, current_cid, add_lineage, add_row, cid_for, entity_payload, encode_pending,
}
use datacrystal.Session.Frame.{cid_for-Same}
use datacrystal.Session.Taken.{bind-cases}

-- A class id that is durable, or goes along in the rows.
abbrev pub Known : List ℕ → List TypeRow → ℕ → Type 0
Known durable rows cid = (contains durable cid || has_cid rows cid) ≡ true

Known-grows :
    (ds es : List ℕ) (rows more : List TypeRow) (c : ℕ)
    → ds ≡ es
    → ((k : ℕ) → has_cid rows k ≡ true → has_cid more k ≡ true)
    → Known ds rows c
    → Known es more c
Known-grows ds es rows more c same grows h = rw (sym same) (ground (arith, grows c, h))

add_row-Known :
    (t : TypeTable) (cid : ℕ) (ti : TypeInfo) (rows : List TypeRow)
    → Known t.durable_cids (add_row t cid ti rows) cid
unfolding add_row
add_row-Known t cid ti rows = elim (Bool-cases (contains t.durable_cids cid || has_cid rows cid)) [
  | inl y ↦ rw y y
  | inr n ↦ rw n (ground (arith, has_cid-append rows ((cid, ti.typename, ti.field_names) ∷ []) cid))
]

add_row-grows :
    (t : TypeTable) (cid : ℕ) (ti : TypeInfo) (rows : List TypeRow) (c : ℕ)
    → has_cid rows c ≡ true
    → has_cid (add_row t cid ti rows) c ≡ true
unfolding add_row
add_row-grows t cid ti rows c h =
    elim (Bool-cases (contains t.durable_cids cid || has_cid rows cid)) [
      | inl y ↦ rw y h
      | inr n ↦
          rw n (ground (arith, h, has_cid-append rows ((cid, ti.typename, ti.field_names) ∷ []) c))
    ]

-- `_cid_for` gives a class id that is durable or has its row in the batch, and takes no row away.
cid_for-Known :
    (ti : TypeInfo) (t : TypeTable) (alloc : IdAllocator) (rows : List TypeRow)
    → let c = cid_for ti t alloc rows in
      Known c.1.durable_cids c.3 c.0 × ((k : ℕ) → has_cid rows k ≡ true → has_cid c.3 k ≡ true)
unfolding cid_for add_lineage
cid_for-Known ti t alloc rows = elim (Option-cases (current_cid t ti)) [
  | inl n ↦
      rw (n, cid_for)
        (
          add_row-Known (add_lineage (next_cid alloc).0 ti t) (next_cid alloc).0 ti rows,
          add_row-grows (add_lineage (next_cid alloc).0 ti t) (next_cid alloc).0 ti rows,
        )
  | inr (cid, y) ↦ rw (y, cid_for) (add_row-Known t cid ti rows, add_row-grows t cid ti rows)
]

-- An encoded record before the others.
abbrev pub with_record : ℕ → ℕ → Bytes → EncodedBatch → EncodedBatch
with_record oid cid payload (records, rows) = ((oid, cid, payload) ∷ records, rows)

pub ok-pair {κ} :
    {A B : Type κ} (a a' : A) (b b' : B)
    → ◌≡◌ {A = Result A × B} (ok a, b) (ok a', b')
    → (a ≡ a') × (b ≡ b')
ok-pair a a' b b' h = (ok-inj (ap (λ p. p.0) h), ap (λ p. p.1) h)

module _ {I Γ : Type 0} (encode : (ℕ → Result ℕ) → List Value → Result Bytes) where
  -- One round of a loop that went through.
  pub record Round (oid r : ℕ) (pending : List (ℕ × ℕ)) (rows : List TypeRow) (s : Session I Γ)
      (out : EncodedBatch) (t : Session I Γ) : Type 0 where
    pub payload : Bytes
    pub rest : EncodedBatch
    pub coded : entity_payload encode s.heap r ≡ ok payload
    pub going :
        let c = cid_for (s.heap r).type s.types s.alloc rows in
        encode_pending encode pending c.3 (record s { types = c.1; alloc = c.2 }) ≡ (ok rest, t)
    pub made : out ≡ with_record oid (cid_for (s.heap r).type s.types s.alloc rows).0 payload rest

  pub encode-Round :
      (oid r : ℕ) (pending : List (ℕ × ℕ)) (rows : List TypeRow) (s : Session I Γ)
      (out : EncodedBatch) (t : Session I Γ)
      → encode_pending encode ((oid, r) ∷ pending) rows s ≡ (ok out, t)
      → Round oid r pending rows s out t
  unfolding encode_pending
  encode-Round oid r pending rows s out t h =
      let c = cid_for (s.heap r).type s.types s.alloc rows in
      let s' : Session I Γ = record s { types = c.1; alloc = c.2 } in
      elim (Result-cases (entity_payload encode s.heap r)) [
        | inl (e, q) ↦ absurd (cc (rw q at h))
        | inr (payload, q) ↦
            elim (bind-cases (encode_pending encode pending c.3)
              (λ (e : EncodedBatch). Exec.pure (with_record oid c.0 payload e)) s') [
                | inl (e, run) ↦ absurd (cc (sym run ∙ (rw q at h)))
                | inr (x, going, run) ↦
                    let (made, left) = ok-pair _ out _ t (sym run ∙ (rw q at h)) in
                    record {
                      payload = payload;
                      rest = x;
                      coded = q;
                      going = going ∙ ap (λ u. (ok x, u)) left;
                      made = sym made;
                    }
              ]
      ]

  -- Every record of the batch has a class id that is durable or has its row there.
  pub encode-Known :
      (pending : List (ℕ × ℕ)) (rows : List TypeRow) (s : Session I Γ) (out : EncodedBatch)
      (t : Session I Γ)
      → encode_pending encode pending rows s ≡ (ok out, t)
      → All (λ e. Known s.types.durable_cids out.1 e.1) out.0
        × ((k : ℕ) → has_cid rows k ≡ true → has_cid out.1 k ≡ true)
  unfolding encode_pending
  encode-Known [] rows s out t h = let (e, _) = ok-pair _ out _ t h in rw (sym e) (tt, λ k p. p)
  encode-Known ((oid, r) ∷ pending) rows s out t h =
      let c = cid_for (s.heap r).type s.types s.alloc rows in
      let round = encode-Round oid r pending rows s out t h in
      let (known, grows) = encode-Known pending c.3 _ round.rest t round.going in
      let (here, kept) = cid_for-Known (s.heap r).type s.types s.alloc rows in
      let durable = (cid_for-Same (s.heap r).type s.types s.alloc rows).2 in
      rw round.made (
        (
          Known-grows c.1.durable_cids s.types.durable_cids c.3 round.rest.1 c.0 durable grows here,
          subst (λ ds. All (λ e. Known ds round.rest.1 e.1) round.rest.0) durable known,
        ),
        λ k p. grows k (kept k p),
      )

  -- Encoding writes no entity and no buffer.
  pub encode-heap :
      (pending : List (ℕ × ℕ)) (rows : List TypeRow) (s : Session I Γ) (out : EncodedBatch)
      (t : Session I Γ)
      → encode_pending encode pending rows s ≡ (ok out, t)
      → t.heap ≡ s.heap
  unfolding encode_pending
  encode-heap [] rows s out t h = ap (λ s. s.heap) (sym (ok-pair _ out _ t h).1)
  encode-heap ((oid, r) ∷ pending) rows s out t h =
      let round = encode-Round oid r pending rows s out t h in
      encode-heap pending (cid_for (s.heap r).type s.types s.alloc rows).3 _ round.rest t
        round.going
