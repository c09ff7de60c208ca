-- ===== src/Session/Taken.antt =====
-- The outcomes of P1: it raises or finds nothing and has captured nothing, or it has captured.
use mathlib.Core.Path.{subst}
use datacrystal.Base.{
  nat_eq, ℕ, Bool, true, false, not, List, [], ◌&&◌, Option, none, some, ◌≡◌, refl, sym, ap, ◌∙◌,
  ◌⊎◌, Bool-cases, inl, inr,
}
use datacrystal.Base.Dict
use datacrystal.Base.Dict.{Dict}
use datacrystal.Contract.{Bytes}
use datacrystal.Errors.{Error, Result, ok, err, Result-cases, lease_lost}
use datacrystal.Exec
use datacrystal.Exec.{Exec, ◌>>=◌, ◌>>◌}
use datacrystal.Gate.{check_write_gate}
use datacrystal.Storage.{StoredRecord}
use datacrystal.Session.Live.{Session}
use datacrystal.Session.Reach.{Entry}
use datacrystal.Session.Graph.{discover_new_graphs}
use datacrystal.Session.Encode.{EncodedBatch, encode_pending}
use datacrystal.Session.Pending.{
  entries_of, protected_deletes, staged_of, stored_of, Services, Capture, is_empty, pending_of,
  deleted_oids, priors_of,
}
use datacrystal.Session.Capture.{
  validate_before_tid, capture_all, captured, capture_pending, capture_discovered, p1_capture,
}
use datacrystal.Session.Walk.{keeps_at}
use datacrystal.Session.Frame.{Same, Same-refl, Same-trans, discover-Same, encode-Same}

-- A call that is followed by others: it has raised, or they run on the object that it has left.
pub bind-cases {κ} :
    {S X Y : Type κ} (call : Exec S X) (rest : X → Exec S Y) (s : S)
    → ((e : Error) × ((call >>= rest) s ≡ (err e, (call s).1)))
      ⊎ ((x : X) × (call s ≡ (ok x, (call s).1)) × ((call >>= rest) s ≡ rest x (call s).1))
bind-cases call rest s = elim (Result-cases (call s).0) [
  | inl (e, q) ↦ inl (e, rw q refl)
  | inr (x, q) ↦ inr (x, rw q refl, rw q refl)
]

module _ {I Γ : Type 0} (sv : Services I Γ) (at : ℕ) where
  abbrev pub Read : Type 0
  Read = Dict ℕ Bytes × List (ℕ × ℕ × Bytes)

  validate-lem :
      (pending : List (ℕ × ℕ)) (s : Session I Γ) → (validate_before_tid sv at pending s).1 ≡ s
  unfolding validate_before_tid
  validate-lem pending s =
      keeps_at (λ a b. b ≡ a)
        (Exec.lift (sv.check s.index (entries_of s.heap pending) (deleted_oids s))) _
        (λ a b c p q. q ∙ p)
        (λ u t.
          keeps_at (λ a b. b ≡ a)
            (Exec.lift (
              check_write_gate s.principal (stored_of sv.decode s) (staged_of s pending)
                (protected_deletes s.buffered_deleted)))
            _ (λ a b c p q. q ∙ p) (λ decoded t. refl) t refl)
        s refl

  -- A capture: `found` is the state after discovery, `coded` that after encoding.
  pub record Taken (fuel : ℕ) (s : Session I Γ) (c : Capture) (after : Session I Γ) : Type 0 where
    pub left : List Entry
    pub found : Session I Γ
    pub discovered : discover_new_graphs fuel s ≡ (ok left, found)
    pub gate : Dict ℕ StoredRecord
    pub validated : (validate_before_tid sv at (pending_of found) found).0 ≡ ok gate
    pub encoded : EncodedBatch
    pub coded : Session I Γ
    pub encoding : encode_pending sv.encode (pending_of found) [] found ≡ (ok encoded, coded)
    pub read : Read
    pub reading : priors_of found (Dict.keys (pending_of found)) (deleted_oids found) gate ≡ ok read
    pub result : (c, after) ≡ capture_all sv at (pending_of found) encoded read coded

  -- Nothing is captured: an error, or nothing buffered.
  pub record Refused (s : Session I Γ) (run : Result (Option Capture) × Session I Γ) : Type 0 where
    pub nothing : (run.0 ≡ ok none) ⊎ (e : Error) × (run.0 ≡ err e)
    pub same : Same s run.1

  abbrev pub Outcome : ℕ → Session I Γ → Result (Option Capture) × Session I Γ → Type 0
  Outcome fuel s run = Refused s run ⊎ (c : Capture) × (run.0 ≡ ok (some c)) × Taken fuel s c run.1

  -- The steps of P1 after each of its results.
  abbrev after_encode :
      Session I Γ → Dict ℕ StoredRecord → EncodedBatch → Exec (Session I Γ) (Option Capture)
  after_encode d gate encoded =
      Exec.lift (priors_of d (Dict.keys (pending_of d)) (deleted_oids d) gate)
      >>= captured sv at (pending_of d) encoded

  abbrev after_gate : Session I Γ → Dict ℕ StoredRecord → Exec (Session I Γ) (Option Capture)
  after_gate d gate = encode_pending sv.encode (pending_of d) [] >>= after_encode d gate

  refused :
      {s : Session I Γ} {run : Result (Option Capture) × Session I Γ} (e : Error) (t : Session I Γ)
      → run ≡ (err e, t)
      → Same s t
      → Refused s run
  refused e t q same = record { nothing = inr (e, ap (λ p. p.0) q); same = rw q same }

  module _ (fuel : ℕ) (s : Session I Γ) (left : List Entry) (d : Session I Γ)
      (discovered : discover_new_graphs fuel s ≡ (ok left, d)) where
    d-Same : Same s d
    d-Same =
        subst (λ (p : Result (List Entry) × Session I Γ). Same s p.1) discovered
          (discover-Same fuel s)

    module _ (gate : Dict ℕ StoredRecord)
        (validated : (validate_before_tid sv at (pending_of d) d).0 ≡ ok gate) where
      encoded-cases :
          (encoded : EncodedBatch) (t : Session I Γ)
          → encode_pending sv.encode (pending_of d) [] d ≡ (ok encoded, t)
          → Same d t
          → Outcome fuel s (after_encode d gate encoded t)
      unfolding captured
      encoded-cases encoded t encoding same =
          elim (Result-cases (priors_of d (Dict.keys (pending_of d)) (deleted_oids d) gate)) [
            | inl (e, q) ↦ inl (rw q (refused e t refl (Same-trans s d t d-Same same)))
            | inr (read, q) ↦ rw q (
                inr (
                  (capture_all sv at (pending_of d) encoded read t).0,
                  refl,
                  record {
                    left = left;
                    found = d;
                    discovered = discovered;
                    gate = gate;
                    validated = validated;
                    encoded = encoded;
                    coded = t;
                    encoding = encoding;
                    read = read;
                    reading = q;
                    result = refl;
                  },
                ))
          ]

      gate-cases : Outcome fuel s (after_gate d gate d)
      gate-cases =
          let same = encode-Same sv.encode (pending_of d) [] d in
          elim (bind-cases (encode_pending sv.encode (pending_of d) []) (after_encode d gate) d) [
            | inl (e, q) ↦ inl (refused e _ q (Same-trans s d _ d-Same same))
            | inr (encoded, q, run) ↦
                subst (Outcome fuel s) (sym run) (encoded-cases encoded _ q same)
          ]

    pending-cases : Outcome fuel s (capture_pending sv at (pending_of d) d)
    unfolding capture_pending
    pending-cases =
        let lem = validate-lem (pending_of d) d in
        elim (bind-cases (validate_before_tid sv at (pending_of d)) (after_gate d) d) [
          | inl (e, q) ↦ inl (refused e _ q (rw lem d-Same))
          | inr (gate, q, run) ↦
              subst (Outcome fuel s) (sym (run ∙ ap (after_gate d gate) lem))
                (gate-cases gate (ap (λ (p : Result (Dict ℕ StoredRecord) × Session I Γ). p.0) q))
        ]

    discovered-cases : Outcome fuel s (capture_discovered sv at d)
    unfolding capture_discovered
    discovered-cases = elim (Bool-cases (is_empty (pending_of d) && is_empty d.buffered_deleted)) [
      | inl y ↦ inl (rw y (record { nothing = inl refl; same = d-Same }))
      | inr n ↦ rw n pending-cases
    ]

  lease-cases :
      (lost : Bool) (fuel : ℕ) (s : Session I Γ)
      → Outcome fuel s (
          (do
            Exec.require (not lost) lease_lost
            left ← discover_new_graphs fuel
            capture_discovered sv at)
            s)
  lease-cases true fuel s = inl (refused lease_lost s refl (Same-refl s))
  lease-cases false fuel s =
      elim (bind-cases (discover_new_graphs fuel) (λ left. capture_discovered sv at) s) [
        | inl (e, q) ↦ inl (refused e _ q (discover-Same fuel s))
        | inr (left, q, run) ↦ subst (Outcome fuel s) (sym run) (discovered-cases fuel s left _ q)
      ]

  pub p1_capture-cases : (fuel : ℕ) (s : Session I Γ) → Outcome fuel s (p1_capture sv at fuel s)
  unfolding p1_capture
  p1_capture-cases fuel s = lease-cases s.lost fuel s

  pub Found-Same :
      (fuel : ℕ) (s : Session I Γ) (c : Capture) (t : Session I Γ) (k : Taken fuel s c t)
      → Same s k.found
  Found-Same fuel s c t k =
      subst (λ (p : Result (List Entry) × Session I Γ). Same s p.1) k.discovered
        (discover-Same fuel s)

  pub Taken-Same :
      (fuel : ℕ) (s : Session I Γ) (c : Capture) (t : Session I Γ) (k : Taken fuel s c t)
      → Same s k.coded
  Taken-Same fuel s c t k = Same-trans s k.found k.coded (Found-Same fuel s c t k) (
      subst (λ (p : Result EncodedBatch × Session I Γ). Same k.found p.1) k.encoding
        (encode-Same sv.encode (pending_of k.found) [] k.found))
