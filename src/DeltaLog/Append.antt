-- ===== src/DeltaLog/Append.antt =====
-- The append of a flush, to the last segment or to a new one, and the TIDs of what it writes.
use datacrystal.Base.{
  ℕ, ◌+◌, ◌≤◌, ◌<◌, ◌≡◌, refl, sym, ap, ◌∙◌, List, [], ◌∷◌, ◌++◌, none, length, length-append, All,
  All-map, All-append, arith, nat_eq, ==_refl,
}
use mathlib.Core.List.{append-nil, append_assoc}
use datacrystal.Base.Dict
use datacrystal.Base.Dict.{Dict, get-put}
use datacrystal.Contract.{Bytes}
use datacrystal.DeltaLog.Defs.{Segment, append_file, grow, last_tid_of}
use datacrystal.DeltaLog.Frame.{frame, frame_all}
use datacrystal.DeltaLog.Invariant.{Entries, concat, Holds, Zip, Increasing, Holds-get}
use datacrystal.DeltaLog.Crash.{get-append_file, append_file-new}
use datacrystal.Errors.{ok, >>=-eq-ok, ok-inj}

frame_all-append :
    (es fs : Entries) (a b : Bytes)
    → frame_all es ≡ ok a
    → frame_all fs ≡ ok b
    → frame_all (es ++ fs) ≡ ok (a ++ b)
unfolding frame_all
frame_all-append [] fs a b h g = let e : a ≡ [] = sym (ok-inj h) in rw e g
frame_all-append ((tid, raw) ∷ es) fs a b h g =
    let (f, hf, h') = >>=-eq-ok (frame raw) _ h in
    let (rest, hr, e) = >>=-eq-ok (frame_all es) _ h' in
    let ea : a ≡ f ++ rest = sym (ok-inj e) in
    rw (hf, frame_all-append es fs rest b hr g, ea) (ap ok (sym (append_assoc f rest b)))

-- The entries of the segments after a flush to the last one.
abbrev pub extend : List Entries → Entries → List Entries
extend [] es = []
extend (g ∷ []) es = (g ++ es) ∷ []
extend (g ∷ h ∷ gs) es = g ∷ extend (h ∷ gs) es

All-unappend : (P : ℕ × Bytes → Type 0) (es fs : Entries) → All P (es ++ fs) → All P es × All P fs
All-unappend P [] fs h = (tt, h)
All-unappend P (e ∷ es) fs h = let (a, b) = All-unappend P es fs h.1 in ((h.0, a), b)

pub All-snoc :
    (P : Segment → Type 0) (ss : List Segment) (n : Segment) → All P ss → P n → All P (ss ++ n ∷ [])
All-snoc P [] n h p = (p, tt)
All-snoc P (s ∷ ss) n h p = (h.0, All-snoc P ss n h.1 p)

-- A flush touches the number of no segment.
pub All-grow :
    (P : ℕ → Type 0) (first last size : ℕ) (ss : List Segment)
    → All (λ s. P s.number) ss
    → All (λ s. P s.number) (grow first last size ss)
unfolding grow
All-grow P first last size [] h = tt
All-grow P first last size (s ∷ []) h = h
All-grow P first last size (s ∷ t ∷ ss) h = (h.0, All-grow P first last size (t ∷ ss) h.1)

pub grow-Increasing :
    (first last size : ℕ) (ss : List Segment) → Increasing ss → Increasing (grow first last size ss)
unfolding grow
grow-Increasing first last size [] h = tt
grow-Increasing first last size (s ∷ []) h = h
grow-Increasing first last size (s ∷ t ∷ ss) h = (
  All-grow (λ n. s.number < n) first last size (t ∷ ss) h.0,
  grow-Increasing first last size (t ∷ ss) h.1,
)

module _ (first last : ℕ) (buffer : Entries) (blob : Bytes) (framed : frame_all buffer ≡ ok blob)
    (new : All (λ e. e.0 ≤ last) buffer) where
  pub grow-Holds :
      (ss : List Segment) (gs : List Entries) (files : Dict ℕ Bytes)
      → Increasing ss
      → All (λ e. e.0 ≤ last) (concat gs)
      → Zip (Holds files) ss gs
      → Zip
          (Holds (append_file ss blob files))
          (grow first last (length blob) ss)
          (extend gs buffer)
  unfolding append_file grow
  grow-Holds [] [] files i o z = tt
  grow-Holds (s ∷ []) (g ∷ []) files i o z = (
    record {
      file = z.0.file ++ blob;
      found = get-put files s.number s.number _ ∙ rw (==_refl s.number, z.0.found) refl;
      framed = frame_all-append g buffer z.0.file blob z.0.framed framed;
      size = omega (arith, z.0.size, length-append z.0.file blob);
      below = All-append (λ e. e.0 ≤ last) g buffer (All-unappend (λ e. e.0 ≤ last) g [] o).0 new;
    },
    tt,
  )
  grow-Holds (s ∷ t ∷ ss) (g ∷ h ∷ gs) files i o z = (
    Holds-get files (append_file (t ∷ ss) blob files) s g
        (get-append_file (t ∷ ss) blob files s.number
          (All-map (t ∷ ss) (λ u l. omega (arith, l)) i.0))
        z.0,
    grow-Holds (t ∷ ss) (h ∷ gs) files i.1 (All-unappend (λ e. e.0 ≤ last) g (concat (h ∷ gs)) o).1
        z.1,
  )
  grow-Holds [] (g ∷ gs) files i o z = absurd z
  grow-Holds (s ∷ ss) [] files i o z = absurd z
  grow-Holds (s ∷ []) (g ∷ h ∷ gs) files i o z = absurd z.1
  grow-Holds (s ∷ t ∷ ss) (g ∷ []) files i o z = absurd z.1

  pub new-Holds :
      (ss : List Segment) (gs : List Entries) (files : Dict ℕ Bytes) (n : Segment)
      → All (λ s. s.number < n.number) ss
      → Dict.get files n.number ≡ none
      → n.nbytes ≡ 0
      → Zip (Holds files) ss gs
      → Zip
          (Holds (append_file (ss ++ n ∷ []) blob files))
          (grow first last (length blob) (ss ++ n ∷ []))
          (gs ++ buffer ∷ [])
  unfolding append_file grow
  new-Holds [] [] files n u c e z = (
    record {
      file = blob;
      found = get-put files n.number n.number _ ∙ rw (==_refl n.number, c) refl;
      framed = framed;
      size = omega (arith, e);
      below = new;
    },
    tt,
  )
  new-Holds (s ∷ []) (g ∷ []) files n u c e z = (
    Holds-get files (append_file (n ∷ []) blob files) s g
        (get-append_file (n ∷ []) blob files s.number (omega (arith, u.0), tt)) z.0,
    new-Holds [] [] files n tt c e tt,
  )
  new-Holds (s ∷ t ∷ ss) (g ∷ gs) files n u c e z = (
    Holds-get files (append_file (t ∷ ss ++ n ∷ []) blob files) s g
        (append_file-new (t ∷ ss) n blob files s.number (omega (arith, u.0))) z.0,
    new-Holds (t ∷ ss) gs files n u.1 c e z.1,
  )
  new-Holds [] (g ∷ gs) files n u c e z = absurd z
  new-Holds (s ∷ ss) [] files n u c e z = absurd z
  new-Holds (s ∷ []) (g ∷ h ∷ gs) files n u c e z = absurd z.1

pub concat-extend :
    (gs : List Entries) (g es : Entries) → concat (extend (g ∷ gs) es) ≡ concat (g ∷ gs) ++ es
concat-extend [] g es = append-nil (g ++ es) ∙ ap (λ x. x ++ es) (sym (append-nil g))
concat-extend (h ∷ gs) g es = rw (concat-extend gs h es) (sym (append_assoc g (concat (h ∷ gs)) es))

pub concat-snoc : (gs : List Entries) (es : Entries) → concat (gs ++ es ∷ []) ≡ concat gs ++ es
concat-snoc [] es = append-nil es
concat-snoc (g ∷ gs) es = rw (concat-snoc gs es) (sym (append_assoc g (concat gs) es))

pub snoc-Increasing :
    (ss : List Segment) (n : Segment)
    → All (λ s. s.number < n.number) ss
    → Increasing ss
    → Increasing (ss ++ n ∷ [])
snoc-Increasing [] n u i = (tt, tt)
snoc-Increasing (s ∷ ss) n u i =
    (All-snoc (λ t. s.number < t.number) ss n i.0 u.0, snoc-Increasing ss n u.1 i.1)

-- The TIDs of some entries run from the one after `a` to `b` without a gap.
abbrev pub Run : ℕ → Entries → ℕ → Type 0
Run a [] b = a ≡ b
Run a (e ∷ es) b = (e.0 ≡ a + 1) × Run e.0 es b

pub Run-le : (a b : ℕ) (es : Entries) → Run a es b → (a ≤ b) × All (λ e. e.0 ≤ b) es
Run-le a b [] r = (omega (arith, r), tt)
Run-le a b (e ∷ es) r = let (l, h) = Run-le e.0 b es r.1 in (omega (arith, l, r.0), (l, h))

pub Run-last_tid_of : (tid b : ℕ) (es : Entries) → Run tid es b → last_tid_of tid es ≡ b
unfolding last_tid_of
Run-last_tid_of tid b [] r = r
Run-last_tid_of tid b (e ∷ es) r = Run-last_tid_of e.0 b es r.1

pub Run-append : (a b c : ℕ) (es fs : Entries) → Run a es b → Run b fs c → Run a (es ++ fs) c
Run-append a b c [] fs r q = rw r q
Run-append a b c (e ∷ es) fs r q = (r.0, Run-append e.0 b c es fs r.1 q)
