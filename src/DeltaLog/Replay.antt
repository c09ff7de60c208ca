-- ===== src/DeltaLog/Replay.antt =====
-- What `DeltaLog.replay` yields.
use datacrystal.Base.{
  ℕ, ◌≤◌, ◌≡◌, refl, ap, inl, inr, Bool-cases, List, [], ◌∷◌, ◌++◌, some, All, map, filter, ltb,
  leb, arith, nat_eq,
}
use mathlib.Core.List.{append-nil}
use datacrystal.Base.Dict.{Dict}
use datacrystal.Contract.{Bytes, WireDelta}
use datacrystal.DeltaLog.Defs.{Segment, DeltaLog}
use datacrystal.DeltaLog.Consume.{is_after, iter_segment, replay_segments, replay_buffer, replay}
use datacrystal.DeltaLog.Frame.{read_back, raws}
use datacrystal.DeltaLog.Invariant.{Entries, concat, Holds, Zip, IsLog}

-- The entries after a TID.
abbrev pub after : ℕ → Entries → Entries
after t = filter (λ e. ltb t e.0)

after-append : (t : ℕ) (es fs : Entries) → after t (es ++ fs) ≡ after t es ++ after t fs
after-append t [] fs = refl
after-append t (e ∷ es) fs = ground (arith, after-append t es fs)

after-nothing :
    (t bound : ℕ) (es : Entries) → bound ≤ t → All (λ e. e.0 ≤ bound) es → after t es ≡ []
after-nothing t bound [] b h = refl
after-nothing t bound (e ∷ es) b h = ground (arith, h.0, after-nothing t bound es b h.1)

map-append : {A B : Type 0} (f : A → B) (xs ys : List A) → map f (xs ++ ys) ≡ map f xs ++ map f ys
map-append f [] ys = refl
map-append f (x ∷ xs) ys = rw (map-append f xs ys)

module _ (encode : WireDelta → Bytes) (decode : Bytes → WireDelta) where
  -- Every entry decodes to a delta with its TID.
  abbrev pub IsCoded : Entries → Type 0
  IsCoded = All (λ e. (decode e.1).tid ≡ some e.0)

  abbrev pub decoded : Entries → List WireDelta
  decoded = map (λ e. decode e.1)

  pub IsCoded-append : (es fs : Entries) → IsCoded (es ++ fs) → IsCoded es × IsCoded fs
  IsCoded-append [] fs h = (tt, h)
  IsCoded-append (e ∷ es) fs h = let (a, b) = IsCoded-append es fs h.1 in ((h.0, a), b)

  filter-decoded :
      (t : ℕ) (es : Entries)
      → IsCoded es
      → filter (is_after encode decode t) (map decode (raws es)) ≡ decoded (after t es)
  unfolding is_after
  filter-decoded t [] h = refl
  filter-decoded t (e ∷ es) h = rw h.0 (ground (arith, filter-decoded t es h.1))

  iter_segment-lem :
      (files : Dict ℕ Bytes) (s : Segment) (g : Entries)
      → Holds files s g
      → iter_segment encode decode files s ≡ map decode (raws g)
  unfolding iter_segment
  iter_segment-lem files s g h =
      let b = rw (append-nil h.file) at (read_back g h.file [] h.framed) in
      rw (h.found, iter_segment, h.size) (ap (map decode) b)

  replay_segments-lem :
      (t : ℕ) (files : Dict ℕ Bytes) (ss : List Segment) (gs : List Entries)
      → Zip (Holds files) ss gs
      → IsCoded (concat gs)
      → replay_segments encode decode t files ss ≡ decoded (after t (concat gs))
  unfolding replay_segments
  replay_segments-lem t files [] [] z c = refl
  replay_segments-lem t files (s ∷ ss) (g ∷ gs) z c =
      let (cg, cs) = IsCoded-append g (concat gs) c in
      let rest = replay_segments-lem t files ss gs z.1 cs in
      rw
        (
          after-append t g (concat gs),
          map-append (λ e. decode e.1) (after t g) (after t (concat gs)),
        )
        (elim (Bool-cases (leb s.last_tid t)) [
          | inl y ↦ rw (y, after-nothing t s.last_tid g (ground (arith, y)) z.0.below) rest
          | inr n ↦ rw (n, iter_segment-lem files s g z.0, filter-decoded t g cg, rest)
        ])
  replay_segments-lem t files [] (g ∷ gs) z c = absurd z
  replay_segments-lem t files (s ∷ ss) [] z c = absurd z

  replay_buffer-lem :
      (t : ℕ) (es : Entries) → replay_buffer encode decode t es ≡ decoded (after t es)
  unfolding replay_buffer
  replay_buffer-lem t [] = refl
  replay_buffer-lem t (e ∷ es) = ground (arith, replay_buffer-lem t es)

  -- If the entries in the segments of a well-formed log decode to deltas with their TIDs, replay yields
  -- the deltas after a TID, those of the segments and then those of the buffer, each once and in
  -- order: the segments that it skips hold none of them.
  pub replay_exact :
      (t : ℕ) (log : DeltaLog) (gs : List Entries)
      → IsLog log gs
      → IsCoded (concat gs)
      → replay encode decode t log ≡ decoded (after t (concat gs ++ log.buffer))
  unfolding replay
  replay_exact t log gs h c = rw (
    replay_segments-lem t log.disk.files log.segments gs h.holds c,
    replay_buffer-lem t log.buffer,
    after-append t (concat gs) log.buffer,
    map-append (λ e. decode e.1) (after t (concat gs)) (after t log.buffer),
  )
