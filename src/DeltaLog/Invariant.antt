-- ===== src/DeltaLog/Invariant.antt =====
-- What a delta log keeps: each segment file holds the frames of its entries and nothing else, and the
-- manifest on disk names them.
use datacrystal.Base.{
  ℕ, ◌≤◌, ◌<◌, ◌≡◌, ◌⊎◌, List, [], ◌∷◌, ◌++◌, none, some, length, All, nat_eq, ◌∙◌, ap, sym,
}
use datacrystal.Base.Dict
use datacrystal.Base.Dict.{Dict}
use datacrystal.Contract.{Bytes}
use datacrystal.DeltaLog.Defs.{Segment, DeltaLog, manifest_of}
use datacrystal.DeltaLog.Frame.{frame_all}
use datacrystal.Errors.{ok}
use mathlib.Core.List.{append-nil}

-- A TID and its encoded delta.
abbrev pub Entries : Type 0
Entries = List (ℕ × Bytes)

abbrev pub concat : List Entries → Entries
concat [] = []
concat (g ∷ gs) = g ++ concat gs

-- A segment file: the frames of some entries up to the committed length, then debris of a crash.
pub record Begins (files : Dict ℕ Bytes) (s : Segment) (g : Entries) : Type 0 where
  pub file : Bytes
  pub debris : Bytes
  pub found : Dict.get files s.number ≡ some (file ++ debris)
  pub framed : frame_all g ≡ ok file
  pub size : s.nbytes ≡ length file
  pub below : All (λ e. e.0 ≤ s.last_tid) g

-- The same, without debris.
pub record Holds (files : Dict ℕ Bytes) (s : Segment) (g : Entries) : Type 0 where
  pub file : Bytes
  pub found : Dict.get files s.number ≡ some file
  pub framed : frame_all g ≡ ok file
  pub size : s.nbytes ≡ length file
  pub below : All (λ e. e.0 ≤ s.last_tid) g

-- The segments and their entries, one by one.
abbrev pub Zip : (Segment → Entries → Type 0) → List Segment → List Entries → Type 0
Zip R [] [] = Unit
Zip R (s ∷ ss) (g ∷ gs) = R s g × Zip R ss gs
Zip R [] (g ∷ gs) = ⊥
Zip R (s ∷ ss) [] = ⊥

abbrev pub Increasing : List Segment → Type 0
Increasing [] = Unit
Increasing (s ∷ ss) = All (λ t. s.number < t.number) ss × Increasing ss

-- The manifest on disk is the one of the log; a log that has never been flushed may have none.
abbrev pub IsNamed : DeltaLog → Type 0
IsNamed log =
    (log.disk.manifest ≡ some (manifest_of log))
    ⊎ (log.disk.manifest ≡ none)
      × (log.segments ≡ [])
      × (log.watermark ≡ 0)
      × (log.genesis_tid ≡ 0)
      × (log.genesis_types ≡ [])
      × (log.next_segment ≡ 1)

-- A log whose segments hold `gs`.
pub record IsLog (log : DeltaLog) (gs : List Entries) : Type 0 where
  pub holds : Zip (Holds log.disk.files) log.segments gs
  pub increasing : Increasing log.segments
  pub under : All (λ s. s.number < log.next_segment) log.segments
  pub clear : (n : ℕ) → log.next_segment ≤ n → Dict.get log.disk.files n ≡ none
  pub named : IsNamed log

pub Zip-map :
    {P : Segment → Type 0} {R Q : Segment → Entries → Type 0} (ss : List Segment)
    (gs : List Entries)
    → ((s : Segment) (g : Entries) → P s → R s g → Q s g)
    → All P ss
    → Zip R ss gs
    → Zip Q ss gs
Zip-map [] [] f a z = tt
Zip-map (s ∷ ss) (g ∷ gs) f a z = (f s g a.0 z.0, Zip-map ss gs f a.1 z.1)
Zip-map [] (g ∷ gs) f a z = absurd z
Zip-map (s ∷ ss) [] f a z = absurd z

-- A segment is as it was where its file is.
pub Begins-get :
    (files files' : Dict ℕ Bytes) (s : Segment) (g : Entries)
    → Dict.get files' s.number ≡ Dict.get files s.number
    → Begins files s g
    → Begins files' s g
Begins-get files files' s g same h = record {
  file = h.file;
  debris = h.debris;
  found = same ∙ h.found;
  framed = h.framed;
  size = h.size;
  below = h.below;
}

pub Holds-get :
    (files files' : Dict ℕ Bytes) (s : Segment) (g : Entries)
    → Dict.get files' s.number ≡ Dict.get files s.number
    → Holds files s g
    → Holds files' s g
Holds-get files files' s g same h = record {
  file = h.file;
  found = same ∙ h.found;
  framed = h.framed;
  size = h.size;
  below = h.below;
}

pub Holds-Begins :
    (files : Dict ℕ Bytes) (s : Segment) (g : Entries) → Holds files s g → Begins files s g
Holds-Begins files s g h = record {
  file = h.file;
  debris = [];
  found = h.found ∙ ap some (sym (append-nil h.file));
  framed = h.framed;
  size = h.size;
  below = h.below;
}
