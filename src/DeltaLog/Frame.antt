-- ===== src/DeltaLog/Frame.antt =====
-- The frames of a segment: an 8-byte big-endian length (`struct.Struct(">Q")`), then the delta bytes;
-- and the loop of `DeltaLog._iter_segment` that reads them back.
use datacrystal.Base.{
  ℕ, zero, suc, ◌+◌, ◌-◌, ◌*◌, ◌/◌, ◌%◌, ◌^◌, ◌≤◌, ◌<◌, List, [], ◌∷◌, ◌++◌, ◌≡◌, refl, ◌∙◌, ap,
  arith, length, length-append, take, drop, ltb, if◌then◌else◌, Bool-cases, inl, inr, sym, map,
  false,
}
use datacrystal.Contract.{Bytes}
use datacrystal.Errors.{Result, ok, err, struct_error, ok-inj, ◌>>=◌, >>=-eq-ok}
use mathlib.Core.Path.{subst}
use mathlib.Core.List.{append_assoc, append-nil}

-- `n` in `width` bytes, the highest first.
unfoldable pub to_bytes : ℕ → ℕ → Bytes
to_bytes zero n = []
to_bytes (suc width) n = to_bytes width (n / 256) ++ n % 256 ∷ []

unfoldable pub from_bytes : ℕ → Bytes → ℕ
from_bytes acc [] = acc
from_bytes acc (b ∷ bs) = from_bytes (acc * 256 + b) bs

-- `_FRAME.size`
abbrev pub frame_size : ℕ
frame_size = 8

-- `_FRAME.pack(len(raw)) + raw`; `pack` refuses what 8 bytes do not hold.
unfoldable pub frame : Bytes → Result Bytes
frame raw =
    if ltb (length raw) (256 ^ frame_size)
    then ok (to_bytes frame_size (length raw) ++ raw)
    else err struct_error

-- The loop of `_iter_segment`, from what is left of the file and `remaining`. One round takes at
-- least a header off `remaining`, so the fuel `remaining` is enough.
unfoldable pub read_frames : (fuel : ℕ) → Bytes → (remaining : ℕ) → List Bytes
read_frames zero file remaining = []
read_frames (suc fuel) file remaining =
    let header = take frame_size file in
    let len = from_bytes 0 header in
    let raw = take len (drop frame_size file) in
    let rest =
      read_frames fuel (drop len (drop frame_size file)) (remaining - (frame_size + len)) in
    if ltb remaining frame_size
    then []
    else if ltb (length header) frame_size
    then []
    else if ltb (length raw) len
    then []
    else raw ∷ rest

length-to_bytes : (width n : ℕ) → length (to_bytes width n) ≡ width
unfolding to_bytes
length-to_bytes zero n = refl
length-to_bytes (suc width) n =
    length-append (to_bytes width (n / 256)) (n % 256 ∷ [])
    ∙ omega (arith, length-to_bytes width (n / 256))

from_bytes-append :
    (acc : ℕ) (bs : Bytes) (b : ℕ) → from_bytes acc (bs ++ b ∷ []) ≡ from_bytes acc bs * 256 + b
unfolding from_bytes
from_bytes-append acc [] b = refl
from_bytes-append acc (x ∷ bs) b = from_bytes-append (acc * 256 + x) bs b

-- What is written in enough bytes is read back.
pub from_bytes-to_bytes : (width n : ℕ) → n < 256 ^ width → from_bytes 0 (to_bytes width n) ≡ n
unfolding to_bytes
from_bytes-to_bytes zero n h = unfold from_bytes in omega arith
from_bytes-to_bytes (suc width) n h =
    let less : n / 256 < 256 ^ width = omega arith in
    from_bytes-append 0 (to_bytes width (n / 256)) (n % 256)
    ∙ omega (arith, from_bytes-to_bytes width (n / 256) less)

take-append : {A : Type 0} (xs ys : List A) → take (length xs) (xs ++ ys) ≡ xs
take-append [] ys = refl
take-append (x ∷ xs) ys = rw (take-append xs ys)

drop-append : {A : Type 0} (xs ys : List A) → drop (length xs) (xs ++ ys) ≡ ys
drop-append [] ys = refl
drop-append (x ∷ xs) ys = drop-append xs ys

-- A frame is its header and the bytes it announces.
pub frame-inv :
    (raw file : Bytes)
    → frame raw ≡ ok file
    → (file ≡ to_bytes frame_size (length raw) ++ raw)
      × (length raw < 256 ^ frame_size)
      × (length file ≡ frame_size + length raw)
unfolding frame
frame-inv raw file h = elim (Bool-cases (ltb (length raw) (256 ^ frame_size))) [
  | inl y ↦
      let e = sym (ok-inj (rw y at h)) in
      (
        e,
        ground (arith, y),
        rw e (
            length-append (to_bytes frame_size (length raw)) raw
            ∙ omega (arith, length-to_bytes frame_size (length raw))),
      )
  | inr n ↦ absurd (cc (rw n at h))
]

-- `b"".join(_FRAME.pack(len(raw)) + raw for _, raw in self._buffer)`
unfoldable pub frame_all : List (ℕ × Bytes) → Result Bytes
frame_all [] = ok []
frame_all ((tid, raw) ∷ entries) = do f ← frame raw; fs ← frame_all entries; ok (f ++ fs)

abbrev pub raws : List (ℕ × Bytes) → List Bytes
raws = map (λ e. e.1)

read_one :
    (fuel more : ℕ) (raw file tail : Bytes)
    → frame raw ≡ ok file
    → read_frames (suc fuel) (file ++ tail) (length file + more) ≡ raw ∷ read_frames fuel tail more
unfolding read_frames
read_one fuel more raw file tail h =
    let (e, small, len) = frame-inv raw file h in
    let width = length-to_bytes frame_size (length raw) in
    let eq : file ++ tail ≡ to_bytes frame_size (length raw) ++ (raw ++ tail) =
      rw e (append_assoc (to_bytes frame_size (length raw)) raw tail) in
    let th =
      subst
        (λ n.
          take n (to_bytes frame_size (length raw) ++ (raw ++ tail))
          ≡ to_bytes frame_size (length raw))
        width (take-append (to_bytes frame_size (length raw)) (raw ++ tail)) in
    let dh =
      subst (λ n. drop n (to_bytes frame_size (length raw) ++ (raw ++ tail)) ≡ raw ++ tail) width
        (drop-append (to_bytes frame_size (length raw)) (raw ++ tail)) in
    let big : ltb (frame_size + length raw + more) frame_size ≡ false = ground arith in
    let same : ltb (length raw) (length raw) ≡ false = ground arith in
    let left : frame_size + length raw + more - (frame_size + length raw) ≡ more = omega arith in
    rw
      (
        eq,
        th,
        dh,
        from_bytes-to_bytes frame_size (length raw) small,
        take-append raw tail,
        drop-append raw tail,
        width,
        len,
        big,
        same,
        left,
      )
      refl

pub read-frame_all :
    (entries : List (ℕ × Bytes)) (blob tail : Bytes) (fuel more : ℕ)
    → frame_all entries ≡ ok blob
    → read_frames (length entries + fuel) (blob ++ tail) (length blob + more)
      ≡ raws entries ++ read_frames fuel tail more
unfolding frame_all
read-frame_all [] blob tail fuel more h =
    let e : blob ≡ [] = sym (ok-inj h) in
    let fuel_eq : 0 + fuel ≡ fuel = omega arith in
    let more_eq : 0 + more ≡ more = omega arith in rw (e, fuel_eq, more_eq) refl
read-frame_all ((tid, raw) ∷ entries) blob tail fuel more h =
    let (f, hf, h') = >>=-eq-ok (frame raw) _ h in
    let (fs, hfs, e) = >>=-eq-ok (frame_all entries) _ h' in
    let eb : blob ≡ f ++ fs = sym (ok-inj e) in
    let fuel_eq : suc (length entries) + fuel ≡ suc (length entries + fuel) = omega arith in
    let more_eq : length f + length fs + more ≡ length f + (length fs + more) = omega arith in
    rw (eb, append_assoc f fs tail, length-append f fs, fuel_eq, more_eq)
      (read_one (length entries + fuel) (length fs + more) raw f (fs ++ tail) hf
        ∙ ap (λ r. raw ∷ r) (read-frame_all entries fs tail fuel more hfs))

length-frame_all :
    (entries : List (ℕ × Bytes)) (blob : Bytes)
    → frame_all entries ≡ ok blob
    → length entries ≤ length blob
unfolding frame_all
length-frame_all [] blob h = omega arith
length-frame_all ((tid, raw) ∷ entries) blob h =
    let (f, hf, h') = >>=-eq-ok (frame raw) _ h in
    let (fs, hfs, e) = >>=-eq-ok (frame_all entries) _ h' in
    let (_, _, len) = frame-inv raw f hf in
    rw (sym (ok-inj e), length-append f fs) (omega (arith, len, length-frame_all entries fs hfs))

read_nothing : (fuel : ℕ) (tail : Bytes) → read_frames fuel tail 0 ≡ []
unfolding read_frames
read_nothing zero tail = refl
read_nothing (suc fuel) tail = refl

-- Reading a segment up to its committed length gives the deltas that were framed into it, in order,
-- whatever bytes follow.
pub read_back :
    (entries : List (ℕ × Bytes)) (blob debris : Bytes)
    → frame_all entries ≡ ok blob
    → read_frames (length blob) (blob ++ debris) (length blob) ≡ raws entries
read_back entries blob debris h =
    let spare = length blob - length entries in
    let fuel_eq : length entries + spare ≡ length blob =
      omega (arith, length-frame_all entries blob h) in
    let more_eq : length blob + 0 ≡ length blob = omega arith in
    rw (read_nothing spare debris, append-nil (raws entries), more_eq, fuel_eq) at
      (read-frame_all entries blob debris spare 0 h)
