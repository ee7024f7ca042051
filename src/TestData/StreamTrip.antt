-- ===== src/TestData/StreamTrip.antt =====
-- A saved `TestData` is loaded back, and loading always ends.
use mathlib.Core.List.{append_assoc, append-nil}
use c_tests_runner.Base.{
  ℕ, zero, suc, ◌≤◌, ◌<◌, ◌≡◌, refl, true, Option, none, some, [], ◌∷◌, ◌++◌, length, length-append,
  length-drop, All, All-append, take, drop, take-append_len, drop-append_len, arith,
}
use c_tests_runner.Base.Result.{Result, ok, err}
use c_tests_runner.TestData.{Bytes, append_pod, value_of}
use c_tests_runner.TestData.Pod.{length-append_pod, value_of-append_pod}
use c_tests_runner.TestData.Store.{
  bytes_lt, Entries, assign, record_bytes, serialize, max_tag, max_payload, next_payload,
  next_record, deserialize_loop, deserialize,
}
use c_tests_runner.TestData.Keys.{IsSorted, assign_last}

-- Tags and payloads within the format's caps.
abbrev pub EntryFits : Bytes × Bytes → Type 0
EntryFits e = (length e.0 ≤ max_tag) × (length e.1 ≤ max_payload)

next_payload-append :
    (tag payload rest : Bytes)
    → length payload ≤ max_payload
    → next_payload tag (append_pod 8 (length payload) ++ (payload ++ rest))
      ≡ ok (some (tag, payload, rest))
unfolding next_payload
next_payload-append tag payload rest g =
    let size = append_pod 8 (length payload) in
    let eight = length-append_pod 8 (length payload) in
    rw
      (
        take-append_len 8 size (payload ++ rest) eight,
        drop-append_len 8 size (payload ++ rest) eight,
        value_of-append_pod 8 (length payload) (omega arith),
        take-append_len (length payload) payload rest refl,
        drop-append_len (length payload) payload rest refl,
      )
      (ground (arith, length-append size (payload ++ rest), length-append payload rest, eight))

next_record-record_bytes :
    (tag payload rest : Bytes)
    → EntryFits (tag, payload)
    → next_record (record_bytes tag payload ++ rest) ≡ ok (some (tag, payload, rest))
unfolding next_record record_bytes
next_record-record_bytes tag payload rest h =
    let size = append_pod 8 (length tag) in
    let eight = length-append_pod 8 (length tag) in
    let behind = append_pod 8 (length payload) ++ (payload ++ rest) in
    rw
      (
        append_assoc size (tag ++ (append_pod 8 (length payload) ++ payload)) rest,
        append_assoc tag (append_pod 8 (length payload) ++ payload) rest,
        append_assoc (append_pod 8 (length payload)) payload rest,
        take-append_len 8 size (tag ++ behind) eight,
        drop-append_len 8 size (tag ++ behind) eight,
        value_of-append_pod 8 (length tag) (omega arith),
        take-append_len (length tag) tag behind refl,
        drop-append_len (length tag) tag behind refl,
        next_payload-append tag payload rest h.1,
      )
      (ground (arith, length-append size (tag ++ behind), length-append tag behind, eight))

next_record-short : (p : Bytes) → length p < 8 → next_record p ≡ ok none
unfolding next_record
next_record-short p h = ground arith

abbrev AllBelow : Entries → Entries → Type 0
AllBelow acc m = All (λ e. All (λ a. bytes_lt a.0 e.0 ≡ true) acc) m

AllBelow-append :
    (acc : Entries) (k d : Bytes) (m : Entries)
    → AllBelow acc m
    → All (λ e. bytes_lt k e.0 ≡ true) m
    → AllBelow (acc ++ (k, d) ∷ []) m
AllBelow-append acc k d [] b a = tt
AllBelow-append acc k d (e ∷ m) b a = (
  All-append (λ x. bytes_lt x.0 e.0 ≡ true) acc ((k, d) ∷ []) b.0 (a.0, tt),
  AllBelow-append acc k d m b.1 a.1,
)

loop-serialize :
    (m acc : Entries) (junk : Bytes) (fuel : ℕ)
    → length m < fuel
    → length junk < 8
    → IsSorted m
    → All EntryFits m
    → AllBelow acc m
    → deserialize_loop fuel (serialize m ++ junk) acc ≡ some (ok (acc ++ m))
unfolding deserialize_loop serialize
loop-serialize m acc junk zero l j s f b = absurd (omega arith)
loop-serialize [] acc junk (suc fuel) l j s f b =
    rw (deserialize_loop, next_record-short junk j, append-nil)
loop-serialize ((k, d) ∷ m) acc junk (suc fuel) l j s f b = rw (
  append_assoc (record_bytes k d) (serialize m) junk,
  next_record-record_bytes k d (serialize m ++ junk) f.0,
  deserialize_loop,
  assign_last k d acc b.0,
  loop-serialize m (acc ++ (k, d) ∷ []) junk fuel (omega arith) j s.1 f.1
      (AllBelow-append acc k d m b.1 s.0),
  append_assoc acc ((k, d) ∷ []) m,
)

AllBelow-nil : (m : Entries) → AllBelow [] m
AllBelow-nil [] = tt
AllBelow-nil (e ∷ m) = (tt, AllBelow-nil m)

length-serialize : (m : Entries) → length m ≤ length (serialize m)
unfolding serialize record_bytes
length-serialize [] = omega arith
length-serialize ((k, d) ∷ m) =
    let behind = k ++ (append_pod 8 (length d) ++ d) in
    omega (
      arith,
      length-append (record_bytes k d) (serialize m),
      length-append (append_pod 8 (length k)) behind,
      length-append_pod 8 (length k),
      length-serialize m,
    )

-- A saved `TestData`, its entries in the order of a std::map and its tags and payloads within the
-- format's caps, is loaded back entry for entry, also where fewer than eight further bytes follow:
-- a file that is cut inside the length of a tag loads without an error.
pub deserialize-serialize :
    (m : Entries) (junk : Bytes)
    → length junk < 8
    → IsSorted m
    → All EntryFits m
    → deserialize (serialize m ++ junk) ≡ some (ok m)
unfolding deserialize
deserialize-serialize m junk j s f =
    loop-serialize m [] junk (suc (length (serialize m ++ junk)))
      (omega (arith, length-append (serialize m) junk, length-serialize m)) j s f (AllBelow-nil m)

next_payload-shrinks :
    (t p tag payload rest : Bytes)
    → next_payload t p ≡ ok (some (tag, payload, rest))
    → length rest ≤ length p
unfolding next_payload
next_payload-shrinks t p tag payload rest h =
    ground (arith, length-drop 8 p, length-drop (value_of (take 8 p)) (drop 8 p))

next_record-shrinks :
    (p tag payload rest : Bytes)
    → next_record p ≡ ok (some (tag, payload, rest))
    → length rest < length p
unfolding next_record
next_record-shrinks p tag payload rest h =
    let n = value_of (take 8 p) in
    ground (
      arith,
      next_payload-shrinks (take n (drop 8 p)) (drop n (drop 8 p)) tag payload rest,
      length-drop 8 p,
      length-drop n (drop 8 p),
    )

abbrev Ends : ℕ → Bytes → Entries → Type 0
Ends fuel p m = (r : Result Entries) × (deserialize_loop fuel p m ≡ some r)

round-Ends :
    (fuel : ℕ) (p : Bytes) (m : Entries)
    → ((q : Bytes) (n : Entries) → length q < fuel → Ends fuel q n)
    → length p < suc fuel
    → (r : Result (Option (Bytes × Bytes × Bytes))) → next_record p ≡ r
    → Ends (suc fuel) p m
unfolding deserialize_loop
round-Ends fuel p m ih h (err what) e = (err what, rw (deserialize_loop, e))
round-Ends fuel p m ih h (ok none) e = (ok m, rw (deserialize_loop, e))
round-Ends fuel p m ih h (ok (some (tag, payload, rest))) e =
    let (r, q) =
      ih rest (assign tag payload m) (omega (arith, next_record-shrinks p tag payload rest e)) in
    (r, rw (deserialize_loop, e) q)

loop_total : (fuel : ℕ) (p : Bytes) (m : Entries) → length p < fuel → Ends fuel p m
loop_total zero p m h = absurd (omega arith)
loop_total (suc fuel) p m h = round-Ends fuel p m (loop_total fuel) h (next_record p) refl

-- Loading ends on every file, whatever its bytes, with entries or with an error.
pub deserialize_total : (p : Bytes) → (r : Result Entries) × (deserialize p ≡ some r)
unfolding deserialize
deserialize_total p = loop_total (suc (length p)) p [] (omega arith)
