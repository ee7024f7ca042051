-- ===== src/TestData/Store.antt =====
-- runner_lib/include/test_data.h: the entries of a `TestData`, a std::map by tag, and the stream of
-- records that it is saved as. Tags and payloads are bytes.
use c_tests_runner.Base.{
  ℕ, zero, suc, ◌*◌, ◌^◌, Bool, true, false, not, ◌&&◌, Option, none, some, List, [], ◌∷◌, ◌++◌,
  length, take, drop, ltb, if◌then◌else◌,
}
use c_tests_runner.Base.Result.{Result, ok, err}
use c_tests_runner.TestData.{Bytes, append_pod, value_of}

-- The order of std::string.
unfoldable pub bytes_lt : Bytes → Bytes → Bool
bytes_lt [] [] = false
bytes_lt [] (y ∷ ys) = true
bytes_lt (x ∷ xs) [] = false
bytes_lt (x ∷ xs) (y ∷ ys) = if ltb x y then true else if ltb y x then false else bytes_lt xs ys

-- Two keys that neither is below the other are one key of a std::map.
abbrev pub same : Bytes → Bytes → Bool
same j k = not (bytes_lt j k) && not (bytes_lt k j)

abbrev pub Entries : Type 0
Entries = List (Bytes × Bytes)

unfoldable pub find : Bytes → Entries → Option Bytes
find k [] = none
find k ((j, d) ∷ m) = if same j k then some d else find k m

-- entries_[k] = d
unfoldable pub assign : Bytes → Bytes → Entries → Entries
assign k d [] = (k, d) ∷ []
assign k d ((j, c) ∷ m) =
    if bytes_lt k j
    then (k, d) ∷ (j, c) ∷ m
    else if bytes_lt j k
    then (j, c) ∷ assign k d m
    else (k, d) ∷ m

-- entries_.erase(k)
unfoldable pub remove : Bytes → Entries → Entries
remove k [] = []
remove k ((j, c) ∷ m) = if same j k then m else (j, c) ∷ remove k m

unfoldable pub record_bytes : Bytes → Bytes → Bytes
record_bytes tag payload =
    append_pod 8 (length tag) ++ (tag ++ (append_pod 8 (length payload) ++ payload))

unfoldable pub serialize : Entries → Bytes
unfolding record_bytes
serialize [] = []
serialize ((tag, payload) ∷ m) = record_bytes tag payload ++ serialize m

abbrev pub max_tag : ℕ
max_tag = 2 ^ 20

abbrev pub max_payload : ℕ
max_payload = 2 * 2 ^ 30

-- The second half of a round of `deserialize`: the payload behind a tag.
unfoldable pub next_payload : Bytes → Bytes → Result (Option (Bytes × Bytes × Bytes))
next_payload tag p =
    let data_len = value_of (take 8 p) in
    if ltb (length p) 8
    then err "TestData::load: truncated data length"
    else if ltb max_payload data_len
    then err "TestData::load: implausible data length"
    else if ltb 0 data_len && ltb (length (drop 8 p)) data_len
    then err "TestData::load: truncated payload"
    else ok (some (tag, take data_len (drop 8 p), drop data_len (drop 8 p)))

-- A round of the loop of `deserialize`: the next tag, its payload and the bytes behind them, or
-- nothing where fewer bytes than a tag length are left.
unfoldable pub next_record : Bytes → Result (Option (Bytes × Bytes × Bytes))
unfolding next_payload
next_record p =
    let tag_len = value_of (take 8 p) in
    if ltb (length p) 8
    then ok none
    else if ltb max_tag tag_len
    then err "TestData::load: implausible tag length"
    else if ltb (length (drop 8 p)) tag_len
    then err "TestData::load: truncated tag"
    else next_payload (take tag_len (drop 8 p)) (drop tag_len (drop 8 p))

-- The loop, on fuel; `none` means that the fuel ran out.
unfoldable pub deserialize_loop : ℕ → Bytes → Entries → Option (Result Entries)
deserialize_loop zero p m = none
deserialize_loop (suc fuel) p m = elim (next_record p) [
  | err what ↦ some (err what)
  | ok none ↦ some (ok m)
  | ok (some (tag, payload, rest)) ↦ deserialize_loop fuel rest (assign tag payload m)
]

-- A record takes sixteen bytes at least, so one round more than there are bytes is enough.
unfoldable pub deserialize : Bytes → Option (Result Entries)
unfolding deserialize_loop next_record
deserialize p = deserialize_loop (suc (length p)) p []
