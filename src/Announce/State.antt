-- ===== src/Announce/State.antt =====
-- src/announce_state.rs: the durable order of the announces made here.
pub mod Laws
use Prim.Native.Nat.{bit_and}
use rs_reticulum_lite.Prelude.{
  ℕ, ◌+◌, ◌-◌, ◌*◌, ◌≤◌, ◌^◌, List, [], ◌∷◌, ◌++◌, Option, none, some, Bool, true, false, not,
  if◌then◌else◌, ◌==◌, ◌||◌, ltb, leb, is_some_and, is_some, length, get_or, set, take, drop,
}
use rs_reticulum_lite.Prelude.Words.{checked_add}
use rs_reticulum_lite.Prelude.Bytes.{to_be_bytes, from_be_bytes}
use rs_reticulum_lite.Prelude.Result.{Result, ok, err, ◌>>=◌}
use rs_reticulum_lite.PacketBuffer.{copy_from_slice}

abbrev pub announce_time_max : ℕ
announce_time_max = 2 ^ 40 - 1

abbrev pub blob_len : ℕ
blob_len = 7

abbrev pub state_version : ℕ
state_version = 1

abbrev pub has_last_value : ℕ
has_last_value = 1

pub data AnnounceWireError : Type 0 where
  invalid_blob output_too_small exhausted stale_candidate : AnnounceWireError

pub record AnnounceWireState : Type 0 where
  pub last_value : Option ℕ

unfoldable pub new : AnnounceWireState
new = record { last_value = none }

abbrev pub candidate : ℕ → Result AnnounceWireError (Option AnnounceWireState)
candidate next = ok (some (record { last_value = some next }))

-- `checked_add(1).filter(..).ok_or(Exhausted)`
abbrev pub increment : Option ℕ → Result AnnounceWireError (Option AnnounceWireState)
increment none = err exhausted
increment (some value) = if leb value announce_time_max then candidate value else err exhausted

abbrev pub next_logical : Option ℕ → Result AnnounceWireError (Option AnnounceWireState)
next_logical (some last) = increment (checked_add last 1)
next_logical none = candidate 0

unfoldable pub prepare_next :
    AnnounceWireState → Option ℕ → Result AnnounceWireError (Option AnnounceWireState)
prepare_next s (some now) =
    if ltb announce_time_max now
    then err exhausted
    else if is_some_and (λ last. leb now last) s.last_value
    then ok none
    else candidate now
prepare_next s none = next_logical s.last_value

abbrev pub Committed : Type 0
Committed = AnnounceWireState × Result AnnounceWireError ℕ

abbrev pub commit_value : AnnounceWireState → Option ℕ → Committed
commit_value s none = (s, err stale_candidate)
commit_value s (some next) =
    if is_some_and (λ last. leb next last) s.last_value
    then (s, err stale_candidate)
    else (record { last_value = some next }, ok next)

unfoldable pub commit_prepared : AnnounceWireState → AnnounceWireState → Committed
commit_prepared s prepared = commit_value s prepared.last_value

abbrev pub unwrap_or : Option ℕ → ℕ → ℕ
unwrap_or none d = d
unwrap_or (some v) d = v

-- The output and the number of bytes written; an error leaves what was written before it.
unfoldable pub serialize_into : AnnounceWireState → List ℕ → List ℕ × Result AnnounceWireError ℕ
serialize_into s out =
    let flags : ℕ = if is_some s.last_value then has_last_value else 0 in
    let value : ℕ = unwrap_or s.last_value 0 in
    let marked : List ℕ = set (set out 0 state_version) 1 flags in
    if ltb (length out) blob_len
    then (out, err output_too_small)
    else if ltb announce_time_max value
    then (marked, err invalid_blob)
    else (copy_from_slice marked 2 (drop 3 (to_be_bytes 8 value)), ok blob_len)

-- `blob[1] & !HAS_LAST_VALUE` on a u8.
unfoldable pub deserialize : List ℕ → Result AnnounceWireError AnnounceWireState
deserialize blob =
    let flags : ℕ = get_or blob 1 0 in
    let value : ℕ = from_be_bytes (0 ∷ 0 ∷ 0 ∷ take 5 (drop 2 blob)) in
    if (not (length blob == blob_len) || not (get_or blob 0 0 == state_version))
      || not (bit_and flags 0b1111_1110 == 0)
    then err invalid_blob
    else if not (bit_and flags has_last_value == 0)
    then ok (record { last_value = some value })
    else if not (value == 0)
    then err invalid_blob
    else ok (record { last_value = none })
