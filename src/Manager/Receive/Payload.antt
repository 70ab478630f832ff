-- ===== src/Manager/Receive/Payload.antt =====
-- How many bytes of an answer are copied.
use khawasu_pc.Base.{ℕ, ◌+◌, ◌-◌, ◌%◌, ◌^◌, ◌≤◌, ◌<◌, ◌≡◌, arith, Bytes, length, take}
use khawasu_pc.Base.Outcome.{ok, fault, length_error, out_of_bounds}
use khawasu_pc.Manager.Receive.{copy_payload}

-- A packet no shorter than its header, all in the buffer: exactly its payload is copied.
pub copy_payload-within :
    (size header : ℕ) (memory : Bytes)
    → header ≤ size + 1
    → size < 65536
    → size + 1 - header ≤ length memory
    → copy_payload size header memory ≡ ok (take (size + 1 - header) memory)
unfolding copy_payload
copy_payload-within size header memory h k l =
    let e : (size + 2 ^ 64 - header + 1) % 2 ^ 64 ≡ size + 1 - header = omega arith in
    rw (copy_payload, e) (ground arith)

-- A packet shorter than its header makes the length wrap round, and the allocation throws.
pub copy_payload-short :
    (size header : ℕ) (memory : Bytes)
    → size + 1 < header
    → header < 65536
    → copy_payload size header memory ≡ fault length_error
unfolding copy_payload
copy_payload-short size header memory h k = ground arith

-- A packet that claims more than the buffer holds is read past the buffer's end.
pub copy_payload-past :
    (size header : ℕ) (memory : Bytes)
    → header ≤ size + 1
    → size < 65536
    → length memory < size + 1 - header
    → copy_payload size header memory ≡ fault out_of_bounds
unfolding copy_payload
copy_payload-past size header memory h k l =
    let e : (size + 2 ^ 64 - header + 1) % 2 ^ 64 ≡ size + 1 - header = omega arith in
    rw (copy_payload, e) (ground arith)
