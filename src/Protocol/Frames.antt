-- ===== src/Protocol/Frames.antt =====
-- protocol.rs: a message on the wire is its length in four bytes, most significant first, and its
-- bytes; and the client's commands over a connection.
pub mod Roundtrip
use oprofiler.Base.{
  ℕ, ◌+◌, ◌*◌, ◌/◌, ◌%◌, ◌^◌, Bool, true, false, List, [], ◌∷◌, ◌++◌, length, take, drop, ltb,
  if◌then◌else◌, ◌⊎◌, inl, inr,
}
use oprofiler.Base.Text.{Text}

abbrev pub Bytes : Type 0
Bytes = List ℕ

-- The kinds of I/O error that the code tells apart; a text for the rest.
pub data IoError : Type 0 where
  timed_out would_block unexpected_eof : IoError
  other_error : Text → IoError

unfoldable pub is_timeout_error : IoError → Bool
is_timeout_error timed_out = true
is_timeout_error would_block = true
is_timeout_error unexpected_eof = false
is_timeout_error (other_error t) = false

pub data ReadMessageError : Type 0 where
  io : IoError → ReadMessageError
  decode_error : Text → ReadMessageError
  too_large : ℕ → ReadMessageError

-- The four bytes of a length; `as u32` keeps its low 32 bits.
unfoldable pub length_bytes : ℕ → Bytes
length_bytes n =
    let len = n % 2 ^ 32 in
    len / 2 ^ 24 % 256 ∷ len / 2 ^ 16 % 256 ∷ len / 2 ^ 8 % 256 ∷ len % 256 ∷ []

unfoldable pub frame : Bytes → Bytes
unfolding length_bytes
frame payload = length_bytes (length payload) ++ payload

-- What has arrived on a connection, and the error that a read meets behind it.
pub record Incoming : Type 0 where
  pub arrived : Bytes
  pub stop : IoError

-- `read_exact`.
unfoldable pub read_exact : ℕ → Incoming → (Bytes × Incoming) ⊎ IoError
read_exact n inc =
    if ltb (length inc.arrived) n
    then inr inc.stop
    else inl (take n inc.arrived, record inc { arrived = drop n inc.arrived })

abbrev pub be_value : Bytes → ℕ
be_value (a ∷ b ∷ c ∷ d ∷ []) = a * 2 ^ 24 + b * 2 ^ 16 + c * 2 ^ 8 + d
be_value _ = 0

abbrev pub max_message : ℕ
max_message = 50_000_000

-- What is left after a failed read of a message: what is too short for a length or for its message has
-- been read, and a length that is refused has been too.
unfoldable pub after_failure : Incoming → Incoming
after_failure inc = record inc {
  arrived =
      if ltb (length inc.arrived) 4
      then []
      else if ltb max_message (be_value (take 4 inc.arrived))
      then drop 4 inc.arrived
      else [];
}

-- The bytes of one message, and what follows it.
unfoldable pub read_payload : Incoming → (Bytes × Incoming) ⊎ ReadMessageError
unfolding read_exact
read_payload inc = elim (read_exact 4 inc) [
  | inr e ↦ inr (io e)
  | inl (head, rest) ↦
      if ltb max_message (be_value head)
      then inr (too_large (be_value head))
      else elim (read_exact (be_value head) rest) [ inr e ↦ inr (io e) | inl got ↦ inl got ]
]
