-- ===== src/Protocol/Frames/Roundtrip.antt =====
-- protocol.rs: what is written as a message is what is read back.
use oprofiler.Base.{
  ℕ, ◌^◌, ◌≤◌, ◌<◌, ◌≡◌, refl, sym, ◌∙◌, ap, List, [], ◌∷◌, ◌++◌, arith, length, take, drop, inl,
  inr, length-append,
}
use oprofiler.Protocol.Frames.{
  Bytes, IoError, too_large, length_bytes, frame, Incoming, read_exact, be_value, max_message,
  read_payload,
}

pub take-append : {A : Type 0} (xs ys : List A) → take (length xs) (xs ++ ys) ≡ xs
take-append [] ys = refl
take-append (x ∷ xs) ys = rw (take-append xs ys)

pub drop-append : {A : Type 0} (xs ys : List A) → drop (length xs) (xs ++ ys) ≡ ys
drop-append [] ys = refl
drop-append (x ∷ xs) ys = drop-append xs ys

-- The four bytes name the number, as far as 32 bits go.
be_value-length_bytes : (n : ℕ) → n < 2 ^ 32 → be_value (length_bytes n) ≡ n
unfolding length_bytes
be_value-length_bytes n h = omega arith

length-length_bytes : (n : ℕ) → length (length_bytes n) ≡ 4
unfolding length_bytes
length-length_bytes n = refl

-- Reading as many bytes as a text has takes the text off.
read_exact-append :
    (n : ℕ) (xs ys : Bytes) (e : IoError)
    → length xs ≡ n
    → read_exact n (record { arrived = xs ++ ys; stop = e })
      ≡ inl (xs, record { arrived = ys; stop = e })
unfolding read_exact
read_exact-append n xs ys e h =
    ground (arith, length-append xs ys, take-append xs ys, drop-append xs ys)

-- A message whose four bytes of length have been read is refused, or is what the next read takes.
refused_by_length :
    (inc mid : Incoming) (head : Bytes)
    → read_exact 4 inc ≡ inl (head, mid)
    → max_message < be_value head
    → read_payload inc ≡ inr (too_large (be_value head))
unfolding read_payload
refused_by_length inc mid head h k = rw (h, read_payload) (ground arith)

read_by_length :
    (inc mid rest : Incoming) (head payload : Bytes)
    → read_exact 4 inc ≡ inl (head, mid)
    → be_value head ≤ max_message
    → read_exact (be_value head) mid ≡ inl (payload, rest)
    → read_payload inc ≡ inl (payload, rest)
unfolding read_payload
read_by_length inc mid rest head payload h k g = rw (h, read_payload) (ground arith)

-- A message of at most 50,000,000 bytes is read back as it was written, and what follows it stays.
pub read_payload-frame :
    (payload rest : Bytes) (e : IoError)
    → length payload ≤ max_message
    → read_payload (record { arrived = frame payload ++ rest; stop = e })
      ≡ inl (payload, record { arrived = rest; stop = e })
unfolding frame
read_payload-frame payload rest e h =
    let len = length payload in
    let mid : Incoming = record { arrived = payload ++ rest; stop = e } in
    let value = be_value-length_bytes len (omega arith) in
    read_by_length (record { arrived = length_bytes len ++ (payload ++ rest); stop = e }) mid
      (record { arrived = rest; stop = e }) (length_bytes len) payload
      (read_exact-append 4 (length_bytes len) (payload ++ rest) e (length-length_bytes len))
      (omega (arith, value))
      (read_exact-append (be_value (length_bytes len)) payload rest e (sym value))

-- A longer message, up to what 32 bits can count, is refused with its length.
pub read_payload-too_large :
    (payload rest : Bytes) (e : IoError)
    → max_message < length payload
    → length payload < 2 ^ 32
    → read_payload (record { arrived = frame payload ++ rest; stop = e })
      ≡ inr (too_large (length payload))
unfolding frame
read_payload-too_large payload rest e h k =
    let len = length payload in
    let mid : Incoming = record { arrived = payload ++ rest; stop = e } in
    let value = be_value-length_bytes len k in
    refused_by_length (record { arrived = length_bytes len ++ (payload ++ rest); stop = e }) mid
      (length_bytes len)
      (read_exact-append 4 (length_bytes len) (payload ++ rest) e (length-length_bytes len))
      (omega (arith, value))
    ∙ ap (λ n. inr (too_large n)) value
