-- ===== src/Http/Reply/Framing.antt =====
-- A client's reading of what is sent: a status line, headers up to an empty line, and the content.
use bnc.Prelude.{
  is_empty, false, ℕ, zero, suc, List, [], ◌∷◌, ◌++◌, ◌≡◌, Option, none, some, refl, drop, take,
  All, arith, if◌then◌else◌, ◌==◌, false, append-nil, append_assoc, ◌∙◌, ◌<◌,
}
use bnc.Prelude.Bytes.{Lacks, Bytes, value_of, Lacks-append}
use bnc.Http.Request.{Header}
use bnc.Http.Reply.{
  Reply, Status, ok, status_code, to_buffer, to_buffers, flatten, header_buffers, length, crlf,
}

-- The bytes before the first `stop`, and those behind it.
abbrev split_at : ℕ → Bytes → Bytes × Bytes
split_at stop [] = ([], [])
split_at stop (c ∷ s) =
    let rest = split_at stop s in if c == stop then ([], s) else (c ∷ rest.0, rest.1)

-- A line ends with two bytes, of which the first is '\r'.
abbrev read_line : Bytes → Bytes × Bytes
read_line s = let r = split_at b'\r' s in (r.0, drop 1 r.1)

abbrev read_header : Bytes → Header
read_header line = let r = split_at b':' line in record { name = r.0; value = drop 1 r.1 }

abbrev cons_header : Header → Option (List Header × Bytes) → Option (List Header × Bytes)
cons_header h none = none
cons_header h (some (hs, s)) = some (h ∷ hs, s)

pub read_headers : ℕ → Bytes → Option (List Header × Bytes)
read_headers zero s = none
read_headers (suc fuel) s =
    let r = read_line s in
    let more = cons_header (read_header r.0) (read_headers fuel r.1) in
    if is_empty r.0 then some ([], r.1) else more

abbrev with_code : ℕ → Option (List Header × Bytes) → Option (ℕ × List Header × Bytes)
with_code n none = none
with_code n (some (hs, s)) = some (n, hs, s)

-- The number stands behind "HTTP/1.1 ". The fuel bounds the number of lines.
pub read_reply : ℕ → Bytes → Option (ℕ × List Header × Bytes)
unfolding read_headers
read_reply fuel s =
    let r = read_line s in with_code (value_of 0 (take 3 (drop 9 r.0))) (read_headers fuel r.1)

-- A header that can be read back.
pub record IsClean (h : Header) : Type 0 where
  pub name_some : is_empty h.name ≡ false
  pub name_colon : Lacks b':' h.name
  pub name_line : Lacks b'\r' h.name
  pub value_line : Lacks b'\r' h.value

split_at-append :
    (stop : ℕ) (s rest : Bytes) → Lacks stop s → split_at stop (s ++ (stop ∷ rest)) ≡ (s, rest)
split_at-append stop [] rest h = ground arith
split_at-append stop (c ∷ s) rest h = ground (arith, split_at-append stop s rest h.1)

read_line-append :
    (s rest : Bytes) → Lacks b'\r' s → read_line (s ++ (b'\r' ∷ b'\n' ∷ rest)) ≡ (s, rest)
read_line-append s rest h = rw (split_at-append b'\r' s (b'\n' ∷ rest) h)

read_header-append : (h : Header) → IsClean h → read_header (h.name ++ (b':' ∷ b' ' ∷ h.value)) ≡ h
read_header-append h v = rw (split_at-append b':' h.name (b' ' ∷ h.value) v.name_colon)

abbrev header_line : Header → Bytes
header_line h = h.name ++ (b':' ∷ b' ' ∷ h.value)

Lacks-header_line : (h : Header) → IsClean h → Lacks b'\r' (header_line h)
Lacks-header_line h v =
    Lacks-append b'\r' h.name (b':' ∷ b' ' ∷ h.value) v.name_line (refl, (refl, v.value_line))

is_empty-header_line : (h : Header) → IsClean h → is_empty (header_line h) ≡ false
is_empty-header_line h v = go h.name v.name_some
  where
    go : (n : Bytes) → is_empty n ≡ false → is_empty (n ++ (b':' ∷ b' ' ∷ h.value)) ≡ false
    go [] e = cc
    go (c ∷ n) e = refl

read_headers-cons :
    (fuel : ℕ) (h : Header) (rest : Bytes)
    → IsClean h
    → read_headers (suc fuel) (header_line h ++ (b'\r' ∷ b'\n' ∷ rest))
      ≡ cons_header h (read_headers fuel rest)
unfolding read_headers
read_headers-cons fuel h rest v = rw (
  split_at-append b'\r' (header_line h) (b'\n' ∷ rest) (Lacks-header_line h v),
  is_empty-header_line h v,
  read_header-append h v,
)

flatten-header_buffers :
    (h : Header) (hs : List Header) (content : Bytes)
    → flatten (header_buffers (h ∷ hs) ++ (crlf ∷ content ∷ []))
      ≡ header_line h ++ (b'\r' ∷ b'\n' ∷ flatten (header_buffers hs ++ (crlf ∷ content ∷ [])))
unfolding header_buffers
flatten-header_buffers h hs content = rw append_assoc

read_headers-nil :
    (fuel : ℕ) (content : Bytes)
    → read_headers (suc fuel) (flatten (header_buffers [] ++ (crlf ∷ content ∷ [])))
      ≡ some ([], content)
unfolding read_headers header_buffers
read_headers-nil fuel content = rw append-nil

-- The bytes of the headers, with what is sent behind them.
pub read_headers-header_buffers :
    (hs : List Header) (fuel : ℕ) (content : Bytes)
    → All IsClean hs
    → length hs < fuel
    → read_headers fuel (flatten (header_buffers hs ++ (crlf ∷ content ∷ []))) ≡ some (hs, content)
read_headers-header_buffers hs zero content v l = elim l [ ]
read_headers-header_buffers [] (suc fuel) content v l = read_headers-nil fuel content
read_headers-header_buffers (h ∷ hs) (suc fuel) content v l = rw flatten-header_buffers (
    read_headers-cons fuel h _ v.0
    ∙ rw (read_headers-header_buffers hs fuel content v.1 (omega arith)))

-- The number in the status line of each status.
split_at-to_buffer :
    (s : Status) (rest : Bytes)
    → (line : Bytes) × (split_at b'\r' (to_buffer s ++ rest) ≡ (line, b'\n' ∷ rest))
      × (value_of 0 (take 3 (drop 9 line)) ≡ status_code s)
unfolding to_buffer status_code value_of
split_at-to_buffer ok rest = (_, refl, refl)
split_at-to_buffer _ rest = (_, refl, refl)

-- From the bytes of a reply whose headers can be read back, a client that allows for one line more
-- than there are headers gets the number of the status, the headers in their order, and the content.
pub read_reply-to_buffers :
    (r : Reply) (fuel : ℕ)
    → All IsClean r.headers
    → length r.headers < fuel
    → read_reply fuel (flatten (to_buffers r)) ≡ some (status_code r.status, r.headers, r.content)
unfolding read_reply to_buffers
read_reply-to_buffers r fuel v l =
    let (line, e, n) =
      split_at-to_buffer r.status (flatten (header_buffers r.headers ++ (crlf ∷ r.content ∷ []))) in
    rw (e, n, read_headers-header_buffers r.headers fuel r.content v l)
