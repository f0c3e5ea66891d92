-- ===== src/Http/Parser/Print/Line.antt =====
-- The run of the parser over a printed request line.
use bnc.Prelude.{
  [], ◌∷◌, ◌++◌, ◌≡◌, arith, append_assoc, append-nil, ◌+◌, refl, ◌<◌, ◌^◌, ◌*◌, ◌-◌, ◌∙◌,
}
use bnc.Prelude.Bytes.{
  Bytes, codes, to_string, value_of, IsDigits, value_of-le, to_string-some, to_string-IsDigits,
  value_of-to_string,
}
use bnc.Http.Request.{Request}
use bnc.Http.Parser.{
  State, method, uri, Parser, not_token, consume_in, parse, push_method, is_ctl, http_version_h,
  is_digit, http_version_major_start, push_uri, ℕ, http_version_major, http_version_minor,
  http_version_minor_start, header_line_start, method_start,
}
use bnc.Http.Parser.Sound.{IsToken, IsUri}
use bnc.Http.Parser.Print.{print_version}

abbrev pub at : State → Request → Parser
at s req = record { state = s; req = req }

parse-method :
    (m : Bytes) (req : Request) (rest : Bytes)
    → IsToken m
    → parse (at method req) (m ++ (b' ' ∷ rest))
      ≡ parse (at uri (record req { method = req.method ++ m })) rest
unfolding parse consume_in not_token
parse-method [] req rest t = rw append-nil
parse-method (c ∷ m) req rest t =
    ground (arith, parse-method m (push_method req c) rest, append_assoc req.method (c ∷ []) m)

pub parse-uri :
    (u : Bytes) (req : Request) (rest : Bytes)
    → IsUri u
    → parse (at uri req) (u ++ (b' ' ∷ rest))
      ≡ parse (at http_version_h (record req { uri = req.uri ++ u })) rest
unfolding parse consume_in is_ctl
parse-uri [] req rest t = rw append-nil
parse-uri (c ∷ u) req rest t =
    ground (arith, parse-uri u (push_uri req c) rest, append_assoc req.uri (c ∷ []) u)

pub parse-http :
    (req : Request) (rest : Bytes)
    → parse (at http_version_h req) (codes "HTTP/" ++ rest)
      ≡ parse
          (at http_version_major_start
            (record req { http_version_major = 0; http_version_minor = 0 }))
          rest
unfolding parse consume_in
parse-http req rest = refl

parse-major :
    (ds : Bytes) (req : Request) (rest : Bytes)
    → IsDigits ds
    → value_of req.http_version_major ds + 48 < 2 ^ 31
    → parse (at http_version_major req) (ds ++ rest)
      ≡ parse
          (at http_version_major
            (record req { http_version_major = value_of req.http_version_major ds }))
          rest
unfolding parse consume_in is_digit value_of
parse-major [] req rest d h = refl
parse-major (c ∷ ds) req rest d h =
    let n = req.http_version_major * 10 + (c - 48) in
    ground (arith, value_of-le n ds, parse-major ds (record req { http_version_major = n }) rest)

parse-minor :
    (ds : Bytes) (req : Request) (rest : Bytes)
    → IsDigits ds
    → value_of req.http_version_minor ds + 48 < 2 ^ 31
    → parse (at http_version_minor req) (ds ++ rest)
      ≡ parse
          (at http_version_minor
            (record req { http_version_minor = value_of req.http_version_minor ds }))
          rest
unfolding parse consume_in is_digit value_of
parse-minor [] req rest d h = refl
parse-minor (c ∷ ds) req rest d h =
    let n = req.http_version_minor * 10 + (c - 48) in
    ground (arith, value_of-le n ds, parse-minor ds (record req { http_version_minor = n }) rest)

-- The first digit of each number leads out of a state of its own.
parse-major_start :
    (c : ℕ) (ds : Bytes) (req : Request) (rest : Bytes)
    → IsDigits (c ∷ ds)
    → value_of 0 (c ∷ ds) + 48 < 2 ^ 31
    → req.http_version_major ≡ 0
    → parse (at http_version_major_start req) (c ∷ (ds ++ (b'.' ∷ rest)))
      ≡ parse
          (at http_version_minor_start (record req { http_version_major = value_of 0 (c ∷ ds) }))
          rest
unfolding parse consume_in is_digit value_of
parse-major_start c ds req rest d h z = ground (
  arith,
  value_of-le (0 * 10 + (c - 48)) ds,
  parse-major ds (record req { http_version_major = 0 * 10 + (c - 48) }) (b'.' ∷ rest),
)

parse-minor_start :
    (c : ℕ) (ds : Bytes) (req : Request) (rest : Bytes)
    → IsDigits (c ∷ ds)
    → value_of 0 (c ∷ ds) + 48 < 2 ^ 31
    → req.http_version_minor ≡ 0
    → parse (at http_version_minor_start req) (c ∷ (ds ++ (b'\r' ∷ b'\n' ∷ rest)))
      ≡ parse (at header_line_start (record req { http_version_minor = value_of 0 (c ∷ ds) })) rest
unfolding parse consume_in is_digit value_of
parse-minor_start c ds req rest d h z = ground (
  arith,
  value_of-le (0 * 10 + (c - 48)) ds,
  parse-minor ds (record req { http_version_minor = 0 * 10 + (c - 48) }) (b'\r' ∷ b'\n' ∷ rest),
)

module _ (n : ℕ) (req : Request) (rest : Bytes) (small : n + 48 < 2 ^ 31) where
  parse-major_start-to_string :
      req.http_version_major ≡ 0
      → parse (at http_version_major_start req) (to_string n ++ (b'.' ∷ rest))
        ≡ parse (at http_version_minor_start (record req { http_version_major = n })) rest
  parse-major_start-to_string z =
      let (c, s, e) = to_string-some n in
      let d = rw e at (to_string-IsDigits n) in
      let v = rw e at (value_of-to_string n) in
      rw (e, parse-major_start c s req rest d (omega arith) z, v)

  parse-minor_start-to_string :
      req.http_version_minor ≡ 0
      → parse (at http_version_minor_start req) (to_string n ++ (b'\r' ∷ b'\n' ∷ rest))
        ≡ parse (at header_line_start (record req { http_version_minor = n })) rest
  parse-minor_start-to_string z =
      let (c, s, e) = to_string-some n in
      let d = rw e at (to_string-IsDigits n) in
      let v = rw e at (value_of-to_string n) in
      rw (e, parse-minor_start c s req rest d (omega arith) z, v)

pub parse-print_version :
    (v req : Request) (rest : Bytes)
    → v.http_version_major + 48 < 2 ^ 31
    → v.http_version_minor + 48 < 2 ^ 31
    → parse (at http_version_h req) (print_version v rest)
      ≡ parse
          (at header_line_start (record req {
            http_version_major = v.http_version_major;
            http_version_minor = v.http_version_minor;
          }))
          rest
parse-print_version v req rest j i =
    parse-http req _
    ∙ parse-major_start-to_string v.http_version_major _ _ j refl
    ∙ parse-minor_start-to_string v.http_version_minor _ rest i refl

pub parse-method_start :
    (c : ℕ) (m : Bytes) (req : Request) (rest : Bytes)
    → IsToken (c ∷ m)
    → parse (at method_start req) (c ∷ (m ++ (b' ' ∷ rest)))
      ≡ parse (at uri (record req { method = req.method ++ c ∷ m })) rest
unfolding parse consume_in not_token
parse-method_start c m req rest t =
    ground (arith, parse-method m (push_method req c) rest, append_assoc req.method (c ∷ []) m)
