-- ===== src/Http/Parser/Print/Overflow.antt =====
-- A version number that does not fit in an int, in httpd/request_parser.cpp.
use bnc.Prelude.{ℕ, [], ◌∷◌, ◌≡◌, arith, ◌^◌, ◌≤◌, ◌+◌, ◌<◌, ◌++◌, ◌∙◌, ◌*◌, ◌-◌, refl}
use bnc.Prelude.Bytes.{Bytes, IsDigits, value_of, codes}
use bnc.Http.Parser.{
  parse, consume_in, is_digit, http_version_major_start, request_parser, http_version_major,
  faulted, int_overflow,
}
use bnc.Http.Request.{Request, fresh_request}
use bnc.Http.Parser.Sound.{IsToken, IsUri}
use bnc.Http.Parser.Print.Line.{at, parse-http, parse-uri, parse-method_start}

-- From a number in range, more digits than an int holds end in an overflow.
parse-major_overflow :
    (ds : Bytes) (req : Request) (rest : Bytes)
    → IsDigits ds
    → req.http_version_major + 48 < 2 ^ 31
    → 2 ^ 31 ≤ value_of req.http_version_major ds + 48
    → parse (at http_version_major req) (ds ++ rest) ≡ faulted int_overflow
unfolding parse consume_in is_digit value_of
parse-major_overflow [] req rest d j h = absurd (omega arith)
parse-major_overflow (c ∷ ds) req rest d j h =
    let n = req.http_version_major * 10 + (c - 48) in
    ground (arith, parse-major_overflow ds (record req { http_version_major = n }) rest)

parse-major_start_overflow :
    (c : ℕ) (ds : Bytes) (req : Request) (rest : Bytes)
    → IsDigits (c ∷ ds)
    → req.http_version_major ≡ 0
    → 2 ^ 31 ≤ value_of 0 (c ∷ ds) + 48
    → parse (at http_version_major_start req) (c ∷ (ds ++ rest)) ≡ faulted int_overflow
unfolding parse consume_in is_digit value_of
parse-major_start_overflow c ds req rest d z h =
    ground
      (arith, parse-major_overflow ds (record req { http_version_major = 0 * 10 + (c - 48) }) rest)

-- A request line that is well formed up to its version, and whose major version is a number of at
-- least 2 ^ 31 - 48 in digits, makes the parser overflow an int, whatever follows the digits.
pub parse-int_overflow :
    (c d : ℕ) (m u ds rest : Bytes)
    → IsToken (c ∷ m)
    → IsUri u
    → IsDigits (d ∷ ds)
    → 2 ^ 31 ≤ value_of 0 (d ∷ ds) + 48
    → parse
        (request_parser fresh_request)
        (c ∷ (m ++ (b' ' ∷ (u ++ (b' ' ∷ (codes "HTTP/" ++ (d ∷ (ds ++ rest))))))))
      ≡ faulted int_overflow
parse-int_overflow c d m u ds rest t v w h =
    parse-method_start c m fresh_request _ t
    ∙ parse-uri u _ _ v
    ∙ parse-http _ _
    ∙ parse-major_start_overflow d ds _ rest w refl h
