-- ===== src/Http/Parser/Print.antt =====
-- A request as a client writes it: the request line, the headers and the empty line.
pub mod Line
pub mod Headers
pub mod RoundTrip
pub mod Overflow
use bnc.Prelude.{
  List, [], ◌∷◌, ◌++◌, ◌≡◌, arith, append_assoc, append-nil, ◌+◌, refl, ◌<◌, ◌^◌, ◌*◌, ◌-◌, ◌∙◌, ap,
  All,
}
use bnc.Prelude.Bytes.{
  Bytes, codes, to_string, value_of, IsDigits, value_of-le, to_string-some, to_string-IsDigits,
  value_of-to_string,
}
use bnc.Http.Request.{Header, Request, fresh_request}
use bnc.Http.Parser.{
  State, method, uri, Parser, not_token, consume_in, parse, push_method, is_ctl, http_version_h,
  is_digit, http_version_major_start, push_uri, ℕ, http_version_major, http_version_minor,
  http_version_minor_start, header_line_start, name_back, value_back, header_name, header_value,
  false, method_start, request_parser, new_header, stopped, good, expecting_newline_3,
}
use bnc.Http.Parser.Safety.{is_empty-concat}
use bnc.Http.Parser.Sound.{IsToken, IsUri, IsText, ValidHeader, ValidRequest, parse-ValidRequest}

abbrev pub print_header : Header → Bytes → Bytes
print_header h rest = h.name ++ (b':' ∷ b' ' ∷ (h.value ++ (b'\r' ∷ b'\n' ∷ rest)))

abbrev pub print_headers : List Header → Bytes → Bytes
print_headers [] rest = rest
print_headers (h ∷ hs) rest = print_header h (print_headers hs rest)

abbrev pub print_version : Request → Bytes → Bytes
print_version req rest =
    codes "HTTP/"
    ++ (to_string req.http_version_major
        ++ (b'.' ∷ (to_string req.http_version_minor ++ (b'\r' ∷ b'\n' ∷ rest))))

-- The request line, the headers and the empty line, with `rest` behind them.
abbrev pub print_request : Request → Bytes → Bytes
print_request req rest =
    req.method
    ++ (b' '
        ∷ (req.uri
            ++ (b' ' ∷ print_version req (print_headers req.headers (b'\r' ∷ b'\n' ∷ rest)))))
