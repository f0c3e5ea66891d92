-- ===== src/Tests/Parsing.antt =====
-- Requests of httpd/request_parser.cpp.
use bnc.Prelude.{[], ◌∷◌, ◌++◌, ◌≡◌, refl, arith, ◌^◌, ◌≤◌, ◌+◌}
use bnc.Prelude.Bytes.{Bytes, codes, value_of, IsDigits}
use bnc.Http.Request.{Request, fresh_request}
use bnc.Http.Parser.{
  is_digit, name_back, value_back, Parser, stopped, faulted, good, expecting_newline_3,
  int_overflow, request_parser, parse, consume_in, is_ctl, not_token,
}
use bnc.Http.Parser.Sound.{IsToken, IsUri, ValidRequest, parse-ValidRequest}
use bnc.Http.Parser.Print.{print_request}
use bnc.Http.Parser.Print.RoundTrip.{parse-print_request}
use bnc.Http.Parser.Print.Overflow.{parse-int_overflow}

abbrev text : Bytes
text = codes "GET /a HTTP/1.1\r\nHost: b\r\n\r\n"

abbrev request : Request
request = record {
  method = codes "GET";
  uri = codes "/a";
  http_version_major = 1;
  http_version_minor = 1;
  headers = (record { name = codes "Host"; value = codes "b" }) ∷ [];
}

abbrev parsed : Parser
parsed = record { state = expecting_newline_3; req = request }

parse-text : parse (request_parser fresh_request) text ≡ stopped good [] parsed
unfolding parse consume_in not_token is_digit is_ctl name_back value_back
parse-text = refl

request-ValidRequest : ValidRequest request
request-ValidRequest = parse-ValidRequest text [] parsed parse-text

parse-ValidRequest_example : ValidRequest request
parse-ValidRequest_example = parse-ValidRequest text [] parsed parse-text

parse-print_request_example :
    parse (request_parser fresh_request) (print_request request (codes "rest"))
    ≡ stopped good (codes "rest") parsed
parse-print_request_example = parse-print_request request (codes "rest") request-ValidRequest

get-IsToken : IsToken (codes "GET")
unfolding not_token
get-IsToken = (refl, (refl, (refl, tt)))

a-IsUri : IsUri (codes "/a")
unfolding is_ctl
a-IsUri = ((refl, refl), ((refl, refl), tt))

digits : IsDigits (codes "2147483600")
digits = ground arith

large : 2 ^ 31 ≤ value_of 0 (codes "2147483600") + 48
unfolding value_of
large = omega arith

parse-int_overflow_example :
    parse (request_parser fresh_request) (
      b'G'
      ∷ (codes "ET"
          ++ (b' '
              ∷ (codes "/a"
                  ++ (b' ' ∷ (codes "HTTP/" ++ (b'2' ∷ (codes "147483600" ++ codes ".1"))))))))
    ≡ faulted int_overflow
parse-int_overflow_example =
    parse-int_overflow b'G' b'2' (codes "ET") (codes "/a") (codes "147483600") (codes ".1")
      get-IsToken a-IsUri digits large
