-- ===== src/Http/Parser/Print/RoundTrip.antt =====
-- Printed requests and `parse` of httpd/request_parser.hpp.
use bnc.Prelude.{[], ◌∷◌, ◌≡◌, refl, ◌∙◌}
use bnc.Prelude.Bytes.{Bytes}
use bnc.Http.Request.{Request, fresh_request}
use bnc.Http.Parser.{Parser, parse, request_parser, stopped, good, expecting_newline_3}
use bnc.Http.Parser.Sound.{ValidRequest, parse-ValidRequest}
use bnc.Http.Parser.Print.{print_request}
use bnc.Http.Parser.Print.Line.{parse-uri, parse-method_start, parse-print_version}
use bnc.Http.Parser.Print.Headers.{parse-print_headers}

-- The parser reads back every well-formed request as it was, and leaves what follows it unread.
pub parse-print_request :
    (req : Request) (rest : Bytes)
    → ValidRequest req
    → parse (request_parser fresh_request) (print_request req rest)
      ≡ stopped good rest (record { state = expecting_newline_3; req = req })
parse-print_request req rest v = go req.method refl
  where
    go :
        (m : Bytes)
        → req.method ≡ m
        → parse (request_parser fresh_request) (print_request req rest)
          ≡ stopped good rest (record { state = expecting_newline_3; req = req })
    go [] e = cc (rw e at v.method_some)
    go (c ∷ m) e = rw e (
        parse-method_start c m fresh_request _ (rw e at v.method_token)
        ∙ parse-uri req.uri _ _ v.uri_valid
        ∙ parse-print_version req _ _ v.major_small v.minor_small
        ∙ parse-print_headers req.headers _ rest v.headers_valid
        ∙ rw (← e))

-- What the parser accepted, written out anew, is accepted with the same meaning.
pub parse-print_request-parse :
    (cs rest : Bytes) (p : Parser)
    → parse (request_parser fresh_request) cs ≡ stopped good rest p
    → parse (request_parser fresh_request) (print_request p.req rest)
      ≡ stopped good rest (record { state = expecting_newline_3; req = p.req })
parse-print_request-parse cs rest p e =
    parse-print_request p.req rest (parse-ValidRequest cs rest p e)
