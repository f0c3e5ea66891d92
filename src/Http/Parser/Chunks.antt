-- ===== src/Http/Parser/Chunks.antt =====
-- Requests that come in several buffers, in httpd/request_parser.hpp.
use bnc.Prelude.{[], ◌∷◌, ◌++◌, ◌≡◌, refl}
use bnc.Prelude.Bytes.{Bytes}
use bnc.Http.Parser.{
  good, bad, indeterminate, Parser, Consumed, done, undefined, consume, Parsed, stopped, faulted,
  after, parse,
}

-- Going on with `ys` after a first buffer gave this result.
abbrev pub resume : Parsed → Bytes → Parsed
resume (stopped indeterminate rest p) ys = parse p ys
resume (stopped good rest p) ys = stopped good (rest ++ ys) p
resume (stopped bad rest p) ys = stopped bad (rest ++ ys) p
resume (faulted f) ys = faulted f

after-append :
    (o : Consumed) (xs ys : Bytes)
    → ((p : Parser) → parse p (xs ++ ys) ≡ resume (parse p xs) ys)
    → after o (xs ++ ys) (λ q. parse q (xs ++ ys)) ≡ resume (after o xs (λ q. parse q xs)) ys
after-append (done indeterminate p) xs ys h = h p
after-append (done good p) xs ys h = refl
after-append (done bad p) xs ys h = refl
after-append (undefined f) xs ys h = refl

-- Parsing two buffers in one call is parsing the first and, while more is wanted, the second from
-- the parser that the first left; a request that ends in the first leaves the second unread.
pub parse-append : (xs ys : Bytes) (p : Parser) → parse p (xs ++ ys) ≡ resume (parse p xs) ys
unfolding parse
parse-append [] ys p = refl
parse-append (c ∷ xs) ys p = after-append (consume p c) xs ys (λ q. parse-append xs ys q)
