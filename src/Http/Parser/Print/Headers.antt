-- ===== src/Http/Parser/Print/Headers.antt =====
-- The run of the parser over printed headers.
use bnc.Prelude.{List, [], ◌∷◌, ◌++◌, ◌≡◌, arith, append_assoc, append-nil, refl, ◌∙◌, ap, All}
use bnc.Prelude.Bytes.{Bytes}
use bnc.Http.Request.{Header, Request}
use bnc.Http.Parser.{
  not_token, consume_in, parse, is_ctl, ℕ, header_line_start, name_back, value_back, header_name,
  header_value, false, new_header, stopped, good, expecting_newline_3,
}
use bnc.Http.Parser.Safety.{is_empty-concat}
use bnc.Http.Parser.Sound.{IsToken, IsText, ValidHeader}
use bnc.Http.Parser.Print.{print_header, print_headers}
use bnc.Http.Parser.Print.Line.{at}

name_back-concat :
    (hs : List Header) (h : Header) (c : ℕ)
    → name_back (hs ++ h ∷ []) c ≡ hs ++ record h { name = h.name ++ c ∷ [] } ∷ []
unfolding name_back
name_back-concat [] h c = refl
name_back-concat (x ∷ []) h c = refl
name_back-concat (x ∷ y ∷ hs) h c = ap (◌∷◌ x) (name_back-concat (y ∷ hs) h c)

value_back-concat :
    (hs : List Header) (h : Header) (c : ℕ)
    → value_back (hs ++ h ∷ []) c ≡ hs ++ record h { value = h.value ++ c ∷ [] } ∷ []
unfolding value_back
value_back-concat [] h c = refl
value_back-concat (x ∷ []) h c = refl
value_back-concat (x ∷ y ∷ hs) h c = ap (◌∷◌ x) (value_back-concat (y ∷ hs) h c)

-- The request whose headers are `hs` and, last, a header with this name and value.
abbrev with_last : Request → List Header → Bytes → Bytes → Request
with_last req hs n v = record req { headers = hs ++ (record { name = n; value = v }) ∷ [] }

module _ (req : Request) (hs : List Header) where
  parse-name :
      (m n v : Bytes) (rest : Bytes)
      → IsToken m
      → parse (at header_name (with_last req hs n v)) (m ++ (b':' ∷ b' ' ∷ rest))
        ≡ parse (at header_value (with_last req hs (n ++ m) v)) rest
  unfolding parse consume_in not_token
  parse-name [] n v rest t = rw append-nil
  parse-name (c ∷ m) n v rest t = ground (
    arith,
    is_empty-concat hs (record { name = n; value = v }),
    name_back-concat hs (record { name = n; value = v }) c,
    parse-name m (n ++ c ∷ []) v rest,
    append_assoc n (c ∷ []) m,
  )

  parse-value :
      (m n v : Bytes) (rest : Bytes)
      → IsText m
      → parse (at header_value (with_last req hs n v)) (m ++ (b'\r' ∷ b'\n' ∷ rest))
        ≡ parse (at header_line_start (with_last req hs n (v ++ m))) rest
  unfolding parse consume_in is_ctl
  parse-value [] n v rest t = rw append-nil
  parse-value (c ∷ m) n v rest t = ground (
    arith,
    is_empty-concat hs (record { name = n; value = v }),
    value_back-concat hs (record { name = n; value = v }) c,
    parse-value m n (v ++ c ∷ []) rest,
    append_assoc v (c ∷ []) m,
  )

parse-header_line_start :
    (c : ℕ) (req : Request) (rest : Bytes)
    → not_token c ≡ false
    → parse (at header_line_start req) (c ∷ rest) ≡ parse (at header_name (new_header req c)) rest
unfolding parse consume_in not_token
parse-header_line_start c req rest t = ground arith

parse-print_header :
    (h : Header) (req : Request) (rest : Bytes)
    → ValidHeader h
    → parse (at header_line_start req) (print_header h rest)
      ≡ parse (at header_line_start (record req { headers = req.headers ++ h ∷ [] })) rest
parse-print_header h req rest v = go h.name refl
  where
    go :
        (n : Bytes)
        → h.name ≡ n
        → parse (at header_line_start req) (print_header h rest)
          ≡ parse (at header_line_start (record req { headers = req.headers ++ h ∷ [] })) rest
    go [] e = cc (rw e at v.name_some)
    go (c ∷ n) e =
        let t = rw e at v.name_token in
        rw e (
          parse-header_line_start c req _ t.0
          ∙ parse-name req req.headers n (c ∷ []) [] _ t.1
          ∙ parse-value req req.headers h.value (c ∷ n) [] rest v.value_text
          ∙ rw (← e))

pub parse-print_headers :
    (hs : List Header) (req : Request) (rest : Bytes)
    → All ValidHeader hs
    → parse (at header_line_start req) (print_headers hs (b'\r' ∷ b'\n' ∷ rest))
      ≡ stopped good rest (at expecting_newline_3 (record req { headers = req.headers ++ hs }))
parse-print_headers [] req rest v = rw append-nil (unfold parse consume_in in refl)
parse-print_headers (h ∷ hs) req rest v =
    parse-print_header h req _ v.0
    ∙ parse-print_headers hs (record req { headers = req.headers ++ h ∷ [] }) rest v.1
    ∙ rw append_assoc
