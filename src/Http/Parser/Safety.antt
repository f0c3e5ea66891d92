-- ===== src/Http/Parser/Safety.antt =====
-- The calls of `back()` on the headers in httpd/request_parser.cpp.
use bnc.Prelude.{is_empty, ℕ, false, List, [], ◌∷◌, ◌++◌, ◌≡◌, ◌≢◌, refl, arith}
use bnc.Prelude.Bytes.{Bytes}
use bnc.Http.Request.{Header, Request}
use bnc.Http.Parser.{
  good, bad, indeterminate, State, method_start, header_lws, header_name, space_before_header_value,
  header_value, back_of_empty, int_overflow, Parser, Consumed, done, undefined, name_back,
  value_back, consume_in, consume, Parsed, stopped, faulted, after, parse, request_parser,
}

-- The states that may touch `headers.back()` have a header.
abbrev pub HasHeader : State → List Header → Type 0
HasHeader header_lws hs = is_empty hs ≡ false
HasHeader header_name hs = is_empty hs ≡ false
HasHeader space_before_header_value hs = is_empty hs ≡ false
HasHeader header_value hs = is_empty hs ≡ false
HasHeader _ hs = Unit

abbrev SafeStep : Consumed → Type 0
SafeStep (done r p) = HasHeader p.state p.req.headers
SafeStep (undefined back_of_empty) = ⊥
SafeStep (undefined int_overflow) = Unit

pub is_empty-concat : (hs : List Header) (h : Header) → is_empty (hs ++ h ∷ []) ≡ false
is_empty-concat [] h = refl
is_empty-concat (x ∷ hs) h = refl

pub is_empty-name_back : (hs : List Header) (c : ℕ) → is_empty (name_back hs c) ≡ is_empty hs
unfolding name_back
is_empty-name_back [] c = refl
is_empty-name_back (h ∷ []) c = refl
is_empty-name_back (h ∷ i ∷ hs) c = refl

pub is_empty-value_back : (hs : List Header) (c : ℕ) → is_empty (value_back hs c) ≡ is_empty hs
unfolding value_back
is_empty-value_back [] c = refl
is_empty-value_back (h ∷ []) c = refl
is_empty-value_back (h ∷ i ∷ hs) c = refl

consume_in-SafeStep :
    (s : State) (req : Request) (c : ℕ) → HasHeader s req.headers → SafeStep (consume_in s req c)
unfolding consume_in
consume_in-SafeStep method_start req c h = ground arith
consume_in-SafeStep _ req c h = ground (
  arith,
  is_empty-concat req.headers (record { name = c ∷ []; value = [] }),
  is_empty-name_back req.headers c,
  is_empty-value_back req.headers c,
)

abbrev pub SafeParse : Parsed → Type 0
SafeParse (stopped r rest p) = HasHeader p.state p.req.headers
SafeParse (faulted f) = f ≢ back_of_empty

after-SafeParse :
    (o : Consumed) (rest : Bytes) (more : Parser → Parsed)
    → ((p : Parser) → HasHeader p.state p.req.headers → SafeParse (more p))
    → SafeStep o
    → SafeParse (after o rest more)
after-SafeParse (done indeterminate p) rest more f h = f p h
after-SafeParse (done good p) rest more f h = h
after-SafeParse (done bad p) rest more f h = h
after-SafeParse (undefined back_of_empty) rest more f h = absurd h
after-SafeParse (undefined int_overflow) rest more f h = λ e. cc

pub parse-SafeParse :
    (cs : Bytes) (p : Parser) → HasHeader p.state p.req.headers → SafeParse (parse p cs)
unfolding parse
parse-SafeParse [] p h = h
parse-SafeParse (c ∷ cs) p h =
    after-SafeParse (consume p c) cs (λ q. parse q cs) (λ q. parse-SafeParse cs q)
      (consume_in-SafeStep p.state p.req c h)

-- From the start state, whatever request is being filled and whatever bytes arrive, the parser
-- never calls `back()` on an empty vector of headers.
pub parse-ne-back_of_empty :
    (req : Request) (cs : Bytes) → parse (request_parser req) cs ≢ faulted back_of_empty
parse-ne-back_of_empty req cs e = (rw e at (parse-SafeParse cs (request_parser req) tt)) refl
