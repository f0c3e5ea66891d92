-- ===== src/Http/Parser/Sound.antt =====
-- Well-formed requests and `parse` of httpd/request_parser.hpp.
use bnc.Prelude.{
  is_empty, ℕ, ◌+◌, ◌^◌, ◌<◌, false, List, [], ◌∷◌, ◌++◌, ◌≡◌, refl, arith, All, All-append, ◌==◌,
}
use bnc.Prelude.Bytes.{Bytes}
use bnc.Http.Request.{Header, Request, fresh_request}
use bnc.Http.Parser.{
  State, method_start, Consumed, done, undefined, is_ctl, not_token, name_back, value_back,
  consume_in, Parsed, Parser, parse, good, after, consume, request_parser, stopped, indeterminate,
  bad,
}
use bnc.Http.Parser.Safety.{HasHeader, is_empty-concat, is_empty-name_back, is_empty-value_back}

-- Bytes of a method or of a header's name, of a uri, and of a header's value.
abbrev pub IsToken : Bytes → Type 0
IsToken = All λ c. not_token c ≡ false

abbrev pub IsUri : Bytes → Type 0
IsUri = All λ c. (is_ctl c ≡ false) × ((c == b' ') ≡ false)

abbrev pub IsText : Bytes → Type 0
IsText = All λ c. is_ctl c ≡ false

pub record ValidHeader (h : Header) : Type 0 where
  pub name_token : IsToken h.name
  pub name_some : is_empty h.name ≡ false
  pub value_text : IsText h.value

-- The largest version numbers fall short of 2 ^ 31 by the code of '0'.
pub record ValidRequest (req : Request) : Type 0 where
  pub method_token : IsToken req.method
  pub method_some : is_empty req.method ≡ false
  pub uri_valid : IsUri req.uri
  pub major_small : req.http_version_major + 48 < 2 ^ 31
  pub minor_small : req.http_version_minor + 48 < 2 ^ 31
  pub headers_valid : All ValidHeader req.headers

-- The method has a byte once the start state is left.
abbrev HasMethod : State → Bytes → Type 0
HasMethod method_start m = Unit
HasMethod _ m = is_empty m ≡ false

-- What holds of the request in each state.
record Inv (s : State) (req : Request) : Type 0 where
  method_token : IsToken req.method
  method_some : HasMethod s req.method
  uri_valid : IsUri req.uri
  major_small : req.http_version_major + 48 < 2 ^ 31
  minor_small : req.http_version_minor + 48 < 2 ^ 31
  headers_valid : All ValidHeader req.headers
  has_header : HasHeader s req.headers

is_empty-snoc : (m : Bytes) (c : ℕ) → is_empty (m ++ c ∷ []) ≡ false
is_empty-snoc [] c = refl
is_empty-snoc (x ∷ m) c = refl

name_back-ValidHeader :
    (hs : List Header) (c : ℕ)
    → All ValidHeader hs
    → not_token c ≡ false
    → All ValidHeader (name_back hs c)
unfolding name_back
name_back-ValidHeader [] c v t = tt
name_back-ValidHeader (h ∷ []) c v t = (
  record {
    name_token = All-append _ h.name (c ∷ []) v.0.name_token (t, tt);
    name_some = is_empty-snoc h.name c;
    value_text = v.0.value_text;
  },
  tt,
)
name_back-ValidHeader (h ∷ i ∷ hs) c v t = (v.0, name_back-ValidHeader (i ∷ hs) c v.1 t)

value_back-ValidHeader :
    (hs : List Header) (c : ℕ)
    → All ValidHeader hs
    → is_ctl c ≡ false
    → All ValidHeader (value_back hs c)
unfolding value_back
value_back-ValidHeader [] c v t = tt
value_back-ValidHeader (h ∷ []) c v t = (
  record {
    name_token = v.0.name_token;
    name_some = v.0.name_some;
    value_text = All-append _ h.value (c ∷ []) v.0.value_text (t, tt);
  },
  tt,
)
value_back-ValidHeader (h ∷ i ∷ hs) c v t = (v.0, value_back-ValidHeader (i ∷ hs) c v.1 t)

new_header-ValidHeader :
    (hs : List Header) (c : ℕ)
    → All ValidHeader hs
    → not_token c ≡ false
    → All ValidHeader (hs ++ (record { name = c ∷ []; value = [] }) ∷ [])
new_header-ValidHeader hs c v t =
    All-append _ hs _ v (record { name_token = (t, tt); name_some = refl; value_text = tt }, tt)

abbrev InvStep : Consumed → Type 0
InvStep (done r p) = Inv p.state p.req
InvStep (undefined f) = Unit

consume_in-InvStep : (s : State) (req : Request) (c : ℕ) → Inv s req → InvStep (consume_in s req c)
unfolding consume_in
consume_in-InvStep method_start req c v =
    ground
      (arith, All-append (λ x. not_token x ≡ false) req.method (c ∷ []), is_empty-snoc req.method c)
consume_in-InvStep _ req c v = ground (
  arith,
  All-append (λ x. not_token x ≡ false) req.method (c ∷ []),
  is_empty-snoc req.method c,
  All-append (λ x. (is_ctl x ≡ false) × ((x == b' ') ≡ false)) req.uri (c ∷ []),
  name_back-ValidHeader req.headers c,
  value_back-ValidHeader req.headers c,
  new_header-ValidHeader req.headers c,
  is_empty-concat req.headers (record { name = c ∷ []; value = [] }),
  is_empty-name_back req.headers c,
  is_empty-value_back req.headers c,
)

-- The last state that takes a byte with the result `good` is the one before the final newline.
abbrev GoodStep : Consumed → Type 0
GoodStep (done good p) = is_empty p.req.method ≡ false
GoodStep _ = Unit

consume_in-GoodStep :
    (s : State) (req : Request) (c : ℕ) → Inv s req → GoodStep (consume_in s req c)
unfolding consume_in
consume_in-GoodStep method_start req c v = ground arith
consume_in-GoodStep _ req c v = ground arith

abbrev ValidParse : Parsed → Type 0
ValidParse (stopped good rest p) = ValidRequest p.req
ValidParse _ = Unit

Inv-ValidRequest :
    {s : State} (req : Request) → Inv s req → is_empty req.method ≡ false → ValidRequest req
Inv-ValidRequest req v m = record {
  method_token = v.method_token;
  method_some = m;
  uri_valid = v.uri_valid;
  major_small = v.major_small;
  minor_small = v.minor_small;
  headers_valid = v.headers_valid;
}

after-ValidParse :
    (o : Consumed) (rest : Bytes) (more : Parser → Parsed)
    → ((p : Parser) → Inv p.state p.req → ValidParse (more p))
    → InvStep o
    → GoodStep o
    → ValidParse (after o rest more)
after-ValidParse (done indeterminate p) rest more f v g = f p v
after-ValidParse (done good p) rest more f v g = Inv-ValidRequest p.req v g
after-ValidParse (done bad p) rest more f v g = tt
after-ValidParse (undefined e) rest more f v g = tt

parse-ValidParse : (cs : Bytes) (p : Parser) → Inv p.state p.req → ValidParse (parse p cs)
unfolding parse
parse-ValidParse [] p v = tt
parse-ValidParse (c ∷ cs) p v =
    after-ValidParse (consume p c) cs (λ q. parse q cs) (λ q. parse-ValidParse cs q)
      (consume_in-InvStep p.state p.req c v) (consume_in-GoodStep p.state p.req c v)

fresh-Inv : Inv method_start fresh_request
fresh-Inv = record {
  method_token = tt;
  method_some = tt;
  uri_valid = tt;
  major_small = omega arith;
  minor_small = omega arith;
  headers_valid = tt;
  has_header = tt;
}

-- A request that the parser accepts is well formed: its method and the names of its headers are
-- tokens with at least one byte, its uri has no control byte and no space, the values of its
-- headers have no control byte, and both version numbers are in the range of int.
pub parse-ValidRequest :
    (cs rest : Bytes) (p : Parser)
    → parse (request_parser fresh_request) cs ≡ stopped good rest p
    → ValidRequest p.req
parse-ValidRequest cs rest p e =
    rw e at (parse-ValidParse cs (request_parser fresh_request) fresh-Inv)
