-- ===== src/Http/Parser.antt =====
-- httpd/request_parser.hpp and httpd/request_parser.cpp: the state machine that reads a request one
-- byte at a time. A byte is a number below 256; `is_char` and `is_ctl` answer alike for a byte of
-- 128 or more whether char is signed or not. What C++ leaves undefined (`back()` of an empty
-- vector, an int that overflows) is the result `undefined`.
pub mod Safety
pub mod Chunks
pub mod Sound
pub mod Print
use bnc.Prelude.{
  ℕ, ◌+◌, ◌-◌, ◌*◌, ◌^◌, Bool, true, false, not, ◌&&◌, ◌||◌, List, [], ◌∷◌, ◌++◌, ltb, leb, ◌==◌,
  if◌then◌else◌, is_empty,
}
use bnc.Prelude.Bytes.{Bytes}
use bnc.Http.Request.{Header, Request}

pub data ResultType : Type 0 where
  good bad indeterminate : ResultType

pub data State : Type 0 where
  method_start method uri : State
  http_version_h http_version_t_1 http_version_t_2 http_version_p http_version_slash : State
  http_version_major_start http_version_major http_version_minor_start http_version_minor : State
  expecting_newline_1 header_line_start header_lws header_name space_before_header_value : State
  header_value expecting_newline_2 expecting_newline_3 : State

pub data Fault : Type 0 where
  back_of_empty int_overflow : Fault

-- A parser's `state_` with the request that it fills.
pub record Parser : Type 0 where
  pub state : State
  pub req : Request

-- One call of `consume`: its result with what it leaves behind, or undefined behaviour.
pub data Consumed : Type 0 where
  done : ResultType → Parser → Consumed
  undefined : Fault → Consumed

pub is_char : ℕ → Bool
is_char c = leb 0 c && leb c 127

unfoldable pub is_ctl : ℕ → Bool
is_ctl c = (leb 0 c && leb c 31) || c == 127

pub is_tspecial : ℕ → Bool
is_tspecial c =
    (c == b'(' || c == b')' || c == b'<' || c == b'>' || c == b'@')
    || (c == b',' || c == b';' || c == b':' || c == b'\\' || c == b'"')
    || (c == b'/' || c == b'[' || c == b']' || c == b'?' || c == b'=')
    || (c == b'{' || c == b'}' || c == b' ' || c == b'\t')

unfoldable pub is_digit : ℕ → Bool
is_digit c = leb b'0' c && leb c b'9'

-- `!is_char(input) || is_ctl(input) || is_tspecial(input)`
unfoldable pub not_token : ℕ → Bool
unfolding is_char is_ctl is_tspecial
not_token c = not (is_char c) || is_ctl c || is_tspecial c

-- `state_ = s; return indeterminate;`
abbrev pub go : State → Request → Consumed
go s req = done indeterminate (record { state = s; req = req })

abbrev pub refuse : State → Request → Consumed
refuse s req = done bad (record { state = s; req = req })

abbrev pub push_method : Request → ℕ → Request
push_method req c = record req { method = req.method ++ c ∷ [] }

abbrev pub push_uri : Request → ℕ → Request
push_uri req c = record req { uri = req.uri ++ c ∷ [] }

-- `n * 10 + input - '0'` on int, from left to right: the sum is formed before '0' is taken off.
abbrev next_digit : ℕ → ℕ → (ℕ → Consumed) → Consumed
next_digit n c k =
    if ltb (n * 10 + c) (2 ^ 31) then k (n * 10 + c - b'0') else undefined int_overflow

-- `req.headers.push_back(header()); req.headers.back().name.push_back(input);`
abbrev pub new_header : Request → ℕ → Request
new_header req c = record req {
  headers = req.headers ++ (record { name = c ∷ []; value = [] }) ∷ [];
}

-- `req.headers.back().name.push_back(c)` on the headers
unfoldable pub name_back : List Header → ℕ → List Header
name_back [] c = []
name_back (h ∷ []) c = record h { name = h.name ++ c ∷ [] } ∷ []
name_back (h ∷ i ∷ hs) c = h ∷ name_back (i ∷ hs) c

-- `req.headers.back().value.push_back(c)` on the headers
unfoldable pub value_back : List Header → ℕ → List Header
value_back [] c = []
value_back (h ∷ []) c = record h { value = h.value ++ c ∷ [] } ∷ []
value_back (h ∷ i ∷ hs) c = h ∷ value_back (i ∷ hs) c

push_name : Request → ℕ → Consumed
push_name req c =
    if is_empty req.headers
    then undefined back_of_empty
    else go header_name (record req { headers = name_back req.headers c })

push_value : Request → ℕ → Consumed
push_value req c =
    if is_empty req.headers
    then undefined back_of_empty
    else go header_value (record req { headers = value_back req.headers c })

-- One letter of "HTTP/", which is all that state `s` takes.
abbrev expect : State → ℕ → State → Request → ℕ → Consumed
expect s wanted next req c = if c == wanted then go next req else refuse s req

consume_method_start : Request → ℕ → Consumed
consume_method_start req c =
    if not_token c then refuse method_start req else go method (push_method req c)

consume_method : Request → ℕ → Consumed
consume_method req c =
    if c == b' '
    then go uri req
    else if not_token c
    then refuse method req
    else go method (push_method req c)

consume_uri : Request → ℕ → Consumed
consume_uri req c =
    if c == b' '
    then go http_version_h req
    else if is_ctl c
    then refuse uri req
    else go uri (push_uri req c)

consume_slash : Request → ℕ → Consumed
consume_slash req c =
    if c == b'/'
    then go http_version_major_start (record req { http_version_major = 0; http_version_minor = 0 })
    else refuse http_version_slash req

push_major : Request → ℕ → Consumed
push_major req c =
    next_digit req.http_version_major c
      (λ n. go http_version_major (record req { http_version_major = n }))

push_minor : Request → ℕ → Consumed
push_minor req c =
    next_digit req.http_version_minor c
      (λ n. go http_version_minor (record req { http_version_minor = n }))

consume_major_start : Request → ℕ → Consumed
unfolding push_major
consume_major_start req c =
    if is_digit c then push_major req c else refuse http_version_major_start req

consume_major : Request → ℕ → Consumed
unfolding push_major
consume_major req c =
    if c == b'.'
    then go http_version_minor_start req
    else if is_digit c
    then push_major req c
    else refuse http_version_major req

consume_minor_start : Request → ℕ → Consumed
unfolding push_minor
consume_minor_start req c =
    if is_digit c then push_minor req c else refuse http_version_minor_start req

consume_minor : Request → ℕ → Consumed
unfolding push_minor
consume_minor req c =
    if c == b'\r'
    then go expecting_newline_1 req
    else if is_digit c
    then push_minor req c
    else refuse http_version_minor req

consume_line_start : Request → ℕ → Consumed
consume_line_start req c =
    if c == b'\r'
    then go expecting_newline_3 req
    else if not (is_empty req.headers) && (c == b' ' || c == b'\t')
    then go header_lws req
    else if not_token c
    then refuse header_line_start req
    else go header_name (new_header req c)

consume_lws : Request → ℕ → Consumed
unfolding push_value
consume_lws req c =
    if c == b'\r'
    then go expecting_newline_2 req
    else if c == b' ' || c == b'\t'
    then go header_lws req
    else if is_ctl c
    then refuse header_lws req
    else push_value req c

consume_name : Request → ℕ → Consumed
unfolding push_name
consume_name req c =
    if c == b':'
    then go space_before_header_value req
    else if not_token c
    then refuse header_name req
    else push_name req c

consume_value : Request → ℕ → Consumed
unfolding push_value
consume_value req c =
    if c == b'\r'
    then go expecting_newline_2 req
    else if is_ctl c
    then refuse header_value req
    else push_value req c

-- `consume`: the switch on `state_`.
unfoldable pub consume_in : State → Request → ℕ → Consumed
unfolding consume_method_start consume_method consume_uri consume_slash consume_major_start
    consume_major consume_minor_start consume_minor consume_line_start consume_lws consume_name
    consume_value
consume_in method_start req c = consume_method_start req c
consume_in method req c = consume_method req c
consume_in uri req c = consume_uri req c
consume_in http_version_h req c = expect http_version_h b'H' http_version_t_1 req c
consume_in http_version_t_1 req c = expect http_version_t_1 b'T' http_version_t_2 req c
consume_in http_version_t_2 req c = expect http_version_t_2 b'T' http_version_p req c
consume_in http_version_p req c = expect http_version_p b'P' http_version_slash req c
consume_in http_version_slash req c = consume_slash req c
consume_in http_version_major_start req c = consume_major_start req c
consume_in http_version_major req c = consume_major req c
consume_in http_version_minor_start req c = consume_minor_start req c
consume_in http_version_minor req c = consume_minor req c
consume_in expecting_newline_1 req c = expect expecting_newline_1 b'\n' header_line_start req c
consume_in header_line_start req c = consume_line_start req c
consume_in header_lws req c = consume_lws req c
consume_in header_name req c = consume_name req c
consume_in space_before_header_value req c =
    expect space_before_header_value b' ' header_value req c
consume_in header_value req c = consume_value req c
consume_in expecting_newline_2 req c = expect expecting_newline_2 b'\n' header_line_start req c
consume_in expecting_newline_3 req c =
    done (if c == b'\n' then good else bad) (record { state = expecting_newline_3; req = req })

abbrev pub consume : Parser → ℕ → Consumed
consume p = consume_in p.state p.req

-- `parse`: the result, what is left behind `begin`, and the parser afterwards.
pub data Parsed : Type 0 where
  stopped : ResultType → Bytes → Parser → Parsed
  faulted : Fault → Parsed

abbrev pub after : Consumed → Bytes → (Parser → Parsed) → Parsed
after (done indeterminate p) rest more = more p
after (done good p) rest more = stopped good rest p
after (done bad p) rest more = stopped bad rest p
after (undefined f) rest more = faulted f

unfoldable pub parse : Parser → Bytes → Parsed
parse p [] = stopped indeterminate [] p
parse p (c ∷ cs) = after (consume p c) cs (λ q. parse q cs)

-- The constructor, beside a request.
abbrev pub request_parser : Request → Parser
request_parser req = record { state = method_start; req = req }

-- `reset` leaves the request alone.
abbrev pub reset : Parser → Parser
reset p = record p { state = method_start }
