-- ===== src/Http/Handler/Framed.antt =====
-- The framing of the replies of httpd/request_handler.cpp.
use bnc.Prelude.{
  ℕ, List, [], ◌∷◌, ◌≡◌, refl, arith, Option, none, some, true, false, length, All, ◌<◌, Bool-cases,
  ◌&&◌, inl, inr, Option-cases,
}
use bnc.Prelude.Bytes.{
  Bytes, codes, to_string, IsDigits, to_string-IsDigits, lacks-Lacks, lacks, Lacks,
}
use bnc.Http.Request.{Header, Request}
use bnc.Http.Reply.{Reply, Status, stock_reply, status_code, to_buffers, flatten}
use bnc.Http.Reply.Framing.{IsClean, read_reply, read_reply-to_buffers}
use bnc.Http.Url.{url_decode}
use bnc.Http.Mime.{extension_to_type, find_mapping, mappings}
use bnc.Http.Handler.{
  Backend, handle_request, header, is_empty, file_reply, equal, dg_headers, serve, handle_decoded,
  not_found, is_dg, bad_request, ok, is_bad_path, with_index,
}

-- The reply of a new connection, whose status is whatever the memory held.
abbrev pub fresh_reply : Status → Reply
fresh_reply st = record { status = st; headers = []; content = [] }

-- The first header states the length of the content, and all can be read back.
pub record IsFramed (r : Reply) : Type 0 where
  pub more : List Header
  pub first : r.headers ≡ header (codes "Content-Length") (to_string (length r.content)) ∷ more
  pub clean : All IsClean r.headers
  pub few : length r.headers < 5

IsDigits-Lacks : (s : Bytes) → IsDigits s → Lacks b'\r' s
IsDigits-Lacks [] d = tt
IsDigits-Lacks (c ∷ s) d = (ground arith, IsDigits-Lacks s d.2)

literal-IsClean :
    (n v : Bytes)
    → is_empty n ≡ false
    → (lacks b':' n && lacks b'\r' n) ≡ true
    → Lacks b'\r' v
    → IsClean (header n v)
literal-IsClean n v e l h = record {
  name_some = e;
  name_colon = lacks-Lacks b':' n (ground arith);
  name_line = lacks-Lacks b'\r' n (ground arith);
  value_line = h;
}

fixed-IsClean :
    (n v : Bytes)
    → is_empty n ≡ false
    → (lacks b':' n && lacks b'\r' n) ≡ true
    → lacks b'\r' v ≡ true
    → IsClean (header n v)
fixed-IsClean n v e l h = literal-IsClean n v e l (lacks-Lacks b'\r' v h)

length-IsClean : (n : ℕ) → IsClean (header (codes "Content-Length") (to_string n))
length-IsClean n =
    literal-IsClean _ _ refl refl (IsDigits-Lacks (to_string n) (to_string-IsDigits n))

type-IsClean : (v : Bytes) → Lacks b'\r' v → IsClean (header (codes "Content-Type") v)
type-IsClean v h = literal-IsClean _ _ refl refl h

find_mapping-Lacks :
    (ms : List (Bytes × Bytes)) (e : Bytes)
    → All (λ m. lacks b'\r' m.1 ≡ true) ms
    → Lacks b'\r' (find_mapping ms e)
unfolding find_mapping
find_mapping-Lacks [] e h = lacks-Lacks b'\r' (codes "text/plain") refl
find_mapping-Lacks ((x, t) ∷ ms) e h = elim (Bool-cases (equal x e)) [
  | inl y ↦ rw y (lacks-Lacks b'\r' t h.0)
  | inr y ↦ rw y (find_mapping-Lacks ms e h.1)
]

extension_to_type-Lacks : (e : Bytes) → Lacks b'\r' (extension_to_type e)
unfolding extension_to_type
extension_to_type-Lacks e =
    find_mapping-Lacks mappings e (refl, (refl, (refl, (refl, (refl, (refl, (refl, tt)))))))

pub stock_reply-IsFramed : (st : Status) → IsFramed (stock_reply st)
unfolding stock_reply
stock_reply-IsFramed st = record {
  more = _;
  first = refl;
  clean = (length-IsClean _, (fixed-IsClean _ _ refl refl refl, tt));
  few = omega arith;
}

file_reply-IsFramed : (path file : Bytes) (rep : Reply) → IsFramed (file_reply path file rep)
file_reply-IsFramed path file rep = record {
  more = _;
  first = refl;
  clean = (length-IsClean _, (type-IsClean _ (extension_to_type-Lacks _), tt));
  few = omega arith;
}

dg_headers-IsFramed :
    (path content : Bytes) (st : Status)
    → IsFramed (record { status = st; headers = dg_headers path content []; content = content })
dg_headers-IsFramed path content st = elim (Bool-cases (equal path (codes "/dg/ctl?events"))) [
  | inl e ↦ rw e (record {
    more = _;
    first = refl;
    clean = (
      length-IsClean _,
      (
        fixed-IsClean _ _ refl refl refl,
        (fixed-IsClean _ _ refl refl refl, (fixed-IsClean _ _ refl refl refl, tt)),
      ),
    );
    few = omega arith;
  })
  | inr e ↦ rw e (record {
    more = _;
    first = refl;
    clean = (length-IsClean _, (fixed-IsClean _ _ refl refl refl, tt));
    few = omega arith;
  })
]

module _ (b : Backend) (st : Status) where
  serve-IsFramed : (o : Option Bytes) (path : Bytes) → IsFramed (serve o path (fresh_reply st))
  unfolding serve
  serve-IsFramed none path = stock_reply-IsFramed not_found
  serve-IsFramed (some file) path = file_reply-IsFramed path file (fresh_reply st)

  handle_decoded-IsFramed :
      (s : b.State) (method path : Bytes)
      → IsFramed (handle_decoded b s method path (fresh_reply st)).1
  unfolding handle_decoded
  handle_decoded-IsFramed s method path = elim (Bool-cases (is_dg path)) [
    | inl e ↦ rw e (dg_headers-IsFramed path _ ok)
    | inr e ↦ elim (Bool-cases (is_bad_path path)) [
      | inl k ↦ rw (e, k) (stock_reply-IsFramed bad_request)
      | inr k ↦ rw (e, k) (serve-IsFramed _ (with_index path))
    ]
  ]

  pub handle_request-IsFramed :
      (s : b.State) (req : Request) → IsFramed (handle_request b s req (fresh_reply st)).1
  unfolding handle_request
  handle_request-IsFramed s req = elim (Option-cases (url_decode req.uri)) [
    | inl e ↦ rw (e, handle_request) (stock_reply-IsFramed bad_request)
    | inr (path, e) ↦ rw (e, handle_request) (handle_decoded-IsFramed s req.method path)
  ]

  -- Whatever the request, the device and the files, the bytes sent for the reply to it are read back
  -- by a client as the reply's status, all of its headers in order and its content, and the first of
  -- those headers is the length of that content in decimal digits.
  pub read_reply-handle_request :
      (s : b.State) (req : Request)
      → let rep = (handle_request b s req (fresh_reply st)).1 in
        (read_reply 5 (flatten (to_buffers rep))
          ≡ some (status_code rep.status, rep.headers, rep.content))
        × ((more : List Header) × (rep.headers
              ≡ header (codes "Content-Length") (to_string (length rep.content)) ∷ more))
  read_reply-handle_request s req =
      let rep = (handle_request b s req (fresh_reply st)).1 in
      let v = handle_request-IsFramed s req in
      (read_reply-to_buffers rep 5 v.clean v.few, (v.more, v.first))
