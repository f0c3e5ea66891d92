-- ===== src/Http/Handler.antt =====
-- httpd/request_handler.cpp: from a request to a reply. The device (`dg::dgctl`) and the file system
-- stand behind the interface `Backend`.
pub mod Paths
pub mod Replies
pub mod Framed
pub mod Extension
use bnc.Prelude.{
  ℕ, zero, suc, ◌+◌, Bool, true, false, not, ◌&&◌, ◌||◌, List, [], ◌∷◌, ◌++◌, Option, none, some,
  ltb, ◌==◌, if◌then◌else◌, is_empty, length, take, drop, set,
}
use bnc.Prelude.Bytes.{Bytes, codes, equal, starts_with, contains, to_string}
use bnc.Http.Request.{Header, Request}
use bnc.Http.Reply.{Reply, ok, bad_request, not_found, stock_reply}
use bnc.Http.Url.{url_decode}
use bnc.Http.Mime.{extension_to_type}

-- `http_request` is given the method, the path and the content so far, which it may extend.
-- `is_defined` says of the state after a call whether the call's behaviour was defined. `open_file` is
-- the content of the file that std::ifstream opens for a name, or `none`.
pub record Backend : Type 1 where
  pub State : Type 0
  pub http_request : State → Bytes → Bytes → Bytes → State × Bytes
  pub is_defined : State → Bool
  pub open_file : Bytes → Option Bytes
  pub doc_root : Bytes

-- `s.find_last_of( c )`
unfoldable pub find_last : ℕ → Bytes → Option ℕ
find_last c [] = none
find_last c (x ∷ s) = elim (find_last c s) [
  | none ↦ if x == c then some 0 else none
  | some i ↦ some (suc i)
]

-- `s[ s.size() - 1 ] == '/'`
unfoldable pub ends_with_slash : Bytes → Bool
ends_with_slash [] = false
ends_with_slash (c ∷ []) = c == b'/'
ends_with_slash (c ∷ x ∷ s) = ends_with_slash (x ∷ s)

-- From `last_dot_pos` and `last_slash_pos`: what stands behind the last dot, if no slash does. No
-- slash is `npos`, which no dot is behind.
extension_at : Option ℕ → Option ℕ → Bytes → Bytes
extension_at none slash path = []
extension_at (some dot) none path = []
extension_at (some dot) (some slash) path = if ltb slash dot then drop (dot + 1) path else []

unfoldable pub extension_of : Bytes → Bytes
unfolding find_last extension_at
extension_of path = extension_at (find_last b'.' path) (find_last b'/' path) path

-- `full_path.c_str()` ends at the first byte 0.
unfoldable pub c_str : Bytes → Bytes
c_str [] = []
c_str (c ∷ s) = if c == 0 then [] else c ∷ c_str s

abbrev buf_size : ℕ
buf_size = 4096

-- `while (is.read(buf, sizeof(buf)).gcount() > 0) rep.content.append(buf, is.gcount());`
read_loop : ℕ → Bytes → Bytes → Bytes
read_loop zero rest content = content
read_loop (suc fuel) rest content =
    let got = take buf_size rest in
    let more = read_loop fuel (drop buf_size rest) (content ++ got) in
    if is_empty got then content else more

-- One round for each byte of the file and one more are enough.
unfoldable pub read_file : Bytes → Bytes → Bytes
unfolding read_loop
read_file file content = read_loop (suc (length file)) file content

-- The path of a request for a file: absolute, and with no "..".
unfoldable pub is_bad_path : Bytes → Bool
unfolding contains
is_bad_path [] = true
is_bad_path (c ∷ s) = not (c == b'/') || contains (codes "..") (c ∷ s)

unfoldable pub with_index : Bytes → Bytes
unfolding ends_with_slash
with_index path = if ends_with_slash path then path ++ codes "index.html" else path

abbrev pub header : Bytes → Bytes → Header
header n v = record { name = n; value = v }

abbrev pub file_reply : Bytes → Bytes → Reply → Reply
file_reply path file rep =
    let content = read_file file rep.content in
    record {
      status = ok;
      headers =
          header (codes "Content-Length") (to_string (length content))
          ∷ header (codes "Content-Type") (extension_to_type (extension_of path))
          ∷ [];
      content = content;
    }

-- What follows on opening the file.
unfoldable pub serve : Option Bytes → Bytes → Reply → Reply
serve none path rep = stock_reply not_found
serve (some file) path rep = file_reply path file rep

abbrev pub dg_headers : Bytes → Bytes → List Header → List Header
dg_headers path content hs =
    let both =
      hs
      ++ (header (codes "Content-Length") (to_string (length content))
          ∷ header (codes "Content-Type") (codes "text/xml")
          ∷ []) in
    if equal path (codes "/dg/ctl?events")
    then set both 1 (header (codes "Content-Type") (codes "text/event-stream"))
      ++ (header (codes "Cache-Control") (codes "no-cache")
          ∷ header (codes "connection") (codes "keep-alive")
          ∷ [])
    else both

-- `request_path.compare( 0, 8, "/dg/ctl?", 8 ) == 0`
abbrev pub is_dg : Bytes → Bool
is_dg path = starts_with (codes "/dg/ctl?") path

module _ (b : Backend) where
  open b use {State, http_request, open_file, doc_root}

  unfoldable pub handle_dg : State → Bytes → Bytes → Reply → State × Reply
  handle_dg s method path rep =
      let (t, content) = http_request s method path rep.content in
      (t, record { status = ok; headers = dg_headers path content rep.headers; content = content })

  pub handle_path : Bytes → Reply → Reply
  unfolding serve
  handle_path path rep = serve (open_file (c_str (doc_root ++ path))) path rep

  pub handle_file : Bytes → Reply → Reply
  unfolding is_bad_path with_index handle_path
  handle_file path rep =
      if is_bad_path path then stock_reply bad_request else handle_path (with_index path) rep

  unfoldable pub handle_decoded : State → Bytes → Bytes → Reply → State × Reply
  unfolding handle_dg handle_file
  handle_decoded s method path rep =
      if is_dg path then handle_dg s method path rep else (s, handle_file path rep)

  unfoldable pub handle_request : State → Request → Reply → State × Reply
  unfolding handle_decoded
  handle_request s req rep = elim (url_decode req.uri) [
    | none ↦ (s, stock_reply bad_request)
    | some path ↦ handle_decoded s req.method path rep
  ]
