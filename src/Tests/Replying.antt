-- ===== src/Tests/Replying.antt =====
-- Replies: httpd/reply.cpp, httpd/request_handler.cpp and httpd/connection.cpp on a small site.
use bnc.Prelude.{
  ℕ, suc, false, List, [], ◌∷◌, ◌++◌, ◌≡◌, refl, All, Option, some, none, length, if◌then◌else◌,
  ◌==◌, true,
}
use bnc.Prelude.Bytes.{Bytes, codes, equal, to_string}
use bnc.Http.Request.{Header, Request, fresh_request}
use bnc.Http.Url.{url_decode}
use bnc.Http.Reply.{Reply, ok, status_code, to_buffers, flatten}
use bnc.Http.Reply.Framing.{IsClean, read_reply}
use bnc.Http.Handler.{Backend, handle_request, handle_path, file_reply, header, c_str}
use bnc.Http.Handler.Paths.{IsInside, handle_request-IsInside, handle_path_zero}
use bnc.Http.Handler.Framed.{fresh_reply, read_reply-handle_request}
use bnc.Http.Connection.{is_event_stream, on_read, new_connection}
use bnc.Http.Connection.Events.{is_events, is_event_stream-handle_request}
use bnc.Http.Connection.Reads.{on_reads, on_reads-flatten}

abbrev page : Bytes
page = codes "hi"

abbrev files : Bytes → Option Bytes
files name = if equal name (codes "/srv/a") then some page else none

abbrev site : Backend
site = record {
  State = ℕ;
  http_request = λ s method path content. (suc s, content ++ codes "SSE");
  is_defined = λ s. true;
  open_file = files;
  doc_root = codes "/srv";
}

abbrev get : Bytes → Request
get uri = record fresh_request { method = codes "GET"; uri = uri }

abbrev one_header : Reply
one_header = record { status = ok; headers = header (codes "A") (codes "b") ∷ []; content = page }

one_header-IsClean : All IsClean one_header.headers
one_header-IsClean = (
  record {
    name_some = refl;
    name_colon = (refl, tt);
    name_line = (refl, tt);
    value_line = (refl, tt);
  },
  tt,
)

read_reply-handle_request_example :
    let rep = (handle_request site 0 (get (codes "/a")) (fresh_reply ok)).1 in
    (read_reply 5 (flatten (to_buffers rep))
      ≡ some (status_code rep.status, rep.headers, rep.content))
    × ((more : List Header) × (rep.headers
          ≡ header (codes "Content-Length") (to_string (length rep.content)) ∷ more))
read_reply-handle_request_example = read_reply-handle_request site ok 0 (get (codes "/a"))

-- A file system with one more file, which stands outside the root.
abbrev more_files : Bytes → Option Bytes
more_files name = if equal name (codes "/etc") then some (codes "secret") else files name

outside_root :
    (path : Bytes)
    → IsInside path
    → files (c_str (codes "/srv" ++ path)) ≡ more_files (c_str (codes "/srv" ++ path))
unfolding c_str equal
outside_root path v = refl

handle_request-IsInside_example :
    handle_request site 0 (get (codes "/../etc")) (fresh_reply ok)
    ≡ handle_request
        (record site { open_file = more_files })
        0
        (get (codes "/../etc"))
        (fresh_reply ok)
handle_request-IsInside_example =
    handle_request-IsInside site more_files outside_root 0 (get (codes "/../etc")) (fresh_reply ok)

root_a : All (λ c. (c == 0) ≡ false) (codes "/srv/a")
root_a = (refl, (refl, (refl, (refl, (refl, (refl, tt))))))

page_there : files (codes "/srv/a") ≡ some page
unfolding equal
page_there = refl

handle_path_zero_example :
    handle_path site (codes "/a" ++ 0 ∷ codes ".html") (fresh_reply ok)
    ≡ file_reply (codes "/a" ++ 0 ∷ codes ".html") page (fresh_reply ok)
handle_path_zero_example =
    handle_path_zero site (codes "/a") (codes ".html") page (fresh_reply ok) root_a page_there

is_event_stream-handle_request_example :
    is_event_stream
      (handle_request site 0 (get (codes "/dg/ctl?events")) (fresh_reply ok)).1.headers
    ≡ is_events (url_decode (codes "/dg/ctl?events"))
is_event_stream-handle_request_example =
    is_event_stream-handle_request site ok 0 (get (codes "/dg/ctl?events"))

abbrev pieces : List Bytes
pieces = codes "GET /a HT" ∷ codes "TP/1.1\r\n\r" ∷ codes "\n" ∷ []

on_reads-flatten_example :
    on_reads site 0 (new_connection ok) pieces ≡ on_read site 0 (new_connection ok) (flatten pieces)
on_reads-flatten_example = on_reads-flatten site pieces 0 (new_connection ok)
