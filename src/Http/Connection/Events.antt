-- ===== src/Http/Connection/Events.antt =====
-- Server-sent events: which requests are answered with a stream of them.
use bnc.Prelude.{
  List, [], ◌∷◌, ◌≡◌, refl, Bool, true, false, Option, none, some, ap, All, Bool-cases, inl, inr,
  Option-cases,
}
use bnc.Prelude.Bytes.{starts_with, Bytes, codes, equal, equal_iff}
use bnc.Http.Request.{Request}
use bnc.Http.Url.{url_decode}
use bnc.Http.Mime.{mappings, find_mapping, extension_to_type}
use bnc.Http.Reply.{Status, Reply, not_found, bad_request, stock_reply}
use bnc.Http.Handler.{
  Backend, dg_headers, file_reply, serve, is_dg, is_bad_path, with_index, handle_decoded,
  handle_request, extension_of,
}
use bnc.Http.Handler.Framed.{fresh_reply}
use bnc.Http.Connection.{is_event_stream}

-- The path of the stream of events.
abbrev pub is_events : Option Bytes → Bool
is_events none = false
is_events (some path) = equal path (codes "/dg/ctl?events")

find_mapping-no_events :
    (ms : List (Bytes × Bytes)) (e : Bytes)
    → All (λ m. equal m.1 (codes "text/event-stream") ≡ false) ms
    → equal (find_mapping ms e) (codes "text/event-stream") ≡ false
unfolding find_mapping equal
find_mapping-no_events [] e h = refl
find_mapping-no_events ((x, t) ∷ ms) e h = elim (Bool-cases (equal x e)) [
  | inl y ↦ rw y h.0
  | inr y ↦ rw y (find_mapping-no_events ms e h.1)
]

file_reply-no_events :
    (path file : Bytes) (rep : Reply) → is_event_stream (file_reply path file rep).headers ≡ false
unfolding is_event_stream extension_to_type equal
file_reply-no_events path file rep =
    rw
      (find_mapping-no_events mappings (extension_of path)
        (refl, (refl, (refl, (refl, (refl, (refl, (refl, tt))))))))
      refl

stock_reply-no_events : (st : Status) → is_event_stream (stock_reply st).headers ≡ false
unfolding is_event_stream stock_reply equal
stock_reply-no_events st = refl

dg_headers-events :
    (path content : Bytes)
    → is_event_stream (dg_headers path content []) ≡ equal path (codes "/dg/ctl?events")
unfolding is_event_stream equal
dg_headers-events path content = elim (Bool-cases (equal path (codes "/dg/ctl?events"))) [
  | inl e ↦ rw e refl
  | inr e ↦ rw e refl
]

no_dg : (path : Bytes) → is_dg path ≡ false → equal path (codes "/dg/ctl?events") ≡ false
unfolding starts_with
no_dg path h = elim (Bool-cases (equal path (codes "/dg/ctl?events"))) [
  | inl e ↦
      let same : is_dg path ≡ true = ap is_dg ((equal_iff path (codes "/dg/ctl?events")).0 e) in cc
  | inr e ↦ e
]

module _ (b : Backend) (st : Status) where
  serve-no_events :
      (o : Option Bytes) (path : Bytes)
      → is_event_stream (serve o path (fresh_reply st)).headers ≡ false
  unfolding serve
  serve-no_events none path = stock_reply-no_events not_found
  serve-no_events (some file) path = file_reply-no_events path file (fresh_reply st)

  handle_decoded-events :
      (s : b.State) (method path : Bytes)
      → is_event_stream (handle_decoded b s method path (fresh_reply st)).1.headers
        ≡ equal path (codes "/dg/ctl?events")
  unfolding handle_decoded
  handle_decoded-events s method path = elim (Bool-cases (is_dg path)) [
    | inl e ↦ rw e (dg_headers-events path _)
    | inr e ↦ elim (Bool-cases (is_bad_path path)) [
      | inl k ↦ rw (e, k, no_dg path e) (stock_reply-no_events bad_request)
      | inr k ↦ rw (e, k, no_dg path e) (serve-no_events _ (with_index path))
    ]
  ]

  -- On a new connection the reply is taken for a stream of events exactly when the decoded path is
  -- "/dg/ctl?events": never for a file, whatever its name, nor for an error or another command.
  pub is_event_stream-handle_request :
      (s : b.State) (req : Request)
      → is_event_stream (handle_request b s req (fresh_reply st)).1.headers
        ≡ is_events (url_decode req.uri)
  unfolding handle_request
  is_event_stream-handle_request s req = elim (Option-cases (url_decode req.uri)) [
    | inl e ↦ rw (e, handle_request) (stock_reply-no_events bad_request)
    | inr (path, e) ↦ rw (e, handle_request) (handle_decoded-events s req.method path)
  ]
