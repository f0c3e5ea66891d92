-- ===== src/Http/Handler/Paths.antt =====
-- The files that httpd/request_handler.cpp opens.
use bnc.Prelude.{
  [], ◌∷◌, ◌++◌, ◌≡◌, Option, some, true, false, arith, refl, Option-cases, Bool-cases, inl, inr,
  ap, All, ◌==◌, sym, append_assoc,
}
use bnc.Prelude.Bytes.{Bytes, codes, contains, starts_with}
use bnc.Http.Request.{Request}
use bnc.Http.Reply.{Reply}
use bnc.Http.Url.{url_decode}
use bnc.Http.Handler.{
  Backend, handle_request, ends_with_slash, c_str, is_bad_path, with_index, handle_file,
  handle_decoded, is_dg, handle_path, serve, file_reply,
}

contains_dots-append :
    (p s : Bytes)
    → contains (codes "..") p ≡ false
    → ends_with_slash p ≡ true
    → contains (codes "..") s ≡ false
    → contains (codes "..") (p ++ s) ≡ false
unfolding contains ends_with_slash
contains_dots-append [] s h e k = cc
contains_dots-append (c ∷ []) s h e k = ground arith
contains_dots-append (c ∷ x ∷ p) s h e k = ground (arith, contains_dots-append (x ∷ p) s)

-- An absolute path that names no parent directory.
pub record IsInside (path : Bytes) : Type 0 where
  pub absolute : starts_with (codes "/") path ≡ true
  pub no_parent : contains (codes "..") path ≡ false

starts_with_slash-append :
    (p s : Bytes) → starts_with (codes "/") p ≡ true → starts_with (codes "/") (p ++ s) ≡ true
unfolding starts_with
starts_with_slash-append [] s h = cc
starts_with_slash-append (c ∷ p) s h = h

is_bad_path-IsInside : (path : Bytes) → is_bad_path path ≡ false → IsInside path
unfolding is_bad_path starts_with
is_bad_path-IsInside [] h = cc
is_bad_path-IsInside (c ∷ p) h = record { absolute = ground arith; no_parent = ground arith }

no_dots-index : contains (codes "..") (codes "index.html") ≡ false
unfolding contains
no_dots-index = refl

with_index-IsInside : (path : Bytes) → IsInside path → IsInside (with_index path)
unfolding with_index
with_index-IsInside path v = elim (Bool-cases (ends_with_slash path)) [
  | inl e ↦ rw e (record {
    absolute = starts_with_slash-append path (codes "index.html") v.absolute;
    no_parent = contains_dots-append path (codes "index.html") v.no_parent e no_dots-index;
  })
  | inr e ↦ rw e v
]

module _ (b : Backend) (other : Bytes → Option Bytes)
    (same : (path : Bytes)
      → IsInside path
      → b.open_file (c_str (b.doc_root ++ path)) ≡ other (c_str (b.doc_root ++ path))) where
  handle_path_same :
      (path : Bytes) (rep : Reply)
      → IsInside path
      → handle_path b path rep ≡ handle_path (record b { open_file = other }) path rep
  unfolding handle_path
  handle_path_same path rep v = ap (λ o. serve o path rep) (same path v)

  handle_file_same :
      (path : Bytes) (rep : Reply)
      → handle_file b path rep ≡ handle_file (record b { open_file = other }) path rep
  unfolding handle_file
  handle_file_same path rep = elim (Bool-cases (is_bad_path path)) [
    | inl e ↦ rw e
    | inr e ↦
        rw (e, same (with_index path) (with_index-IsInside path (is_bad_path-IsInside path e)))
  ]

  handle_decoded_same :
      (s : b.State) (method path : Bytes) (rep : Reply)
      → handle_decoded b s method path rep
        ≡ handle_decoded (record b { open_file = other }) s method path rep
  unfolding handle_decoded
  handle_decoded_same s method path rep = elim (Bool-cases (is_dg path)) [
    | inl e ↦ rw e
    | inr e ↦ rw e (ap (λ r. (s, r)) (handle_file_same path rep))
  ]

  -- The answer to a request does not depend on any file but those that the document root, an
  -- absolute path without ".." and the end at a byte 0 name: with any other file system that agrees
  -- on these, the reply and the device are the same.
  pub handle_request-IsInside :
      (s : b.State) (req : Request) (rep : Reply)
      → handle_request b s req rep ≡ handle_request (record b { open_file = other }) s req rep
  unfolding handle_request
  handle_request-IsInside s req rep = elim (Option-cases (url_decode req.uri)) [
    | inl e ↦ rw (e, handle_request)
    | inr (path, e) ↦ rw (e, handle_request) (handle_decoded_same s req.method path rep)
  ]

c_str-append_zero : (p q : Bytes) → All (λ c. (c == 0) ≡ false) p → c_str (p ++ 0 ∷ q) ≡ p
unfolding c_str
c_str-append_zero [] q h = refl
c_str-append_zero (c ∷ p) q h = ground (arith, c_str-append_zero p q h.1)

-- A path with a byte 0 opens the file named by what stands before that byte, while the type of the
-- reply is chosen by the whole path.
pub handle_path_zero :
    (b : Backend) (p q file : Bytes) (rep : Reply)
    → All (λ c. (c == 0) ≡ false) (b.doc_root ++ p)
    → b.open_file (b.doc_root ++ p) ≡ some file
    → handle_path b (p ++ 0 ∷ q) rep ≡ file_reply (p ++ 0 ∷ q) file rep
unfolding handle_path
handle_path_zero b p q file rep h e =
    let name = sym (append_assoc b.doc_root p (0 ∷ q)) in
    rw (name, c_str-append_zero (b.doc_root ++ p) q h, e)
