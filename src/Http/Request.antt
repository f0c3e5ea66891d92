-- ===== src/Http/Request.antt =====
-- httpd/header.hpp and httpd/request.hpp.
use bnc.Prelude.{ℕ, List, []}
use bnc.Prelude.Bytes.{Bytes}

pub record Header : Type 0 where
  pub name : Bytes
  pub value : Bytes

-- The two version numbers are of type int.
pub record Request : Type 0 where
  pub method : Bytes
  pub uri : Bytes
  pub http_version_major : ℕ
  pub http_version_minor : ℕ
  pub headers : List Header

-- `request_` of a new connection. The constructor leaves the two numbers undefined; the parser
-- sets both before it reads them.
abbrev pub fresh_request : Request
fresh_request = record {
  method = [];
  uri = [];
  http_version_major = 0;
  http_version_minor = 0;
  headers = [];
}
